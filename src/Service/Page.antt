-- ===== src/Service/Page.antt =====
-- src/service/mod.rs: the page that is sent, with the version and the time in it.
use sprocket.Base.{
  ℕ, suc, ◌-◌, ◌≡◌, refl, ap, ◌∙◌, Bool, true, false, ◌||◌, List, [], ◌∷◌, ◌++◌, length, ◌==◌,
  arith,
}
use sprocket.Logger.{codes}
use sprocket.Service.{header, version, time_text, response, http_page}
use sprocket.Service.Text.{starts_with, replace_from, replace}

abbrev pub has_dollar : List ℕ → Bool
has_dollar [] = false
has_dollar (c ∷ cs) = (c == b'$') || has_dollar cs

has_dollar-append :
    (xs ys : List ℕ) → has_dollar xs ≡ false → has_dollar ys ≡ false → has_dollar (xs ++ ys) ≡ false
has_dollar-append [] ys h h' = h'
has_dollar-append (x ∷ xs) ys h h' = ground (arith, has_dollar-append xs ys (ground arith) h')

starts_with-append : (ps rest : List ℕ) → starts_with ps (ps ++ rest) ≡ true
unfolding starts_with
starts_with-append [] rest = refl
starts_with-append (p ∷ ps) rest = ground (arith, starts_with-append ps rest)

-- Replacing a text that begins with a dollar sign.
module _ (ps to : List ℕ) where
  replace_from-plain :
      (xs rest : List ℕ)
      → has_dollar xs ≡ false
      → replace_from (b'$' ∷ ps) to 0 (xs ++ rest) ≡ xs ++ replace_from (b'$' ∷ ps) to 0 rest
  unfolding replace_from starts_with
  replace_from-plain [] rest h = refl
  replace_from-plain (x ∷ xs) rest h =
      let other : (b'$' == x) ≡ false = ground arith in
      rw other (ap (λ l. x ∷ l) (replace_from-plain xs rest (ground arith)))

  replace_from-skip :
      (xs rest : List ℕ)
      → replace_from (b'$' ∷ ps) to (length xs) (xs ++ rest) ≡ replace_from (b'$' ∷ ps) to 0 rest
  unfolding replace_from
  replace_from-skip [] rest = refl
  replace_from-skip (x ∷ xs) rest = replace_from-skip xs rest

  replace_from-found :
      (rest : List ℕ)
      → replace_from (b'$' ∷ ps) to 0 (b'$' ∷ ps ++ rest) ≡ to ++ replace_from (b'$' ∷ ps) to 0 rest
  unfolding replace_from starts_with
  replace_from-found rest =
      let behind : suc (length ps) - 1 ≡ length ps = omega arith in
      rw (starts_with-append ps rest, behind) (ap (λ l. to ++ l) (replace_from-skip ps rest))

  replace_from-none : (xs : List ℕ) → has_dollar xs ≡ false → replace_from (b'$' ∷ ps) to 0 xs ≡ xs
  unfolding replace_from starts_with
  replace_from-none [] h = refl
  replace_from-none (x ∷ xs) h =
      let other : (b'$' == x) ≡ false = ground arith in
      rw other (ap (λ l. x ∷ l) (replace_from-none xs (ground arith)))

abbrev version_tail : List ℕ
version_tail = codes "{{VERSION}}"

abbrev time_tail : List ℕ
time_tail = codes "{{TIME}}"

-- A page with a place for the version and one for the time.
abbrev pub template : (before between after : List ℕ) → List ℕ
template before between after =
    before ++ (codes "${{VERSION}}" ++ (between ++ (codes "${{TIME}}" ++ after)))

module _ (before between after : List ℕ) (plain : has_dollar before ≡ false)
    (plain' : has_dollar between ≡ false) (plain'' : has_dollar after ≡ false) where
  replace-version :
      replace (codes "${{VERSION}}") version (template before between after)
      ≡ before ++ (version ++ (between ++ (codes "${{TIME}}" ++ after)))
  unfolding replace
  replace-version =
      replace_from-plain version_tail version before _ plain
      ∙ ap (λ l. before ++ l)
          (replace_from-found version_tail version (between ++ (codes "${{TIME}}" ++ after))
            ∙ ap (λ l. version ++ l)
                (replace_from-plain version_tail version between _ plain'
                  ∙ ap (λ l. between ++ l)
                      (ap (λ l. codes "${{TIME}}" ++ l)
                        (replace_from-none version_tail version after plain''))))

  replace-time :
      (time : List ℕ)
      → replace
          (codes "${{TIME}}")
          time
          (header ++ (before ++ (version ++ (between ++ (codes "${{TIME}}" ++ after)))))
        ≡ header ++ (before ++ (version ++ (between ++ (time ++ after))))
  unfolding replace
  replace-time time =
      let rest3 = codes "${{TIME}}" ++ after in
      let rest2 = between ++ rest3 in
      let rest1 = version ++ rest2 in
      replace_from-plain time_tail time header (before ++ rest1) refl
      ∙ ap (λ l. header ++ l)
          (replace_from-plain time_tail time before rest1 plain
            ∙ ap (λ l. before ++ l)
                (replace_from-plain time_tail time version rest2 refl
                  ∙ ap (λ l. version ++ l)
                      (replace_from-plain time_tail time between rest3 plain'
                        ∙ ap (λ l. between ++ l)
                            (replace_from-found time_tail time after
                              ∙ ap (λ l. time ++ l)
                                  (replace_from-none time_tail time after plain'')))))

  -- For a page with a place for the version and then one for the time, and no other dollar sign, the
  -- answer is the header of the protocol and the page, with the version of the crate and the time
  -- since the start in these places.
  pub response-http_page :
      (ticks : ℕ)
      → response (http_page (template before between after)) ticks
        ≡ header ++ (before ++ (version ++ (between ++ (time_text ticks ++ after))))
  unfolding response http_page
  response-http_page ticks =
      ap (λ body. replace (codes "${{TIME}}") (time_text ticks) (header ++ body)) replace-version
      ∙ replace-time (time_text ticks)
