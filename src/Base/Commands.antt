-- ===== src/Base/Commands.antt =====
-- Commands on a machine's state `S`: code that may stop at a failed assertion, and whose polling
-- loops may wait longer than the rounds that they are given.
use mathlib.Core.Bool.{Bool, true, false}
use mathlib.Core.Option.{Option, none, some}
use sprocket.Base.Tests.{if◌then◌else◌}
use mathlib.Core.Path.{◌≡◌, refl, ap, subst}

pub data Run (S A : Type 0) : Type 0 where
  done : A → S → Run S A
  panic : Run S A
  spin : Run S A

abbrev pub Cmd : Type 0 → Type 0 → Type 0
Cmd S A = S → Run S A

module _ {S : Type 0} where
  abbrev pub pure : {A : Type 0} → A → Cmd S A
  pure a s = done a s

  infixl 5 ◌>>=◌ ◌>>◌
  abbrev pub ◌>>=◌ : {A B : Type 0} → Cmd S A → (A → Cmd S B) → Cmd S B
  ◌>>=◌ m f s = elim (m s) [ done a s' ↦ f a s' | panic ↦ panic | spin ↦ spin ]

  abbrev pub ◌>>◌ : {A B : Type 0} → Cmd S A → Cmd S B → Cmd S B
  m >> k = m >>= λ _. k

  -- `assert!`
  abbrev pub assert : Bool → Cmd S (Unit {0})
  assert true s = done tt s
  assert false s = panic

-- To run a sequence step by step.
module _ {S A B : Type 0} where
  pub bind_done :
      (m : Cmd S A) (k : A → Cmd S B) {s s' : S} {a : A} {r : Run S B}
      → m s ≡ done a s'
      → k a s' ≡ r
      → (m >>= k) s ≡ r
  bind_done m k e e' = rw (e, ◌>>=◌) e'

module _ {S A B : Type 0} where
  pub then_done :
      (m : Cmd S A) (k : Cmd S B) {s s' : S} {a : A} {r : Run S B}
      → m s ≡ done a s'
      → k s' ≡ r
      → (m >> k) s ≡ r
  then_done m k e e' = bind_done m (λ _. k) e e'

-- A command that ends, on every state, with a value that has the property `P`.
module _ {S : Type 0} where
  abbrev pub Ensures : {A : Type 0} → (P : A → Type 0) → Cmd S A → Type 0
  Ensures {A = A} P c = (s : S) → (a : A) × (s' : S) × (c s ≡ done a s') × P a

  pub pure-Ensures : {A : Type 0} {P : A → Type 0} (a : A) → P a → Ensures P (pure a)
  pure-Ensures a h s = (a, s, refl, h)

  pub bind-Ensures :
      {A B : Type 0} {P : A → Type 0} {Q : B → Type 0} (m : Cmd S A) (k : A → Cmd S B)
      → Ensures P m
      → ((a : A) → P a → Ensures Q (k a))
      → Ensures Q (m >>= k)
  bind-Ensures m k first rest s =
      let (a, s', run, h) = first s in
      let (b, s'', run', h') = rest a h s' in (b, s'', bind_done m k run run', h')

  -- The commands in front of the last one may end with any value.
  abbrev pub Ends : {A : Type 0} → Cmd S A → Type 0
  Ends {A = A} c = Ensures (λ (a : A). Unit) c

  pub then-Ensures :
      {A B : Type 0} {Q : B → Type 0} (m : Cmd S A) (k : Cmd S B)
      → Ends m
      → Ensures Q k
      → Ensures Q (m >> k)
  then-Ensures m k first rest = bind-Ensures m (λ _. k) first (λ _ _. rest)

  pub if-Ensures :
      {A : Type 0} {P : A → Type 0} (b : Bool) {m k : Cmd S A}
      → Ensures P m
      → Ensures P k
      → Ensures P (if b then m else k)
  if-Ensures true h h' = h
  if-Ensures false h h' = h'

module _ {S : Type 0} where
  pub option-Ensures :
      {A B : Type 0} {Q : B → Type 0} (o : Option A) (m : Cmd S B) (k : A → Cmd S B)
      → Ensures Q m
      → ((a : A) → Ensures Q (k a))
      → Ensures Q (elim o [ none ↦ m | some a ↦ k a ])
  option-Ensures none m k h rest = h
  option-Ensures (some a) m k h rest = rest a

-- Every value with which a command may end has the property `Q`; it need not end.
module _ {S : Type 0} where
  abbrev pub Results : {A : Type 0} → (Q : A → Type 0) → Cmd S A → Type 0
  Results {A = A} Q c = (s : S) (a : A) (s' : S) → c s ≡ done a s' → Q a

  abbrev value : {A : Type 0} → A → Run S A → A
  value d (done a s) = a
  value d panic = d
  value d spin = d

  pub pure-Results : {A : Type 0} (Q : A → Type 0) (a : A) → Q a → Results Q (pure a)
  pure-Results Q a h s b s' e = subst Q (ap (value a) e) h

  pub bind-Results :
      {A B : Type 0} {P : A → Type 0} {Q : B → Type 0} (m : Cmd S A) (k : A → Cmd S B)
      → Results P m
      → ((a : A) → P a → Results Q (k a))
      → Results Q (m >>= k)
  bind-Results {A = A} {B = B} {P = P} {Q = Q} m k first rest s b s' = go (m s) (first s)
    where
      go :
          (r : Run S A)
          → ((a : A) (t : S) → r ≡ done a t → P a)
          → (elim r [ done a t ↦ k a t | panic ↦ panic | spin ↦ spin ]) ≡ done b s'
          → Q b
      go (done a t) h e = rest a (h a t refl) t b s' e
      go panic h e = cc e
      go spin h e = cc e

  -- where nothing needs to be known of the value of the first command
  pub after-Results :
      {A B : Type 0} {Q : B → Type 0} (m : Cmd S A) (k : A → Cmd S B)
      → ((a : A) → Results Q (k a))
      → Results Q (m >>= k)
  after-Results {A = A} m k rest =
      bind-Results {P = λ (a : A). Unit} m k (λ _ _ _ _. tt) (λ a _. rest a)

  pub then-Results :
      {A B : Type 0} {Q : B → Type 0} (m : Cmd S A) (k : Cmd S B) → Results Q k → Results Q (m >> k)
  then-Results m k rest = after-Results m (λ _. k) (λ _. rest)

  pub option-Results :
      {A B : Type 0} {Q : B → Type 0} (o : Option A) (m : Cmd S B) (k : A → Cmd S B)
      → Results Q m
      → ((a : A) → Results Q (k a))
      → Results Q (elim o [ none ↦ m | some a ↦ k a ])
  option-Results none m k h rest = h
  option-Results (some a) m k h rest = rest a

  pub if-Results :
      {A : Type 0} {Q : A → Type 0} (b : Bool) {m k : Cmd S A}
      → (b ≡ true → Results Q m)
      → Results Q k
      → Results Q (if b then m else k)
  if-Results true h h' = h refl
  if-Results false h h' = h'

  pub spin-Results : {A : Type 0} (Q : A → Type 0) → Results Q (λ _. spin)
  spin-Results Q s a s' e = cc e

  pub panic-Results : {A : Type 0} (Q : A → Type 0) → Results Q (λ _. panic)
  panic-Results Q s a s' e = cc e
