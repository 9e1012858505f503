-- ===== src/Traps/Traces.antt =====
-- src/traps.rs: any number of traps, one after the other, on devices that do what they want in
-- between.
use sprocket.Base.{
  ℕ, zero, suc, ◌+◌, ◌^◌, ◌≤◌, ◌≡◌, refl, ap, ◌∙◌, arith, Option, none, some, List, [], ◌∷◌, ◌&&◌,
  ltb, bit_or, panic, pure, ◌>>=◌, done, Results, pure-Results, bind-Results, after-Results,
  option-Results, then-Results, if-Results, spin-Results, panic-Results,
}
use sprocket.Port.{Io}
use sprocket.Irq.{Interrupt}
use sprocket.Console
use sprocket.Rtl8139.{Rtl8139, tsd, get_isr, clear_isr, reclaim, interrupt}
use sprocket.Rtl8139.Registers.{num_tx_buffers}
use sprocket.Rtl8139.Registers.{contains, own, tok}
use sprocket.Traps.Dispatch.{Statics, utf8, trap}

-- A run of traps, each with the state of the machine that it finds.
pub data Traps {S : Type 0} (io : Io S) : Statics → List (Interrupt × S) → Statics → Type 0 where
  idle : {k : Statics} → Traps io k [] k
  next :
      {k k' k'' : Statics} {t : Interrupt} {s : S} {ts : List (Interrupt × S)} (s' : S)
      → trap io k t s ≡ done k' s'
      → Traps io k' ts k''
      → Traps io k ((t, s) ∷ ts) k''

-- A run that stops at an interrupt of the timer, whose tick does not fit the count any more.
pub data Stops {S : Type 0} (io : Io S) : Statics → List (Interrupt × S) → Type 0 where
  overflow :
      {k : Statics} {t : Interrupt} {s : S} {ts : List (Interrupt × S)}
      → k.ticks + 1 ≡ 2 ^ 32
      → trap io k t s ≡ panic
      → Stops io k ((t, s) ∷ ts)
  later :
      {k k' : Statics} {t : Interrupt} {s : S} {ts : List (Interrupt × S)} (s' : S)
      → trap io k t s ≡ done k' s'
      → Stops io k' ts
      → Stops io k ((t, s) ∷ ts)

-- how many of them are interrupts of the timer
abbrev pub is_timer : Interrupt → ℕ
is_timer Interrupt.timer_int = 1
is_timer _ = 0

abbrev pub timer_count : {S : Type 0} → List (Interrupt × S) → ℕ
timer_count [] = 0
timer_count ((t, s) ∷ ts) = is_timer t + timer_count ts

abbrev pub is_fault : Interrupt → ℕ
is_fault Interrupt.page_fault = 1
is_fault _ = 0

abbrev pub fault_count : {S : Type 0} → List (Interrupt × S) → ℕ
fault_count [] = 0
fault_count ((t, s) ∷ ts) = is_fault t + fault_count ts

-- From `r` to `r'` only the count of free buffers changes; it does not fall, and stays in bounds.
pub record Reclaims (r r' : Rtl8139) : Type 0 where
  pub same : r' ≡ record r { free_tx_buffers = r'.free_tx_buffers }
  pub grows : r.free_tx_buffers ≤ r'.free_tx_buffers
  pub bounded : r.free_tx_buffers ≤ 4 → r'.free_tx_buffers ≤ 4

Reclaims-refl : (r : Rtl8139) → Reclaims r r
Reclaims-refl r = record { same = refl; grows = omega arith; bounded = λ h. h }

module _ {S : Type 0} (io : Io S) where
  reclaim-Results : (n : ℕ) (r : Rtl8139) → Results (Reclaims r) (reclaim io n r)
  unfolding reclaim
  reclaim-Results zero r = spin-Results (Reclaims r)
  reclaim-Results (suc n) r = after-Results (tsd io r r.tx_offset) _ (λ desc.
      if-Results (contains desc (bit_or tok own) && ltb r.free_tx_buffers num_tx_buffers)
        (λ go s r' s' e.
          let i =
            reclaim-Results n (record r { free_tx_buffers = r.free_tx_buffers + 1 }) s r' s' e in
          record {
            same = i.same;
            grows = omega (arith, i.grows);
            bounded = λ h. i.bounded (ground arith);
          })
        (pure-Results (Reclaims r) r (Reclaims-refl r)))

  interrupt-Results : (r : Rtl8139) → Results (Reclaims r) (interrupt io r)
  unfolding interrupt
  interrupt-Results r =
      after-Results (get_isr io r) _
        (λ isr. then-Results (clear_isr io r) (reclaim io 5 r) (reclaim-Results 5 r))

-- The card is there afterwards if it was before, and only its count of free buffers may change.
abbrev pub CardKept : Option Rtl8139 → Option Rtl8139 → Type 0
CardKept none o = o ≡ none
CardKept (some r) none = ⊥
CardKept (some r) (some r') = Reclaims r r'

pub CardKept-refl : (o : Option Rtl8139) → CardKept o o
CardKept-refl none = refl
CardKept-refl (some r) = Reclaims-refl r

-- What a trap may do to the statics.
pub record Handled (t : Interrupt) (k k' : Statics) : Type 0 where
  pub ticks : k'.ticks ≡ k.ticks + is_timer t
  pub console : k'.console ≡ k.console
  pub nic : CardKept k.nic k'.nic
  pub returns : is_fault t ≡ 0

-- Nothing but the count of ticks changes.
untouched : (t : Interrupt) (k : Statics) → is_timer t ≡ 0 → is_fault t ≡ 0 → Handled t k k
untouched t k e e' = record {
  ticks = omega arith;
  console = refl;
  nic = CardKept-refl k.nic;
  returns = e';
}

module _ {S : Type 0} (io : Io S) where
  network-Handled :
      (k : Statics) (o : Option Rtl8139)
      → k.nic ≡ o
      → Results {S = S} (Handled Interrupt.network_int k) (elim o [
        | none ↦ pure k
        | some n ↦ do n' ← interrupt io n; pure (record k { nic = some n' })
      ])
  network-Handled k none e =
      pure-Results (Handled Interrupt.network_int k) k (untouched Interrupt.network_int k refl refl)
  network-Handled k (some n) e =
      bind-Results (interrupt io n) _ (interrupt-Results io n) (λ n' kept.
        pure-Results (Handled Interrupt.network_int k) (record k { nic = some n' })
          (record { ticks = omega arith; console = refl; nic = rw e kept; returns = refl }))

  pub trap-Handled : (k : Statics) (t : Interrupt) → Results (Handled t k) (trap io k t)
  unfolding trap
  trap-Handled k Interrupt.com1_int =
      let same = untouched Interrupt.com1_int k refl refl in
      after-Results (Console.read_byte io k.console) _ (λ ch.
        option-Results ch (pure k) _ (pure-Results (Handled Interrupt.com1_int k) k same) (λ c.
          then-Results (Console.write_str io k.console (utf8 c)) (pure k)
            (pure-Results (Handled Interrupt.com1_int k) k same)))
  trap-Handled k Interrupt.network_int = network-Handled k k.nic refl
  trap-Handled k Interrupt.timer_int =
      if-Results (ltb (k.ticks + 1) (2 ^ 32))
        (λ fits.
          pure-Results (Handled Interrupt.timer_int k) (record k { ticks = k.ticks + 1 })
            (record { ticks = refl; console = refl; nic = CardKept-refl k.nic; returns = refl }))
        (panic-Results (Handled Interrupt.timer_int k))
  trap-Handled k Interrupt.page_fault = panic-Results (Handled Interrupt.page_fault k)
  trap-Handled k t = pure-Results (Handled t k) k (untouched t k refl refl)

pub CardKept-trans : (a b c : Option Rtl8139) → CardKept a b → CardKept b c → CardKept a c
CardKept-trans none none c h h' = h'
CardKept-trans none (some r') c h h' = cc h
CardKept-trans (some r) none c h h' = absurd h
CardKept-trans (some r) (some r') none h h' = absurd h'
CardKept-trans (some r) (some r') (some r'') h h' = record {
  same = h'.same ∙ ap (λ (x : Rtl8139). record x { free_tx_buffers = r''.free_tx_buffers }) h.same;
  grows = omega (arith, h.grows, h'.grows);
  bounded = λ le. h'.bounded (h.bounded le);
}
