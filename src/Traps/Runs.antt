-- ===== src/Traps/Runs.antt =====
-- src/traps.rs: which sequences of traps come to an end, and what a run of them leaves.
use sprocket.Base.{
  ℕ, ◌+◌, ◌/◌, ◌%◌, ◌^◌, ◌≤◌, ◌<◌, ◌⊎◌, inl, inr, true, false, Bool-cases, ltb, panic, ◌≡◌, refl,
  sym, ap, ◌∙◌, arith, Option, none, some, List, [], ◌∷◌, done, Cmd, bind_done, pure, Ends,
  pure-Ensures, bind-Ensures, then-Ensures, option-Ensures, ◌>>=◌,
}
use mathlib.Core.Path.{subst}
use sprocket.Port.{Io}
use sprocket.Irq.{Interrupt}
use sprocket.Console
use sprocket.Console.Ends.{read_byte-Ends, write_str-Ends}
use sprocket.Rtl8139.{Rtl8139, interrupt}
use sprocket.Rtl8139.Descriptors.{Card}
use sprocket.Rtl8139.Interrupt.{interrupt_lem}
use sprocket.Traps.Dispatch.{Statics, utf8, trap}
use sprocket.Traps.Traces.{
  Traps, idle, next, Stops, overflow, later, is_timer, timer_count, fault_count, is_fault, CardKept,
  CardKept-refl, CardKept-trans, trap-Handled,
}

-- The driver's record belongs to the card at `iobase`.
abbrev pub AtCard : (iobase : ℕ) → Option Rtl8139 → Type 0
AtCard iobase none = Unit
AtCard iobase (some r) = (r.iobase ≡ iobase) × (r.tx_offset < 4)

AtCard-kept :
    (iobase : ℕ) (o o' : Option Rtl8139) → CardKept o o' → AtCard iobase o → AtCard iobase o'
AtCard-kept iobase none none h c = tt
AtCard-kept iobase none (some r) h c = cc h
AtCard-kept iobase (some r) none h c = absurd h
AtCard-kept iobase (some r) (some r') h c =
    (ap (λ (x : Rtl8139). x.iobase) h.same ∙ c.0, rw (ap (λ (x : Rtl8139). x.tx_offset) h.same) c.1)

is_timer-le : (t : Interrupt) → is_timer t ≤ 1
is_timer-le Interrupt.timer_int = omega arith
is_timer-le t = omega arith

-- The value and the state with which a command ends.
abbrev Ending : {S A : Type 0} → Cmd S A → S → Type 0
Ending {S = S} {A = A} c s = (a : A) × (s' : S) × (c s ≡ done a s')

module _ {S : Type 0} (io : Io S) (iobase : ℕ) (card : Card io iobase) where
  -- No reserved bit of the card's interrupt status is set.
  abbrev pub IsLawful : S → Type 0
  IsLawful s = card.status s / 2 ^ 7 % 2 ^ 6 ≡ 0

  abbrev pub AllLawful : List (Interrupt × S) → Type 0
  AllLawful [] = Unit
  AllLawful ((t, s) ∷ ts) = IsLawful s × AllLawful ts

  interrupt-Ends :
      (r : Rtl8139) (s : S)
      → r.iobase ≡ iobase
      → r.tx_offset < 4
      → IsLawful s
      → Ending (interrupt io r) s
  interrupt-Ends r s e h reserved =
      let (s', run, _, _) = interrupt_lem io (record r { iobase = iobase }) card s h reserved in
      let same : record r { iobase = iobase } ≡ r = ap (λ b. record r { iobase = b }) (sym e) in
      subst (λ x. Ending (interrupt io x) s) same (_, s', run)

  network-Ends :
      (k : Statics) (o : Option Rtl8139) (s : S)
      → AtCard iobase o
      → IsLawful s
      → Ending
          (elim o [
            | none ↦ pure k
            | some n ↦ do n' ← interrupt io n; pure (record k { nic = some n' })
          ])
          s
  network-Ends k none s h reserved = (k, s, refl)
  network-Ends k (some n) s h reserved =
      let (n', s', run) = interrupt-Ends n s h.0 h.1 reserved in
      (record k { nic = some n' }, s', bind_done (interrupt io n) _ run refl)

  com1-Ends : (k : Statics) → Ends (trap io k Interrupt.com1_int)
  unfolding trap
  com1-Ends k =
      bind-Ensures (Console.read_byte io k.console) _ (read_byte-Ends io k.console) (λ ch _.
        option-Ensures ch (pure k) _ (pure-Ensures k tt) (λ b.
          then-Ensures (Console.write_str io k.console (utf8 b)) (pure k)
            (write_str-Ends io k.console (utf8 b)) (pure-Ensures k tt)))

  trap-Ends :
      (k : Statics) (t : Interrupt) (s : S)
      → is_fault t ≡ 0
      → k.ticks + is_timer t < 2 ^ 32
      → AtCard iobase k.nic
      → IsLawful s
      → Ending (trap io k t) s
  unfolding trap
  trap-Ends k Interrupt.com1_int s h fits c reserved =
      let (k', s', run, _) = com1-Ends k s in (k', s', run)
  trap-Ends k Interrupt.network_int s h fits c reserved = network-Ends k k.nic s c reserved
  trap-Ends k Interrupt.page_fault s h fits c reserved = absurd (omega arith)
  trap-Ends k Interrupt.timer_int s h fits c reserved =
      let below : ltb (k.ticks + 1) (2 ^ 32) ≡ true = ground arith in
      (record k { ticks = k.ticks + 1 }, s, rw below refl)
  trap-Ends k t s h fits c reserved = (k, s, refl)

  trap-overflows :
      (k : Statics) (t : Interrupt) (s : S)
      → is_timer t ≡ 1
      → 2 ^ 32 ≤ k.ticks + 1
      → trap io k t s ≡ panic
  unfolding trap
  trap-overflows k Interrupt.timer_int s e h =
      let full : ltb (k.ticks + 1) (2 ^ 32) ≡ false = ground arith in rw full refl
  trap-overflows k t s e h = absurd (omega arith)

  -- The run goes to its end, or the count of ticks overflows.
  abbrev pub Completed : Statics → List (Interrupt × S) → Type 0
  Completed k ts =
      (k' : Statics) × Traps io k ts k'
      × (k'.ticks ≡ k.ticks + timer_count ts)
      × (k'.console ≡ k.console)
      × CardKept k.nic k'.nic

  Completed-next :
      (k k1 : Statics) (t : Interrupt) (s s' : S) (ts : List (Interrupt × S))
      → trap io k t s ≡ done k1 s'
      → Completed k1 ts
      → Completed k ((t, s) ∷ ts)
  Completed-next k k1 t s s' ts run (k2, rest, ticks, console, nic) =
      let first = trap-Handled io k t s k1 s' run in
      (
        k2,
        next s' run rest,
        omega (arith, ticks, first.ticks),
        console ∙ first.console,
        CardKept-trans k.nic k1.nic k2.nic first.nic nic,
      )

  -- A sequence of traps without a page fault, whatever states of the machine the traps find, where no
  -- reserved bit of the card's interrupt status is set. If the count of ticks and the interrupts of the
  -- timer stay below 2^32 together, the run goes to its end. After it, the count has grown by one for
  -- each interrupt of the timer and by nothing else. The console is the same one, and so is the driver
  -- of the network card, if there is one, but for its count of free transmit buffers, which does not
  -- fall and stays within four. Otherwise the run stops with a panic at the interrupt of the timer
  -- that finds the count at its largest value.
  pub traps_lem :
      (k : Statics) (ts : List (Interrupt × S))
      → k.ticks < 2 ^ 32
      → fault_count ts ≡ 0
      → AtCard iobase k.nic
      → AllLawful ts
      → ((k.ticks + timer_count ts < 2 ^ 32) × Completed k ts)
        ⊎ ((2 ^ 32 ≤ k.ticks + timer_count ts) × Stops io k ts)
  traps_lem k [] h no_fault c lawful =
      inl (omega arith, (k, idle, omega arith, refl, CardKept-refl k.nic))
  traps_lem k ((t, s) ∷ ts) h no_fault c lawful =
      elim (Bool-cases (ltb (k.ticks + is_timer t) (2 ^ 32))) [
        | inr full ↦ inr (
          ground arith,
          overflow (ground (arith, is_timer-le t)) (
              trap-overflows k t s (ground (arith, is_timer-le t)) (ground (arith, is_timer-le t))),
        )
        | inl fits ↦
            let below : k.ticks + is_timer t < 2 ^ 32 = ground arith in
            let (k1, s', run) = trap-Ends k t s (omega (arith, no_fault)) below c lawful.0 in
            let first = trap-Handled io k t s k1 s' run in
            let rest =
              traps_lem k1 ts (omega (arith, first.ticks)) (omega (arith, no_fault))
                (AtCard-kept iobase k.nic k1.nic first.nic c) lawful.1 in
            elim rest [
              | inl (small, end) ↦
                  inl (omega (arith, first.ticks), Completed-next k k1 t s s' ts run end)
              | inr (large, stops) ↦ inr (omega (arith, first.ticks), later s' run stops)
            ]
      ]
