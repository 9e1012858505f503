-- ===== src/Spinlock/Examples.antt =====
-- One processor with two mutexes, and the theorem at a run that holds both.
use sprocket.Base.{ℕ, ◌≡◌, refl, ◌≢◌, Bool, true, false, none, some, arith, ◌==◌, if◌then◌else◌}
use sprocket.Spinlock.{Machine, Locks, lock, unlock}
use sprocket.Spinlock.Nesting.{Lawful, Trace, begin, take, drop, interrupts_restored}

record Cpu : Type 0 where
  flag : Bool
  held : ℕ → Bool

abbrev machine : Machine Cpu
machine = record {
  int_flag = λ s. s.flag;
  irq_disable = λ s. record s { flag = false };
  irq_enable = λ s. record s { flag = true };
  spin_lock = λ i s.
      if s.held i then none else some (record s { held = λ j. if i == j then true else s.held j });
  spin_unlock = λ i s. record s { held = λ j. if i == j then false else s.held j };
}

spin_lock-flag : (i : ℕ) (s t : Cpu) → machine.spin_lock i s ≡ some t → t.flag ≡ s.flag
spin_lock-flag i s t e = ground arith

lawful : Lawful machine
lawful = record {
  disabled = λ s. refl;
  enabled = λ s. refl;
  locked = spin_lock-flag;
  unlocked = λ i s. refl;
}

abbrev idle : Locks Cpu
idle = record {
  lock_count = 0;
  int_enabled = false;
  cpu = record { flag = true; held = λ _. false };
}

-- the state with mutex 1 held, with 1 and 2 held, and after the drop of 1
abbrev one_held : Locks Cpu
one_held = record {
  lock_count = 1;
  int_enabled = true;
  cpu = record { flag = false; held = λ j. if 1 == j then true else false };
}

abbrev both_held : Locks Cpu
both_held = record {
  lock_count = 2;
  int_enabled = true;
  cpu = record { flag = false; held = λ j. if 2 == j then true else one_held.cpu.held j };
}

nested : Trace machine idle (unlock machine 2 (unlock machine 1 both_held)) 0
unfolding lock
nested = drop 2 (drop 1 (take 2 (take 1 begin (omega arith) refl) (omega arith) refl))

interrupts_restored_example :
    let l = unlock machine 2 (unlock machine 1 both_held) in
    (l.lock_count ≡ 0)
    × (◌≢◌ {A = ℕ} 0 0 → l.cpu.flag ≡ false)
    × (◌≡◌ {A = ℕ} 0 0 → l.cpu.flag ≡ true)
interrupts_restored_example = interrupts_restored machine lawful idle refl nested
