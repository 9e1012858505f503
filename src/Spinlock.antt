-- ===== src/Spinlock.antt =====
-- lib/spinlock/src/lib.rs: a mutex that turns interrupts off while any lock is held.
-- The processor's interrupt flag and the crate `spin` are not part of the repository: they enter as
-- a machine. `spin_lock` is `none` where the lock is taken: with one processor and interrupts off,
-- nobody will ever release it.
pub mod Nesting
mod Examples
use sprocket.Base.{
  ℕ, ◌+◌, ◌-◌, ◌^◌, Bool, true, false, ◌&&◌, Option, none, some, ◌==◌, if◌then◌else◌, u32,
  wrapping_sub,
}

pub record Machine (S : Type 0) : Type 0 where
  -- `flags::flags().contains(FLAGS_IF)`, `irq::disable` and `irq::enable`
  pub int_flag : S → Bool
  pub irq_disable : S → S
  pub irq_enable : S → S
  -- `spin::Mutex::lock` of the mutex with this number, and the drop of its guard
  pub spin_lock : ℕ → S → Option S
  pub spin_unlock : ℕ → S → S

-- The statics `LOCK_COUNT` and `INT_ENABLED`, and the rest of the machine.
pub record Locks (S : Type 0) : Type 0 where
  pub lock_count : ℕ
  pub int_enabled : Bool
  pub cpu : S

module _ {S : Type 0} (m : Machine S) where
  -- `Mutex::lock`, up to the spin lock
  pub enter : Locks S → Locks S
  enter l = record {
    lock_count = u32 (l.lock_count + 1);
    int_enabled = if l.lock_count == 0 then m.int_flag l.cpu else l.int_enabled;
    cpu = m.irq_disable l.cpu;
  }

  pub lock : ℕ → Locks S → Option (Locks S)
  unfolding enter
  lock i l =
      let l' = enter l in
      elim (m.spin_lock i l'.cpu) [ none ↦ none | some s ↦ some (record l' { cpu = s }) ]

  -- `Drop for MutexGuard`
  pub unlock : ℕ → Locks S → Locks S
  unlock i l =
      let released = m.spin_unlock i l.cpu in
      let count = wrapping_sub l.lock_count 1 in
      record {
        lock_count = count;
        int_enabled = l.int_enabled;
        cpu = if (count == 0) && l.int_enabled then m.irq_enable released else released;
      }

  -- The part of `panic_fmt` of src/lib.rs that breaks the console's lock open.
  pub break_locks : (console : ℕ) → Locks S → Locks S
  break_locks console l = record {
    lock_count = 0;
    int_enabled = false;
    cpu = m.spin_unlock console (m.irq_disable l.cpu);
  }
