-- ===== src/Spinlock/Nesting.antt =====
-- Interrupts are off while a lock is held, and come back as they were with the last release.
use sprocket.Base.{
  ℕ, suc, ◌^◌, ◌<◌, ◌≡◌, refl, ◌≢◌, inl, inr, true, false, some, arith, Option-cases,
}
use sprocket.Spinlock.{Machine, Locks, enter, lock, unlock}

-- What the code relies on: `cli` and `sti` set the flag, and a spin lock leaves it alone.
pub record Lawful {S : Type 0} (m : Machine S) : Type 0 where
  pub disabled : (s : S) → m.int_flag (m.irq_disable s) ≡ false
  pub enabled : (s : S) → m.int_flag (m.irq_enable s) ≡ true
  pub locked : (i : ℕ) (s t : S) → m.spin_lock i s ≡ some t → m.int_flag t ≡ m.int_flag s
  pub unlocked : (i : ℕ) (s : S) → m.int_flag (m.spin_unlock i s) ≡ m.int_flag s

-- A run takes and drops locks in any order; a guard is dropped only while some lock is held, and
-- fewer than `2 ^ 32` are held at once.
pub data Trace {S : Type 0} (m : Machine S) (l : Locks S) : Locks S → ℕ → Type 0 where
  begin : Trace m l l 0
  take :
      {k : ℕ} {u v : Locks S} (i : ℕ)
      → Trace m l u k
      → suc k < 2 ^ 32
      → lock m i u ≡ some v
      → Trace m l v (suc k)
  drop : {k : ℕ} {u : Locks S} → (i : ℕ) → Trace m l u (suc k) → Trace m l (unlock m i u) k

Trace-small : {S : Type 0} {m : Machine S} {l u : Locks S} {k : ℕ} → Trace m l u k → k < 2 ^ 32
Trace-small begin = omega arith
Trace-small (take i t small e) = small
Trace-small (drop i t) = omega (arith, Trace-small t)

lock-some :
    {S : Type 0} (m : Machine S) (i : ℕ) (u v : Locks S)
    → lock m i u ≡ some v
    → (s : S) × (m.spin_lock i (enter m u).cpu ≡ some s) × (v ≡ record (enter m u) { cpu = s })
unfolding lock
lock-some m i u v e = elim (Option-cases (m.spin_lock i (enter m u).cpu)) [
  | inl taken ↦ absurd (ground arith)
  | inr (s, free) ↦ (s, free, ground arith)
]

module _ {S : Type 0} (m : Machine S) (lawful : Lawful m) (start : Locks S)
    (free : start.lock_count ≡ 0) where
  -- With `k` locks held the count is `k`; the flag is off, and was saved, unless `k` is 0.
  pub record Held (k : ℕ) (l : Locks S) : Type 0 where
    pub count : l.lock_count ≡ k
    pub off : k ≢ 0 → m.int_flag l.cpu ≡ false
    pub saved : k ≢ 0 → l.int_enabled ≡ m.int_flag start.cpu
    pub restored : k ≡ 0 → m.int_flag l.cpu ≡ m.int_flag start.cpu

  enter-Held :
      (k i : ℕ) (u : Locks S) (s : S)
      → suc k < 2 ^ 32
      → Held k u
      → m.spin_lock i (enter m u).cpu ≡ some s
      → Held (suc k) (record (enter m u) { cpu = s })
  unfolding enter
  enter-Held k i u s small h taken = record {
    count = ground (arith, h.count);
    off = λ _. ground (arith, lawful.locked i (enter m u).cpu s taken, lawful.disabled u.cpu);
    saved = λ _. ground (arith, h.count, h.saved, h.restored);
    restored = λ e. ground arith;
  }

  lock-Held :
      (k i : ℕ) (u v : Locks S) → suc k < 2 ^ 32 → Held k u → lock m i u ≡ some v → Held (suc k) v
  lock-Held k i u v small h e =
      let (s, taken, same) = lock-some m i u v e in rw same (enter-Held k i u s small h taken)

  unlock-Held : (k i : ℕ) (u : Locks S) → suc k < 2 ^ 32 → Held (suc k) u → Held k (unlock m i u)
  unfolding unlock
  unlock-Held k i u small h = record {
    count = ground (arith, h.count);
    off = ground (arith, h.count, h.off, lawful.unlocked i u.cpu);
    saved = ground (arith, h.saved);
    restored = ground (
      arith,
      h.count,
      h.saved,
      h.off,
      lawful.unlocked i u.cpu,
      lawful.enabled (m.spin_unlock i u.cpu),
    );
  }

  Trace-Held : {k : ℕ} {l : Locks S} → Trace m start l k → Held k l
  Trace-Held begin = record {
    count = free;
    off = λ e. absurd (e refl);
    saved = λ e. absurd (e refl);
    restored = λ _. refl;
  }
  Trace-Held (take {k} {u} {v} i t small e) = lock-Held k i u v small (Trace-Held t) e
  Trace-Held (drop {k} {u} i t) = unlock-Held k i u (Trace-small t) (Trace-Held t)

  -- After any run of locks and drops that begins with no lock held, the counter is the number of
  -- locks held; interrupts are off while that is not zero, and as they were at the start when it is.
  pub interrupts_restored :
      {k : ℕ} {l : Locks S}
      → Trace m start l k
      → (l.lock_count ≡ k)
        × (k ≢ 0 → m.int_flag l.cpu ≡ false)
        × (k ≡ 0 → m.int_flag l.cpu ≡ m.int_flag start.cpu)
  interrupts_restored t = let h = Trace-Held t in (h.count, h.off, h.restored)
