-- ===== src/Pci/Search.antt =====
-- `find`: the scan of all buses and slots returns the first device that matches, if there is one.
use sprocket.Base.{
  ℕ, zero, suc, ◌+◌, ◌*◌, ◌/◌, ◌%◌, ◌≤◌, ◌<◌, ◌≡◌, refl, ◌∙◌, Bool, true, false, ◌&&◌, Option, none,
  some, inl, inr, arith, Bool-cases, ◌==◌, done, bind_done, Run, Cmd, u8, if◌then◌else◌,
}
use native.Mathlib.Nat.{add-zero}
use sprocket.Port.{Io}
use sprocket.Pci.{
  PciDevice, address, vend_id_offset, dev_id_offset, config_read16, find_slot, find_bus, find,
}
use sprocket.Pci.Registers.{ConfigSpace, half, config_read16_lem}

abbrev pub device_at : ℕ → PciDevice
device_at n = record { bus = n / 32; slot = n % 32; func = 0 }

-- The slots are numbered `bus * 32 + slot`. The first one from `lo` up to `hi` that passes the test.
pub data First (hit : ℕ → Bool) (lo hi : ℕ) : Option PciDevice → Type 0 where
  missing : ((n : ℕ) → lo ≤ n → n < hi → hit n ≡ false) → First hit lo hi none
  found :
      {d : PciDevice} (n : ℕ)
      → lo ≤ n
      → n < hi
      → d ≡ device_at n
      → hit n ≡ true
      → ((k : ℕ) → lo ≤ k → k < n → hit k ≡ false)
      → First hit lo hi (some d)

module _ {hit : ℕ → Bool} {lo mid hi : ℕ} where
  -- A part without a hit may stand in front.
  First-after :
      {r : Option PciDevice}
      → lo ≤ mid
      → ((n : ℕ) → lo ≤ n → n < mid → hit n ≡ false)
      → First hit mid hi r
      → First hit lo hi r
  First-after le before (missing after) = missing (λ n a b. ground (arith, before n, after n))
  First-after le before (found n a b e h first) =
      found n (omega arith) b e h (λ k c d. ground (arith, before k, first k))

  First-widen : {d : PciDevice} → mid ≤ hi → First hit lo mid (some d) → First hit lo hi (some d)
  First-widen le (found n a b e h first) = found n a (omega arith) e h first

missed :
    {hit : ℕ → Bool} {lo hi : ℕ} → First hit lo hi none → (n : ℕ) → lo ≤ n → n < hi → hit n ≡ false
missed (missing before) = before

module _ {S A : Type 0} (b : Bool) (m m' : Cmd S A) where
  chosen : b ≡ true → (s : S) → (if b then m else m') s ≡ m s
  chosen e s = rw e

  other : b ≡ false → (s : S) {r : Run S A} → m' s ≡ r → (if b then m else m') s ≡ r
  other e s run = rw e run

module _ {S : Type 0} (io : Io S) (space : ConfigSpace io) (vendor device : ℕ) (start : S) where
  abbrev Same : S → Type 0
  Same s = (b : ℕ) → space.register s b ≡ space.register start b

  -- Does the device in this slot have the two identifiers?
  abbrev pub hit : ℕ → Bool
  hit n =
      (vendor
        == half (space.register start (address (n / 32) (n % 32) 0 vend_id_offset)) vend_id_offset)
      && (half (space.register start (address (n / 32) (n % 32) 0 dev_id_offset)) dev_id_offset
          == device)

  -- What a scan from `lo` up to `hi` gives.
  abbrev Scan : (lo hi : ℕ) → Cmd S (Option PciDevice) → Type 0
  Scan lo hi cmd =
      (s : S)
      → Same s
      → (r : Option PciDevice) × (s' : S) × (cmd s ≡ done r s') × Same s' × First hit lo hi r

  hit_lem :
      (n bus slot : ℕ) (s : S)
      → Same s
      → n / 32 ≡ bus
      → n % 32 ≡ slot
      → ((vendor == half (space.register s (address bus slot 0 vend_id_offset)) vend_id_offset)
          && (half (space.register s (address bus slot 0 dev_id_offset)) dev_id_offset == device))
        ≡ hit n
  hit_lem n bus slot s same eb es = rw (
    ← eb,
    ← es,
    same (address (n / 32) (n % 32) 0 vend_id_offset),
    same (address (n / 32) (n % 32) 0 dev_id_offset),
  )

  find_slot-Scan :
      (left bus slot : ℕ)
      → bus < 256
      → slot + left ≡ 32
      → Scan (bus * 32 + slot) (bus * 32 + 32) (find_slot io vendor device bus slot left)
  unfolding find_slot
  find_slot-Scan zero bus slot hb e s same =
      (none, s, refl, same, missing (λ n a b. absurd (omega arith)))
  find_slot-Scan (suc left) bus slot hb e s same =
      let n : ℕ = bus * 32 + slot in
      let eb : n / 32 ≡ u8 bus = omega arith in
      let es : n % 32 ≡ slot = omega arith in
      let (t, read, same1) = config_read16_lem io space (u8 bus) slot 0 vend_id_offset s in
      let (u, read', same2) = config_read16_lem io space (u8 bus) slot 0 dev_id_offset t in
      let same' : Same u = λ b. same2 b ∙ same1 b ∙ same b in
      let v : ℕ = half (space.register s (address (u8 bus) slot 0 vend_id_offset)) vend_id_offset in
      let w : ℕ = half (space.register t (address (u8 bus) slot 0 dev_id_offset)) dev_id_offset in
      let d : PciDevice = record { bus = u8 bus; slot = slot; func = 0 } in
      let test : ((vendor == v) && (w == device)) ≡ hit n =
        rw (same1 (address (u8 bus) slot 0 dev_id_offset)) (hit_lem n (u8 bus) slot s same eb es) in
      elim (Bool-cases (hit n)) [
        | inl yes_hit ↦ (
          some d,
          u,
          bind_done (config_read16 io (u8 bus) slot 0 vend_id_offset) _ read (
              bind_done (config_read16 io (u8 bus) slot 0 dev_id_offset) _ read'
                (chosen _ _ _ (test ∙ yes_hit) u)),
          same',
          found n (omega arith) (omega arith) (ground arith) yes_hit
              (λ k a b. absurd (omega arith)),
        )
        | inr no_hit ↦
            let (r, s', run, same'', first) =
              find_slot-Scan left bus (slot + 1) hb (omega arith) u same' in
            (
              r,
              s',
              bind_done (config_read16 io (u8 bus) slot 0 vend_id_offset) _ read (
                  bind_done (config_read16 io (u8 bus) slot 0 dev_id_offset) _ read'
                    (other _ _ _ (test ∙ no_hit) u run)),
              same'',
              First-after (omega arith) (λ k a b. let e : k ≡ n = omega arith in rw e no_hit) first,
            )
      ]

  find_bus-Scan :
      (left bus : ℕ) → bus + left ≡ 256 → Scan (bus * 32) 8192 (find_bus io vendor device bus left)
  unfolding find_bus
  find_bus-Scan zero bus e s same = (none, s, refl, same, missing (λ n a b. absurd (omega arith)))
  find_bus-Scan (suc left) bus e s same =
      let (r, t, run, same', first) = find_slot-Scan 32 bus 0 (omega arith) refl s same in
      further (find_bus-Scan left (bus + 1) (omega arith)) r t run same' (rw add-zero at first)
    where
      further :
          Scan ((bus + 1) * 32) 8192 (find_bus io vendor device (bus + 1) left)
          → (r : Option PciDevice) (t : S) → find_slot io vendor device bus 0 32 s ≡ done r t
          → Same t
          → First hit (bus * 32) (bus * 32 + 32) r
          → (r : Option PciDevice) × (s' : S) × (find_bus io vendor device bus (suc left) s
              ≡ done r s')
            × Same s'
            × First hit (bus * 32) 8192 r
      further rest (some d) t run same' first = (
        some d,
        t,
        bind_done (find_slot io vendor device bus 0 32) _ run refl,
        same',
        First-widen (omega arith) first,
      )
      further rest none t run same' first =
          let (r, s', run', same'', first') = rest t same' in
          (
            r,
            s',
            bind_done (find_slot io vendor device bus 0 32) _ run run',
            same'',
            First-after (omega arith) (λ n a b. missed first n a (omega arith)) first',
          )

-- The scan never fails, changes no register, and returns the first of the 8192 slots that holds
-- function 0 of a device with the two identifiers; it returns nothing only if there is no such slot.
pub find_lem :
    {S : Type 0} (io : Io S) (space : ConfigSpace io) (vendor device : ℕ) (s : S)
    → (r : Option PciDevice) × (s' : S) × (find io vendor device s ≡ done r s')
      × ((b : ℕ) → space.register s' b ≡ space.register s b)
      × First (hit io space vendor device s) 0 8192 r
unfolding find
find_lem io space vendor device s = find_bus-Scan io space vendor device s 256 0 refl s (λ b. refl)
