-- ===== src/Pci/Command.antt =====
-- `set_command_flags` of lib/pci/src/lib.rs: what it does to the register of command and status.
use sprocket.Base.{
  ℕ, ◌+◌, ◌*◌, ◌/◌, ◌%◌, ◌^◌, ◌-◌, ◌<◌, ◌≡◌, ◌≢◌, refl, ◌∙◌, ap, arith, done, bit_and, bit_or,
  bit_and-zero, bit_or-lt, bind_done,
}
use sprocket.Port.{Io}
use sprocket.Pci.{address, config_read16, PciDevice, set_command_flags, cmd_reg_offset}
use sprocket.Pci.Registers.{ConfigSpace, ==-refl, ==-other, config_read16_lem, config_write16_low}

module _ {S : Type 0} (io : Io S) (space : ConfigSpace io) where
  -- What the PCI documents say of the register of command and status at the address `a`: the device
  -- keeps the command bits that it implements, and a bit of the status is cleared where one of the
  -- bits 8 and 11 to 15 is written as 1; its other bits are not written.
  pub record CommandStatus (a implemented : ℕ) : Type 0 where
    pub command :
        (old v : ℕ) → v < 2 ^ 32 → space.stored a old v % 2 ^ 16 ≡ bit_and (v % 2 ^ 16) implemented
    pub status :
        (old v : ℕ)
        → v < 2 ^ 32
        → space.stored a old v / 2 ^ 16
          ≡ bit_and (old / 2 ^ 16) (0xffff - bit_and (v / 2 ^ 16) 0xf900)

  -- Setting command flags passes the assertion. Of the flags that were set and those to set, it sets
  -- those that the device implements, in the command register. It writes the status half back, which
  -- clears each of the bits 8 and 11 to 15 of the status that was set. No other register changes.
  pub set_command_flags_lem :
      (d : PciDevice) (flag implemented : ℕ) (s : S)
      → flag < 2 ^ 16
      → CommandStatus (address d.bus d.slot d.func cmd_reg_offset) implemented
      → let a = address d.bus d.slot d.func cmd_reg_offset in
        let command = space.register s a % 2 ^ 16 in
        let status = space.register s a / 2 ^ 16 in
        (s' : S) × (set_command_flags io d flag s ≡ done tt s')
        × (space.register s' a % 2 ^ 16 ≡ bit_and (bit_or command flag) implemented)
        × (space.register s' a / 2 ^ 16 ≡ bit_and status (0xffff - bit_and status 0xf900))
        × ((b : ℕ) → b ≢ a → space.register s' b ≡ space.register s b)
  unfolding set_command_flags
  set_command_flags_lem d flag implemented s hf documented =
      let a = address d.bus d.slot d.func cmd_reg_offset in
      let w = space.register s a % 2 ^ 16 in
      let v = space.register s a / 2 ^ 16 * 2 ^ 16 + bit_or w flag in
      let (t, read, same) = config_read16_lem io space d.bus d.slot d.func cmd_reg_offset s in
      let small = bit_or-lt 16 w flag (omega arith) hf in
      let (u, written, regs) =
        config_write16_low io space d.bus d.slot d.func cmd_reg_offset (bit_or w flag) t
          (omega arith) refl small in
      let in_range = space.in_range s a in
      let kept : space.register u a ≡ space.stored a (space.register s a) v =
        regs a ∙ rw (==-refl a, same a) refl in
      let low : v % 2 ^ 16 ≡ bit_or w flag = omega arith in
      let high : v / 2 ^ 16 ≡ space.register s a / 2 ^ 16 = omega arith in
      (
        u,
        bind_done (config_read16 io d.bus d.slot d.func cmd_reg_offset) _ read
            (rw (bit_and-zero w) written),
        ap (λ x. x % 2 ^ 16) kept
            ∙ documented.command (space.register s a) v (omega arith)
            ∙ ap (λ x. bit_and x implemented) low,
        ap (λ x. x / 2 ^ 16) kept
            ∙ documented.status (space.register s a) v (omega arith)
            ∙ ap (λ x. bit_and (space.register s a / 2 ^ 16) (0xffff - bit_and x 0xf900)) high,
        λ b other. regs b ∙ rw (==-other b a other) (same b),
      )
