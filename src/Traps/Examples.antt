-- ===== src/Traps/Examples.antt =====
-- A sequence of traps, on the small card.
use sprocket.Base.{◌+◌, ◌≤◌, ◌<◌, ◌⊎◌, ◌-◌, ◌^◌, refl, some, List, [], ◌∷◌, true, arith}
use sprocket.Irq.{Interrupt}
use sprocket.Rtl8139.Examples.{Chip, chip_io, chip_card, idle, card}
use sprocket.Traps.Dispatch.{Statics}
use sprocket.Traps.Traces.{Stops}
use sprocket.Traps.Runs.{Completed, traps_lem}

abbrev statics : Statics
statics = record { console = record { uart = true }; nic = some card; ticks = 2 ^ 32 - 1 }

abbrev four_traps : List (Interrupt × Chip)
four_traps =
    (Interrupt.timer_int, idle)
    ∷ (Interrupt.network_int, idle)
    ∷ (Interrupt.com1_int, idle)
    ∷ (Interrupt.timer_int, idle)
    ∷ []

traps_lem_example :
    ((2 ^ 32 + 1 < 2 ^ 32) × Completed chip_io 0xC000 chip_card statics four_traps)
    ⊎ ((2 ^ 32 ≤ 2 ^ 32 + 1) × Stops chip_io statics four_traps)
unfolding chip_card
traps_lem_example =
    traps_lem chip_io 0xC000 chip_card statics four_traps (omega arith) refl (refl, omega arith)
      (refl, (refl, (refl, (refl, tt))))
