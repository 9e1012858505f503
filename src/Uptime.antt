-- ===== src/Uptime.antt =====
-- src/service/mod.rs, lines 86 to 97: the time since the start that the demonstration service shows.
use sprocket.Base.{ℕ, ◌+◌, ◌*◌, ◌/◌, ◌%◌, ◌<◌, ◌≡◌, arith}

abbrev pub seconds_per_minute : ℕ
seconds_per_minute = 60

abbrev pub minutes_per_hour : ℕ
minutes_per_hour = 60

abbrev pub hours_per_day : ℕ
hours_per_day = 24

abbrev pub seconds_per_day : ℕ
seconds_per_day = seconds_per_minute * minutes_per_hour * hours_per_day

abbrev pub seconds_per_hour : ℕ
seconds_per_hour = seconds_per_minute * minutes_per_hour

-- days, hours, minutes and seconds
unfoldable pub uptime : (ticks : ℕ) → ℕ × ℕ × ℕ × ℕ
uptime ticks =
    let seconds = ticks / 100 in
    (
      seconds / seconds_per_day,
      (seconds % seconds_per_day) / seconds_per_hour,
      (seconds % seconds_per_hour) / seconds_per_minute,
      seconds % seconds_per_minute,
    )

-- The four numbers are within their units and make up the time, at 100 ticks a second.
pub uptime_lem :
    (ticks : ℕ)
    → let (days, hours, minutes, seconds) = uptime ticks in
      (hours < 24)
      × (minutes < 60)
      × (seconds < 60)
      × (((days * 24 + hours) * 60 + minutes) * 60 + seconds ≡ ticks / 100)
unfolding uptime
uptime_lem ticks = omega arith
