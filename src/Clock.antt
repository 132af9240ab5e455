-- ===== src/Clock.antt =====
-- The parts of Go's package time that the program uses, on instants in UTC: an instant is the
-- number of nanoseconds since 1 January of year 1, a Monday.
use strike_reserve.Base.{ℕ, ◌+◌, ◌*◌, ◌/◌, ◌%◌}

abbrev pub minute_ns : ℕ
minute_ns = 60000000000

abbrev pub hour_ns : ℕ
hour_ns = 3600000000000

abbrev pub day_ns : ℕ
day_ns = 86400000000000

-- The number of the day, which year, month and day of month determine and are determined by.
abbrev pub day_of : ℕ → ℕ
day_of t = t / day_ns

-- time.Date(t.Year(), t.Month(), t.Day(), 0, 0, 0, 0, time.UTC)
abbrev pub midnight : ℕ → ℕ
midnight t = day_of t * day_ns

-- time.Date(t.Year(), t.Month(), t.Day(), hour, minute, 0, 0, time.UTC)
abbrev pub at_time : ℕ → ℕ → ℕ → ℕ
at_time t hour minute = midnight t + hour * hour_ns + minute * minute_ns

-- int(t.Weekday()): 0 is Sunday.
abbrev pub weekday : ℕ → ℕ
weekday t = (day_of t + 1) % 7

-- SafeTruncate of service/utils.go, on a reading of the wall clock.
unfoldable pub safe_truncate : ℕ → ℕ
safe_truncate d = midnight d
