-- ===== src/Clock.antt =====
-- What the program uses of the package time: a duration is a count of nanoseconds in an int64, which is
-- kept as its two's complement pattern; a time is a count of nanoseconds from a moment before all times.
use appliance_registry.Prelude.{ℕ, ◌+◌, ◌-◌, ◌*◌, ◌%◌, ◌^◌, ltb, if◌then◌else◌}
pub mod Bounds

-- time.Duration(n) * time.Minute
unfoldable pub minutes : ℕ → ℕ
minutes n = n * 60_000_000_000 % 2 ^ 64

-- t.Add(d)
unfoldable pub after : ℕ → ℕ → ℕ
after t d = if ltb d (2 ^ 63) then t + d else t - (2 ^ 64 - d)
