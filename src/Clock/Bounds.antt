-- ===== src/Clock/Bounds.antt =====
-- How long a duration can be that a count of minutes gives.
use appliance_registry.Prelude.{ℕ, ◌+◌, ◌*◌, ◌≤◌, ◌≡◌, arith}
use appliance_registry.Clock.{minutes, after}

-- Up to 153722867 minutes, which is 292 years, the product does not overflow, and the time that is
-- reached lies that far ahead.
pub after-minutes : (t n : ℕ) → n ≤ 153_722_867 → after t (minutes n) ≡ t + n * 60_000_000_000
unfolding after minutes
after-minutes t n h = ground arith

-- One minute more is a negative duration.
pub after-minutes_overflow : (t : ℕ) → after t (minutes 153_722_868) ≤ t
unfolding after minutes
after-minutes_overflow t = ground arith
