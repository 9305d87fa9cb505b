-- ===== src/Backend/Days/Midnight.antt =====
-- The instant that ends a local day reads as the last millisecond of that day.
use ajar_family.Prelude.{ℕ, ◌+◌, ◌-◌, ◌≤◌, ◌≡◌}
use ajar_family.Text.{Text}
use ajar_family.Backend.Days.{Calendar, plus, minus, time_zone_offset_ms, next_midnight}

module _ (calendar : Calendar) where
  -- What the clocks of a zone show at an instant, in milliseconds.
  abbrev pub shown_ms : ℕ → Text → ℕ
  shown_ms t tz = plus t (time_zone_offset_ms calendar t tz)

  -- No zone is more than 14 hours ahead of UTC.
  abbrev pub IsNear : Text → Type 0
  IsNear tz =
      (t : ℕ)
      → (time_zone_offset_ms calendar t tz).ahead
        ≤ (time_zone_offset_ms calendar t tz).behind + 50400000

  -- The clocks do not change between the two instants at which the code reads them.
  abbrev pub Unchanged : Text → ℕ → ℕ → Type 0
  Unchanged tz t u =
      (time_zone_offset_ms calendar t tz).ahead + (time_zone_offset_ms calendar u tz).behind
      ≡ (time_zone_offset_ms calendar u tz).ahead + (time_zone_offset_ms calendar t tz).behind

  -- The instant at which the code reads the clocks again.
  abbrev pub first_guess : ℕ → Text → ℕ
  first_guess from tz =
      minus (next_midnight (shown_ms from tz)) (time_zone_offset_ms calendar from tz) - 1
