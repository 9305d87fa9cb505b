-- ===== src/Tests/Days.antt =====
-- Local days at a concrete input.
use ajar_family.Prelude.{ℕ, ◌+◌, ◌-◌, ◌*◌, ◌/◌, ◌%◌, ◌≡◌, refl, true, some, ltb, if◌then◌else◌}
use ajar_family.Text.{Text, codes}
use ajar_family.Backend.Days.{
  Calendar, end_of_local_day_ms, end_in_zone, is_valid_time_zone, next_midnight, safe_time_zone,
  time_zone_offset_ms, wall_clock,
}

-- A platform of one zone, in January of 1970: ten hours ahead, and eleven from 11:06:40 UTC of the
-- first on.
abbrev shifted : ℕ → ℕ
shifted instant = instant + (if ltb instant 40000000 then 36000000 else 39600000)

abbrev pub calendar : Calendar
calendar = record {
  knows = λ tz. true;
  parts = λ instant tz. record {
    year = 1970;
    month = 1;
    day = shifted instant / 86400000 + 1;
    hour = shifted instant / 3600000 % 24;
    minute = shifted instant / 60000 % 60;
    second = shifted instant / 1000 % 60;
  };
  utc = λ y m d h mi sec. (d - 1) * 86400000 + h * 3600000 + mi * 60000 + sec * 1000;
}

abbrev sydney : Text
sydney = codes "Australia/Sydney"

zone_test : safe_time_zone calendar (some sydney) ≡ sydney
unfolding safe_time_zone is_valid_time_zone
zone_test = refl

-- The clocks change after the tenth hour of the day of UTC, so the day ends at 13:00 UTC.
end_test : end_of_local_day_ms calendar 36000000 sydney ≡ 46799999
unfolding end_of_local_day_ms end_in_zone time_zone_offset_ms wall_clock safe_time_zone
    is_valid_time_zone next_midnight
end_test = refl
