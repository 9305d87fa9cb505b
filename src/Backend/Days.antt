-- ===== src/Backend/Days.antt =====
-- backend/src/domain/time.ts: the end of a local day. The platform's time zones are a parameter.
-- `new Date(t)`, its getUTCFullYear, getUTCMonth and getUTCDate, and `Date.UTC` of the three give the
-- start of the UTC day of `t`, which is written `t / day_ms * day_ms`. An instant before 1970 is 0.
pub mod Midnight
use ajar_family.Prelude.{
  ℕ, ◌+◌, ◌-◌, ◌*◌, ◌/◌, ◌%◌, Bool, true, false, not, ◌&&◌, Option, none, some, if◌then◌else◌, leb,
  ◌==◌, length,
}
use ajar_family.Text.{Text, codes, nonempty}

-- What `formatToParts` says, as numbers, 0 for a part that is missing.
pub record WallClock : Type 0 where
  pub year : ℕ
  pub month : ℕ
  pub day : ℕ
  pub hour : ℕ
  pub minute : ℕ
  pub second : ℕ

-- The platform: the zones that `Intl.DateTimeFormat` takes, its parts of an instant in a zone, and
-- `Date.UTC` of a year, a month from 0 on, a day, an hour, a minute and a second.
pub record Calendar : Type 0 where
  pub knows : Text → Bool
  pub parts : ℕ → Text → WallClock
  pub utc : ℕ → ℕ → ℕ → ℕ → ℕ → ℕ → ℕ

abbrev pub day_ms : ℕ
day_ms = 86400000

-- A difference of times: `ahead - behind`, which may be negative.
pub record Offset : Type 0 where
  pub ahead : ℕ
  pub behind : ℕ

abbrev pub plus : ℕ → Offset → ℕ
plus t o = t + o.ahead - o.behind

abbrev pub minus : ℕ → Offset → ℕ
minus t o = t + o.behind - o.ahead

abbrev pub is_same_offset : Offset → Offset → Bool
is_same_offset o p = o.ahead + p.behind == p.ahead + o.behind

-- `Date.UTC(…) + 86_400_000`
unfoldable pub next_midnight : ℕ → ℕ
next_midnight local = local / day_ms * day_ms + day_ms

module _ (calendar : Calendar) where
  unfoldable pub is_valid_time_zone : Text → Bool
  is_valid_time_zone tz = nonempty tz && leb (length tz) 64 && calendar.knows tz

  unfoldable pub safe_time_zone : Option Text → Text
  unfolding is_valid_time_zone
  safe_time_zone none = codes "UTC"
  safe_time_zone (some tz) = if nonempty tz && is_valid_time_zone tz then tz else codes "UTC"

  -- Some zones format midnight as hour 24.
  unfoldable pub wall_clock : ℕ → Text → WallClock
  wall_clock instant tz =
      let w : WallClock = calendar.parts instant tz in record w { hour = w.hour % 24 }

  unfoldable pub time_zone_offset_ms : ℕ → Text → Offset
  unfolding wall_clock
  time_zone_offset_ms instant tz =
      let w : WallClock = wall_clock instant tz in
      record {
        ahead = calendar.utc w.year (w.month - 1) w.day w.hour w.minute w.second;
        behind = instant / 1000 * 1000;
      }

  unfoldable pub end_in_zone : ℕ → Text → ℕ
  unfolding time_zone_offset_ms next_midnight
  end_in_zone from tz =
      let offset : Offset = time_zone_offset_ms from tz in
      let midnight : ℕ = next_midnight (plus from offset) in
      let end : ℕ = minus midnight offset - 1 in
      let offset_at_end : Offset = time_zone_offset_ms end tz in
      if is_same_offset offset_at_end offset then end else minus midnight offset_at_end - 1

  unfoldable pub end_of_local_day_ms : ℕ → Text → ℕ
  unfolding safe_time_zone end_in_zone
  end_of_local_day_ms from tz = end_in_zone from (safe_time_zone (some tz))
