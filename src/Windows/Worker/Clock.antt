-- ===== src/Windows/Worker/Clock.antt =====
-- What the clock anchor that a restart reads back can do.
use ajar_family.Prelude.{ℕ, ◌+◌, ◌<◌, ◌≤◌, ◌≡◌, Bool, true, false, Option, none, some, leb, arith}
use ajar_family.Text.{Text}
use ajar_family.Policy.Model.{TemporaryRule, DevicePolicySnapshot}
use ajar_family.Windows.Filters.{FilterSet}
use ajar_family.Windows.Evaluate.{is_active_temp}
use ajar_family.Windows.Worker.{Worker, Clocks, Cached, now_ms, restore_cached_policy}

-- A stored anchor that says it is the instant `a`.
abbrev pub rewritten : ℕ → Clocks → Cached
rewritten a c = record {
  snapshot = none;
  clock_anchor = some (record { server_now_ms = a; perf_now_at_anchor = c.perf_now });
  category_filters = none;
}

-- A grant whose window the device's clock has passed is live again after a restart that reads a
-- stored anchor at the start of the window.
pub rewritten_anchor_revives_grant :
    (check_snapshot : DevicePolicySnapshot → Text → Bool)
    (check_filters : FilterSet × Text → Text → Bool) (key : Option Text) (c : Clocks) (w : Worker)
    (t : TemporaryRule) {a b : ℕ}
    → t.starts_at ≡ some a
    → t.expires_at ≡ some b
    → a < b
    → b ≤ c.date_now
    → (is_active_temp t c.date_now ≡ false)
      × (is_active_temp t
            (now_ms (restore_cached_policy check_snapshot check_filters key (rewritten a c) c w) c)
          ≡ true)
rewritten_anchor_revives_grant check_snapshot check_filters key c w t {a} {b} from until lt passed =
    (late, live)
  where
    late : is_active_temp t c.date_now ≡ false
    late = unfold is_active_temp in rw (from, until) (ground arith)

    taken : leb a (c.date_now + 60000) ≡ true
    taken = ground arith

    live :
        is_active_temp t
          (now_ms (restore_cached_policy check_snapshot check_filters key (rewritten a c) c w) c)
        ≡ true
    live =
        unfold restore_cached_policy now_ms is_active_temp in rw (taken, from, until) (ground arith)
