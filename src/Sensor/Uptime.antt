-- ===== src/Sensor/Uptime.antt =====
-- The time of the last boot (sensor.py: SophosUptimeSensor). `utcnow`, `monotonic` and the times of
-- fetches are in milliseconds, `utcnow` since an epoch that is earlier than any boot; boot times are in
-- whole seconds.
pub mod Laws
use ha_sophos_fw.Prelude.{
  ℕ, zero, suc, ◌+◌, ◌-◌, ◌*◌, ◌/◌, ◌%◌, ◌≤◌, ◌<◌, String, ◌≡◌, refl, sym, ap, ◌∙◌, ◌≢◌, ◌↔◌, ◌⊎◌,
  inl, inr, Bool, true, false, not, ◌&&◌, ◌||◌, Option, none, some, List, [], ◌∷◌, ◌++◌, map, arith,
  ◌==◌, eq_iff, eq_refl, ltb, leb, eqb, if◌then◌else◌, leb→le, ltb→lt, eqb_iff, Bool-cases,
  Option-cases, or_else, is_some, get_or, ne→false, length, is_nil, keep_if, any_of, all_of,
  first_where, All, contains, Distinct,
}
use ha_sophos_fw.Models.Snmp.{SystemStats}

pub record Clock : Type 0 where
  pub utcnow : ℕ
  pub monotonic : ℕ

abbrev pub tolerance : ℕ
tolerance = 60

-- `abs(a - b)`
abbrev pub distance : ℕ → ℕ → ℕ
distance a b = (a - b) + (b - a)

unfoldable pub boot_at : Clock → Option ℕ → Option ℕ → Option ℕ
boot_at c none fetched = none
boot_at c (some uptime) none = none
boot_at c (some uptime) (some fetched) =
    some ((c.utcnow - ((c.monotonic - fetched) + uptime * 1000)) / 1000)

-- `_reported_boot_time`
unfoldable pub reported_boot_time : Clock → Option SystemStats → Option ℕ → Option ℕ
unfolding boot_at
reported_boot_time c none fetched = none
reported_boot_time c (some stats) fetched = boot_at c stats.uptime_seconds fetched

-- `native_value`: the new `_boot_time`, which is also what is shown.
unfoldable pub native_value : Option ℕ → Option ℕ → Option ℕ
native_value boot_time none = none
native_value none (some reported) = some reported
native_value (some shown) (some reported) =
    if ltb tolerance (distance reported shown) then some reported else some shown
