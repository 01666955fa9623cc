-- ===== src/Coordinator/Scheduler.antt =====
-- TierScheduler of coordinator.py, with the tiers and their intervals (const.py).
pub mod Laws
use ha_sophos_fw.Prelude.{
  ℕ, zero, suc, ◌+◌, ◌-◌, ◌*◌, ◌/◌, ◌%◌, ◌≤◌, ◌<◌, String, ◌≡◌, refl, sym, ap, ◌∙◌, ◌≢◌, ◌↔◌, ◌⊎◌,
  inl, inr, Bool, true, false, not, ◌&&◌, ◌||◌, Option, none, some, List, [], ◌∷◌, ◌++◌, map, arith,
  ◌==◌, eq_iff, eq_refl, ltb, leb, eqb, if◌then◌else◌, leb→le, ltb→lt, eqb_iff, Bool-cases,
  Option-cases, or_else, is_some, get_or, ne→false, length, is_nil, keep_if, any_of, all_of,
  first_where, All, contains, Distinct,
}
use ha_sophos_fw.Prelude.Dict
use ha_sophos_fw.Prelude.Dict.{Dict}

pub data Tier : Type 0 where
  realtime fast operative static : Tier

-- DEFAULT_INTERVAL_*, in seconds.
abbrev pub default_interval : Tier → ℕ
default_interval realtime = 30
default_interval fast = 120
default_interval operative = 600
default_interval static = 1800

-- The value of an interval option: a whole number that is not negative, or anything else.
pub data OptionValue : Type 0 where
  number : ℕ → OptionValue
  other : OptionValue

-- `_int_option`; 5 is _MIN_BASE_INTERVAL.
unfoldable pub int_option : Option OptionValue → ℕ → ℕ
int_option (some (number n)) default = if ltb n 5 then default else n
int_option (some other) default = default
int_option none default = default

-- The intervals that `SophosCoordinator.__init__` reads from the entry's options.
unfoldable pub read_intervals : (Tier → Option OptionValue) → Tier → ℕ
unfolding int_option
read_intervals options tier = int_option (options tier) (default_interval tier)

-- `intervals[Tier.REALTIME] or DEFAULT_INTERVAL_REALTIME`
unfoldable pub base_of : (Tier → ℕ) → ℕ
base_of intervals = if eqb (intervals realtime) 0 then 30 else intervals realtime

pub record Scheduler : Type 0 where
  pub intervals : Tier → ℕ
  pub base_interval : ℕ
  pub last : Dict ℕ

unfoldable pub init : (Tier → ℕ) → Scheduler
unfolding base_of
init intervals = record { intervals = intervals; base_interval = base_of intervals; last = [] }

-- `now - last >= interval - base_interval / 2`, with both sides moved so that nothing is negative.
elapsed : Option ℕ → ℕ → ℕ → ℕ → Bool
elapsed none interval base now = true
elapsed (some last) interval base now = leb (last + 1000 * interval) (now + 500 * base)

unfoldable pub is_due : Scheduler → String → Tier → ℕ → Bool
unfolding elapsed
is_due s key tier now = elapsed (Dict.get key s.last) (s.intervals tier) s.base_interval now

unfoldable pub mark_fetched : String → ℕ → Scheduler → Scheduler
mark_fetched key at s = record s { last = Dict.put key at s.last }

unfoldable pub invalidate : String → Scheduler → Scheduler
invalidate key s = record s { last = Dict.pop key s.last }
