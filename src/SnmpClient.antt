-- ===== src/SnmpClient.antt =====
-- What snmp_client.py reads from an answer of the SNMP agent: the conversion of values, the rows of
-- tables, and the data of an endpoint. The answer itself comes from puresnmp: the value of each scalar
-- object, or the walked objects of a table. Integers are those that are not negative, as this agent's
-- objects have them; a text is read as an integer only if its first word is made of digits.
pub mod Table
pub mod Scalars
pub mod Rows
pub mod Modules
pub mod Udp
pub mod Operations
use Prim.Native.Char.{Char}
use Prim.Native.String
use ha_sophos_fw.Prelude.{
  ℕ, zero, suc, ◌+◌, ◌-◌, ◌*◌, ◌/◌, ◌%◌, ◌≤◌, ◌<◌, String, ◌≡◌, refl, sym, ap, ◌∙◌, ◌≢◌, ◌↔◌, ◌⊎◌,
  inl, inr, Bool, true, false, not, ◌&&◌, ◌||◌, Option, none, some, List, [], ◌∷◌, ◌++◌, map, arith,
  ◌==◌, eq_iff, eq_refl, ltb, leb, eqb, if◌then◌else◌, leb→le, ltb→lt, eqb_iff, Bool-cases,
  Option-cases, or_else, is_some, get_or, ne→false, length, is_nil, keep_if, any_of, all_of,
  first_where, All, contains, Distinct,
}
use ha_sophos_fw.Prelude.Dict
use ha_sophos_fw.Prelude.Dict.{Dict}
use ha_sophos_fw.Text
use ha_sophos_fw.Text.{is_space, lstrip, strip, lower, is_digit, non_empty}
use ha_sophos_fw.Models.Snmp.{DeviceInfo, SystemStats, VpnTunnel, HaStatus, SystemHealth}

-- A value as `_py` gives it: none for an object that does not exist, or an integer, a duration in
-- hundredths of a second, or a text.
pub data Raw : Type 0 where
  missing : Raw
  integer : ℕ → Raw
  duration : ℕ → Raw
  text : String → Raw

abbrev pub placeholders : List String
placeholders = "not available" ∷ "n/a" ∷ "na" ∷ "fail" ∷ "unknown" ∷ "none" ∷ "-" ∷ []

until_space : String → String
until_space String.[] = String.[]
until_space (String.◌∷◌ c s) =
    let rest = until_space s in if is_space c then String.[] else String.◌∷◌ c rest

-- `int(str(v).split()[0])`
read_word : String → Option ℕ
read_word w = if is_digit w then some (Text.number w) else none

-- `show` is `str` of an integer or a duration.
module _ (show : Raw → String) where
  unfoldable pub to_int : Raw → Option ℕ
  unfolding read_word until_space
  to_int missing = none
  to_int (integer n) = some n
  to_int (duration n) = read_word (until_space (lstrip (show (duration n))))
  to_int (text s) = read_word (until_space (lstrip s))

  unfoldable pub to_str : Raw → Option String
  to_str missing = none
  to_str (text s) = non_empty (strip s)
  to_str v = non_empty (strip (show v))

  known : Option String → Option String
  known none = none
  known (some s) = if contains placeholders (lower s) then none else some s

  unfoldable pub to_value_str : Raw → Option String
  unfolding known
  to_value_str v = known (to_str v)

  hundredths : Option ℕ → Option ℕ
  hundredths none = none
  hundredths (some n) = some (n / 100)

  unfoldable pub timeticks_to_seconds : Raw → Option ℕ
  unfolding hundredths
  timeticks_to_seconds missing = none
  timeticks_to_seconds (duration n) = some (n / 100)
  timeticks_to_seconds v = hundredths (to_int v)

  positive : Option ℕ → Option ℕ
  positive none = none
  positive (some n) = if ltb 0 n then some n else none

  -- In tenths of °C.
  unfoldable pub tenths_to_celsius : Raw → Option ℕ
  unfolding positive
  tenths_to_celsius v = positive (to_int v)
