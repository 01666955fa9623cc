-- ===== src/Sensor/States.antt =====
-- Sensors whose state is one of a list (sensor.py: _enum_state, _code_state, the web filter's default
-- action, the backup frequency, the DHCP servers, the cluster's roles, services and licenses).
pub mod Laws
pub mod Options
use ha_sophos_fw.Prelude.{
  ℕ, zero, suc, ◌+◌, ◌-◌, ◌*◌, ◌/◌, ◌%◌, ◌≤◌, ◌<◌, String, ◌≡◌, refl, sym, ap, ◌∙◌, ◌≢◌, ◌↔◌, ◌⊎◌,
  inl, inr, Bool, true, false, not, ◌&&◌, ◌||◌, Option, none, some, List, [], ◌∷◌, ◌++◌, map, arith,
  ◌==◌, eq_iff, eq_refl, ltb, leb, eqb, if◌then◌else◌, leb→le, ltb→lt, eqb_iff, Bool-cases,
  Option-cases, or_else, is_some, get_or, ne→false, length, is_nil, keep_if, any_of, all_of,
  first_where, All, contains, Distinct,
}
use ha_sophos_fw.Prelude.Dict
use ha_sophos_fw.Prelude.Dict.{Dict}
use ha_sophos_fw.Text.{strip, lower, has_part}
use ha_sophos_fw.Models.Xml.{XmlData, WebFilterPolicy, BackupSettings, DhcpServer}
use ha_sophos_fw.Models.Snmp.{SnmpData, License, HaStatus}

-- `_unknown_logged`, and the warnings given so far.
pub record Log : Type 0 where
  pub seen : List (String × String)
  pub warnings : List (String × String)

abbrev pub same_pair : String × String → String × String → Bool
same_pair (a, b) (c, d) = a == c && b == d

abbrev pub has_pair : List (String × String) → String × String → Bool
has_pair l p = any_of (same_pair p) l

-- What is logged of a value that no state stands for.
unfoldable pub warn : String → String → Log → Log
warn key value l =
    if has_pair l.seen (key, value)
    then l
    else record { seen = (key, value) ∷ l.seen; warnings = l.warnings ++ (key, value) ∷ [] }

-- `_enum_state`
unfoldable pub enum_state : String → Option String → List String → Log → Option String × Log
unfolding warn
enum_state key none options l = (none, l)
enum_state key (some value) options l =
    let state = lower (strip value) in
    if contains options state then (some state, l) else (none, warn key value l)

abbrev pub nth : ℕ → List String → Option String
nth n [] = none
nth n (s ∷ ss) = let rest = nth (n - 1) ss in if eqb n 0 then some s else rest

-- `_code_state`; `show` is `str` of a number.
unfoldable pub code_state :
    (ℕ → String) → String → Option ℕ → List String → Log → Option String × Log
unfolding enum_state
code_state show key none states l = (none, l)
code_state show key (some code) states l =
    if ltb code (length states)
    then (nth code states, l)
    else enum_state key (some (show code)) [] l

abbrev pub web_filter_actions : List String
web_filter_actions = "allow" ∷ "deny" ∷ []

abbrev pub backup_frequencies : List String
backup_frequencies = "never" ∷ "daily" ∷ "weekly" ∷ "monthly" ∷ []

abbrev pub service_states : List String
service_states =
    "untouched" ∷ "stopped" ∷ "initializing" ∷ "running" ∷ "exiting" ∷ "dead" ∷ "frozen"
    ∷ "unregistered" ∷ []

abbrev pub license_states : List String
license_states =
    "none" ∷ "evaluating" ∷ "not_subscribed" ∷ "subscribed" ∷ "expired" ∷ "deactivated" ∷ []

abbrev pub values {ℓ} : {V : Type ℓ} → Dict V → List V
values = map (λ e. e.1)

is_default : WebFilterPolicy → Bool
is_default p = has_part "default" (lower p.name)

action_of : List WebFilterPolicy → Log → Option String × Log
unfolding is_default
action_of [] l = (none, l)
action_of (p ∷ ps) l =
    let policy = get_or (first_where is_default (p ∷ ps)) p in
    enum_state "web_filter_default_action" policy.default_action web_filter_actions l

-- `_default_web_filter_action`
unfoldable pub default_web_filter_action : XmlData → Log → Option String × Log
unfolding action_of
default_web_filter_action d = action_of (values (get_or d.web_filter_policies []))

frequency_of : Option BackupSettings → Option String
frequency_of none = none
frequency_of (some b) = b.frequency

-- `_backup_frequency`
unfoldable pub backup_frequency : XmlData → Log → Option String × Log
unfolding frequency_of
backup_frequency d = enum_state "backup_frequency" (frequency_of d.backup) backup_frequencies

on_off : Option Bool → Option String
on_off none = none
on_off (some true) = some "on"
on_off (some false) = some "off"

running_of : Option DhcpServer → Option Bool
running_of none = none
running_of (some s) = s.running

-- `SophosDHCPLeaseSensor.native_value` of the server with the name.
unfoldable pub dhcp_state : XmlData → String → Option String
unfolding on_off running_of
dhcp_state d name = on_off (running_of (Dict.get name (get_or d.dhcp_servers [])))

-- `_HA_STATE_MAP.get(code)`
unfoldable pub ha_state : Option ℕ → Option String
ha_state none = none
ha_state (some code) =
    nth code ("not_applicable" ∷ "auxiliary" ∷ "standalone" ∷ "primary" ∷ "faulty" ∷ "ready" ∷ [])

-- `_SophosHAStateBase._code` of one of the two fields.
unfoldable pub ha_code : (HaStatus → Option ℕ) → SnmpData → Option ℕ
ha_code field d = elim d.ha [ none ↦ none | some h ↦ field h ]

code_of : Option (Option ℕ) → Option ℕ
code_of none = none
code_of (some code) = code

status_of : Option License → Option ℕ
status_of none = none
status_of (some l) = l.status_code

-- `SophosServiceSensor.native_value` and `SophosLicenseSensor.native_value`; `name` is the text of the
-- key with its prefix.
unfoldable pub service_state :
    (ℕ → String) → (String → String) → SnmpData → String → Log → Option String × Log
unfolding code_of
service_state show name d key =
    code_state show (name key) (code_of (Dict.get key (get_or d.services []))) service_states

unfoldable pub license_state :
    (ℕ → String) → (String → String) → SnmpData → String → Log → Option String × Log
unfolding status_of
license_state show name d key =
    code_state show (name key) (status_of (Dict.get key (get_or d.licenses []))) license_states
