-- ===== src/ConfigFlow/Steps.antt =====
-- The four steps that set up an entry (config_flow.py: SophosFirewallConfigFlow.async_step_user,
-- async_step_snmp, async_step_write_access, async_step_polling).
pub mod Laws
pub mod Progress
use ha_sophos_fw.Prelude.{
  ℕ, zero, suc, ◌+◌, ◌-◌, ◌*◌, ◌/◌, ◌%◌, ◌≤◌, ◌<◌, String, ◌≡◌, refl, sym, ap, ◌∙◌, ◌≢◌, ◌↔◌, ◌⊎◌,
  inl, inr, Bool, true, false, not, ◌&&◌, ◌||◌, Option, none, some, List, [], ◌∷◌, ◌++◌, map, arith,
  ◌==◌, eq_iff, eq_refl, ltb, leb, eqb, if◌then◌else◌, leb→le, ltb→lt, eqb_iff, Bool-cases,
  Option-cases, or_else, is_some, get_or, ne→false, length, is_nil, keep_if, any_of, all_of,
  first_where, All, contains, Distinct,
}
use ha_sophos_fw.Prelude.Dict
use ha_sophos_fw.Prelude.Dict.{Dict}
use ha_sophos_fw.Text.{append}
use ha_sophos_fw.ConfigFlow.{Value, text, number, flag, polling_sections, filled, flatten}
use ha_sophos_fw.ConfigFlow.Checks.{
  FlowError, XmlAttempt, SnmpAttempt, test_xml_connection, test_snmp_connection,
}

-- The input of the first form; its schema requires every field.
pub record Connection : Type 0 where
  pub host : String
  pub port : ℕ
  pub username : String
  pub password : String
  pub verify_ssl : Bool

unfoldable pub settings_of : Connection → Dict Value
settings_of c =
    ("host", text c.host)
    ∷ ("port", number c.port)
    ∷ ("username", text c.username)
    ∷ ("password", text c.password)
    ∷ ("verify_ssl", flag c.verify_ssl)
    ∷ []

pub record SnmpInput : Type 0 where
  pub snmp_enabled : Bool
  pub snmp_community : String

unfoldable pub snmp_settings : SnmpInput → Dict Value
snmp_settings i =
    ("snmp_enabled", flag i.snmp_enabled) ∷ ("snmp_community", text i.snmp_community) ∷ []

-- The form that is shown, and what its user enters; for the last one, a value for each field.
pub data Step : Type 0 where
  user snmp write_access polling : Step

abbrev pub Input : Step → Type 0
Input user = Connection
Input snmp = SnmpInput
Input write_access = Bool
Input polling = String → Value

-- A connection test that was made, with its settings and its end.
pub data Test : Type 0 where
  xml_test : Dict Value → XmlAttempt → Test
  snmp_test : String → String → SnmpAttempt → Test

-- The flow's fields, and the tests so far, the last one first. `unique_id` is none before it is set.
pub record Flow : Type 0 where
  pub connection : Option Connection
  pub options : Dict Value
  pub unique_id : Option String
  pub tests : List Test

-- What Home Assistant and the firewall answer during a step; `in_progress` tells whether another flow has
-- the unique id.
pub record Surroundings : Type 0 where
  pub entry_with : String → ℕ → Bool
  pub in_progress : String → Bool
  pub entry_with_id : String → Bool
  pub try_xml : Dict Value → XmlAttempt
  pub try_snmp : String → String → SnmpAttempt

-- A form with the error it shows, the flow aborted since the firewall is configured already or another
-- flow does it, or an entry with its title, data, options and unique id. A KeyError stands for a step before the first one.
pub data Outcome : Type 0 where
  form : Step → Option FlowError → Flow → Outcome
  already_configured already_in_progress : Outcome
  created : String → Dict Value → Dict Value → Option String → List Test → Outcome
  key_error : Outcome

unfoldable pub start : Outcome
start = form user none (record { connection = none; options = []; unique_id = none; tests = [] })

-- `show` is `str` of a number.
module _ (show : ℕ → String) where
  unfoldable pub address : Connection → String
  address c = append c.host (append ":" (show c.port))

  connected : Surroundings → Connection → Flow → Option FlowError → Outcome
  unfolding address
  connected s c f (some e) = form user (some e) f
  connected s c f none =
      if s.in_progress (address c)
      then already_in_progress
      else if s.entry_with_id (address c)
      then already_configured
      else form snmp none (record f { connection = some c; unique_id = some (address c) })

  unfoldable pub step_user : Surroundings → Connection → Flow → Outcome
  unfolding connected settings_of
  step_user s c f =
      let attempt = s.try_xml (settings_of c) in
      if s.entry_with c.host c.port
      then already_configured
      else connected s c (record f { tests = xml_test (settings_of c) attempt ∷ f.tests })
          (test_xml_connection attempt)

snmp_done : SnmpInput → Flow → Option FlowError → Outcome
unfolding snmp_settings
snmp_done i f (some e) = form snmp (some e) f
snmp_done i f none =
    form write_access none (record f { options = Dict.update f.options (snmp_settings i) })

unfoldable pub step_snmp : Surroundings → SnmpInput → Flow → Option Connection → Outcome
unfolding snmp_done
step_snmp s i f none = key_error
step_snmp s i f (some c) =
    let attempt = s.try_snmp c.host i.snmp_community in
    if i.snmp_enabled
    then snmp_done i (record f { tests = snmp_test c.host i.snmp_community attempt ∷ f.tests })
        (test_snmp_connection attempt)
    else snmp_done i f none

unfoldable pub step_write_access : Bool → Flow → Outcome
step_write_access allowed f =
    form polling none (record f { options = Dict.put "write_access" (flag allowed) f.options })

abbrev pub is_on : Option Value → Bool
is_on (some (flag b)) = b
is_on v = false

-- The last form's sections depend on the option of the second.
unfoldable pub step_polling : (String → Value) → Flow → Option Connection → Outcome
step_polling value f none = key_error
step_polling value f (some c) =
    let sections =
      polling_sections (is_on (Dict.get "snmp_enabled" f.options)) (λ key default. default) in
    created c.host (settings_of c) (Dict.update f.options (flatten (filled value sections)))
      f.unique_id f.tests

module _ (show : ℕ → String) where
  unfoldable pub submit : Surroundings → (s : Step) → Input s → Flow → Outcome
  unfolding step_user step_snmp step_write_access step_polling
  submit s user c f = step_user show s c f
  submit s snmp i f = step_snmp s i f f.connection
  submit s write_access allowed f = step_write_access allowed f
  submit s polling value f = step_polling value f f.connection

  -- The outcomes that a flow reaches: each form may be submitted with any input, while Home Assistant and
  -- the firewall answer anything.
  pub data Reached : Outcome → Type 0 where
    begin : Reached start
    next :
        {s : Step} {e : Option FlowError} {f : Flow}
        → Reached (form s e f)
        → (around : Surroundings) (input : Input s) → Reached (submit around s input f)
