-- ===== src/ConfigFlow/Options.antt =====
-- The options flow (config_flow.py: SophosOptionsFlow.async_step_init).
use ha_sophos_fw.Prelude.{
  String, ◌≡◌, refl, sym, ap, ◌∙◌, ◌⊎◌, Bool, true, false, not, ◌&&◌, ◌||◌, Option, none, some, ◌∷◌,
  arith, ◌==◌, ltb, if◌then◌else◌, or_else,
}
use ha_sophos_fw.Prelude.Dict
use ha_sophos_fw.Prelude.Dict.{Dict, get-update}
use ha_sophos_fw.ConfigFlow.{
  Value, text, number, flag, Item, plain, polling_sections, filled, flatten, flatten-Distinct,
}
use ha_sophos_fw.ConfigFlow.Checks.{FlowError, SnmpAttempt, test_snmp_connection}
use ha_sophos_fw.ConfigFlow.Changes.{same_option}

-- What the form gives back, with a value for each field; every source is shown.
unfoldable pub entered : (String → Value) → Dict Item
entered value =
    ("snmp_enabled", plain (value "snmp_enabled"))
    ∷ ("snmp_community", plain (value "snmp_community"))
    ∷ ("write_access", plain (value "write_access"))
    ∷ filled value (polling_sections true (λ key default. default))

-- The truth of an option that may be missing.
abbrev pub is_set : Option Value → Bool
is_set none = false
is_set (some (flag b)) = b
is_set (some (text s)) = not (s == "")
is_set (some (number n)) = ltb 0 n

-- `not options.get(snmp_enabled) or flat[snmp_community] != options.get(snmp_community)`
unfoldable pub snmp_changed : Dict Value → Dict Value → Bool
snmp_changed options flat =
    not (is_set (Dict.get "snmp_enabled" options))
    || not (same_option (Dict.get "snmp_community" flat) (Dict.get "snmp_community" options))

unfoldable pub needs_test : Dict Value → Dict Value → Bool
unfolding snmp_changed
needs_test options flat = is_set (Dict.get "snmp_enabled" flat) && snmp_changed options flat

pub data Shown : Type 0 where
  form_again : FlowError → Shown
  stored : Dict Value → Shown

store : Dict Value → Dict Value → Option FlowError → Shown
store options flat (some e) = form_again e
store options flat none = stored (Dict.update options flat)

-- `async_step_init` with an input: the old options, how a test of SNMP with the community ends.
unfoldable pub step_init : Dict Value → (Option Value → SnmpAttempt) → Dict Item → Shown
unfolding needs_test store
step_init options try_snmp input =
    let flat = flatten input in
    store options flat (
      if needs_test options flat
      then test_snmp_connection (try_snmp (Dict.get "snmp_community" flat))
      else none)

stored_of :
    (options flat after : Dict Value) (o : Option FlowError)
    → store options flat o ≡ stored after
    → (o ≡ none) × (Dict.update options flat ≡ after)
unfolding store
stored_of options flat after (some e) h = absurd (cc h)
stored_of options flat after none h = (refl, cc h)

-- Options are stored only with a community that the firewall answers to: SNMP is off in the input, or a
-- test with the entered community passed, or SNMP was on before with the same community. Then every field
-- of the form has the entered value, and every other option is kept.
pub step_init_stored :
    (options : Dict Value) (try_snmp : Option Value → SnmpAttempt) (input : Dict Item)
    (after : Dict Value)
    → step_init options try_snmp input ≡ stored after
    → ((key : String)
        → Dict.get key after ≡ or_else (Dict.get key (flatten input)) (Dict.get key options))
      × (let community = Dict.get "snmp_community" (flatten input) in
          (is_set (Dict.get "snmp_enabled" (flatten input)) ≡ false)
          ⊎ (test_snmp_connection (try_snmp community) ≡ none)
          ⊎ ((is_set (Dict.get "snmp_enabled" options) ≡ true)
              × (same_option community (Dict.get "snmp_community" options) ≡ true)))
unfolding step_init needs_test snmp_changed
step_init_stored options try_snmp input after h =
    let (passed, same) = stored_of options (flatten input) after _ h in
    (
      λ key.
          ap (Dict.get key) (sym same)
          ∙ get-update options (flatten input) key (flatten-Distinct input),
      ground (arith, passed),
    )
