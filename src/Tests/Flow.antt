-- ===== src/Tests/Flow.antt =====
-- A flow that sets up an entry, changes of its connection, and its options.
use ha_sophos_fw.Prelude.{
  ℕ, String, ◌≡◌, refl, ap, ◌⊎◌, inr, Bool, true, false, not, none, some, List, [], ◌∷◌, ◌==◌,
  if◌then◌else◌, or_else, contains,
}
use ha_sophos_fw.Prelude.Dict
use ha_sophos_fw.Prelude.Dict.{Dict}
use ha_sophos_fw.Client.Errors.{ok}
use ha_sophos_fw.ConfigFlow.{
  Value, text, number, flag, Field, plain, polling_sections, filled, flatten, field_keys,
  get-flatten,
}
use ha_sophos_fw.ConfigFlow.Checks.{ended, answered, test_xml_connection, test_snmp_connection}
use ha_sophos_fw.ConfigFlow.Steps.{
  Connection, settings_of, SnmpInput, Flow, Surroundings, Outcome, Test, address, created, form,
  start, submit, Reached, begin, next, user,
}
use ha_sophos_fw.ConfigFlow.Steps.Progress.{fill_times, created_from_start}
use ha_sophos_fw.ConfigFlow.Steps.Laws.{Sound, Reached-Sound}
use ha_sophos_fw.ConfigFlow.Changes.{
  Entry, Changed, apply, same_dict, same_option, done, update_and_finish, reconfigure, changes,
  titled, is_loaded, update_entry, update_listener,
}
use ha_sophos_fw.ConfigFlow.Changes.Laws.{InStep, update_and_finish_once}
use ha_sophos_fw.ConfigFlow.Options.{
  step_init, stored, step_init_stored, is_set, needs_test, snmp_changed,
}

abbrev values : String → Value
values key = if key == "interval_fast" then number 90 else flag true

abbrev sections : List (String × List Field)
sections = polling_sections false (λ key default. default)

get-flatten_example : Dict.get "interval_fast" (flatten (filled values sections)) ≡ (
    if contains (field_keys sections) "interval_fast" then some (values "interval_fast") else none)
get-flatten_example = get-flatten values sections "interval_fast"

abbrev show_port : ℕ → String
show_port n = "4444"

abbrev around : Surroundings
around = record {
  entry_with = λ host port. false;
  in_progress = λ id. false;
  entry_with_id = λ id. false;
  try_xml = λ settings. ended (ok "fw");
  try_snmp = λ host community. answered;
}

abbrev home : Connection
home = record {
  host = "10.0.0.1";
  port = 4444;
  username = "api";
  password = "secret";
  verify_ssl = false;
}

abbrev community : SnmpInput
community = record { snmp_enabled = true; snmp_community = "public" }

abbrev blank : Flow
blank = record { connection = none; options = []; unique_id = none; tests = [] }

abbrev tested : Outcome
tested = submit show_port around user home blank

begun : Reached show_port (form user none blank)
unfolding start
begun = begin

Reached-Sound_example : Sound show_port tested
Reached-Sound_example = Reached-Sound show_port tested (next begun around home)

xml_passes : test_xml_connection (around.try_xml (settings_of home)) ≡ none
unfolding test_xml_connection
xml_passes = refl

snmp_passes : test_snmp_connection (around.try_snmp home.host community.snmp_community) ≡ none
unfolding test_snmp_connection
snmp_passes = refl

created_from_start_example :
    (options : Dict Value) × (tests : List Test) × (fill_times show_port around home 4 community
        true values start
      ≡ created home.host (settings_of home) options (some (address show_port home)) tests)
created_from_start_example =
    created_from_start show_port around home community true values refl refl refl xml_passes
      snmp_passes

abbrev entry : Entry
entry = record {
  entry_id = "abc";
  title = "10.0.0.9";
  settings = ("host", text "10.0.0.9") ∷ ("port", number 4444) ∷ ("password", text "old") ∷ [];
  options = [];
  unique_id = some "10.0.0.9:4444";
  loaded_with =
      some (("host", text "10.0.0.9") ∷ ("port", number 4444) ∷ ("password", text "old") ∷ [], []);
}

abbrev fires : Entry → Entry → Bool
fires e f = not (same_dict f.settings e.settings)

calls : (e f : Entry) → same_dict f.settings e.settings ≡ false → fires e f ≡ true
calls e f h = ap not h

abbrev in_step : InStep entry
in_step = unfold InStep in inr refl

-- The same password again.
abbrev unchanged : Changed
unchanged = record { settings = entry.settings; title = none; unique_id = none }

update_and_finish_once_example :
    update_and_finish fires entry unchanged ≡ done (apply unchanged entry) 1
update_and_finish_once_example = update_and_finish_once fires calls entry unchanged in_step

abbrev new_settings : Changed
new_settings = record {
  settings = Dict.update entry.settings (settings_of home);
  title = some "10.0.0.1";
  unique_id = some "10.0.0.1:4444";
}

abbrev after : Entry
after = apply new_settings entry

reconfigured : reconfigure fires show_port around.try_xml [] entry home ≡ done after 1
unfolding reconfigure changes titled test_xml_connection update_and_finish is_loaded update_entry
    update_listener apply same_dict settings_of Dict.get Dict.update Dict.put
reconfigured = refl

abbrev stored_options : Dict Value
stored_options = Dict.update [] (flatten (("snmp_enabled", plain (flag false)) ∷ []))

saved :
    step_init [] (λ community. answered) (("snmp_enabled", plain (flag false)) ∷ [])
    ≡ stored stored_options
unfolding step_init needs_test snmp_changed flatten Dict.get Dict.put
saved = refl

step_init_stored_example :
    ((key : String)
      → Dict.get key stored_options
        ≡ or_else
            (Dict.get key (flatten (("snmp_enabled", plain (flag false)) ∷ [])))
            (Dict.get key []))
    × (let community =
          Dict.get "snmp_community" (flatten (("snmp_enabled", plain (flag false)) ∷ [])) in
        (is_set (Dict.get "snmp_enabled" (flatten (("snmp_enabled", plain (flag false)) ∷ [])))
          ≡ false)
        ⊎ (test_snmp_connection answered ≡ none)
        ⊎ ((is_set (Dict.get "snmp_enabled" []) ≡ true)
            × (same_option community (Dict.get "snmp_community" []) ≡ true)))
step_init_stored_example =
    step_init_stored [] (λ community. answered) (("snmp_enabled", plain (flag false)) ∷ [])
      stored_options saved
