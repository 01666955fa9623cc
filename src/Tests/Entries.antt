-- ===== src/Tests/Entries.antt =====
-- Setting up entries, and their repair issues in a registry that is a dict.
use ha_sophos_fw.Prelude.{◌≡◌, refl, true, false, none, some, List, [], ◌∷◌, is_some}
use ha_sophos_fw.Prelude.Dict
use ha_sophos_fw.Prelude.Dict.{Dict, get-put, get-pop}
use ha_sophos_fw.Issues.{
  Issue, IssueRegistry, Entry, snmp_unreachable, issue_id, Event, raises, sets_up, changes_state,
  run,
}
use ha_sophos_fw.Issues.Laws.{tell_all, stands-run}
use ha_sophos_fw.Setup.Entry.{
  Conditions, not_ready, IsReleased, unload, setup_entry, setup_entry-IsReleased,
}

-- A dict fulfils what is asked of the registry.
abbrev registry : IssueRegistry (Dict Issue)
registry = record {
  find = Dict.get;
  create = Dict.put;
  delete = Dict.pop;
  find-create = get-put;
  find-delete = get-pop;
}

abbrev home : Entry
home = record { entry_id = "e1"; title = "Home"; host = some "192.0.2.1" }

abbrev other : Entry
other = record { entry_id = "e2"; title = "Office"; host = none }

-- The entry that is disabled loses its issue.
abbrev history : List Event
history =
    sets_up "e1"
    ∷ raises home snmp_unreachable []
    ∷ raises other snmp_unreachable []
    ∷ changes_state "e1" true
    ∷ []

stands-run_example :
    is_some (
      Dict.get
        (issue_id snmp_unreachable "e1")
        (run registry history (record { contents = []; watched = []; listening = [] })).contents)
    ≡ (tell_all snmp_unreachable "e1" history
        (record { stands = false; was_set_up = false })).stands
unfolding Dict.get
stands-run_example = stands-run registry snmp_unreachable "e1" history [] refl

abbrev unreachable : Conditions
unreachable = record {
  snmp_enabled = true;
  first_refresh = not_ready;
  preloads = true;
  platforms_load = true;
}

setup_entry-IsReleased_example :
    IsReleased (unload (setup_entry registry "e1" unreachable []).0)
    × ((setup_entry registry "e1" unreachable []).0.session_open ≡ false)
setup_entry-IsReleased_example = setup_entry-IsReleased registry "e1" unreachable []
