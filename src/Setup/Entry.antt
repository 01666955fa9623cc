-- ===== src/Setup/Entry.antt =====
-- Setting up a config entry (__init__.py: async_setup_entry, _remove_backup_button) and what is left
-- when it is unloaded or fails.
use ha_sophos_fw.Prelude.{
  ℕ, ◌+◌, ◌-◌, String, ◌≡◌, Bool, true, false, ◌&&◌, List, [], ◌∷◌, arith, if◌then◌else◌,
}
use ha_sophos_fw.Setup.UniqueIds.{RegEntry}
use ha_sophos_fw.Platform.{remove_entities}
use ha_sophos_fw.Issues.{IssueRegistry, clear_issue, snmp_unreachable}

-- `_remove_backup_button`
unfoldable pub remove_backup_button : String → List RegEntry → List RegEntry
remove_backup_button entry_id registry =
    remove_entities entry_id "button" ("button_backup" ∷ []) registry

-- How the first refresh of the admin settings ends.
pub data FirstRefresh : Type 0 where
  refreshed not_ready auth_failed cancelled : FirstRefresh

abbrev pub is_refreshed : FirstRefresh → Bool
is_refreshed refreshed = true
is_refreshed failure = false

-- What the setup depends on: the option, and how the calls of others end.
pub record Conditions : Type 0 where
  pub snmp_enabled : Bool
  pub first_refresh : FirstRefresh
  pub preloads : Bool
  pub platforms_load : Bool

-- The callbacks given to `async_on_unload`.
pub data Cleanup : Type 0 where
  close_session drop_close_listener drop_xml_listener drop_snmp_listener : Cleanup
  drop_update_listener : Cleanup

-- The background tasks.
pub data Task : Type 0 where
  xml_initial_refresh snmp_first_refresh : Task

-- What the entry holds: the session, the listeners of Home Assistant's close event, of the coordinators
-- and of the entry's updates, and the callbacks to run on unload, the last one first.
pub record Held (R : Type 0) : Type 0 where
  pub session_open : Bool
  pub close_listeners : ℕ
  pub xml_listeners : ℕ
  pub snmp_listeners : ℕ
  pub update_listeners : ℕ
  pub on_unload : List Cleanup
  pub tasks : List Task
  pub has_snmp : Bool
  pub issues : R

pub data Outcome : Type 0 where
  set_up platforms_failed : Outcome
  failed : FirstRefresh → Outcome

module _ {R : Type 0} (registry : IssueRegistry R) (entry_id : String) where
  unfoldable pub opened : R → Held R
  opened issues = record {
    session_open = true;
    close_listeners = 1;
    xml_listeners = 0;
    snmp_listeners = 0;
    update_listeners = 0;
    on_unload = drop_close_listener ∷ close_session ∷ [];
    tasks = [];
    has_snmp = false;
    issues = issues;
  }

  -- The SNMP coordinator, which is there if SNMP is on and its client could be initialised.
  unfoldable pub with_snmp : Bool → Held R → Held R
  with_snmp usable h =
      if usable
      then record h { has_snmp = true }
      else record h { issues = clear_issue registry entry_id snmp_unreachable h.issues }

  unfoldable pub start_xml : Held R → Held R
  start_xml h = record h {
    xml_listeners = h.xml_listeners + 1;
    on_unload = drop_xml_listener ∷ h.on_unload;
    tasks = xml_initial_refresh ∷ h.tasks;
  }

  unfoldable pub start_snmp : Held R → Held R
  start_snmp h =
      if h.has_snmp
      then record h {
        snmp_listeners = h.snmp_listeners + 1;
        on_unload = drop_snmp_listener ∷ h.on_unload;
        tasks = snmp_first_refresh ∷ h.tasks;
      }
      else h

  unfoldable pub listen_updates : Held R → Held R
  listen_updates h = record h {
    update_listeners = h.update_listeners + 1;
    on_unload = drop_update_listener ∷ h.on_unload;
  }

  unfoldable pub after_refresh : Conditions → Held R → Held R × Outcome
  unfolding with_snmp start_xml start_snmp listen_updates
  after_refresh c h =
      let usable = c.snmp_enabled && c.preloads in
      (
        listen_updates (start_snmp (start_xml (with_snmp usable h))),
        if c.platforms_load then set_up else platforms_failed,
      )

  refresh_first : Conditions → FirstRefresh → Held R → Held R × Outcome
  unfolding after_refresh
  refresh_first c refreshed h = after_refresh c h
  refresh_first c failure h = (record h { session_open = false }, failed failure)

  -- `async_setup_entry`
  unfoldable pub setup_entry : Conditions → R → Held R × Outcome
  unfolding opened refresh_first
  setup_entry c issues = refresh_first c c.first_refresh (opened issues)

module _ {R : Type 0} where
  unfoldable pub clean_up : Cleanup → Held R → Held R
  clean_up close_session h = record h { session_open = false }
  clean_up drop_close_listener h = record h { close_listeners = h.close_listeners - 1 }
  clean_up drop_xml_listener h = record h { xml_listeners = h.xml_listeners - 1 }
  clean_up drop_snmp_listener h = record h { snmp_listeners = h.snmp_listeners - 1 }
  clean_up drop_update_listener h = record h { update_listeners = h.update_listeners - 1 }

  clean_all : List Cleanup → Held R → Held R
  unfolding clean_up
  clean_all [] h = h
  clean_all (c ∷ cs) h = clean_all cs (clean_up c h)

  -- Home Assistant runs the callbacks when the entry is unloaded, and after a failed setup.
  unfoldable pub unload : Held R → Held R
  unfolding clean_all
  unload h = record (clean_all h.on_unload h) { on_unload = [] }

  -- Nothing stays open or listens.
  pub record IsReleased (h : Held R) : Type 0 where
    pub closed : h.session_open ≡ false
    pub no_close_listeners : h.close_listeners ≡ 0
    pub no_xml_listeners : h.xml_listeners ≡ 0
    pub no_snmp_listeners : h.snmp_listeners ≡ 0
    pub no_update_listeners : h.update_listeners ≡ 0

module _ {R : Type 0} (registry : IssueRegistry R) (entry_id : String) where
  by_refresh :
      (c : Conditions) (first : FirstRefresh) (issues : R)
      → IsReleased
          (unload (refresh_first registry entry_id c first (opened registry entry_id issues)).0)
        × ((refresh_first registry entry_id c first
              (opened registry entry_id issues)).0.session_open
            ≡ is_refreshed first)
  unfolding refresh_first after_refresh with_snmp start_xml start_snmp listen_updates opened unload
      clean_all clean_up
  by_refresh c refreshed issues = ground arith
  by_refresh c not_ready issues = ground arith
  by_refresh c auth_failed issues = ground arith
  by_refresh c cancelled issues = ground arith

  optional :
      (c : Conditions) (enabled : Bool) (first : FirstRefresh) (issues : R)
      → ((refresh_first registry entry_id c first (opened registry entry_id issues)).1
          ≡ (refresh_first registry entry_id
              (record c { snmp_enabled = enabled })
              first
              (opened registry entry_id issues)).1)
        × (refresh_first registry entry_id
              (record c { preloads = false })
              first
              (opened registry entry_id issues)
            ≡ refresh_first registry entry_id
                (record c { snmp_enabled = false })
                first
                (opened registry entry_id issues))
  unfolding refresh_first after_refresh with_snmp start_xml start_snmp listen_updates opened
  optional c enabled refreshed issues = ground arith
  optional c enabled not_ready issues = ground arith
  optional c enabled auth_failed issues = ground arith
  optional c enabled cancelled issues = ground arith

  -- However the setup ends, running the callbacks releases the session and every listener. The session
  -- is open after the setup exactly if the first refresh succeeded: a setup that fails there has closed
  -- it itself.
  pub setup_entry-IsReleased :
      (c : Conditions) (issues : R)
      → IsReleased (unload (setup_entry registry entry_id c issues).0)
        × ((setup_entry registry entry_id c issues).0.session_open ≡ is_refreshed c.first_refresh)
  unfolding setup_entry
  setup_entry-IsReleased c issues = by_refresh c c.first_refresh issues

  -- SNMP never decides how the setup ends, and if its client cannot be initialised the entry is set up
  -- as with SNMP switched off.
  pub setup_entry_without_snmp :
      (c : Conditions) (enabled : Bool) (issues : R)
      → ((setup_entry registry entry_id c issues).1
          ≡ (setup_entry registry entry_id (record c { snmp_enabled = enabled }) issues).1)
        × (setup_entry registry entry_id (record c { preloads = false }) issues
            ≡ setup_entry registry entry_id (record c { snmp_enabled = false }) issues)
  unfolding setup_entry
  setup_entry_without_snmp c enabled issues = optional c enabled c.first_refresh issues
