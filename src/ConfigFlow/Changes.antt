-- ===== src/ConfigFlow/Changes.antt =====
-- Changing an entry's connection (config_flow.py: async_step_reauth_confirm, async_step_reconfigure,
-- _async_update_and_finish) and the update listener that reloads it (__init__.py: _settings,
-- _async_update_listener).
pub mod Laws
use ha_sophos_fw.Prelude.{
  ℕ, zero, suc, ◌+◌, ◌-◌, ◌*◌, ◌/◌, ◌%◌, ◌≤◌, ◌<◌, String, ◌≡◌, refl, sym, ap, ◌∙◌, ◌≢◌, ◌↔◌, ◌⊎◌,
  inl, inr, Bool, true, false, not, ◌&&◌, ◌||◌, Option, none, some, List, [], ◌∷◌, ◌++◌, map, arith,
  ◌==◌, eq_iff, eq_refl, ltb, leb, eqb, if◌then◌else◌, leb→le, ltb→lt, eqb_iff, Bool-cases,
  Option-cases, or_else, is_some, get_or, ne→false, length, is_nil, keep_if, any_of, all_of,
  first_where, All, contains, Distinct,
}
use ha_sophos_fw.Prelude.Dict
use ha_sophos_fw.Prelude.Dict.{Dict}
use ha_sophos_fw.Text.{append}
use ha_sophos_fw.ConfigFlow.{Value, text, number, flag}
use ha_sophos_fw.ConfigFlow.Checks.{FlowError, XmlAttempt, test_xml_connection}
use ha_sophos_fw.ConfigFlow.Steps.{Connection, settings_of}

abbrev pub same_value : Value → Value → Bool
same_value (text s) (text t) = s == t
same_value (number m) (number n) = eqb m n
same_value (flag b) (flag c) = (b && c) || (not b && not c)
same_value v w = false

abbrev pub same_option : Option Value → Option Value → Bool
same_option none none = true
same_option (some v) (some w) = same_value v w
same_option o p = false

-- `a == b` of two dicts: the same keys with the same values.
unfoldable pub same_dict : Dict Value → Dict Value → Bool
same_dict a b = all_of (λ k. same_option (Dict.get k a) (Dict.get k b)) (Dict.keys a ++ Dict.keys b)

-- A config entry; `settings` is its data, and `loaded_with` are the settings that it was set up with,
-- none if it is not loaded.
pub record Entry : Type 0 where
  pub entry_id : String
  pub title : String
  pub settings : Dict Value
  pub options : Dict Value
  pub unique_id : Option String
  pub loaded_with : Option (Dict Value × Dict Value)

unfoldable pub is_loaded : Entry → Bool
is_loaded e = is_some e.loaded_with

-- The changes that a flow makes; none leaves a field as it is.
pub record Changed : Type 0 where
  pub settings : Dict Value
  pub title : Option String
  pub unique_id : Option String

unfoldable pub apply : Changed → Entry → Entry
apply c e = record e {
  settings = c.settings;
  title = get_or c.title e.title;
  unique_id = or_else c.unique_id e.unique_id;
}

-- The reloads that `_async_update_listener` asks for.
unfoldable pub update_listener : Entry → Option (Dict Value × Dict Value) → ℕ
unfolding same_dict
update_listener e none = 0
update_listener e (some (settings, options)) =
    if same_dict e.settings settings && same_dict e.options options then 0 else 1

-- How a flow on an entry ends: the form again with an error, aborted since another entry has the
-- address, or done, with the changed entry and the number of reloads of it.
pub data Finish : Type 0 where
  form : Option FlowError → Finish
  already_configured : Finish
  done : Entry → ℕ → Finish

same_address : Dict Value → String → ℕ → Bool
same_address settings host port =
    same_option (Dict.get "host" settings) (some (text host))
    && same_option (Dict.get "port" settings) (some (number port))

has_id : Option String → String → Bool
has_id none address = false
has_id (some id) address = id == address

-- Another entry that has the address.
unfoldable pub takes : (ℕ → String) → String → ℕ → Entry → Entry → Bool
unfolding same_address has_id
takes show host port e other =
    not (other.entry_id == e.entry_id)
    && (same_address other.settings host port
        || has_id other.unique_id (append host (append ":" (show port))))

unfoldable pub titled : Entry → String → Option String
titled e host =
    if same_option (Dict.get "host" e.settings) (some (text e.title)) then some host else none

unfoldable pub changes : (ℕ → String) → Entry → Connection → Changed
unfolding titled
changes show e c = record {
  settings = Dict.update e.settings (settings_of c);
  title = titled e c.host;
  unique_id = some (append c.host (append ":" (show c.port)));
}

-- `fires before after` tells whether Home Assistant calls the update listeners of an entry that is
-- changed from one to the other.
module _ (fires : Entry → Entry → Bool) where
  -- `async_update_entry`, with the listener of a loaded entry.
  unfoldable pub update_entry : Entry → Entry → ℕ
  unfolding update_listener
  update_entry before after =
      if fires before after then update_listener after after.loaded_with else 0

  -- `_async_update_and_finish`; `async_update_reload_and_abort` of Home Assistant updates the entry,
  -- which has no listener while it is not loaded, and reloads it.
  unfoldable pub update_and_finish : Entry → Changed → Finish
  unfolding apply is_loaded update_entry
  update_and_finish e c =
      if not (is_loaded e)
      then done (apply c e) 1
      else done (apply c e)
          (update_entry e (apply c e) + (if same_dict c.settings e.settings then 1 else 0))

  confirmed : Entry → Changed → Option FlowError → Finish
  unfolding update_and_finish
  confirmed e c (some error) = form (some error)
  confirmed e c none = update_and_finish e c

  -- `async_step_reauth_confirm` with a password.
  unfoldable pub reauth_confirm : (Dict Value → XmlAttempt) → Entry → String → Finish
  unfolding confirmed
  reauth_confirm try_xml e password =
      let settings = Dict.put "password" (text password) e.settings in
      confirmed e (record { settings = settings; title = none; unique_id = none })
        (test_xml_connection (try_xml settings))

  -- `async_step_reconfigure` with the first form's input; `others` are the current entries.
  unfoldable pub reconfigure :
      (ℕ → String) → (Dict Value → XmlAttempt) → List Entry → Entry → Connection → Finish
  unfolding takes confirmed changes
  reconfigure show try_xml others e c =
      if any_of (takes show c.host c.port e) others
      then already_configured
      else confirmed e (changes show e c) (test_xml_connection (try_xml (settings_of c)))
