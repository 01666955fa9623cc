-- ===== src/Issues.antt =====
-- Repair issues (custom_components/sophos_firewall/issues.py) and when an entry's issues are deleted
-- (__init__.py: _async_clear_issues_when_disabled, async_remove_entry), over any issue registry.
pub mod Laws
use ha_sophos_fw.Prelude.{
  String, ◌≡◌, Bool, not, Option, none, some, List, [], ◌∷◌, ◌==◌, if◌then◌else◌, get_or, keep_if,
  contains,
}
use ha_sophos_fw.Prelude.Dict
use ha_sophos_fw.Prelude.Dict.{Dict}
use ha_sophos_fw.Text.{append}

pub data Kind : Type 0 where
  api_access_denied snmp_unreachable : Kind

abbrev pub text_of : Kind → String
text_of api_access_denied = "api_access_denied"
text_of snmp_unreachable = "snmp_unreachable"

pub data Severity : Type 0 where
  warning error : Severity

abbrev pub severity_of : Kind → Severity
severity_of snmp_unreachable = warning
severity_of api_access_denied = error

pub record Issue : Type 0 where
  pub severity : Severity
  pub translation_key : String
  pub placeholders : Dict String

-- The issues of this integration in Home Assistant's registry: the issue under an id, its creation or
-- update, and its deletion, which does nothing if there is none.
pub record IssueRegistry (R : Type 0) : Type 0 where
  pub find : String → R → Option Issue
  pub create : String → Issue → R → R
  pub delete : String → R → R
  pub find-create :
      (k j : String) (i : Issue) (r : R)
      → find j (create k i r) ≡ (if k == j then some i else find j r)
  pub find-delete :
      (k j : String) (r : R) → find j (delete k r) ≡ (if k == j then none else find j r)

-- What an issue reads of the config entry.
pub record Entry : Type 0 where
  pub entry_id : String
  pub title : String
  pub host : Option String

-- `issue_id`
unfoldable pub issue_id : Kind → String → String
issue_id kind entry_id = append (text_of kind) (append "_" entry_id)

abbrev pub issues : List Kind
issues = api_access_denied ∷ snmp_unreachable ∷ []

unfoldable pub issue_of : Entry → Kind → Dict String → Issue
issue_of entry kind placeholders = record {
  severity = severity_of kind;
  translation_key = text_of kind;
  placeholders =
      Dict.update (("title", entry.title) ∷ ("host", get_or entry.host "") ∷ []) placeholders;
}

module _ {R : Type 0} (registry : IssueRegistry R) where
  -- `async_raise_issue`
  unfoldable pub raise_issue : Entry → Kind → Dict String → R → R
  unfolding issue_id issue_of
  raise_issue entry kind placeholders r =
      registry.create (issue_id kind entry.entry_id) (issue_of entry kind placeholders) r

  -- `async_clear_issue`
  unfoldable pub clear_issue : String → Kind → R → R
  unfolding issue_id
  clear_issue entry_id kind r = registry.delete (issue_id kind entry_id) r

  unfoldable pub clear_kinds : String → List Kind → R → R
  unfolding clear_issue
  clear_kinds entry_id [] r = r
  clear_kinds entry_id (kind ∷ kinds) r = clear_kinds entry_id kinds (clear_issue entry_id kind r)

  -- `async_clear_all_issues`
  unfoldable pub clear_all_issues : String → R → R
  unfolding clear_kinds
  clear_all_issues entry_id r = clear_kinds entry_id issues r

-- The registry, the entries in `_WATCHED`, and those whose state changes are listened to.
pub record Watch (R : Type 0) : Type 0 where
  pub contents : R
  pub watched : List String
  pub listening : List String

-- What happens to the entries: a coordinator raises or clears an issue, an entry is set up, its state
-- changes (with whether it is now disabled), it is deleted.
pub data Event : Type 0 where
  raises : Entry → Kind → Dict String → Event
  clears : String → Kind → Event
  sets_up : String → Event
  changes_state : String → Bool → Event
  is_removed : String → Event

module _ {R : Type 0} (registry : IssueRegistry R) where
  -- `_async_clear_issues_when_disabled`
  unfoldable pub watch : String → Watch R → Watch R
  watch entry_id w =
      if contains w.watched entry_id
      then w
      else record w { watched = entry_id ∷ w.watched; listening = entry_id ∷ w.listening }

  -- `_state_changed`, if the entry's state is listened to.
  unfoldable pub state_changed : String → Bool → Watch R → Watch R
  state_changed entry_id disabled w =
      if contains w.listening entry_id
      then (if disabled
          then record w { contents = clear_all_issues registry entry_id w.contents }
          else w)
      else w

  -- `async_remove_entry`
  unfoldable pub remove_entry : String → Watch R → Watch R
  remove_entry entry_id w = record w {
    contents = clear_all_issues registry entry_id w.contents;
    watched = keep_if (λ e. not (e == entry_id)) w.watched;
  }

  unfoldable pub step : Event → Watch R → Watch R
  unfolding watch state_changed remove_entry
  step (raises entry kind placeholders) w = record w {
    contents = raise_issue registry entry kind placeholders w.contents;
  }
  step (clears entry_id kind) w = record w {
    contents = clear_issue registry entry_id kind w.contents;
  }
  step (sets_up entry_id) w = watch entry_id w
  step (changes_state entry_id disabled) w = state_changed entry_id disabled w
  step (is_removed entry_id) w = remove_entry entry_id w

  unfoldable pub run : List Event → Watch R → Watch R
  run [] w = w
  run (e ∷ es) w = run es (step e w)
