-- ===== src/Client/Writing.antt =====
-- The read-modify-write of sophos_client.py, and the writes that are built on it or that send only
-- a name.
pub mod Sent
use ha_sophos_fw.Prelude.{
  ℕ, zero, suc, ◌+◌, ◌-◌, ◌*◌, ◌/◌, ◌%◌, ◌≤◌, ◌<◌, String, ◌≡◌, refl, sym, ap, ◌∙◌, ◌≢◌, ◌↔◌, ◌⊎◌,
  inl, inr, Bool, true, false, not, ◌&&◌, ◌||◌, Option, none, some, List, [], ◌∷◌, ◌++◌, map, arith,
  ◌==◌, eq_iff, eq_refl, ltb, leb, eqb, if◌then◌else◌, leb→le, ltb→lt, eqb_iff, Bool-cases,
  Option-cases, or_else, is_some, get_or, ne→false, length, is_nil, keep_if, any_of, all_of,
  first_where, All, contains, Distinct,
}
use ha_sophos_fw.Xml.{Element, find, has_tag, edit_first, with_children, with_text, children}
use ha_sophos_fw.Client.Errors.{SophosError, api_error, write_error, Result, ok, err}
use ha_sophos_fw.Client.Request.{Request, get, update, set_wireless, set_ipsec, active_tag}
use ha_sophos_fw.Client.Answer.{Outcome, confirm}
use ha_sophos_fw.Client.Action.{World, Action, pure, lift, attempt, ◌>>=◌, ◌>>◌}
use ha_sophos_fw.Client.Reading.{post, get_record_element}

-- What a `change` closure does with the record it is given: it raises, or it says whether there is
-- something to write, leaves the edited record, and leaves a note in the caller's variables.
abbrev pub Change : Type 0 → Type 0
Change A = Element → Result (Bool × Element × A)

-- The check after the record was read back; a failed read is only logged.
unfoldable pub check_read_back : (Element → Bool) → Result Element → Result (Unit {0})
check_read_back verify (err e) = ok tt
check_read_back verify (ok after) =
    if verify after then ok tt else err (write_error (some "not_applied"))

-- The change of `_update_field`.
set_field : String → Option Element → Element → String → Result (Bool × Element × Unit {0})
set_field field none e value = err api_error
set_field field (some target) e value =
    ok (true, with_children (edit_first (has_tag field) (with_text value) (children e)) e, tt)

unfoldable pub field_change : String → String → Change (Unit {0})
unfolding set_field
field_change field value e = set_field field (find field e) e value

abbrev allow_text : Bool → String
allow_text true = "Allow"
allow_text false = "Deny"

abbrev enable_text : Bool → String
enable_text true = "Enable"
enable_text false = "Disable"

module _ {S : Type 0} (answer : Request → S → Outcome × S) where
  unfoldable pub read_back : String → String → Option (Element → Bool) → Action S (Unit {0})
  read_back t name none = pure tt
  read_back t name (some verify) = do
    after ← attempt (get_record_element answer t name)
    lift (check_read_back verify after)

  module _ {A : Type 0} where
    unfoldable pub write_changed :
        String → String → Option (Element → Bool) → Bool × Element × A → Action S A
    write_changed t name verify (false, e, note) = pure note
    write_changed t name verify (true, e, note) = do
      root ← post answer (update e)
      lift (confirm root ((t ∷ "Status" ∷ []) ∷ []))
      read_back t name verify
      pure note

    -- `_modify_record_held`, and `_modify_record`
    unfoldable pub modify_record : String → String → Change A → Option (Element → Bool) → Action S A
    modify_record t name change verify = do
      e ← get_record_element answer t name
      changed ← lift (change e)
      write_changed t name verify changed

  unfoldable pub update_field : String → String → String → String → Action S (Unit {0})
  update_field t name field value = modify_record t name (field_change field value) none

  unfoldable pub set_firewall_rule_status : String → Bool → Action S (Unit {0})
  set_firewall_rule_status name enable =
      update_field "FirewallRule" name "Status" (enable_text enable)

  unfoldable pub set_web_filter_default_action : String → Bool → Action S (Unit {0})
  set_web_filter_default_action name allow =
      update_field "WebFilterPolicy" name "DefaultAction" (allow_text allow)

  unfoldable pub set_wireless_network_status : String → Bool → Action S (Unit {0})
  set_wireless_network_status hardware_name enable = do
    root ← post answer (set_wireless hardware_name enable)
    lift (confirm root (("WirelessNetworkStatus" ∷ "Status" ∷ []) ∷ []))

  unfoldable pub set_ipsec_connection_active : String → Bool → Action S (Unit {0})
  set_ipsec_connection_active name active = do
    root ← post answer (set_ipsec name active)
    lift (
        confirm root (
          ("VPNIPSecConnection" ∷ active_tag active ∷ "Status" ∷ [])
          ∷ ("VPNIPSecConnection" ∷ "Status" ∷ [])
          ∷ (active_tag active ∷ "Status" ∷ [])
          ∷ ("Configuration" ∷ "Status" ∷ [])
          ∷ []))
