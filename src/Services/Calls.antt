-- ===== src/Services/Calls.antt =====
-- The actions (services.py: _client, _raise, _set_url, _block_device, _unblock_device), on arguments
-- that their schemas let through. Messages are left out, except the name that one speaks of.
pub mod Laws
use ha_sophos_fw.Prelude.{
  ℕ, zero, suc, ◌+◌, ◌-◌, ◌*◌, ◌/◌, ◌%◌, ◌≤◌, ◌<◌, String, ◌≡◌, refl, sym, ap, ◌∙◌, ◌≢◌, ◌↔◌, ◌⊎◌,
  inl, inr, Bool, true, false, not, ◌&&◌, ◌||◌, Option, none, some, List, [], ◌∷◌, ◌++◌, map, arith,
  ◌==◌, eq_iff, eq_refl, ltb, leb, eqb, if◌then◌else◌, leb→le, ltb→lt, eqb_iff, Bool-cases,
  Option-cases, or_else, is_some, get_or, ne→false, length, is_nil, keep_if, any_of, all_of,
  first_where, All, contains, Distinct,
}
use ha_sophos_fw.Client.Errors.{
  SophosError, not_found_error, write_error, Result, ok, err, Result-cases,
}
use ha_sophos_fw.Client.Request.{Request}
use ha_sophos_fw.Client.Answer.{Outcome}
use ha_sophos_fw.Client.Action.{World, Action}
use ha_sophos_fw.Client.UrlGroup.{set_url_in_group}
use ha_sophos_fw.Client.HostGroup.{block_ip_in_group, unblock_ip_in_group}
use ha_sophos_fw.Text.{append}

-- What an action reads of a config entry.
pub record Entry : Type 0 where
  pub domain : String
  pub loaded : Bool
  pub write_access : Option Bool

-- The translation keys of ServiceValidationError and of HomeAssistantError.
pub data Refusal : Type 0 where
  entry_not_found entry_not_loaded write_access_disabled : Refusal

pub data Failure : Type 0 where
  group_not_editable group_full write_not_applied write_failed group_not_found host_name_taken :
      Failure

pub data Response (A : Type 0) : Type 0 where
  answered : A → Response A
  refused : Refusal → Response A
  failed : Failure → String → Response A

-- `_client`: why the entry may not be written, if so.
unfoldable pub refusal : Option Entry → Option Refusal
refusal none = some entry_not_found
refusal (some e) =
    if not (e.domain == "sophos_firewall")
    then some entry_not_found
    else if not e.loaded
    then some entry_not_loaded
    else if not (get_or e.write_access false)
    then some write_access_disabled
    else none

-- The table of `_raise`.
unfoldable pub failure_of : Option String → Failure
failure_of none = write_failed
failure_of (some code) =
    if code == "528"
    then group_not_editable
    else if contains ("522" ∷ "523" ∷ "524" ∷ "525" ∷ []) code
    then group_full
    else if code == "not_applied"
    then write_not_applied
    else write_failed

-- `code == "502" and host_name is not None`
raise_code : Option String → String → Option String → Failure × String
unfolding failure_of
raise_code code name none = (failure_of code, name)
raise_code none name (some host) = (failure_of none, name)
raise_code (some code) name (some host) =
    if code == "502" then (host_name_taken, host) else (failure_of (some code), name)

-- `_raise`
unfoldable pub raise : SophosError → String → Option String → Failure × String
unfolding raise_code
raise not_found_error name host = (group_not_found, name)
raise (write_error code) name host = raise_code code name host
raise e name host = raise_code none name host

unfoldable pub respond : {A : Type 0} → Result A → String → Option String → Response A
unfolding raise
respond (ok a) name host = answered a
respond (err e) name host = let (f, n) = raise e name host in failed f n

-- `call.data.get(ATTR_HOST_NAME) or f"HA {ip}"`
unfoldable pub host_name_or : Option String → String → String
host_name_or none ip = append "HA " ip
host_name_or (some name) ip = if name == "" then append "HA " ip else name

-- `answer` is how the firewall of the targeted entry answers.
module _ {S : Type 0} (answer : Request → S → Outcome × S) where
  guarded :
      {A : Type 0}
      → Option Refusal
      → Action S A
      → String
      → Option String
      → World S
      → Response A × World S
  unfolding respond
  guarded none action name host w = let (r, w') = action w in (respond r name host, w')
  guarded (some r) action name host w = (refused r, w)

  unfoldable pub set_url : Option Entry → String → String → Bool → World S → Response Bool × World S
  unfolding guarded refusal
  set_url entry group url present w =
      guarded (refusal entry) (set_url_in_group answer group url present) group none w

  unfoldable pub block_device :
      Option Entry → String → String → Option String → World S → Response (Bool × String) × World S
  unfolding guarded refusal host_name_or
  block_device entry group ip host w =
      let name = host_name_or host ip in
      guarded (refusal entry) (block_ip_in_group answer group ip name) group (some name) w

  unfoldable pub unblock_device :
      Option Entry → String → String → World S → Response (Bool × List String) × World S
  unfolding guarded refusal
  unblock_device entry group ip w =
      guarded (refusal entry) (unblock_ip_in_group answer group ip) group none w
