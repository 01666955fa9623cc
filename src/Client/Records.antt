-- ===== src/Client/Records.antt =====
-- The record parsers of sophos_client.py, from the nested dict of a record to the typed models.
pub mod Laws
use ha_sophos_fw.Prelude.{
  ℕ, zero, suc, ◌+◌, ◌-◌, ◌*◌, ◌/◌, ◌%◌, ◌≤◌, ◌<◌, String, ◌≡◌, refl, sym, ap, ◌∙◌, ◌≢◌, ◌↔◌, ◌⊎◌,
  inl, inr, Bool, true, false, not, ◌&&◌, ◌||◌, Option, none, some, List, [], ◌∷◌, ◌++◌, map, arith,
  ◌==◌, eq_iff, eq_refl, ltb, leb, eqb, if◌then◌else◌, leb→le, ltb→lt, eqb_iff, Bool-cases,
  Option-cases, or_else, is_some, get_or, ne→false, length, is_nil, keep_if, any_of, all_of,
  first_where, All, contains, Distinct,
}
use ha_sophos_fw.Prelude.Dict
use ha_sophos_fw.Prelude.Dict.{Dict}
use ha_sophos_fw.Text.{lower, is_digit, number}
use ha_sophos_fw.Xml.Value.{
  Value, Values, Fields, leaf, dict, list, nil, cons, end, field, get, text_of, path_of, equals,
}
use ha_sophos_fw.Models.Xml.{
  Interface, FirewallRule, WebFilterPolicy, DhcpServer, WirelessNetwork, BackupSettings,
  AdminSettings,
}

-- A record with no name is dropped: `if (name := ...) is None: return None`.
abbrev when_named {ℓ} : {A : Type ℓ} → Option String → (String → A) → Option A
when_named none f = none
when_named (some name) f = some (f name)

unfoldable pub parse_interface : Fields → Option Interface
parse_interface r = when_named (text_of r "Name") λ name. record {
  name = name;
  is_up = equals (text_of r "InterfaceStatus") "on";
  zone = text_of r "NetworkZone";
  ipv4_assignment = text_of r "IPv4Assignment";
  speed = text_of r "InterfaceSpeed";
  mtu = text_of r "MTU";
  hardware = text_of r "Hardware";
}

unfoldable pub parse_firewall_rule : Fields → Option FirewallRule
parse_firewall_rule r = when_named (text_of r "Name") λ name. record {
  name = name;
  enabled = equals (text_of r "Status") "enable";
  action = or_else (text_of r "Action") (
      or_else (text_of (path_of r ("NetworkPolicy" ∷ [])) "Action")
        (text_of (path_of r ("UserPolicy" ∷ [])) "Action"));
  policy_type = text_of r "PolicyType";
  ip_family = text_of r "IPFamily";
}

unfoldable pub parse_web_filter_policy : Fields → Option WebFilterPolicy
parse_web_filter_policy r =
    when_named (text_of r "Name")
      λ name. record { name = name; default_action = text_of r "DefaultAction" }

whole_number : Option String → Option ℕ
whole_number none = none
whole_number (some s) = if is_digit s then some (number s) else none

unfoldable pub minutes : Fields → String → Option ℕ
unfolding whole_number
minutes r key = whole_number (text_of r key)

-- `{k: v for k, v in lease.items() if isinstance(v, str)}`
leaves : Fields → Dict String
leaves end = []
leaves (field k (leaf s) d) = (k, s) ∷ leaves d
leaves (field k v d) = leaves d

lower_mac_address : Option String → Dict String → Dict String
lower_mac_address none lease = lease
lower_mac_address (some mac) lease = Dict.put "MACAddress" (lower mac) lease

normalised : Fields → Dict String
unfolding leaves lower_mac_address
normalised lease = let kept = leaves lease in lower_mac_address (Dict.get "MACAddress" kept) kept

-- The loop over `raw_leases`: what is no mapping is skipped.
unfoldable pub normalise : Values → List (Dict String)
unfolding normalised
normalise nil = []
normalise (cons (dict lease) vs) = normalised lease ∷ normalise vs
normalise (cons v vs) = normalise vs

-- `StaticLease` is {"Lease": {...}}, {"Lease": [{...}, ...]} or no mapping at all.
raw_leases : Option Value → Values
raw_leases (some (dict lease)) = cons (dict lease) nil
raw_leases (some (list leases)) = leases
raw_leases v = nil

container_leases : Option Value → Values
unfolding raw_leases
container_leases (some (dict container)) = raw_leases (get "Lease" container)
container_leases v = nil

unfoldable pub static_leases : Fields → List (Dict String)
unfolding container_leases normalise
static_leases r = normalise (container_leases (get "StaticLease" r))

running : Option String → Option Bool
running none = none
running (some status) = some (status == "1")

unfoldable pub parse_dhcp_server : Fields → Option DhcpServer
unfolding running static_leases minutes
parse_dhcp_server r = when_named (text_of r "Name") λ name. record {
  name = name;
  running = running (text_of r "Status");
  interface = text_of r "Interface";
  default_lease_time = minutes r "DefaultLeaseTime";
  max_lease_time = minutes r "MaxLeaseTime";
  static_leases = static_leases r;
}

unfoldable pub parse_backup : Fields → BackupSettings
parse_backup r =
    let schedule = path_of r ("ScheduleBackup" ∷ []) in
    record { mode = text_of schedule "BackupMode"; frequency = text_of schedule "BackupFrequency" }

unfoldable pub parse_wireless_network : Fields → Option WirelessNetwork
parse_wireless_network r = when_named (text_of r "HardwareName") λ hardware. record {
  hardware_name = hardware;
  name = get_or (text_of r "Name") hardware;
  ssid = text_of r "SSID";
  enabled = equals (text_of r "Status") "enable";
}

unfoldable pub parse_admin : Fields → AdminSettings
parse_admin r = record { hostname = text_of (path_of r ("HostnameSettings" ∷ [])) "HostName" }

module _ {ℓ} {A : Type ℓ} (name : A → String) where
  -- One round of the loop: the first record with a name stays.
  unfoldable pub keep_first : Option A → Dict A → Dict A
  keep_first none result = result
  keep_first (some item) result =
      if is_some (Dict.get (name item) result) then result else Dict.put (name item) item result

  unfoldable pub by_name_from : List (Option A) → Dict A → Dict A
  unfolding keep_first
  by_name_from [] result = result
  by_name_from (item ∷ items) result = by_name_from items (keep_first item result)

  -- `_by_name`; also the loop of `get_wireless_networks`, whose name is the hardware name.
  unfoldable pub by_name : List (Option A) → Dict A
  unfolding by_name_from
  by_name items = by_name_from items []
