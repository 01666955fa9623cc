-- ===== src/Client/Reading.antt =====
-- The read methods of sophos_client.py.
use ha_sophos_fw.Prelude.{
  String, Bool, true, false, not, none, List, [], ◌∷◌, ◌++◌, map, get_or, keep_if,
}
use ha_sophos_fw.Prelude.Dict
use ha_sophos_fw.Prelude.Dict.{Dict}
use ha_sophos_fw.Xml.{Element, iter, is_status_only, attributes}
use ha_sophos_fw.Xml.Value.{Fields, end, field, elem_to_dict}
use ha_sophos_fw.Models.Xml.{
  Interface, FirewallRule, WebFilterPolicy, DhcpServer, WirelessNetwork, BackupSettings,
  AdminSettings,
}
use ha_sophos_fw.Client.Request.{Request, login, get}
use ha_sophos_fw.Client.Answer.{Outcome, check_answer, find_record}
use ha_sophos_fw.Client.Action.{Action, pure, lift, ◌>>=◌}
use ha_sophos_fw.Client.Records.{
  parse_interface, parse_firewall_rule, parse_web_filter_policy, parse_dhcp_server, parse_backup,
  parse_wireless_network, parse_admin, by_name,
}

abbrev is_end : Fields → Bool
is_end end = true
is_end (field k v d) = false

-- The loop of `_get_records`: status elements and empty records are skipped.
unfoldable pub records_of : String → Element → List Fields
records_of t root =
    keep_if (λ d. not (is_end d))
      (map elem_to_dict (keep_if (λ e. not (is_status_only e)) (iter t root)))

first_or_end : List Fields → Fields
first_or_end [] = end
first_or_end (d ∷ ds) = d

module _ {S : Type 0} (answer : Request → S → Outcome × S) where
  -- `_post`
  unfoldable pub post : Request → Action S Element
  post req w =
      let (o, s) = answer req w.server in
      (check_answer o, record { server = s; sent = w.sent ++ req ∷ [] })

  unfoldable pub get_records : String → Action S (List Fields)
  get_records t = do root ← post (get t); pure (records_of t root)

  unfoldable pub get_record_element : String → String → Action S Element
  get_record_element t name = do root ← post (get t); lift (find_record name (iter t root) none)

  -- `root.get("APIVersion", "unknown")`
  unfoldable pub test_connection : Action S String
  test_connection = do
    root ← post login
    pure (get_or (Dict.get "APIVersion" (attributes root)) "unknown")

  unfoldable pub get_interfaces : Action S (Dict Interface)
  get_interfaces = do
    rs ← get_records "Interface"
    pure (by_name (λ i. i.name) (map parse_interface rs))

  unfoldable pub get_firewall_rules : Action S (Dict FirewallRule)
  get_firewall_rules = do
    rs ← get_records "FirewallRule"
    pure (by_name (λ i. i.name) (map parse_firewall_rule rs))

  unfoldable pub get_web_filter_policies : Action S (Dict WebFilterPolicy)
  get_web_filter_policies = do
    rs ← get_records "WebFilterPolicy"
    pure (by_name (λ i. i.name) (map parse_web_filter_policy rs))

  unfoldable pub get_dhcp_servers : Action S (Dict DhcpServer)
  get_dhcp_servers = do
    rs ← get_records "DHCPServer"
    pure (by_name (λ i. i.name) (map parse_dhcp_server rs))

  unfoldable pub get_wireless_networks : Action S (Dict WirelessNetwork)
  get_wireless_networks = do
    rs ← get_records "WirelessNetworks"
    pure (by_name (λ i. i.hardware_name) (map parse_wireless_network rs))

  unfoldable pub get_backup : Action S BackupSettings
  unfolding first_or_end
  get_backup = do rs ← get_records "BackupRestore"; pure (parse_backup (first_or_end rs))

  unfoldable pub get_admin_settings : Action S AdminSettings
  unfolding first_or_end
  get_admin_settings = do rs ← get_records "AdminSettings"; pure (parse_admin (first_or_end rs))
