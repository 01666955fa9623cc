-- ===== src/Models/Xml.antt =====
-- The XML half of custom_components/sophos_firewall/models.py. A value that the firewall may omit
-- is an `Option`.
use ha_sophos_fw.Prelude.{ℕ, String, Bool, Option, none, some, List, ◌==◌}
use ha_sophos_fw.Prelude.Dict.{Dict}
use ha_sophos_fw.Text.{lower}

pub record Interface : Type 0 where
  pub name : String
  pub is_up : Option Bool
  pub zone : Option String
  pub ipv4_assignment : Option String
  pub speed : Option String
  pub mtu : Option String
  pub hardware : Option String

pub record FirewallRule : Type 0 where
  pub name : String
  pub enabled : Option Bool
  pub action : Option String
  pub policy_type : Option String
  pub ip_family : Option String

pub record WebFilterPolicy : Type 0 where
  pub name : String
  pub default_action : Option String

allows_action : Option String → Option Bool
allows_action none = none
allows_action (some a) = some (lower a == "allow")

unfoldable pub allows : WebFilterPolicy → Option Bool
unfolding allows_action
allows p = allows_action p.default_action

pub record DhcpServer : Type 0 where
  pub name : String
  pub running : Option Bool
  pub interface : Option String
  pub default_lease_time : Option ℕ
  pub max_lease_time : Option ℕ
  pub static_leases : List (Dict String)

pub record WirelessNetwork : Type 0 where
  pub hardware_name : String
  pub name : String
  pub ssid : Option String
  pub enabled : Option Bool

pub record BackupSettings : Type 0 where
  pub mode : Option String
  pub frequency : Option String

pub record AdminSettings : Type 0 where
  pub hostname : Option String

-- One field for each endpoint of the XML coordinator.
pub record XmlData : Type 0 where
  pub interfaces : Option (Dict Interface)
  pub firewall_rules : Option (Dict FirewallRule)
  pub web_filter_policies : Option (Dict WebFilterPolicy)
  pub dhcp_servers : Option (Dict DhcpServer)
  pub backup : Option BackupSettings
  pub admin : Option AdminSettings
  pub wireless_networks : Option (Dict WirelessNetwork)
