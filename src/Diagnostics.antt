-- ===== src/Diagnostics.antt =====
-- The diagnostics of a config entry (diagnostics.py): the report of a coordinator's endpoints, and its data
-- with the static leases replaced by their shape. The keys that async_redact_data, which is Home
-- Assistant's, replaces are left in. Times are in milliseconds, without the rounding to tenths of a second.
pub mod Laws
use ha_sophos_fw.Prelude.{
  ℕ, ◌-◌, String, Bool, Option, none, some, List, [], ◌∷◌, contains, length, if◌then◌else◌,
}
use ha_sophos_fw.Prelude.Dict
use ha_sophos_fw.Prelude.Dict.{Dict}
use ha_sophos_fw.Models.Xml.{
  XmlData, DhcpServer, Interface, FirewallRule, WebFilterPolicy, BackupSettings, AdminSettings,
  WirelessNetwork,
}
use ha_sophos_fw.Coordinator.Scheduler.{Tier}
use ha_sophos_fw.Coordinator.State.{
  Endpoint, State, endpoint_enabled, endpoint_available, fetched_at,
}
use ha_sophos_fw.Sensor.Summary.{sort, text_before}

pub record LeaseShape : Type 0 where
  pub count : ℕ
  pub fields : List String

-- The elements of a set, each once.
unfoldable pub add_all : List String → List String → List String
add_all [] seen = seen
add_all (k ∷ ks) seen = let rest = add_all ks seen in if contains rest k then rest else k ∷ rest

unfoldable pub field_names : List (Dict String) → List String
unfolding add_all
field_names [] = []
field_names (lease ∷ leases) = add_all (Dict.keys lease) (field_names leases)

-- `_lease_shape` of one server.
unfoldable pub lease_shape : List (Dict String) → LeaseShape
unfolding field_names sort
lease_shape leases = record {
  count = length leases;
  fields = sort text_before (field_names leases);
}

-- A server as it is reported.
pub record ServerReport : Type 0 where
  pub name : String
  pub running : Option Bool
  pub interface : Option String
  pub default_lease_time : Option ℕ
  pub max_lease_time : Option ℕ
  pub static_leases : LeaseShape

unfoldable pub server_report : DhcpServer → ServerReport
unfolding lease_shape
server_report s = record {
  name = s.name;
  running = s.running;
  interface = s.interface;
  default_lease_time = s.default_lease_time;
  max_lease_time = s.max_lease_time;
  static_leases = lease_shape s.static_leases;
}

pub record XmlReport : Type 0 where
  pub interfaces : Option (Dict Interface)
  pub firewall_rules : Option (Dict FirewallRule)
  pub web_filter_policies : Option (Dict WebFilterPolicy)
  pub dhcp_servers : Option (Dict ServerReport)
  pub backup : Option BackupSettings
  pub admin : Option AdminSettings
  pub wireless_networks : Option (Dict WirelessNetwork)

unfoldable pub reports_of : Dict DhcpServer → Dict ServerReport
unfolding server_report
reports_of [] = []
reports_of ((key, server) ∷ servers) = (key, server_report server) ∷ reports_of servers

unfoldable pub servers_report : Option (Dict DhcpServer) → Option (Dict ServerReport)
unfolding reports_of
servers_report none = none
servers_report (some servers) = some (reports_of servers)

-- `_data` of the XML coordinator.
unfoldable pub data_report : Option XmlData → Option XmlReport
unfolding servers_report
data_report none = none
data_report (some d) = some (record {
  interfaces = d.interfaces;
  firewall_rules = d.firewall_rules;
  web_filter_policies = d.web_filter_policies;
  dhcp_servers = servers_report d.dhcp_servers;
  backup = d.backup;
  admin = d.admin;
  wireless_networks = d.wireless_networks;
})

pub record EndpointReport : Type 0 where
  pub tier : Tier
  pub enabled : Bool
  pub available : Bool
  pub since_fetch : Option ℕ

since : ℕ → Option ℕ → Option ℕ
since now none = none
since now (some fetched) = some (now - fetched)

module _ (options : String → Option Bool) (all : List Endpoint) (now : ℕ) {V H : Type 0} where
  unfoldable pub endpoint_report : State V H → Endpoint → EndpointReport
  unfolding since
  endpoint_report s ep = record {
    tier = ep.tier;
    enabled = endpoint_enabled options all s ep.key;
    available = endpoint_available s ep.key;
    since_fetch = since now (fetched_at s ep.key);
  }

  report_into : State V H → List Endpoint → Dict EndpointReport → Dict EndpointReport
  unfolding endpoint_report
  report_into s [] reports = reports
  report_into s (ep ∷ eps) reports =
      report_into s eps (Dict.put ep.key (endpoint_report s ep) reports)

  -- `_coordinator_diagnostics`, the endpoints.
  unfoldable pub endpoint_reports : State V H → Dict EndpointReport
  unfolding report_into
  endpoint_reports s = report_into s all []
