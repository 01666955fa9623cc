-- ===== src/Platform/Identity.antt =====
-- What the entities are created with (the constructors of switch.py, binary_sensor.py and sensor.py):
-- the suffix of the unique id, the endpoint that feeds it, and the placeholders of its name. Texts in
-- which the source replaces "_" by " " are a parameter.
pub mod Laws
use ha_sophos_fw.Prelude.{String, Option, none, some, List, [], ◌∷◌}
use ha_sophos_fw.Prelude.Dict.{Dict}
use ha_sophos_fw.Text.{append}
use ha_sophos_fw.Models.Xml.{Interface, FirewallRule, WebFilterPolicy, DhcpServer, WirelessNetwork}
use ha_sophos_fw.Models.Snmp.{VpnTunnel, AccessPoint, PoePort}
use ha_sophos_fw.Sensor.Readings.{Description}

pub record Identity : Type 0 where
  pub suffix : String
  pub endpoint : String
  pub placeholders : Dict String

abbrev identity : String → String → Dict String → Identity
identity suffix endpoint placeholders = record {
  suffix = suffix;
  endpoint = endpoint;
  placeholders = placeholders;
}

abbrev named : String → Dict String
named name = ("name", name) ∷ []

-- Switches.
unfoldable pub rule_switch : FirewallRule → Identity
rule_switch rule = identity (append "switch_fwrule_" rule.name) "firewall_rules" (named rule.name)

unfoldable pub policy_switch : WebFilterPolicy → Identity
policy_switch policy =
    identity (append "switch_webfilter_" policy.name) "web_filter_policies" (named policy.name)

unfoldable pub network_switch : WirelessNetwork → Identity
network_switch network =
    identity (append "switch_wlan_" network.hardware_name) "wireless_networks" (named network.name)

unfoldable pub ipsec_switch : VpnTunnel → Identity
ipsec_switch tunnel = identity (append "switch_ipsec_" tunnel.index) "tunnels" (named tunnel.name)

-- Binary sensors.
unfoldable pub interface_sensor : Interface → Identity
interface_sensor iface = identity (append "iface_" iface.name) "interfaces" (named iface.name)

unfoldable pub rule_sensor : FirewallRule → Identity
rule_sensor rule = identity (append "fwrule_" rule.name) "firewall_rules" (named rule.name)

unfoldable pub tunnel_sensor : VpnTunnel → Identity
tunnel_sensor tunnel = identity (append "vpn_" tunnel.index) "tunnels" (named tunnel.name)

unfoldable pub ha_sensor : Identity
ha_sensor = identity "ha_enabled" "ha" []

unfoldable pub network_sensor : WirelessNetwork → Identity
network_sensor network =
    identity (append "wlan_" network.hardware_name) "wireless_networks" (named network.name)

unfoldable pub access_point_sensor : AccessPoint → Identity
access_point_sensor ap = identity (append "ap_" ap.name) "access_points" (named ap.name)

-- `spaced` replaces "_" by " ".
unfoldable pub psu_sensor : (String → String) → String → Identity
psu_sensor spaced key = identity (append "psu_" key) "health" (("psu", spaced key) ∷ [])

-- Sensors.
unfoldable pub fan_sensor : (String → String) → String → Identity
fan_sensor spaced key = identity (append "sensor_" key) "health" (("fan", spaced key) ∷ [])

unfoldable pub described_sensor : Description → Identity
described_sensor desc = identity (append "sensor_" desc.key) desc.endpoint []

unfoldable pub dhcp_sensor : DhcpServer → Identity
dhcp_sensor server =
    identity (append "dhcp_leases_" server.name) "dhcp_servers" (("server", server.name) ∷ [])

unfoldable pub core_sensor : String → Identity
core_sensor core = identity (append "sensor_cpu_core_" core) "cpu" (("core", core) ∷ [])

unfoldable pub traffic_sensor : String → String → Identity
traffic_sensor key name =
    identity (append "traffic_" (append key (append "_" name))) "traffic" (named name)

unfoldable pub service_sensor : String → String → Identity
service_sensor key name = identity (append "service_" key) "services" (named name)

unfoldable pub license_sensor : String → String → Identity
license_sensor key name = identity (append "license_" key) "licenses" (named name)

unfoldable pub clients_sensor : AccessPoint → Identity
clients_sensor ap = identity (append "ap_clients_" ap.name) "access_points" (named ap.name)

unfoldable pub poe_sensor : PoePort → Identity
poe_sensor port = identity (append "poe_" port.label) "poe" (("port", port.label) ∷ [])
