-- ===== src/Tests/Sensors.antt =====
-- Sensors on concrete data.
use ha_sophos_fw.Prelude.{
  ℕ, String, ◌≡◌, refl, true, Option, none, some, List, [], ◌∷◌, ◌==◌, if◌then◌else◌, get_or,
  all_of,
}
use ha_sophos_fw.Prelude.Dict
use ha_sophos_fw.Prelude.Dict.{Dict}
use ha_sophos_fw.Text.{starts_with}
use ha_sophos_fw.Models.Xml.{Interface, XmlData, DhcpServer}
use ha_sophos_fw.Models.Snmp.{SnmpData, SystemHealth, InterfaceLink}
use ha_sophos_fw.Sensor.States.{
  Log, backup_frequencies, web_filter_actions, service_states, license_states,
  default_web_filter_action, backup_frequency, dhcp_state, ha_state, ha_code, service_state,
  license_state,
}
use ha_sophos_fw.Sensor.States.Options.{ha_states, enumerations-Among}
use ha_sophos_fw.Sensor.States.Laws.{Among}
use ha_sophos_fw.Entity.Items.{fans_of}
use ha_sophos_fw.Sensor.Interfaces.{XmlView}
use ha_sophos_fw.BinarySensor.{SnmpView}

abbrev up : InterfaceLink
up = record { admin_status = some 1; oper_status = some 1 }

abbrev fans : SystemHealth
fans = record {
  cpu_temperature_c = none;
  npu_temperature_c = none;
  fans = ("fan_1", some 2400) ∷ [];
  psus = [];
}

abbrev snmp_data : SnmpData
snmp_data = record {
  device = none;
  stats = none;
  services = none;
  licenses = none;
  tunnels = none;
  health = some fans;
  ha = none;
  cpu = some (("1", some 12) ∷ []);
  traffic = none;
  links = some (("eth0", up) ∷ []);
  access_points = none;
  poe = none;
}

abbrev view : SnmpView
view = record { enabled = true; available = true; contents = some snmp_data }

abbrev port : Interface
port = record {
  name = "Uplink";
  is_up = some true;
  zone = none;
  ipv4_assignment = none;
  speed = none;
  mtu = none;
  hardware = some "eth0";
}

abbrev row_name : String → Option String
row_name index = if index == "2" then some "lo" else some "PortA"

abbrev rows : List String
rows = "1" ∷ "2" ∷ "3" ∷ []

abbrev server : DhcpServer
server = record {
  name = "LAN";
  running = some true;
  interface = none;
  default_lease_time = none;
  max_lease_time = none;
  static_leases = [];
}

abbrev xml_data : XmlData
xml_data = record {
  interfaces = none;
  firewall_rules = none;
  web_filter_policies = none;
  dhcp_servers = some (("LAN", server) ∷ []);
  backup = none;
  admin = none;
  wireless_networks = none;
}

abbrev xml_view : XmlView
xml_view = record { configured = true; contents = some xml_data }

fans_named :
    all_of (λ k. starts_with k "fan_") (Dict.keys (get_or (fans_of snmp_data.health) [])) ≡ true
unfolding fans_of
fans_named = refl

abbrev empty_log : Log
empty_log = record { seen = []; warnings = [] }

abbrev show : ℕ → String
show n = "code"

abbrev name_of : String → String
name_of key = key

enumerations-Among_example :
    Among web_filter_actions (default_web_filter_action xml_data empty_log).0
    × Among backup_frequencies (backup_frequency xml_data empty_log).0
    × Among ("off" ∷ "on" ∷ []) (dhcp_state xml_data "LAN")
    × Among ha_states (ha_state (ha_code (λ h. h.current_state) snmp_data))
    × Among service_states (service_state show name_of snmp_data "dns" empty_log).0
    × Among license_states (license_state show name_of snmp_data "dns" empty_log).0
enumerations-Among_example =
    enumerations-Among xml_data snmp_data "LAN" "dns" (λ h. h.current_state) show name_of empty_log
