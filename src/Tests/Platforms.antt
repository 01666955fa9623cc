-- ===== src/Tests/Platforms.antt =====
-- Platforms on concrete registries.
use ha_sophos_fw.Prelude.{
  Option, String, ◌≡◌, refl, true, false, ◌&&◌, none, some, List, [], ◌∷◌, any_of,
}
use ha_sophos_fw.Models.Xml.{XmlData, FirewallRule, Interface}
use ha_sophos_fw.Models.Snmp.{SnmpData}
use ha_sophos_fw.Setup.UniqueIds.{RegEntry}
use ha_sophos_fw.Entity.Items.{keyed, fans_of}
use ha_sophos_fw.Client.Records.{by_name}
use ha_sophos_fw.Platform.Identity.{
  interface_sensor, rule_sensor, rule_switch, policy_switch, network_sensor, network_switch,
  dhcp_sensor,
}
use ha_sophos_fw.Platform.Identity.Laws.{read_data, suffixes_of, listed, own_suffixes_xml}
use ha_sophos_fw.Sensor.Platform.{static_suffixes, family_suffixes}
use ha_sophos_fw.Platform.{build_unique_id, holds}
use ha_sophos_fw.Platform.Families.{
  Coordinator, nothing_known, setup_dynamic, sync, active, registry_of,
}
use ha_sophos_fw.Platform.Families.Reported.{separate, prefixes, reported-setup_dynamic}
use ha_sophos_fw.Platform.Setups.{
  Setting, binary_members, binary_snmp_members, switch_members, setup_switches,
  setup_binary_sensors,
}
use ha_sophos_fw.Platform.Setups.Laws.{is_shown}
use ha_sophos_fw.Platform.Setups.Owners.{one_owner}
use ha_sophos_fw.Platform.Sensors.{setup_sensors, dhcp_members, reading_members, hardware_members}
use ha_sophos_fw.Sensor.Readings.{hardware_sensors, version_sensors}
use ha_sophos_fw.Platform.Sensors.Off.{snmp_off}

abbrev port_a : Interface
port_a = record {
  name = "PortA";
  is_up = some true;
  zone = none;
  ipv4_assignment = none;
  speed = none;
  mtu = none;
  hardware = none;
}

abbrev lan_rule : FirewallRule
lan_rule = record {
  name = "LAN";
  enabled = some true;
  action = none;
  policy_type = none;
  ip_family = none;
}

abbrev polled : XmlData
polled = record {
  interfaces = some (("PortA", port_a) ∷ []);
  firewall_rules = some (("LAN", lan_rule) ∷ []);
  web_filter_policies = none;
  dhcp_servers = none;
  backup = none;
  admin = none;
  wireless_networks = none;
}

abbrev both_rules : List (Option FirewallRule)
both_rules = some lan_rule ∷ none ∷ some lan_rule ∷ []

own_suffixes_xml_example :
    let d = read_data (some port_a ∷ []) both_rules [] [] [] in
    (listed d switch_members ≡ (
      suffixes_of rule_switch (by_name (λ r. r.name) both_rules)
      ∷ suffixes_of policy_switch (by_name (λ p. p.name) [])
      ∷ suffixes_of network_switch (by_name (λ n. n.hardware_name) [])
      ∷ []))
    × (listed d (binary_members false) ≡ (
        suffixes_of interface_sensor (by_name (λ i. i.name) (some port_a ∷ []))
        ∷ suffixes_of rule_sensor (by_name (λ r. r.name) both_rules)
        ∷ suffixes_of network_sensor (by_name (λ n. n.hardware_name) [])
        ∷ []))
    × (listed d dhcp_members ≡ suffixes_of dhcp_sensor (by_name (λ d. d.name) []) ∷ [])
own_suffixes_xml_example = own_suffixes_xml (some port_a ∷ []) both_rules [] [] []

abbrev silent : SnmpData
silent = record {
  device = none;
  stats = none;
  services = none;
  licenses = none;
  tunnels = none;
  health = none;
  ha = none;
  cpu = none;
  traffic = none;
  links = none;
  access_points = none;
  poe = none;
}

abbrev xml : Coordinator XmlData
xml = record {
  contents = some polled;
  configured = λ key. true;
  available = λ key. true;
  fetched_at = λ key. some 7;
}

abbrev entity : String → String → String → RegEntry
entity id domain suffix = record {
  entity_id = id;
  domain = domain;
  unique_id = build_unique_id "e1" suffix;
}

abbrev registered : List RegEntry
registered =
    entity "binary_sensor.a" "binary_sensor" "iface_PortA"
    ∷ entity "binary_sensor.b" "binary_sensor" "iface_PortB"
    ∷ entity "binary_sensor.lan" "binary_sensor" "fwrule_LAN"
    ∷ entity "sensor.cpu" "sensor" "sensor_cpu_usage"
    ∷ []

reported-setup_dynamic_example :
    (holds "binary_sensor"
        (build_unique_id "e1" "iface_PortA")
        (registry_of (setup_dynamic "e1" "binary_sensor" xml (binary_members false) registered))
      ≡ holds "binary_sensor" (build_unique_id "e1" "iface_PortA") registered)
    × (holds "binary_sensor" (build_unique_id "e1" "iface_PortA") (
          registry_of (
            sync "e1" "binary_sensor" xml
              (active xml (binary_members false))
              nothing_known
              registered))
        ≡ holds "binary_sensor" (build_unique_id "e1" "iface_PortA") registered)
unfolding binary_members keyed
reported-setup_dynamic_example =
    reported-setup_dynamic xml "iface_PortA" "binary_sensor" "binary_sensor" "e1" polled
      (binary_members false) nothing_known registered refl refl refl

abbrev writing : Setting
writing = record { write_access = true; snmp_enabled = false; xml = xml; snmp = none }

one_owner_example :
    ((is_shown "e1" "binary_sensor" "fwrule_LAN" (setup_binary_sensors "e1" writing registered)
        && is_shown "e1" "switch" "switch_fwrule_LAN" (setup_switches "e1" writing registered))
      ≡ false)
    × ((is_shown "e1" "binary_sensor" "wlan_LAN" (setup_binary_sensors "e1" writing registered)
          && is_shown "e1" "switch" "switch_wlan_LAN" (setup_switches "e1" writing registered))
        ≡ false)
one_owner_example = one_owner "e1" "LAN" writing registered registered

snmp_off_example :
    (any_of (λ s. is_shown "e1" "sensor" s (setup_sensors "e1" writing registered)) static_suffixes
      ≡ false)
    × (any_of
          (λ s. is_shown "e1" "sensor" s (setup_sensors "e1" writing registered))
          (family_suffixes (record { configured = true; contents = none }) silent)
        ≡ false)
unfolding fans_of
snmp_off_example =
    snmp_off "e1" true xml registered (record { configured = true; contents = none }) silent refl

-- The families of every call meet the condition on their prefixes.
separate_families :
    (separate (prefixes switch_members) ≡ true)
    × (separate (prefixes (binary_members false)) ≡ true)
    × (separate (prefixes binary_snmp_members) ≡ true)
    × (separate (prefixes (reading_members (record { configured = true; contents = none }))) ≡ true)
    × (separate (prefixes hardware_members) ≡ true)
unfolding switch_members binary_members binary_snmp_members reading_members hardware_members
    hardware_sensors version_sensors
separate_families = (refl, refl, refl, refl, refl)
