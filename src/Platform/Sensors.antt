-- ===== src/Platform/Sensors.antt =====
-- The sensors' async_setup_entry and _async_remove_snmp_entities (sensor.py).
pub mod Off
use ha_sophos_fw.Prelude.{String, Bool, Option, none, some, List, [], ◌∷◌, ◌++◌, map, if◌then◌else◌}
use ha_sophos_fw.Prelude.Dict
use ha_sophos_fw.Text.{append}
use ha_sophos_fw.Models.Xml.{XmlData}
use ha_sophos_fw.Models.Snmp.{SnmpData}
use ha_sophos_fw.Setup.UniqueIds.{RegEntry}
use ha_sophos_fw.SnmpClient.Modules.{service_names, license_names}
use ha_sophos_fw.Entity.{Family}
use ha_sophos_fw.Entity.Items.{keyed, cpu_usage_items, cpu_core_items, dhcp_items, fan_items}
use ha_sophos_fw.Sensor.Readings.{
  Description, snmp_sensors, hardware_sensors, version_sensors, present,
}
use ha_sophos_fw.Sensor.Interfaces.{XmlView, traffic_items}
use ha_sophos_fw.Sensor.Platform.{removed_names, removed_prefixes}
use ha_sophos_fw.Platform.{remove_entities, remove_families}
use ha_sophos_fw.Platform.Families.{Member, Coordinator, setup_dynamic}
use ha_sophos_fw.Platform.Setups.{
  Setting, Placed, placed, and_then, keys_of, plain, lasting, trusting, confirming,
  trusting_confirming, member, Static, static, add_static,
}

abbrev pub dhcp_members : List (Member XmlData)
dhcp_members = member "dhcp_leases_" "dhcp_servers" (λ d. keys_of (dhcp_items d)) plain ∷ []

abbrev pub xml_statics : List Static
xml_statics =
    static "sensor_web_filter_default_action" "web_filter_policies"
    ∷ static "sensor_backup_frequency" "backup"
    ∷ []

unfoldable pub snmp_statics : List Static
snmp_statics =
    map (λ desc. static (append "sensor_" desc.key) desc.endpoint) snmp_sensors
    ++ static "sensor_services_summary" "services"
      ∷ static "sensor_licenses_summary" "licenses"
      ∷ static "sensor_uptime" "stats"
      ∷ static "ha_current_state" "ha"
      ∷ static "ha_peer_state" "ha"
      ∷ (map (λ key. static (append "service_" key) "services") (Dict.keys service_names)
          ++ map (λ key. static (append "license_" key) "licenses") (Dict.keys license_names))

-- What `xml_interfaces` reads.
view_of : Coordinator XmlData → XmlView
view_of xml = record { configured = xml.configured "interfaces"; contents = xml.contents }

traffic_member : XmlView → String → Member SnmpData
traffic_member v prefix =
    member prefix "traffic" (λ d. keys_of (traffic_items prefix v d)) confirming

unfoldable pub reading_members : XmlView → List (Member SnmpData)
unfolding traffic_member
reading_members v =
    member "sensor_cpu_usage" "cpu" cpu_usage_items plain
    ∷ member "ap_clients_" "access_points" (λ d. keys_of (keyed "ap_clients_" d.access_points))
        trusting_confirming
    ∷ member "poe_" "poe" (λ d. keys_of (keyed "poe_" d.poe)) trusting_confirming
    ∷ member "sensor_cpu_core_" "cpu" (λ d. keys_of (cpu_core_items d)) confirming
    ∷ map (traffic_member v)
        ("traffic_rx_rate_" ∷ "traffic_tx_rate_" ∷ "traffic_rx_bytes_" ∷ "traffic_tx_bytes_" ∷ [])

unfoldable pub described_member : Family → Description → Member SnmpData
described_member family desc =
    member (append "sensor_" desc.key) desc.endpoint (λ d. some (present desc d)) family

unfoldable pub hardware_members : List (Member SnmpData)
unfolding described_member
hardware_members =
    member "sensor_fan_" "health" (λ d. keys_of (fan_items d)) lasting
    ∷ (map (described_member lasting) hardware_sensors
        ++ map (described_member trusting) version_sensors)

-- `_async_remove_snmp_entities`
unfoldable pub remove_snmp_entities : String → List RegEntry → List RegEntry
remove_snmp_entities entry_id registry =
    remove_families entry_id "sensor" removed_prefixes
      (remove_entities entry_id "sensor" removed_names registry)

unfoldable pub snmp_sensors_of :
    String → Bool → XmlView → Option (Coordinator SnmpData) → List RegEntry → List String → Placed
unfolding snmp_statics reading_members hardware_members remove_snmp_entities and_then
snmp_sensors_of entry_id snmp_enabled v none registry added =
    placed (if snmp_enabled then registry else remove_snmp_entities entry_id registry) added
snmp_sensors_of entry_id snmp_enabled v (some snmp) registry added =
    let (registry', fixed) = add_static snmp entry_id "sensor" snmp_statics registry in
    and_then (added ++ fixed) (setup_dynamic entry_id "sensor" snmp (reading_members v) registry')
      (λ registry'' more.
        and_then more (setup_dynamic entry_id "sensor" snmp hardware_members registry'') placed)

unfoldable pub sensors_for :
    String → Bool → Coordinator XmlData → Option (Coordinator SnmpData) → List RegEntry → Placed
unfolding snmp_sensors_of view_of and_then
sensors_for entry_id snmp_enabled xml snmp registry =
    let (registry', fixed) = add_static xml entry_id "sensor" xml_statics registry in
    and_then fixed (setup_dynamic entry_id "sensor" xml dhcp_members registry')
      (snmp_sensors_of entry_id snmp_enabled (view_of xml) snmp)

-- `async_setup_entry` of the sensors.
unfoldable pub setup_sensors : String → Setting → List RegEntry → Placed
unfolding sensors_for
setup_sensors entry_id setting registry =
    sensors_for entry_id setting.snmp_enabled setting.xml setting.snmp registry
