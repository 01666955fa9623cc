-- ===== src/Sensor/Platform.antt =====
-- The sensors that the platform creates, by the suffixes of their unique ids, and those that it removes
-- once SNMP is switched off (sensor.py: async_setup_entry, _async_remove_snmp_entities).
pub mod Laws
use ha_sophos_fw.Prelude.{
  ℕ, zero, suc, ◌+◌, ◌-◌, ◌*◌, ◌/◌, ◌%◌, ◌≤◌, ◌<◌, String, ◌≡◌, refl, sym, ap, ◌∙◌, ◌≢◌, ◌↔◌, ◌⊎◌,
  inl, inr, Bool, true, false, not, ◌&&◌, ◌||◌, Option, none, some, List, [], ◌∷◌, ◌++◌, map, arith,
  ◌==◌, eq_iff, eq_refl, ltb, leb, eqb, if◌then◌else◌, leb→le, ltb→lt, eqb_iff, Bool-cases,
  Option-cases, or_else, is_some, get_or, ne→false, length, is_nil, keep_if, any_of, all_of,
  first_where, All, contains, Distinct,
}
use ha_sophos_fw.Prelude.Dict
use ha_sophos_fw.Prelude.Dict.{Dict}
use ha_sophos_fw.Text.{append, starts_with}
use ha_sophos_fw.Models.Xml.{XmlData}
use ha_sophos_fw.Models.Snmp.{SnmpData}
use ha_sophos_fw.SnmpClient.Modules.{service_names, license_names}
use ha_sophos_fw.Entity.Items.{keyed, cpu_usage_items, cpu_core_items, dhcp_items, fan_items}
use ha_sophos_fw.Sensor.Readings.{
  Description, snmp_sensors, hardware_sensors, version_sensors, present,
}
use ha_sophos_fw.Sensor.Interfaces.{XmlView, traffic_items}

-- The suffixes of a family's items.
abbrev pub suffixes : {V : Type 0} → Option (Dict V) → List String
suffixes none = []
suffixes (some items) = Dict.keys items

abbrev pub described : List Description → List String
described = map (λ (desc : Description). append "sensor_" desc.key)

abbrev pub present_all : List Description → SnmpData → List String
present_all [] d = []
present_all (desc ∷ descs) d = present desc d ++ present_all descs d

-- Those that stand for themselves, whatever the data.
unfoldable pub static_suffixes : List String
static_suffixes =
    described snmp_sensors
    ++ "sensor_services_summary"
      ∷ "sensor_licenses_summary"
      ∷ "sensor_uptime"
      ∷ "ha_current_state"
      ∷ "ha_peer_state"
      ∷ (map (append "service_") (Dict.keys service_names)
          ++ map (append "license_") (Dict.keys license_names))

abbrev pub concat : List (List String) → List String
concat [] = []
concat (l ∷ ls) = l ++ concat ls

-- Those of the families, for data of both coordinators.
unfoldable pub families : XmlView → SnmpData → List (List String)
families v d =
    get_or (cpu_usage_items d) []
    ∷ suffixes (keyed "ap_clients_" d.access_points)
    ∷ suffixes (keyed "poe_" d.poe)
    ∷ suffixes (cpu_core_items d)
    ∷ suffixes (traffic_items "traffic_rx_rate_" v d)
    ∷ suffixes (traffic_items "traffic_tx_rate_" v d)
    ∷ suffixes (traffic_items "traffic_rx_bytes_" v d)
    ∷ suffixes (traffic_items "traffic_tx_bytes_" v d)
    ∷ suffixes (fan_items d)
    ∷ present_all hardware_sensors d
    ∷ present_all version_sensors d
    ∷ []

unfoldable pub family_suffixes : XmlView → SnmpData → List String
unfolding families
family_suffixes v d = concat (families v d)

-- The sensors of the XML coordinator.
unfoldable pub xml_suffixes : XmlData → List String
xml_suffixes d =
    "sensor_web_filter_default_action" ∷ "sensor_backup_frequency" ∷ suffixes (dhcp_items d)

abbrev pub removed_names : List String
removed_names =
    described snmp_sensors
    ++ described hardware_sensors
    ++ described version_sensors
    ++ "sensor_services_summary" ∷ "sensor_licenses_summary" ∷ "sensor_uptime" ∷ "ha_current_state"
      ∷ "ha_peer_state" ∷ "sensor_cpu_usage" ∷ []

abbrev pub removed_prefixes : List String
removed_prefixes =
    "service_" ∷ "license_" ∷ "sensor_cpu_core_" ∷ "traffic_" ∷ "sensor_fan_" ∷ "ap_clients_"
    ∷ "poe_" ∷ []

-- `_async_remove_snmp_entities`: whether an entity with the suffix is removed.
unfoldable pub removes : String → Bool
removes suffix = contains removed_names suffix || any_of (starts_with suffix) removed_prefixes
