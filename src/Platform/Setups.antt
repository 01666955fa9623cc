-- ===== src/Platform/Setups.antt =====
-- The three platforms' async_setup_entry (switch.py, binary_sensor.py, sensor.py): which entities of a
-- config entry they remove, keep and add. Of an entity only the suffix of its unique id matters here.
pub mod Laws
pub mod Owners
use ha_sophos_fw.Prelude.{
  ℕ, String, Bool, true, false, not, ◌&&◌, Option, none, some, List, [], ◌∷◌, ◌++◌, map,
  if◌then◌else◌, is_some, keep_if,
}
use ha_sophos_fw.Prelude.Dict
use ha_sophos_fw.Prelude.Dict.{Dict}
use ha_sophos_fw.Text.{append}
use ha_sophos_fw.Models.Xml.{XmlData}
use ha_sophos_fw.Models.Snmp.{SnmpData}
use ha_sophos_fw.Setup.UniqueIds.{RegEntry}
use ha_sophos_fw.SnmpClient.Modules.{service_names, license_names}
use ha_sophos_fw.Entity.{Family}
use ha_sophos_fw.Entity.Items.{
  keyed, psu_items, vpn_items, rule_items, policy_items, wlan_items, ipsec_items, cpu_usage_items,
  cpu_core_items, dhcp_items, fan_items,
}
use ha_sophos_fw.Sensor.Readings.{
  Description, snmp_sensors, hardware_sensors, version_sensors, present,
}
use ha_sophos_fw.Sensor.Interfaces.{XmlView, traffic_items}
use ha_sophos_fw.Sensor.Platform.{described, removed_names, removed_prefixes}
use ha_sophos_fw.Platform.{remove_entities, remove_families}
use ha_sophos_fw.Platform.Families.{
  Member, Coordinator, Run, ran, failed, setup_dynamic, registry_of, added_of,
}

-- The options that the platforms read, and the coordinators of the entry.
pub record Setting : Type 0 where
  pub write_access : Bool
  pub snmp_enabled : Bool
  pub xml : Coordinator XmlData
  pub snmp : Option (Coordinator SnmpData)

-- What a platform leaves: the registry and the suffixes that it has added, at its end or at an
-- exception on the way.
pub data Placed : Type 0 where
  placed : List RegEntry → List String → Placed
  aborted : List RegEntry → List String → Placed

-- What follows a run of the families, with what was added before it.
unfoldable pub and_then : List String → Run → (List RegEntry → List String → Placed) → Placed
and_then added (ran s registry new) next = next registry (added ++ new)
and_then added (failed s registry) next = aborted registry added

abbrev pub keys_of : {V : Type 0} → Option (Dict V) → Option (List String)
keys_of none = none
keys_of (some items) = some (Dict.keys items)

abbrev pub plain : Family
plain = record { remove_stale = true; trust_empty = false; confirm_missing = false }

abbrev pub lasting : Family
lasting = record { remove_stale = false; trust_empty = false; confirm_missing = false }

abbrev pub trusting : Family
trusting = record { remove_stale = true; trust_empty = true; confirm_missing = false }

abbrev pub confirming : Family
confirming = record { remove_stale = true; trust_empty = false; confirm_missing = true }

abbrev pub trusting_confirming : Family
trusting_confirming = record { remove_stale = true; trust_empty = true; confirm_missing = true }

abbrev pub member : {D : Type 0} → String → String → (D → Option (List String)) → Family → Member D
member prefix endpoint items family = record {
  prefix = prefix;
  endpoint = endpoint;
  items = items;
  family = family;
}

-- An entity with its endpoint; without one it is always kept.
pub record Static : Type 0 where
  pub suffix : String
  pub endpoint : Option String

abbrev pub static : String → String → Static
static suffix endpoint = record { suffix = suffix; endpoint = some endpoint }

module _ {D : Type 0} (c : Coordinator D) where
  unfoldable pub has_source : Static → Bool
  has_source e = elim e.endpoint [ none ↦ true | some endpoint ↦ c.configured endpoint ]

  -- `async_add_static_entities`: the registry and the suffixes that are added.
  unfoldable pub add_static :
      String → String → List Static → List RegEntry → List RegEntry × List String
  unfolding has_source
  add_static entry_id domain entities registry = (
    remove_entities entry_id domain
        (map (λ e. e.suffix) (keep_if (λ e. not (has_source e)) entities)) registry,
    map (λ e. e.suffix) (keep_if has_source entities),
  )

-- Switches.
unfoldable pub switch_members : List (Member XmlData)
switch_members =
    member "switch_fwrule_" "firewall_rules" (λ d. keys_of (rule_items d)) plain
    ∷ member "switch_webfilter_" "web_filter_policies" (λ d. keys_of (policy_items d)) plain
    ∷ member "switch_wlan_" "wireless_networks" (λ d. keys_of (wlan_items d)) plain
    ∷ []

unfoldable pub ipsec_members : List (Member SnmpData)
ipsec_members = member "switch_ipsec_" "tunnels" (λ d. keys_of (ipsec_items d)) trusting ∷ []

abbrev pub switch_prefixes : List String
switch_prefixes = "switch_fwrule_" ∷ "switch_webfilter_" ∷ "switch_wlan_" ∷ "switch_ipsec_" ∷ []

unfoldable pub ipsec_switches :
    String → Option (Coordinator SnmpData) → List RegEntry → List String → Placed
unfolding ipsec_members and_then
ipsec_switches entry_id none registry added =
    placed (remove_families entry_id "switch" ("switch_ipsec_" ∷ []) registry) added
ipsec_switches entry_id (some snmp) registry added =
    and_then added (setup_dynamic entry_id "switch" snmp ipsec_members registry) placed

-- With or without write access.
unfoldable pub switches_for :
    String → Bool → Coordinator XmlData → Option (Coordinator SnmpData) → List RegEntry → Placed
unfolding switch_members ipsec_switches and_then
switches_for entry_id write_access xml snmp registry =
    if write_access
    then and_then [] (setup_dynamic entry_id "switch" xml switch_members registry)
        (ipsec_switches entry_id snmp)
    else placed (remove_families entry_id "switch" switch_prefixes registry) []

-- `async_setup_entry` of the switches.
unfoldable pub setup_switches : String → Setting → List RegEntry → Placed
unfolding switches_for
setup_switches entry_id setting registry =
    switches_for entry_id setting.write_access setting.xml setting.snmp registry

-- Binary sensors.
unfoldable pub binary_members : Bool → List (Member XmlData)
binary_members write_access =
    member "iface_" "interfaces" (λ d. keys_of (keyed "iface_" d.interfaces)) plain
    ∷ (if write_access
        then []
        else member "fwrule_" "firewall_rules" (λ d. keys_of (keyed "fwrule_" d.firewall_rules))
            plain
          ∷ member "wlan_" "wireless_networks" (λ d. keys_of (keyed "wlan_" d.wireless_networks))
              plain
          ∷ [])

unfoldable pub binary_snmp_members : List (Member SnmpData)
binary_snmp_members =
    member "vpn_" "tunnels" (λ d. keys_of (vpn_items d)) trusting
    ∷ member "psu_" "health" (λ d. keys_of (psu_items d)) lasting
    ∷ member "ap_" "access_points" (λ d. keys_of (keyed "ap_" d.access_points)) trusting_confirming
    ∷ []

unfoldable pub snmp_binary_sensors :
    String → Bool → Option (Coordinator SnmpData) → List RegEntry → List String → Placed
unfolding binary_snmp_members and_then add_static
snmp_binary_sensors entry_id snmp_enabled none registry added =
    let removed =
      remove_families entry_id "binary_sensor" ("vpn_" ∷ "psu_" ∷ "ap_" ∷ [])
        (remove_entities entry_id "binary_sensor" ("ha_enabled" ∷ []) registry) in
    placed (if snmp_enabled then registry else removed) added
snmp_binary_sensors entry_id snmp_enabled (some snmp) registry added =
    let (registry', fixed) =
      add_static snmp entry_id "binary_sensor" (static "ha_enabled" "ha" ∷ []) registry in
    and_then (added ++ fixed)
      (setup_dynamic entry_id "binary_sensor" snmp binary_snmp_members registry') placed

unfoldable pub binary_sensors_for :
    String
    → Bool
    → Bool
    → Coordinator XmlData
    → Option (Coordinator SnmpData)
    → List RegEntry
    → Placed
unfolding binary_members snmp_binary_sensors and_then
binary_sensors_for entry_id write_access snmp_enabled xml snmp registry =
    let owned =
      if write_access
      then remove_families entry_id "binary_sensor" ("fwrule_" ∷ "wlan_" ∷ []) registry
      else registry in
    and_then [] (setup_dynamic entry_id "binary_sensor" xml (binary_members write_access) owned)
      (snmp_binary_sensors entry_id snmp_enabled snmp)

-- `async_setup_entry` of the binary sensors.
unfoldable pub setup_binary_sensors : String → Setting → List RegEntry → Placed
unfolding binary_sensors_for
setup_binary_sensors entry_id setting registry =
    binary_sensors_for entry_id setting.write_access setting.snmp_enabled setting.xml setting.snmp
      registry

unfoldable pub registry_after : Placed → List RegEntry
registry_after (placed registry added) = registry
registry_after (aborted registry added) = registry

unfoldable pub added_after : Placed → List String
added_after (placed registry added) = added
added_after (aborted registry added) = added
