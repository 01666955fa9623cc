-- ===== src/Platform/Sensors/Off.antt =====
-- Once SNMP is switched off, no sensor of SNMP is left.
use ha_sophos_fw.Prelude.{
  String, ◌≡◌, refl, ap, inl, inr, Bool, true, false, none, List, [], ◌∷◌, map, arith, ◌==◌, eq_iff,
  Bool-cases, any_of, all_of, contains, get_or,
}
use ha_sophos_fw.Prelude.Dict
use ha_sophos_fw.Text.{starts_with}
use ha_sophos_fw.Text.Laws.{starts_with_both}
use ha_sophos_fw.Models.Xml.{XmlData}
use ha_sophos_fw.Models.Snmp.{SnmpData}
use ha_sophos_fw.Setup.UniqueIds.{RegEntry}
use ha_sophos_fw.Entity.Items.{dhcp_items, fans_of}
use ha_sophos_fw.Sensor.Interfaces.{XmlView}
use ha_sophos_fw.Sensor.Readings.{snmp_sensors, hardware_sensors, version_sensors}
use ha_sophos_fw.Sensor.Platform.{
  removed_names, removed_prefixes, removes, static_suffixes, family_suffixes,
}
use ha_sophos_fw.Sensor.Platform.Laws.{not_among, removes_snmp}
use ha_sophos_fw.Platform.{remove_entities}
use ha_sophos_fw.Platform.Laws.{holds-remove_families, holds-remove_entities}
use ha_sophos_fw.Platform.Families.{Coordinator, setup_dynamic}
use ha_sophos_fw.Platform.Families.Reported.{among, apart}
use ha_sophos_fw.Platform.Families.Added.{added-setup_dynamic, setup_dynamic_ran}
use ha_sophos_fw.Platform.Setups.{add_static}
use ha_sophos_fw.Platform.Setups.Laws.{is_shown, add_static_lem, among-keyed, shown-and_then_ran}
use ha_sophos_fw.Platform.Sensors.{
  dhcp_members, xml_statics, remove_snmp_entities, snmp_sensors_of, sensors_for, setup_sensors,
}

none_begins :
    (s p : String) (ps : List String)
    → starts_with s p ≡ true
    → all_of (apart p) ps ≡ true
    → any_of (starts_with s) ps ≡ false
none_begins s p [] h k = refl
none_begins s p (q ∷ ps) h k = elim (Bool-cases (starts_with s q)) [
  | inr e ↦ ground (arith, e, k, none_begins s p ps h)
  | inl e ↦ absurd (ground (arith, k, starts_with_both s p q h e))
]

-- What is removed is no sensor of the XML coordinator.
not_dhcp : (s : String) → removes s ≡ true → starts_with s "dhcp_leases_" ≡ false
unfolding removes snmp_sensors hardware_sensors version_sensors
not_dhcp s h = elim (Bool-cases (starts_with s "dhcp_leases_")) [
  | inr e ↦ e
  | inl e ↦
      let names : contains removed_names s ≡ false =
        not_among s "dhcp_leases_" removed_names e refl in
      let begun : any_of (starts_with s) removed_prefixes ≡ false =
        none_begins s "dhcp_leases_" removed_prefixes e refl in
      absurd (cc (h, names, begun))
]

contains-at :
    (p : String → Bool) (l : List String) (s : String)
    → p s ≡ true
    → any_of p l ≡ false
    → contains l s ≡ false
contains-at p [] s h k = refl
contains-at p (x ∷ l) s h k =
    let same : (x == s) ≡ true → p x ≡ p s = λ e. ap p ((eq_iff x s).0 e) in
    ground (arith, h, k, same, contains-at p l s)

not_xml_static :
    (s : String) → removes s ≡ true → contains (map (λ e. e.suffix) xml_statics) s ≡ false
unfolding removes snmp_sensors hardware_sensors version_sensors
not_xml_static s h =
    contains-at removes ("sensor_web_filter_default_action" ∷ "sensor_backup_frequency" ∷ []) s h
      refl

module _ (entry_id s : String) (h : removes s ≡ true) where
  snmp_gone :
      (v : XmlView) (registry : List RegEntry) (added : List String)
      → contains added s ≡ false
      → is_shown entry_id "sensor" s (snmp_sensors_of entry_id false v none registry added) ≡ false
  unfolding snmp_sensors_of remove_snmp_entities is_shown removes
  snmp_gone v registry added k =
      let cleared = remove_entities entry_id "sensor" removed_names registry in
      ground (
        arith,
        h,
        k,
        holds-remove_families entry_id "sensor" removed_prefixes cleared "sensor" s,
        holds-remove_entities entry_id "sensor" removed_names registry "sensor" s,
      )

  dhcp_others : (d : XmlData) → any_of (λ m. among (m.items d) s) dhcp_members ≡ false
  unfolding dhcp_items
  dhcp_others d = ground (arith, among-keyed "dhcp_leases_" s (not_dhcp s h) d.dhcp_servers)

  sensors_gone :
      (xml : Coordinator XmlData) (registry : List RegEntry)
      → is_shown entry_id "sensor" s (sensors_for entry_id false xml none registry) ≡ false
  unfolding sensors_for
  sensors_gone xml registry =
      let (registry', fixed) = add_static xml entry_id "sensor" xml_statics registry in
      let v : XmlView = record {
        configured = xml.configured "interfaces";
        contents = xml.contents;
      } in
      let (same, none_fixed) =
        add_static_lem entry_id "sensor" s xml "sensor" xml_statics registry (not_xml_static s h) in
      shown-and_then_ran entry_id "sensor" s fixed
        (setup_dynamic entry_id "sensor" xml dhcp_members registry')
        (snmp_sensors_of entry_id false v none)
        (setup_dynamic_ran entry_id "sensor" xml dhcp_members registry' refl) none_fixed
        (added-setup_dynamic entry_id "sensor" xml s dhcp_members registry' dhcp_others)
        (snmp_gone v)

all_gone :
    (entry_id : String) (xml : Coordinator XmlData) (registry : List RegEntry) (l : List String)
    → all_of removes l ≡ true
    → any_of (λ s. is_shown entry_id "sensor" s (sensors_for entry_id false xml none registry)) l
      ≡ false
all_gone entry_id xml registry [] h = refl
all_gone entry_id xml registry (s ∷ l) h =
    let first = sensors_gone entry_id s (ground (arith, h)) xml registry in
    ground (arith, h, first, all_gone entry_id xml registry l)

-- Setting up the sensors with SNMP switched off leaves no sensor of SNMP that the platform may ever have
-- created, whatever the data were then, and whatever else is registered. The fans' keys are those that
-- the client gives them.
pub snmp_off :
    (entry_id : String) (write_access : Bool) (xml : Coordinator XmlData) (registry : List RegEntry)
    (v : XmlView) (d : SnmpData)
    → all_of (λ k. starts_with k "fan_") (Dict.keys (get_or (fans_of d.health) [])) ≡ true
    → let after =
        setup_sensors entry_id
          (record { write_access = write_access; snmp_enabled = false; xml = xml; snmp = none })
          registry in
      (any_of (λ s. is_shown entry_id "sensor" s after) static_suffixes ≡ false)
      × (any_of (λ s. is_shown entry_id "sensor" s after) (family_suffixes v d) ≡ false)
unfolding setup_sensors
snmp_off entry_id write_access xml registry v d fans =
    let (fixed, families, rest) =
      removes_snmp v d
        (record {
          interfaces = none;
          firewall_rules = none;
          web_filter_policies = none;
          dhcp_servers = none;
          backup = none;
          admin = none;
          wireless_networks = none;
        })
        fans in
    (
      all_gone entry_id xml registry static_suffixes fixed,
      all_gone entry_id xml registry (family_suffixes v d) families,
    )
