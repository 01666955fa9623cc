-- ===== src/Platform/Setups/Owners.antt =====
-- Rules and wireless networks are shown by a switch or by a binary sensor, never by both.
use ha_sophos_fw.Prelude.{
  String, ◌≡◌, refl, ◌∙◌, Bool, true, false, ◌&&◌, ◌||◌, Option, none, some, List, [], ◌∷◌, ◌++◌,
  arith, ◌==◌, any_of, contains,
}
use ha_sophos_fw.Text.{append, starts_with}
use ha_sophos_fw.Models.Xml.{XmlData}
use ha_sophos_fw.Models.Snmp.{SnmpData}
use ha_sophos_fw.Setup.UniqueIds.{RegEntry}
use ha_sophos_fw.Entity.Items.{vpn_items, psu_items, psus_of}
use ha_sophos_fw.Platform.{build_unique_id, remove_entities, remove_families, holds}
use ha_sophos_fw.Platform.Laws.{holds-remove_families, holds-remove_entities}
use ha_sophos_fw.Platform.Families.{Coordinator, setup_dynamic}
use ha_sophos_fw.Platform.Families.Reported.{among, prefixes, foreign-setup_dynamic}
use ha_sophos_fw.Platform.Families.Added.{added-setup_dynamic}
use ha_sophos_fw.Platform.Setups.{
  Setting, placed, add_static, static, switch_prefixes, setup_switches, binary_members,
  binary_snmp_members, snmp_binary_sensors, binary_sensors_for, setup_binary_sensors, switches_for,
}
use ha_sophos_fw.Entity.Removal.{contains-append}
use ha_sophos_fw.Platform.Setups.Laws.{
  is_shown, not_key, add_static_lem, among-keyed, among-name_items, shown-and_then,
}

-- A suffix that no family of the binary sensors has while write access is on.
abbrev Foreign : String → Type 0
Foreign s =
    (starts_with s "iface_" ≡ false)
    × (starts_with s "vpn_" ≡ false)
    × (starts_with s "psu_" ≡ false)
    × (starts_with s "ap_" ≡ false)
    × (starts_with s "ha_enabled" ≡ false)

module _ (entry_id s : String) (out : Foreign s) where
  snmp_foreign : any_of (starts_with s) (prefixes binary_snmp_members) ≡ false
  unfolding binary_snmp_members
  snmp_foreign = ground (arith, out.1, out.2, out.3)

  snmp_items : (d : SnmpData) → any_of (λ m. among (m.items d) s) binary_snmp_members ≡ false
  unfolding binary_snmp_members vpn_items psu_items
  snmp_items d = ground (
    arith,
    among-keyed "vpn_" s out.1 d.tunnels,
    among-name_items "psu_" s out.2 (psus_of d.health),
    among-keyed "ap_" s out.3 d.access_points,
  )

  not_static : ("ha_enabled" == s) ≡ false
  not_static = not_key "ha_enabled" "" s out.4

  -- What the SNMP half of the platform does not show.
  snmp_gone :
      (snmp_enabled : Bool) (snmp : Option (Coordinator SnmpData)) (registry : List RegEntry)
      (added : List String)
      → holds "binary_sensor" (build_unique_id entry_id s) registry ≡ false
      → contains added s ≡ false
      → is_shown entry_id "binary_sensor" s
          (snmp_binary_sensors entry_id snmp_enabled snmp registry added)
        ≡ false
  unfolding snmp_binary_sensors is_shown add_static
  snmp_gone snmp_enabled none registry added h k =
      let cleared = remove_entities entry_id "binary_sensor" ("ha_enabled" ∷ []) registry in
      ground (
        arith,
        h,
        k,
        holds-remove_families entry_id "binary_sensor" ("vpn_" ∷ "psu_" ∷ "ap_" ∷ []) cleared
            "binary_sensor" s,
        holds-remove_entities entry_id "binary_sensor" ("ha_enabled" ∷ []) registry "binary_sensor"
            s,
      )
  snmp_gone snmp_enabled (some snmp) registry added h k =
      let entities = static "ha_enabled" "ha" ∷ [] in
      let (registry', fixed) = add_static snmp entry_id "binary_sensor" entities registry in
      let (same, none_fixed) =
        add_static_lem entry_id "binary_sensor" s snmp "binary_sensor" entities registry
          (ground (arith, not_static)) in
      shown-and_then entry_id "binary_sensor" s (added ++ fixed)
        (setup_dynamic entry_id "binary_sensor" snmp binary_snmp_members registry') placed
        (contains-append added fixed s ∙ ground (arith, k, none_fixed))
        (foreign-setup_dynamic snmp s "binary_sensor" "binary_sensor" entry_id binary_snmp_members
            registry' (ground (arith, snmp_foreign))
          ∙ same
          ∙ h)
        (added-setup_dynamic entry_id "binary_sensor" snmp s binary_snmp_members registry'
          snmp_items)
        (λ registry'' new p q. ground (arith, p, q))

  xml_items : (d : XmlData) → any_of (λ m. among (m.items d) s) (binary_members true) ≡ false
  unfolding binary_members
  xml_items d = ground (arith, among-keyed "iface_" s out.0 d.interfaces)

  -- With write access the platform leaves no entity of a family that is the switches'.
  binary_gone :
      (snmp_enabled : Bool) (xml : Coordinator XmlData) (snmp : Option (Coordinator SnmpData))
      (registry : List RegEntry)
      → (starts_with s "fwrule_" || starts_with s "wlan_") ≡ true
      → is_shown entry_id "binary_sensor" s
          (binary_sensors_for entry_id true snmp_enabled xml snmp registry)
        ≡ false
  unfolding binary_sensors_for
  binary_gone snmp_enabled xml snmp registry owned =
      let cleared = remove_families entry_id "binary_sensor" ("fwrule_" ∷ "wlan_" ∷ []) registry in
      let gone : holds "binary_sensor" (build_unique_id entry_id s) cleared ≡ false = ground (
        arith,
        owned,
        holds-remove_families entry_id "binary_sensor" ("fwrule_" ∷ "wlan_" ∷ []) registry
            "binary_sensor" s,
      ) in
      let foreign : any_of (starts_with s) (prefixes (binary_members true)) ≡ false =
        unfold binary_members in ground (arith, out.0) in
      shown-and_then entry_id "binary_sensor" s []
        (setup_dynamic entry_id "binary_sensor" xml (binary_members true) cleared)
        (snmp_binary_sensors entry_id snmp_enabled snmp) refl
        (foreign-setup_dynamic xml s "binary_sensor" "binary_sensor" entry_id (binary_members true)
            cleared (ground (arith, foreign))
          ∙ gone)
        (added-setup_dynamic entry_id "binary_sensor" xml s (binary_members true) cleared xml_items)
        (snmp_gone snmp_enabled snmp)

-- Without it the other platform leaves no switch.
switch_gone :
    (entry_id s : String) (xml : Coordinator XmlData) (snmp : Option (Coordinator SnmpData))
    (registry : List RegEntry)
    → any_of (starts_with s) switch_prefixes ≡ true
    → is_shown entry_id "switch" s (switches_for entry_id false xml snmp registry) ≡ false
unfolding switches_for is_shown
switch_gone entry_id s xml snmp registry owned =
    ground
      (arith, owned, holds-remove_families entry_id "switch" switch_prefixes registry "switch" s)

either :
    (entry_id s s' : String) (write_access snmp_enabled : Bool) (xml : Coordinator XmlData)
    (snmp : Option (Coordinator SnmpData)) (registry registry' : List RegEntry)
    → Foreign s
    → (starts_with s "fwrule_" || starts_with s "wlan_") ≡ true
    → any_of (starts_with s') switch_prefixes ≡ true
    → (is_shown entry_id "binary_sensor" s
          (binary_sensors_for entry_id write_access snmp_enabled xml snmp registry)
        && is_shown entry_id "switch" s' (switches_for entry_id write_access xml snmp registry'))
      ≡ false
either entry_id s s' true snmp_enabled xml snmp registry registry' out owned owned' =
    ground (arith, binary_gone entry_id s out snmp_enabled xml snmp registry owned)
either entry_id s s' false snmp_enabled xml snmp registry registry' out owned owned' =
    ground (arith, switch_gone entry_id s' xml snmp registry' owned')

-- A firewall rule and a wireless network never have both a switch and a binary sensor once both
-- platforms are set up with the same options, whatever entities were registered before, in whichever
-- order the platforms run, and whatever the coordinators know.
pub one_owner :
    (entry_id name : String) (setting : Setting) (registry registry' : List RegEntry)
    → let sensors = setup_binary_sensors entry_id setting registry in
      let switches = setup_switches entry_id setting registry' in
      ((is_shown entry_id "binary_sensor" (append "fwrule_" name) sensors
          && is_shown entry_id "switch" (append "switch_fwrule_" name) switches)
        ≡ false)
      × ((is_shown entry_id "binary_sensor" (append "wlan_" name) sensors
            && is_shown entry_id "switch" (append "switch_wlan_" name) switches)
          ≡ false)
unfolding setup_binary_sensors setup_switches
one_owner entry_id name setting registry registry' = (
  either entry_id (append "fwrule_" name) (append "switch_fwrule_" name) setting.write_access
      setting.snmp_enabled setting.xml setting.snmp registry registry'
      (refl, refl, refl, refl, refl) refl refl,
  either entry_id (append "wlan_" name) (append "switch_wlan_" name) setting.write_access
      setting.snmp_enabled setting.xml setting.snmp registry registry'
      (refl, refl, refl, refl, refl) refl refl,
)
