-- ===== src/Sensor/Platform/Laws.antt =====
-- Switching SNMP off removes the sensors of SNMP, and only those.
use ha_sophos_fw.Prelude.{
  ℕ, String, ◌≡◌, refl, ap, inl, inr, Bool, true, false, not, ◌&&◌, ◌||◌, Option, none, some, List,
  [], ◌∷◌, ◌++◌, arith, ◌==◌, eq_iff, Bool-cases, Option-cases, is_some, get_or, is_nil, any_of,
  all_of, All, contains,
}
use ha_sophos_fw.Prelude.Dict
use ha_sophos_fw.Prelude.Dict.{Dict}
use ha_sophos_fw.Text.{append, starts_with}
use ha_sophos_fw.Models.Xml.{XmlData}
use ha_sophos_fw.Models.Snmp.{SnmpData}
use ha_sophos_fw.Entity.Items.{
  keyed, name_items, cpu_usage_items, cpu_core_items, dhcp_items, fan_items, fans_of, names,
}
use ha_sophos_fw.Sensor.Readings.{
  Description, snmp_sensors, hardware_sensors, version_sensors, present,
}
use ha_sophos_fw.Sensor.Interfaces.{XmlView, traffic_items, xml_interfaces}
use ha_sophos_fw.Sensor.Platform.{
  described, suffixes, present_all, static_suffixes, concat, families, family_suffixes,
  xml_suffixes, removed_names, removed_prefixes, removes,
}

static_removed : all_of removes static_suffixes ≡ true
unfolding removes static_suffixes snmp_sensors hardware_sensors version_sensors
static_removed = refl

all_of-append :
    {A : Type 0} (p : A → Bool) (l m : List A) → all_of p (l ++ m) ≡ all_of p l && all_of p m
all_of-append p [] m = refl
all_of-append p (x ∷ l) m = ground (arith, all_of-append p l m)

by_prefix : (s : String) → any_of (starts_with s) removed_prefixes ≡ true → removes s ≡ true
unfolding removes
by_prefix s h = ground (arith, h)

-- A prefix whose suffixes are all removed.
abbrev Covered : String → Type 0
Covered prefix = (name : String) → any_of (starts_with (append prefix name)) removed_prefixes ≡ true

keyed-Covered :
    {V : Type 0} (prefix : String)
    → Covered prefix
    → (items : Option (Dict V)) → all_of removes (suffixes (keyed prefix items)) ≡ true
unfolding keyed
keyed-Covered prefix h none = refl
keyed-Covered prefix h (some []) = refl
keyed-Covered prefix h (some ((name, item) ∷ items)) =
    ground (arith, by_prefix (append prefix name) (h name), keyed-Covered prefix h (some items))

name_items-Covered :
    {V : Type 0} (prefix : String)
    → Covered prefix
    → (items : Option (Dict V)) → all_of removes (suffixes (name_items prefix items)) ≡ true
unfolding name_items names
name_items-Covered prefix h none = refl
name_items-Covered prefix h (some []) = refl
name_items-Covered prefix h (some ((name, item) ∷ items)) =
    ground
      (arith, by_prefix (append prefix name) (h name), name_items-Covered prefix h (some items))

traffic_removed :
    (prefix : String)
    → Covered prefix
    → (v : XmlView) (d : SnmpData) → all_of removes (suffixes (traffic_items prefix v d)) ≡ true
unfolding traffic_items
traffic_removed prefix h v d =
    elim (Bool-cases (not (is_some d.traffic) || not (is_some (xml_interfaces v)))) [
      | inl p ↦ rw p refl
      | inr p ↦ rw p (name_items-Covered prefix h d.traffic)
    ]

cpu_usage_removed : (d : SnmpData) → all_of removes (get_or (cpu_usage_items d) []) ≡ true
unfolding cpu_usage_items removes snmp_sensors hardware_sensors version_sensors
cpu_usage_removed d = elim (Option-cases d.cpu) [
  | inl p ↦ rw p refl
  | inr (cores, p) ↦ elim (Bool-cases (is_nil cores)) [
    | inl q ↦ rw (p, q) refl
    | inr q ↦ rw (p, q) refl
  ]
]

present_removed :
    (desc : Description) (d : SnmpData)
    → removes (append "sensor_" desc.key) ≡ true
    → all_of removes (present desc d) ≡ true
unfolding present
present_removed desc d h = elim (Bool-cases (is_some (desc.value d))) [
  | inl p ↦ rw p (ground (arith, h))
  | inr p ↦ rw p refl
]

present_all_removed :
    (descs : List Description) (d : SnmpData)
    → all_of removes (described descs) ≡ true
    → all_of removes (present_all descs d) ≡ true
present_all_removed [] d h = refl
present_all_removed (desc ∷ descs) d h = ground (
  arith,
  h,
  all_of-append removes (present desc d) (present_all descs d),
  present_removed desc d,
  present_all_removed descs d,
)

described_removed :
    (all_of removes (described hardware_sensors) ≡ true)
    × (all_of removes (described version_sensors) ≡ true)
unfolding removes snmp_sensors hardware_sensors version_sensors
described_removed = (refl, refl)

fans_removed :
    (fans : Dict (Option ℕ))
    → all_of (λ k. starts_with k "fan_") (Dict.keys fans) ≡ true
    → all_of removes (suffixes (name_items "sensor_" (some fans))) ≡ true
unfolding name_items names
fans_removed [] h = refl
fans_removed ((key, speed) ∷ fans) h =
    ground (arith, h, by_prefix (append "sensor_" key), fans_removed fans)

fan_items_removed :
    (d : SnmpData)
    → all_of (λ k. starts_with k "fan_") (Dict.keys (get_or (fans_of d.health) [])) ≡ true
    → all_of removes (suffixes (fan_items d)) ≡ true
unfolding fan_items
fan_items_removed d h = elim (Option-cases (fans_of d.health)) [
  | inl p ↦ rw p (unfold name_items in refl)
  | inr (fans, p) ↦ rw p (fans_removed fans (rw p at h))
]

concat_removed :
    (ls : List (List String))
    → All (λ l. all_of removes l ≡ true) ls
    → all_of removes (concat ls) ≡ true
concat_removed [] h = refl
concat_removed (l ∷ ls) (h, hs) =
    ground (arith, h, all_of-append removes l (concat ls), concat_removed ls hs)

family_removed :
    (v : XmlView) (d : SnmpData)
    → all_of (λ k. starts_with k "fan_") (Dict.keys (get_or (fans_of d.health) [])) ≡ true
    → all_of removes (family_suffixes v d) ≡ true
unfolding family_suffixes families cpu_core_items
family_removed v d fans = concat_removed (families v d) (
  cpu_usage_removed d,
  (
    keyed-Covered "ap_clients_" (λ name. refl) d.access_points,
    (
      keyed-Covered "poe_" (λ name. refl) d.poe,
      (
        name_items-Covered "sensor_cpu_core_" (λ name. refl) d.cpu,
        (
          traffic_removed "traffic_rx_rate_" (λ name. refl) v d,
          (
            traffic_removed "traffic_tx_rate_" (λ name. refl) v d,
            (
              traffic_removed "traffic_rx_bytes_" (λ name. refl) v d,
              (
                traffic_removed "traffic_tx_bytes_" (λ name. refl) v d,
                (
                  fan_items_removed d fans,
                  (
                    present_all_removed hardware_sensors d described_removed.0,
                    (present_all_removed version_sensors d described_removed.1, tt),
                  ),
                ),
              ),
            ),
          ),
        ),
      ),
    ),
  ),
)

-- Texts of which one has a prefix and the other has not are different.
pub not_among :
    (t prefix : String) (l : List String)
    → starts_with t prefix ≡ true
    → all_of (λ s. not (starts_with s prefix)) l ≡ true
    → contains l t ≡ false
not_among t prefix [] h k = refl
not_among t prefix (s ∷ l) h k =
    let same : (s == t) ≡ true → starts_with s prefix ≡ starts_with t prefix =
      λ e. ap (λ r. starts_with r prefix) ((eq_iff s t).0 e) in
    ground (arith, h, k, same, not_among t prefix l h)

dhcp_kept : (name : String) → removes (append "dhcp_leases_" name) ≡ false
unfolding removes snmp_sensors hardware_sensors version_sensors
dhcp_kept name =
    ap (λ b. b || false) (not_among (append "dhcp_leases_" name) "dhcp_" removed_names refl refl)

dhcp_all_kept :
    {V : Type 0} (items : Option (Dict V))
    → any_of removes (suffixes (keyed "dhcp_leases_" items)) ≡ false
unfolding keyed
dhcp_all_kept none = refl
dhcp_all_kept (some []) = refl
dhcp_all_kept (some ((name, item) ∷ items)) =
    ground (arith, dhcp_kept name, dhcp_all_kept (some items))

fixed_kept :
    any_of removes ("sensor_web_filter_default_action" ∷ "sensor_backup_frequency" ∷ []) ≡ false
unfolding removes snmp_sensors hardware_sensors version_sensors
fixed_kept = refl

xml_kept : (d : XmlData) → any_of removes (xml_suffixes d) ≡ false
unfolding xml_suffixes dhcp_items
xml_kept d = ground (arith, fixed_kept, dhcp_all_kept d.dhcp_servers)

-- Every sensor of SNMP that the platform may have created, whatever the data were, is removed when SNMP
-- is switched off, and no sensor of the XML API is. The fans' keys are those that the client gives them.
pub removes_snmp :
    (v : XmlView) (d : SnmpData) (x : XmlData)
    → all_of (λ k. starts_with k "fan_") (Dict.keys (get_or (fans_of d.health) [])) ≡ true
    → (all_of removes static_suffixes ≡ true)
      × (all_of removes (family_suffixes v d) ≡ true)
      × (any_of removes (xml_suffixes x) ≡ false)
removes_snmp v d x fans = (static_removed, family_removed v d fans, xml_kept x)
