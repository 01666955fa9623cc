-- ===== src/Sensor/Interfaces.antt =====
-- Traffic sensors of the interfaces (sensor.py: xml_interfaces, _traffic_items, _traffic_factory).
use ha_sophos_fw.Prelude.{
  String, ◌≡◌, refl, ap, ◌⊎◌, inl, inr, Bool, false, not, ◌&&◌, ◌||◌, Option, none, some, List, [],
  ◌∷◌, map, arith, ◌==◌, if◌then◌else◌, Bool-cases, Option-cases, is_some, get_or, any_of, contains,
}
use ha_sophos_fw.Prelude.Dict.{Dict}
use ha_sophos_fw.Models.Xml.{XmlData, Interface}
use ha_sophos_fw.Models.Snmp.{SnmpData}
use ha_sophos_fw.Entity.Items.{name_items}

-- The device's name: `iface.hardware or iface.name`.
unfoldable pub device_of : Interface → String
device_of i = elim i.hardware [
  | none ↦ i.name
  | some hardware ↦ if hardware == "" then i.name else hardware
]

devices_of : Option (Dict Interface) → Option (List String)
unfolding device_of
devices_of none = none
devices_of (some interfaces) = some (map (λ e. device_of e.1) interfaces)

-- What the XML coordinator knows: whether its interfaces are polled, and its data.
pub record XmlView : Type 0 where
  pub configured : Bool
  pub contents : Option XmlData

-- `xml_interfaces`
unfoldable pub xml_interfaces : XmlView → Option (List String)
unfolding devices_of
xml_interfaces v =
    if not v.configured
    then some []
    else elim v.contents [ none ↦ none | some d ↦ devices_of d.interfaces ]

-- `_traffic_items` of the sensor with the key; `prefix` is its prefix.
unfoldable pub traffic_items : String → XmlView → SnmpData → Option (Dict String)
unfolding xml_interfaces
traffic_items prefix v d =
    if not (is_some d.traffic) || not (is_some (xml_interfaces v))
    then none
    else name_items prefix d.traffic

-- `_traffic_factory`: whether the new sensor of the interface is enabled.
unfoldable pub enabled_default : Bool → XmlView → String → Bool
unfolding xml_interfaces
enabled_default for_xml_interfaces v name =
    for_xml_interfaces && contains (get_or (xml_interfaces v) []) name

contains-map :
    {A : Type 0} (f : A → String) (l : List A) (s : String)
    → contains (map f l) s ≡ any_of (λ x. f x == s) l
contains-map f [] s = refl
contains-map f (x ∷ l) s = ap (λ b. (f x == s) || b) (contains-map f l s)

-- A traffic sensor is created only once it is known which interfaces the XML API lists, unless they are
-- not polled. Whether it starts enabled is then decided for good: it does exactly if its kind is shown by
-- default and one of the listed interfaces has its device name.
pub enabled_default_lem :
    (prefix name : String) (for_xml_interfaces : Bool) (v : XmlView) (d : SnmpData)
    (items : Dict String)
    → traffic_items prefix v d ≡ some items
    → ((v.configured ≡ false) × (enabled_default for_xml_interfaces v name ≡ false))
      ⊎ ((x : XmlData) × (interfaces : Dict Interface) × (v.contents ≡ some x)
          × (x.interfaces ≡ some interfaces)
          × (enabled_default for_xml_interfaces v name
              ≡ for_xml_interfaces && any_of (λ e. device_of e.1 == name) interfaces))
unfolding traffic_items enabled_default xml_interfaces devices_of
enabled_default_lem prefix name for_xml_interfaces v d items h = elim (Bool-cases v.configured) [
  | inr off ↦ inl (off, ground (arith, off))
  | inl on ↦ elim (Option-cases v.contents) [
    | inl p ↦ absurd (ground (arith, on, p, h))
    | inr (x, p) ↦ elim (Option-cases x.interfaces) [
      | inl q ↦ absurd (ground (arith, on, p, q, h))
      | inr (interfaces, q) ↦ inr (
        x,
        interfaces,
        p,
        q,
        ground (
          arith,
          on,
          p,
          q,
          contains-map (λ (e : String × Interface). device_of e.1) interfaces name,
        ),
      )
    ]
  ]
]
