-- ===== src/BinarySensor.antt =====
-- The binary sensors (custom_components/sophos_firewall/binary_sensor.py): what each shows.
pub mod Links
use ha_sophos_fw.Prelude.{
  ℕ, zero, suc, ◌+◌, ◌-◌, ◌*◌, ◌/◌, ◌%◌, ◌≤◌, ◌<◌, String, ◌≡◌, refl, sym, ap, ◌∙◌, ◌≢◌, ◌↔◌, ◌⊎◌,
  inl, inr, Bool, true, false, not, ◌&&◌, ◌||◌, Option, none, some, List, [], ◌∷◌, ◌++◌, map, arith,
  ◌==◌, eq_iff, eq_refl, ltb, leb, eqb, if◌then◌else◌, leb→le, ltb→lt, eqb_iff, Bool-cases,
  Option-cases, or_else, is_some, get_or, ne→false, length, is_nil, keep_if, any_of, all_of,
  first_where, All, contains, Distinct,
}
use ha_sophos_fw.Prelude.Dict
use ha_sophos_fw.Prelude.Dict.{Dict}
use ha_sophos_fw.Models.Xml.{XmlData, Interface, FirewallRule, WirelessNetwork}
use ha_sophos_fw.Models.Snmp.{
  SnmpData, VpnTunnel, HaStatus, SystemHealth, AccessPoint, InterfaceLink,
}
use ha_sophos_fw.Sensor.Readings.{field_of, flat}
use ha_sophos_fw.Sensor.Interfaces.{device_of}

-- Where the state of an interface comes from.
pub data Source : Type 0 where
  switch : Source
  snmp : Option InterfaceLink → Source

-- The SNMP coordinator as an interface sees it: whether it polls the links, whether the last fetch of
-- them succeeded, and its data.
pub record SnmpView : Type 0 where
  pub enabled : Bool
  pub available : Bool
  pub contents : Option SnmpData

link_source : Option InterfaceLink → Source
link_source none = switch
link_source (some link) = snmp (some link)

link_of : Dict InterfaceLink → Option Interface → Source
unfolding link_source
link_of links none = switch
link_of links (some i) = link_source (Dict.get (device_of i) links)

contents_source : Bool → Option SnmpData → Option Interface → Source
unfolding link_of
contents_source available none iface = snmp none
contents_source available (some d) iface =
    if available then link_of (get_or d.links []) iface else snmp none

-- `SophosInterfaceSensor._source`
unfoldable pub source_of : Option SnmpView → Option Interface → Source
unfolding contents_source
source_of none iface = switch
source_of (some v) iface =
    if not v.enabled then switch else contents_source v.available v.contents iface

link_is_on : Option InterfaceLink → Option Bool
link_is_on none = none
link_is_on (some link) = elim link.oper_status [
  | none ↦ none
  | some code ↦ if eqb code 4 then none else some (eqb code 1)
]

unfoldable pub state_from : Option Bool → Source → Option Bool
unfolding link_is_on
state_from is_up switch = is_up
state_from (some false) (snmp link) = some false
state_from is_up (snmp link) = link_is_on link

-- `SophosInterfaceSensor.is_on`; 1 and 4 are the operational states up and unknown.
unfoldable pub interface_is_on : Option SnmpView → Option Interface → Option Bool
unfolding source_of state_from
interface_is_on v none = none
interface_is_on v (some i) = state_from i.is_up (source_of v (some i))

-- `SophosFirewallRuleSensor.is_on`
unfoldable pub rule_is_on : XmlData → String → Option Bool
rule_is_on d name =
    field_of (λ (r : FirewallRule). r.enabled) (Dict.get name (get_or d.firewall_rules []))

unfoldable pub tunnel_is_on : Option ℕ → Option Bool
tunnel_is_on none = none
tunnel_is_on (some code) = some (eqb code 1 || eqb code 2)

-- `SophosVPNTunnelSensor.is_on`; 1 and 2 are the states active and partially active.
unfoldable pub vpn_is_on : SnmpData → String → Option Bool
unfolding tunnel_is_on
vpn_is_on d index =
    tunnel_is_on
      (field_of (λ (t : VpnTunnel). t.conn_status) (Dict.get index (get_or d.tunnels [])))

-- Its attribute `partially_active`.
unfoldable pub partially_active : SnmpData → String → Option Bool
partially_active d index = elim (Dict.get index (get_or d.tunnels [])) [
  | none ↦ none
  | some t ↦ some (elim t.conn_status [ none ↦ false | some code ↦ eqb code 2 ])
]

-- `SophosHAEnabledSensor.is_on`
unfoldable pub ha_is_on : SnmpData → Option Bool
ha_is_on d = field_of (λ (h : HaStatus). h.enabled) d.ha

-- `SophosPSUSensor.is_on`
unfoldable pub psu_is_on : SnmpData → String → Option Bool
psu_is_on d key = field_of (λ (h : SystemHealth). flat (Dict.get key h.psus)) d.health

-- `SophosWirelessNetworkSensor.is_on`
unfoldable pub wlan_is_on : XmlData → String → Option Bool
wlan_is_on d hardware =
    field_of (λ (n : WirelessNetwork). n.enabled)
      (Dict.get hardware (get_or d.wireless_networks []))

-- `SophosAccessPointSensor.is_on`
unfoldable pub access_point_is_on : SnmpData → String → Option Bool
access_point_is_on d name =
    field_of (λ (a : AccessPoint). a.connected) (Dict.get name (get_or d.access_points []))
