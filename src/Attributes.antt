-- ===== src/Attributes.antt =====
-- The attributes of the entities beside their states (extra_state_attributes in binary_sensor.py, switch.py
-- and sensor.py); the summaries' are in Sensor/Summary.
pub mod Laws
use ha_sophos_fw.Prelude.{
  ℕ, String, Bool, true, false, Option, none, some, List, [], ◌∷◌, eqb, ◌==◌, if◌then◌else◌, get_or,
  length,
}
use ha_sophos_fw.Prelude.Dict
use ha_sophos_fw.Prelude.Dict.{Dict}
use ha_sophos_fw.Models.Xml.{XmlData, Interface, FirewallRule, DhcpServer, WirelessNetwork}
use ha_sophos_fw.Models.Snmp.{
  SnmpData, VpnTunnel, HaStatus, AccessPoint, PoePort, InterfaceLink, License,
}
use ha_sophos_fw.BinarySensor.{Source, switch, snmp, SnmpView, source_of}
use ha_sophos_fw.Sensor.Readings.{field_of}

-- The values that attributes have.
pub data Value : Type 0 where
  nothing : Value
  flag : Bool → Value
  number : ℕ → Value
  text : String → Value
  records : List (Dict String) → Value

abbrev pub Attributes : Type 0
Attributes = Dict Value

abbrev value_of : {A : Type 0} → (A → Value) → Option A → Value
value_of as_value none = nothing
value_of as_value (some a) = as_value a

-- `x == expected` for an optional number.
unfoldable pub is_code : ℕ → Option ℕ → Bool
is_code expected none = false
is_code expected (some code) = eqb code expected

-- `item if … is None` gives no attributes.
abbrev pub attributes_of : {A : Type 0} → (A → Attributes) → Option A → Attributes
attributes_of attributes none = []
attributes_of attributes (some a) = attributes a

unfoldable pub source_name : Source → String
source_name switch = "switch"
source_name (snmp link) = "snmp"

unfoldable pub link_of : Source → Option InterfaceLink
link_of switch = none
link_of (snmp link) = link

-- `SophosInterfaceSensor.extra_state_attributes`
unfoldable pub interface_attributes : Option SnmpView → Option Interface → Attributes
unfolding source_name link_of source_of
interface_attributes view iface =
    let source = source_of view iface in
    attributes_of
      (λ i.
        ("zone", value_of text i.zone)
        ∷ ("ipv4_assignment", value_of text i.ipv4_assignment)
        ∷ ("speed", value_of text i.speed)
        ∷ ("mtu", value_of text i.mtu)
        ∷ ("enabled", value_of flag i.is_up)
        ∷ ("link_source", text (source_name source))
        ∷ ("oper_status", value_of number (field_of (λ l. l.oper_status) (link_of source)))
        ∷ [])
      iface

-- `SophosFirewallRuleSensor.extra_state_attributes`
unfoldable pub rule_attributes : XmlData → String → Attributes
rule_attributes d name =
    attributes_of
      (λ (r : FirewallRule).
        ("action", value_of text r.action)
        ∷ ("policy_type", value_of text r.policy_type)
        ∷ ("ip_family", value_of text r.ip_family)
        ∷ [])
      (Dict.get name (get_or d.firewall_rules []))

-- `SophosVPNTunnelSensor.extra_state_attributes`
unfoldable pub tunnel_values : VpnTunnel → Attributes
unfolding is_code
tunnel_values t =
    ("conn_status_code", value_of number t.conn_status)
    ∷ ("partially_active", flag (is_code 2 t.conn_status))
    ∷ ("activated", flag (is_code 1 t.activated))
    ∷ ("tunnels_configured", value_of number t.tunnels_configured)
    ∷ []

unfoldable pub tunnel_attributes : SnmpData → String → Attributes
unfolding tunnel_values
tunnel_attributes d index = attributes_of tunnel_values (Dict.get index (get_or d.tunnels []))

-- `SophosHAEnabledSensor.extra_state_attributes`
unfoldable pub ha_attributes : SnmpData → Attributes
ha_attributes d =
    ("current_state_code", value_of number (field_of (λ (h : HaStatus). h.current_state) d.ha))
    ∷ ("peer_state_code", value_of number (field_of (λ (h : HaStatus). h.peer_state) d.ha))
    ∷ []

-- Of the wireless networks' sensor and switch.
unfoldable pub network_attributes : XmlData → String → Attributes
network_attributes d hardware =
    attributes_of
      (λ (n : WirelessNetwork). ("ssid", value_of text n.ssid) ∷ ("interface", text hardware) ∷ [])
      (Dict.get hardware (get_or d.wireless_networks []))

-- `SophosAccessPointSensor.extra_state_attributes`
unfoldable pub access_point_attributes : SnmpData → String → Attributes
access_point_attributes d name =
    attributes_of
      (λ (a : AccessPoint).
        ("model", value_of text a.model)
        ∷ ("ip_address", value_of text a.ip_address)
        ∷ ("clients", value_of number a.clients)
        ∷ [])
      (Dict.get name (get_or d.access_points []))

-- `SophosDHCPLeaseSensor.extra_state_attributes`
unfoldable pub dhcp_attributes : XmlData → String → Attributes
dhcp_attributes d name =
    attributes_of
      (λ (s : DhcpServer).
        ("server_name", text s.name)
        ∷ ("interface", value_of text s.interface)
        ∷ ("default_lease_time", value_of number s.default_lease_time)
        ∷ ("max_lease_time", value_of number s.max_lease_time)
        ∷ ("lease_count", number (length s.static_leases))
        ∷ ("leases", records s.static_leases)
        ∷ [])
      (Dict.get name (get_or d.dhcp_servers []))

-- `{"state_code": self._code()}` of the sensors of the cluster's states and of services.
unfoldable pub code_attributes : Option ℕ → Attributes
code_attributes code = ("state_code", value_of number code) ∷ []

-- `parse` is `_parse_expiry` with `date().isoformat()`.
readable : (String → Option String) → Option String → Option String
readable parse none = none
readable parse (some value) = if value == "" then none else parse value

-- `SophosLicenseSensor.extra_state_attributes`
unfoldable pub license_attributes : (String → Option String) → SnmpData → String → Attributes
unfolding readable
license_attributes parse d key =
    let lic = Dict.get key (get_or d.licenses []) in
    ("status_code", value_of number (field_of (λ (l : License). l.status_code) lic))
    ∷ (
      "expiry_date",
      value_of text (readable parse (field_of (λ (l : License). l.expiry_date) lic)),
    )
    ∷ []

-- `SophosPoeSensor.extra_state_attributes`
unfoldable pub poe_attributes : SnmpData → String → Attributes
poe_attributes d label =
    attributes_of
      (λ (p : PoePort).
        ("enabled", value_of flag p.enabled) ∷ ("limit_w", value_of number p.limit_w) ∷ [])
      (Dict.get label (get_or d.poe []))
