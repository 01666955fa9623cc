-- ===== src/Entity/Items.antt =====
-- The items of a family of entities by their suffixes (sensor.py, binary_sensor.py, switch.py: the
-- callbacks that the families are given).
use ha_sophos_fw.Prelude.{
  ℕ, String, ◌≡◌, refl, sym, ap, ◌∙◌, Bool, Option, none, some, List, map, arith, ◌==◌, eq_iff,
  if◌then◌else◌, is_nil,
}
use ha_sophos_fw.Prelude.Dict
use ha_sophos_fw.Prelude.Dict.{Dict}
use ha_sophos_fw.Text.{append, drop_prefix}
use ha_sophos_fw.Text.Laws.{drop_prefix-append}
use ha_sophos_fw.Models.Xml.{XmlData, DhcpServer, FirewallRule, WirelessNetwork, WebFilterPolicy}
use ha_sophos_fw.Models.Snmp.{SnmpData, VpnTunnel, SystemHealth}

module _ {V : Type 0} where
  -- `{f"{prefix}{name}": item for name, item in items.items()}`
  abbrev pub prefixed : String → Dict V → Dict V
  prefixed prefix = map (λ e. (append prefix e.0, e.1))

  -- `_keyed`
  unfoldable pub keyed : String → Option (Dict V) → Option (Dict V)
  keyed prefix none = none
  keyed prefix (some items) = some (prefixed prefix items)

  unfoldable pub names : String → Dict V → Dict String
  names prefix = map (λ e. (append prefix e.0, e.0))

  -- The callbacks whose items are the names.
  unfoldable pub name_items : String → Option (Dict V) → Option (Dict String)
  unfolding names
  name_items prefix none = none
  name_items prefix (some items) = some (names prefix items)

-- `_cpu_usage_items`
unfoldable pub cpu_usage_items : SnmpData → Option (List String)
cpu_usage_items d = elim d.cpu [
  | none ↦ none
  | some cores ↦ some (if is_nil cores then List.[] else List.◌∷◌ "sensor_cpu_usage" List.[])
]

unfoldable pub cpu_core_items : SnmpData → Option (Dict String)
cpu_core_items d = name_items "sensor_cpu_core_" d.cpu

-- `_dhcp_items`
unfoldable pub dhcp_items : XmlData → Option (Dict DhcpServer)
dhcp_items d = keyed "dhcp_leases_" d.dhcp_servers

unfoldable pub fans_of : Option SystemHealth → Option (Dict (Option ℕ))
fans_of none = none
fans_of (some h) = some h.fans

unfoldable pub psus_of : Option SystemHealth → Option (Dict (Option Bool))
psus_of none = none
psus_of (some h) = some h.psus

-- `_fan_items`
unfoldable pub fan_items : SnmpData → Option (Dict String)
unfolding fans_of
fan_items d = name_items "sensor_" (fans_of d.health)

-- `_psu_items`
unfoldable pub psu_items : SnmpData → Option (Dict String)
unfolding psus_of
psu_items d = name_items "psu_" (psus_of d.health)

-- `_vpn_items`
unfoldable pub vpn_items : SnmpData → Option (Dict VpnTunnel)
vpn_items d = keyed "vpn_" d.tunnels

-- `_rule_items`, `_policy_items`, `_wlan_items` and `_ipsec_items` of the switches.
unfoldable pub rule_items : XmlData → Option (Dict FirewallRule)
rule_items d = keyed "switch_fwrule_" d.firewall_rules

unfoldable pub policy_items : XmlData → Option (Dict WebFilterPolicy)
policy_items d = keyed "switch_webfilter_" d.web_filter_policies

unfoldable pub wlan_items : XmlData → Option (Dict WirelessNetwork)
wlan_items d = keyed "switch_wlan_" d.wireless_networks

by_index : Dict VpnTunnel → Dict VpnTunnel → Dict VpnTunnel
by_index List.[] items = items
by_index (List.◌∷◌ (key, t) tunnels) items =
    by_index tunnels
      (if t.name == "" then items else Dict.put (append "switch_ipsec_" t.index) t items)

unfoldable pub ipsec_items : SnmpData → Option (Dict VpnTunnel)
unfolding by_index
ipsec_items d = elim d.tunnels [ none ↦ none | some tunnels ↦ some (by_index tunnels List.[]) ]

append-inj : (p s t : String) → append p s ≡ append p t → s ≡ t
append-inj p s t h =
    let both : some s ≡ some t =
      sym (drop_prefix-append p s) ∙ ap (drop_prefix p) h ∙ drop_prefix-append p t in
    cc both

pub eq-append : (p s t : String) → (append p s == append p t) ≡ (s == t)
eq-append p s t =
    let there = append-inj p s t in
    let back : s ≡ t → append p s ≡ append p t = λ e. ap (append p) e in
    ground (arith, eq_iff s t, eq_iff (append p s) (append p t), there, back)

-- The item under a name's suffix is that of the name, and names with different suffixes are different:
-- no item hides another.
pub get-prefixed :
    {V : Type 0} (prefix name : String) (items : Dict V)
    → Dict.get (append prefix name) (prefixed prefix items) ≡ Dict.get name items
unfolding Dict.get
get-prefixed prefix name List.[] = refl
get-prefixed prefix name (List.◌∷◌ (j, v) items) =
    ground (arith, eq-append prefix j name, get-prefixed prefix name items)
