-- ===== src/Switch/Kinds.antt =====
-- The four kinds of switches (switch.py): what each shows of the coordinator's data, and what it writes.
use ha_sophos_fw.Prelude.{String, Bool, Option, none, some, [], ◌==◌, eqb, if◌then◌else◌, get_or}
use ha_sophos_fw.Prelude.Dict
use ha_sophos_fw.Prelude.Dict.{Dict}
use ha_sophos_fw.Text.{append}
use ha_sophos_fw.Models.Xml.{XmlData, allows}
use ha_sophos_fw.Models.Snmp.{SnmpData, VpnTunnel}
use ha_sophos_fw.Client.Errors.{api_error, err}
use ha_sophos_fw.Client.Request.{Request}
use ha_sophos_fw.Client.Answer.{Outcome}
use ha_sophos_fw.Client.Action.{Action, lift}
use ha_sophos_fw.Client.Writing.{set_ipsec_connection_active}

unfoldable pub tunnel_of : SnmpData → String → Option VpnTunnel
tunnel_of d index = Dict.get index (get_or d.tunnels [])

is_activated : Option VpnTunnel → Option Bool
is_activated none = none
is_activated (some t) = elim t.activated [ none ↦ none | some code ↦ some (eqb code 1) ]

-- The `_actual` of each kind.
unfoldable pub rule_actual : XmlData → String → Option Bool
rule_actual x name = elim (Dict.get name (get_or x.firewall_rules [])) [
  | none ↦ none
  | some r ↦ r.enabled
]

unfoldable pub policy_actual : XmlData → String → Option Bool
policy_actual x name = elim (Dict.get name (get_or x.web_filter_policies [])) [
  | none ↦ none
  | some p ↦ allows p
]

unfoldable pub network_actual : XmlData → String → Option Bool
network_actual x hardware = elim (Dict.get hardware (get_or x.wireless_networks [])) [
  | none ↦ none
  | some n ↦ n.enabled
]

unfoldable pub tunnel_actual : SnmpData → String → Option Bool
unfolding tunnel_of is_activated
tunnel_actual d index = is_activated (tunnel_of d index)

-- `SophosIpsecSwitch._object_name`
unfoldable pub tunnel_name : SnmpData → String → String
unfolding tunnel_of
tunnel_name d index = elim (tunnel_of d index) [
  | none ↦ append "#" index
  | some t ↦ if t.name == "" then append "#" index else t.name
]

module _ {S : Type 0} (answer : Request → S → Outcome × S) where
  unfoldable pub write_tunnel : Option VpnTunnel → Bool → Action S (Unit {0})
  write_tunnel none on = lift (err api_error)
  write_tunnel (some t) on =
      if t.name == "" then lift (err api_error) else set_ipsec_connection_active answer t.name on

  -- The `_write` of a switch for a connection, by its index; the others call one method of the client.
  unfoldable pub write_connection : SnmpData → String → Bool → Action S (Unit {0})
  unfolding tunnel_of write_tunnel
  write_connection d index on = write_tunnel (tunnel_of d index) on
