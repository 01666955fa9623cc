-- ===== src/Attributes/Laws.antt =====
-- How the attributes of an entity agree with its state.
use ha_sophos_fw.Prelude.{
  ℕ, String, ◌≡◌, refl, Bool, true, Option, none, some, [], get_or, ap, eq_iff, arith,
}
use ha_sophos_fw.Prelude.Dict
use ha_sophos_fw.Prelude.Dict.{Dict}
use ha_sophos_fw.Models.Snmp.{SnmpData, VpnTunnel}
use ha_sophos_fw.Models.Xml.{Interface}
use ha_sophos_fw.Sensor.Readings.{field_of}
use ha_sophos_fw.BinarySensor.{
  SnmpView, source_of, interface_is_on, vpn_is_on, tunnel_is_on, Source, switch, snmp, state_from,
}
use ha_sophos_fw.Attributes.{
  Value, flag, text, tunnel_attributes, interface_attributes, is_code, source_name, tunnel_values,
  attributes_of,
}

partial_is_on :
    (code : Option ℕ)
    → some (flag (is_code 2 code)) ≡ some (flag true)
    → tunnel_is_on code ≡ some true
unfolding is_code tunnel_is_on
partial_is_on none h = ground (arith, h)
partial_is_on (some code) h = ground (arith, h)

partial_tunnel :
    (o : Option VpnTunnel)
    → Dict.get "partially_active" (attributes_of tunnel_values o) ≡ some (flag true)
    → tunnel_is_on (field_of (λ (t : VpnTunnel). t.conn_status) o) ≡ some true
unfolding tunnel_values Dict.get
partial_tunnel none h = ground (arith, h)
partial_tunnel (some t) h = partial_is_on t.conn_status h

-- A connection that is shown as partially active is shown as connected.
pub partially_active-vpn_is_on :
    (d : SnmpData) (index : String)
    → Dict.get "partially_active" (tunnel_attributes d index) ≡ some (flag true)
    → vpn_is_on d index ≡ some true
unfolding vpn_is_on tunnel_attributes
partially_active-vpn_is_on d index h = partial_tunnel (Dict.get index (get_or d.tunnels [])) h

text_in : Option Value → String
text_in (some (text s)) = s
text_in value = ""

switch_state :
    (is_up : Option Bool) (source : Source)
    → some (text (source_name source)) ≡ some (text "switch")
    → state_from is_up source ≡ is_up
unfolding state_from source_name text_in
switch_state is_up switch h = refl
switch_state is_up (snmp link) h =
    let same = (eq_iff "snmp" "switch").1 (ap text_in h) in absurd (ground (arith, same))

-- An interface whose attributes name the switch as its source has the switch's state.
pub link_source-interface_is_on :
    (view : Option SnmpView) (i : Interface)
    → Dict.get "link_source" (interface_attributes view (some i)) ≡ some (text "switch")
    → interface_is_on view (some i) ≡ i.is_up
unfolding interface_is_on interface_attributes Dict.get
link_source-interface_is_on view i h = switch_state i.is_up (source_of view (some i)) h
