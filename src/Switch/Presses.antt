-- ===== src/Switch/Presses.antt =====
-- Turning a switch on or off (switch.py: async_turn_on, async_turn_off and the `_write` of each kind): the
-- write through the client, and then the switch and its coordinator.
use ha_sophos_fw.Prelude.{ℕ, String, ◌≡◌, refl, Bool, true, false, none, some, [], ◌∷◌, get_or}
use ha_sophos_fw.Prelude.Dict
use ha_sophos_fw.Prelude.Dict.{Dict}
use ha_sophos_fw.Models.Xml.{XmlData}
use ha_sophos_fw.Models.Snmp.{SnmpData}
use ha_sophos_fw.Client.Errors.{Result, err, api_error}
use ha_sophos_fw.Client.Request.{Request}
use ha_sophos_fw.Client.Answer.{Outcome}
use ha_sophos_fw.Client.Action.{World, Action}
use ha_sophos_fw.Client.Writing.{
  set_firewall_rule_status, set_web_filter_default_action, set_wireless_network_status,
}
use ha_sophos_fw.Coordinator.State.{State, invalidate}
use ha_sophos_fw.Switch.{Switch, set}
use ha_sophos_fw.Switch.Kinds.{write_connection, tunnel_of, write_tunnel}

-- `SophosWirelessNetworkSwitch._object_name`
unfoldable pub network_name : XmlData → String → String
network_name d hardware = elim (Dict.get hardware (get_or d.wireless_networks [])) [
  | none ↦ hardware
  | some network ↦ network.name
]

module _ {S : Type 0} (answer : Request → S → Outcome × S) where
  unfoldable pub write_rule : String → Bool → Action S (Unit {0})
  unfolding set_firewall_rule_status
  write_rule name on = set_firewall_rule_status answer name on

  unfoldable pub write_policy : String → Bool → Action S (Unit {0})
  unfolding set_web_filter_default_action
  write_policy name on = set_web_filter_default_action answer name on

  unfoldable pub write_network : String → Bool → Action S (Unit {0})
  unfolding set_wireless_network_status
  write_network hardware on = set_wireless_network_status answer hardware on

module _ {S V H : Type 0} (write : Bool → Action S (Unit {0})) where
  -- `_set`, with the write; `now` is the time after it.
  unfoldable pub press :
      Bool → ℕ → State V H → Switch → World S → ((State V H × Switch) × Result (Unit {0})) × World S
  unfolding set
  press on now c s w = let r = write on w in (set on r.0 now c s, r.1)

  unfoldable pub turn_on :
      ℕ → State V H → Switch → World S → ((State V H × Switch) × Result (Unit {0})) × World S
  unfolding press
  turn_on now c s w = press true now c s w

  unfoldable pub turn_off :
      ℕ → State V H → Switch → World S → ((State V H × Switch) × Result (Unit {0})) × World S
  unfolding press
  turn_off now c s w = press false now c s w

-- A switch for a connection that SNMP no longer reports sends nothing: it keeps what it shows, has the
-- connections read again, and reports the error.
pub press-write_connection :
    {S V H : Type 0} (answer : Request → S → Outcome × S) (d : SnmpData) (index : String)
    (on : Bool) (now : ℕ) (c : State V H) (s : Switch) (w : World S)
    → tunnel_of d index ≡ none
    → press (write_connection answer d index) on now c s w
      ≡ (((invalidate (s.endpoint ∷ []) c, s), err api_error), w)
unfolding press write_connection write_tunnel set
press-write_connection answer d index on now c s w h = rw h refl
