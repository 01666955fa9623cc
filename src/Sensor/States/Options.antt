-- ===== src/Sensor/States/Options.antt =====
-- Every enumeration of the platform shows one of its options or nothing.
use ha_sophos_fw.Prelude.{
  ℕ, String, refl, Bool, true, false, Option, none, some, List, [], ◌∷◌, get_or,
}
use ha_sophos_fw.Prelude.Dict
use ha_sophos_fw.Models.Xml.{XmlData, WebFilterPolicy}
use ha_sophos_fw.Models.Snmp.{SnmpData, HaStatus}
use ha_sophos_fw.Sensor.States.{
  Log, web_filter_actions, backup_frequencies, service_states, license_states,
  default_web_filter_action, backup_frequency, dhcp_state, ha_state, ha_code, service_state,
  license_state, action_of, values, on_off, running_of,
}
use ha_sophos_fw.Sensor.States.Laws.{Among, nth-Among, enum_state-Among, code_state-Among}

action_of-Among :
    (ps : List WebFilterPolicy) (l : Log) → Among web_filter_actions (action_of ps l).0
unfolding action_of
action_of-Among [] l = tt
action_of-Among (p ∷ ps) l = enum_state-Among _ _ _ l

on_off-Among : (b : Option Bool) → Among ("off" ∷ "on" ∷ []) (on_off b)
unfolding on_off
on_off-Among none = tt
on_off-Among (some true) = refl
on_off-Among (some false) = refl

abbrev pub ha_states : List String
ha_states = "not_applicable" ∷ "auxiliary" ∷ "standalone" ∷ "primary" ∷ "faulty" ∷ "ready" ∷ []

ha_state-Among : (code : Option ℕ) → Among ha_states (ha_state code)
unfolding ha_state
ha_state-Among none = tt
ha_state-Among (some code) = nth-Among code ha_states

-- Home Assistant rejects a state that is not among a sensor's options. Whatever the firewall answers, the
-- web filter's action, the backup's frequency, a DHCP server, a role in the cluster, a service and a
-- license each show nothing or one of their options.
pub enumerations-Among :
    (x : XmlData) (d : SnmpData) (server key : String) (field : HaStatus → Option ℕ)
    (show : ℕ → String) (name : String → String) (l : Log)
    → Among web_filter_actions (default_web_filter_action x l).0
      × Among backup_frequencies (backup_frequency x l).0
      × Among ("off" ∷ "on" ∷ []) (dhcp_state x server)
      × Among ha_states (ha_state (ha_code field d))
      × Among service_states (service_state show name d key l).0
      × Among license_states (license_state show name d key l).0
unfolding default_web_filter_action backup_frequency dhcp_state service_state license_state
enumerations-Among x d server key field show name l = (
  action_of-Among (values (get_or x.web_filter_policies [])) l,
  enum_state-Among _ _ _ l,
  on_off-Among (running_of (Dict.get server (get_or x.dhcp_servers []))),
  ha_state-Among (ha_code field d),
  code_state-Among show _ _ _ l,
  code_state-Among show _ _ _ l,
)
