-- ===== src/BinarySensor/Links.antt =====
-- When an interface is shown as connected.
use ha_sophos_fw.Prelude.{
  ◌≡◌, refl, ap, ◌∙◌, ◌≢◌, ◌↔◌, ◌⊎◌, inl, inr, Bool, true, false, Option, none, some, [], arith,
  Option-cases, get_or,
}
use ha_sophos_fw.Prelude.Dict
use ha_sophos_fw.Prelude.Dict.{Dict}
use ha_sophos_fw.Models.Xml.{Interface}
use ha_sophos_fw.Models.Snmp.{SnmpData, InterfaceLink}
use ha_sophos_fw.Sensor.Interfaces.{device_of}
use ha_sophos_fw.BinarySensor.{
  SnmpView, link_source, link_of, contents_source, source_of, link_is_on, state_from,
  interface_is_on,
}

link_is_on_iff :
    (link : InterfaceLink) → (link_is_on (some link) ≡ some true) ↔ (link.oper_status ≡ some 1)
unfolding link_is_on
link_is_on_iff link = elim (Option-cases link.oper_status) [
  | inl p ↦ (λ h. ground (arith, p, h), λ h. ground (arith, p, h))
  | inr (code, p) ↦ (λ h. ground (arith, p, h), λ h. ground (arith, p, h))
]

-- A row for the device that is up, where the switch is not off.
Up : Option Bool → Option InterfaceLink → Type 0
Up is_up row =
    (link : InterfaceLink) × (row ≡ some link) × (link.oper_status ≡ some 1) × (is_up ≢ some false)

Connected : Option Bool → Option InterfaceLink → Type 0
Connected is_up row = ((row ≡ none) × (is_up ≡ some true)) ⊎ Up is_up row

row_up :
    (is_up : Option Bool) (link : InterfaceLink)
    → Connected is_up (some link)
    → (link_is_on (some link) ≡ some true) × (is_up ≢ some false)
unfolding Up Connected
row_up is_up link (inl (e, _)) = absurd (cc e)
row_up is_up link (inr (link', e, up, on)) =
    let same : link ≡ link' = cc e in
    ((link_is_on_iff link).1 (ap (λ (l : InterfaceLink). l.oper_status) same ∙ up), on)

row_iff :
    (is_up : Option Bool) (link : InterfaceLink)
    → is_up ≢ some false
    → (link_is_on (some link) ≡ some true) ↔ Connected is_up (some link)
unfolding Up Connected
row_iff is_up link on =
    (λ h. inr (link, refl, (link_is_on_iff link).0 h, on), λ h. (row_up is_up link h).0)

no_row : (is_up : Option Bool) → Connected is_up none → is_up ≡ some true
unfolding Up Connected
no_row is_up (inl (_, h)) = h
no_row is_up (inr (link, e, _, _)) = absurd (cc e)

state_from_iff :
    (is_up : Option Bool) (row : Option InterfaceLink)
    → (state_from is_up (link_source row) ≡ some true) ↔ Connected is_up row
unfolding state_from link_source Connected
state_from_iff is_up none = (λ h. inl (refl, h), no_row is_up)
state_from_iff (some false) (some link) =
    (λ h. absurd (cc h), λ h. absurd ((row_up (some false) link h).1 refl))
state_from_iff (some true) (some link) = row_iff (some true) link (λ e. cc e)
state_from_iff none (some link) = row_iff none link (λ e. cc e)

-- An interface is shown as connected exactly if either its switch is on and there is no link to read: no
-- SNMP, links not polled, or no row for the device in the last answer; or SNMP answers, has a row for the
-- device that is up, and the switch is not off. The second excludes the first.
pub interface_is_on_iff :
    (v : SnmpView) (d : SnmpData) (i : Interface)
    → v.contents ≡ some d
    → v.enabled ≡ true
    → v.available ≡ true
    → (interface_is_on (some v) (some i) ≡ some true) ↔ (
        ((Dict.get (device_of i) (get_or d.links []) ≡ none) × (i.is_up ≡ some true))
        ⊎ ((link : InterfaceLink) × (Dict.get (device_of i) (get_or d.links []) ≡ some link)
            × (link.oper_status ≡ some 1)
            × (i.is_up ≢ some false)))
unfolding interface_is_on source_of contents_source link_of Connected Up
interface_is_on_iff v d i has enabled available =
    rw (enabled, has, available)
      (state_from_iff i.is_up (Dict.get (device_of i) (get_or d.links [])))
