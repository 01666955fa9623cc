-- ===== src/Services/Calls/Laws.antt =====
-- What the actions send, and what they report.
use mathlib.Core.Path.{subst}
use ha_sophos_fw.Prelude.{
  String, ◌≡◌, refl, ◌↔◌, inl, inr, Bool, true, false, ◌&&◌, Option, none, some, [], ◌∷◌, ◌++◌,
  arith, ◌==◌, if◌then◌else◌, Option-cases, get_or,
}
use ha_sophos_fw.Xml.{Element}
use ha_sophos_fw.Text.{lower, strip}
use ha_sophos_fw.Client.Errors.{Result, ok, err}
use ha_sophos_fw.Client.Request.{Request}
use ha_sophos_fw.Client.Answer.{Outcome}
use ha_sophos_fw.Client.Action.{World}
use ha_sophos_fw.Client.Reading.{get_record_element}
use ha_sophos_fw.Client.Writing.{Change}
use ha_sophos_fw.Client.Writing.Sent.{updates, updates_by_change, modify_record_ok}
use ha_sophos_fw.Client.UrlGroup.{set_url_in_group, url_change, url_verify}
use ha_sophos_fw.Services.Calls.{
  Entry, Refusal, answered, refused, refusal, respond, set_url, block_device, unblock_device,
  guarded,
}

-- The entry is loaded, belongs to the integration, and its options allow changes.
unfoldable pub permits : Option Entry → Bool
permits none = false
permits (some e) = e.domain == "sophos_firewall" && e.loaded && get_or e.write_access false

refusal-permits : (entry : Option Entry) → (refusal entry ≡ none) ↔ (permits entry ≡ true)
unfolding refusal permits
refusal-permits none = (λ h. ground arith, λ h. ground arith)
refusal-permits (some e) = (λ h. ground arith, λ h. ground arith)

module _ {S : Type 0} (answer : Request → S → Outcome × S) where
  refused_of :
      (entry : Option Entry) → permits entry ≡ false → (r : Refusal) × (refusal entry ≡ some r)
  refused_of entry h = elim (Option-cases (refusal entry)) [
    | inl p ↦ absurd (ground (arith, (refusal-permits entry).0 p))
    | inr p ↦ p
  ]

  answered_of :
      {A : Type 0} (a : A) (r : Result A) (name : String) (host : Option String)
      → respond r name host ≡ answered a
      → r ≡ ok a
  unfolding respond
  answered_of a (ok b) name host h = cc h
  answered_of a (err e) name host h = absurd (cc h)

  url_note :
      (wanted : String) (present b changed : Bool) (e e' : Element)
      → url_change wanted present e ≡ ok (b, e', changed)
      → b ≡ changed
  unfolding url_change
  url_note wanted true b changed e e' h = ground arith
  url_note wanted false b changed e e' h = ground arith

  module _ (group url : String) (present changed : Bool) (w : World S) where
    Written : (b : Bool) → Type 0
    Written b =
        (e e' : Element) × ((get_record_element answer "WebFilterURLGroup" group w).0 ≡ ok e)
        × (url_change (lower (strip url)) present e ≡ ok (b, e', changed))
        × (updates (set_url_in_group answer group url present w).1.sent
            ≡ updates w.sent ++ (if b then e' ∷ [] else []))

    change : Change Bool
    change = url_change (lower (strip url)) present

    verify : Option (Element → Bool)
    verify = some (url_verify (lower (strip url)) present)

    written_by :
        (b : Bool) (e e' : Element)
        → (get_record_element answer "WebFilterURLGroup" group w).0 ≡ ok e
        → change e ≡ ok (b, e', changed)
        → Written changed
    unfolding set_url_in_group Written change verify
    written_by b e e' found q =
        subst Written (url_note (lower (strip url)) present b changed e e' q) (
          e,
          e',
          found,
          q,
          updates_by_change answer "WebFilterURLGroup" group change verify w b e e' changed found q,
        )

    written : (set_url_in_group answer group url present w).0 ≡ ok changed → Written changed
    unfolding set_url_in_group change verify
    written h =
        let (e, e', found, edited) =
          modify_record_ok answer "WebFilterURLGroup" group change verify w changed h in
        elim edited [
          | inl q ↦ written_by false e e' found q
          | inr (q, _) ↦ written_by true e e' found q
        ]

  -- Without a loaded entry of the integration that allows changes, no action sends anything: each is
  -- refused, and the firewall and the requests sent stay as they were.
  pub not_permitted :
      (entry : Option Entry) (group target : String) (host : Option String) (present : Bool)
      (w : World S)
      → permits entry ≡ false
      → (r : Refusal) × (set_url answer entry group target present w ≡ (refused r, w))
        × (block_device answer entry group target host w ≡ (refused r, w))
        × (unblock_device answer entry group target w ≡ (refused r, w))
  unfolding set_url block_device unblock_device guarded
  not_permitted entry group target host present w h =
      let (r, p) = refused_of entry h in (r, rw p refl, rw p refl, rw p refl)

  -- An action on a site that is answered was permitted, and its answer tells what happened: the group's
  -- record was read, and either nothing had to change and no record was written, or exactly the edited
  -- record was.
  pub set_url_answered :
      (entry : Option Entry) (group url : String) (present changed : Bool) (w : World S)
      → (set_url answer entry group url present w).0 ≡ answered changed
      → (permits entry ≡ true)
        × ((e e' : Element) × ((get_record_element answer "WebFilterURLGroup" group w).0 ≡ ok e)
            × (url_change (lower (strip url)) present e ≡ ok (changed, e', changed))
            × (updates (set_url answer entry group url present w).1.sent
                ≡ updates w.sent ++ (if changed then e' ∷ [] else [])))
  unfolding set_url guarded Written
  set_url_answered entry group url present changed w h = elim (Option-cases (refusal entry)) [
    | inr (r, p) ↦ absurd (cc (rw p at h))
    | inl p ↦ (
      (refusal-permits entry).0 p,
      rw p (written group url present changed w (answered_of changed _ group none (rw p at h))),
    )
  ]
