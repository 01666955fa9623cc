-- ===== src/Client/Writing/Sent.antt =====
-- Which records a read-modify-write sends to the firewall, and what a success says.
use mathlib.Core.List.{append-nil}
use ha_sophos_fw.Prelude.{
  if◌then◌else◌, sym, String, ◌≡◌, refl, ap, ◌∙◌, ◌⊎◌, inl, inr, Bool, true, false, Option, none,
  some, List, [], ◌∷◌, ◌++◌, arith,
}
use ha_sophos_fw.Xml.{Element}
use ha_sophos_fw.Client.Errors.{Result, ok, Result-cases}
use ha_sophos_fw.Client.Request.{Request, login, get, update, add_ip_host, set_wireless, set_ipsec}
use ha_sophos_fw.Client.Answer.{Outcome, confirm}
use ha_sophos_fw.Client.Action.{World}
use ha_sophos_fw.Client.Reading.{post, get_record_element}
use ha_sophos_fw.Client.Writing.{Change, read_back, write_changed, modify_record}

-- The records that a sequence of requests writes back.
unfoldable pub updates : List Request → List Element
updates [] = []
updates (update e ∷ rs) = e ∷ updates rs
updates (_ ∷ rs) = updates rs

pub updates-append : (rs qs : List Request) → updates (rs ++ qs) ≡ updates rs ++ updates qs
unfolding updates
updates-append [] qs = refl
updates-append (update e ∷ rs) qs = ap (◌∷◌ e) (updates-append rs qs)
updates-append (login ∷ rs) qs = updates-append rs qs
updates-append (get t ∷ rs) qs = updates-append rs qs
updates-append (add_ip_host ip n ∷ rs) qs = updates-append rs qs
updates-append (set_wireless n b ∷ rs) qs = updates-append rs qs
updates-append (set_ipsec n b ∷ rs) qs = updates-append rs qs

module _ {S : Type 0} (answer : Request → S → Outcome × S) where
  updates-get : (t : String) (w : World S) → updates (post answer (get t) w).1.sent ≡ updates w.sent
  unfolding post updates
  updates-get t w = rw (updates-append w.sent (get t ∷ []), append-nil)

  pub updates-get_record_element :
      (t name : String) (w : World S)
      → updates (get_record_element answer t name w).1.sent ≡ updates w.sent
  unfolding get_record_element
  updates-get_record_element t name w = ground (arith, updates-get t w)

  updates-read_back :
      (t name : String) (v : Option (Element → Bool)) (w : World S)
      → updates (read_back answer t name v w).1.sent ≡ updates w.sent
  unfolding read_back
  updates-read_back t name none w = refl
  updates-read_back t name (some v) w = updates-get_record_element t name w

  updates-update :
      (e : Element) (w : World S)
      → updates (post answer (update e) w).1.sent ≡ updates w.sent ++ e ∷ []
  unfolding post updates
  updates-update e w = updates-append w.sent (update e ∷ [])

  module _ {A : Type 0} (t name : String) (change : Change A) (verify : Option (Element → Bool))
      (w : World S) where
    -- The record that the first request brings back.
    abbrev pub found : Result Element
    found = (get_record_element answer t name w).0

    abbrev pub after_read : World S
    after_read = (get_record_element answer t name w).1

    updates-write_changed :
        (e : Element) (note : A) (w : World S)
        → updates (write_changed answer t name verify (true, e, note) w).1.sent
          ≡ updates w.sent ++ e ∷ []
    unfolding write_changed
    updates-write_changed e note w =
        let sent = (post answer (update e) w).1 in
        ground (arith, updates-update e w, updates-read_back t name verify sent)

    -- A read-modify-write sends at most one record. If it sends one, that is the record that the
    -- firewall just gave for the name, as `change` edited it.
    pub updates-modify_record :
        (updates (modify_record answer t name change verify w).1.sent ≡ updates w.sent)
        ⊎ ((e e' : Element) × (note : A) × (found ≡ ok e)
            × (change e ≡ ok (true, e', note))
            × (updates (modify_record answer t name change verify w).1.sent
                ≡ updates w.sent ++ e' ∷ []))
    unfolding modify_record
    updates-modify_record = elim (Result-cases found) [
      | inr (x, p) ↦ inl (rw p kept)
      | inl (e, p) ↦ elim (Result-cases (change e)) [
        | inr (x, q) ↦ inl (rw (p, q) kept)
        | inl ((false, e', note), q) ↦ inl (rw (p, q) (unfold write_changed in kept))
        | inl ((true, e', note), q) ↦ inr (
          e,
          e',
          note,
          p,
          q,
          rw (p, q) (updates-write_changed e' note after_read ∙ ap (λ l. l ++ e' ∷ []) kept),
        )
      ]
    ]
      where
        kept : updates after_read.sent ≡ updates w.sent
        kept = updates-get_record_element t name w

    pub updates_by_change :
        (b : Bool) (e e' : Element) (note : A)
        → found ≡ ok e
        → change e ≡ ok (b, e', note)
        → updates (modify_record answer t name change verify w).1.sent
          ≡ updates w.sent ++ (if b then e' ∷ [] else [])
    unfolding modify_record write_changed
    updates_by_change false e e' note p q =
        rw (p, q) (updates-get_record_element t name w ∙ sym (append-nil (updates w.sent)))
    updates_by_change true e e' note p q =
        rw (p, q)
          (updates-write_changed e' note after_read
            ∙ ap (λ l. l ++ e' ∷ []) (updates-get_record_element t name w))

    -- A confirmed write of the record `e`: the firewall's answer carries a 2xx code under the record's
    -- tag, and what was read back, if it could be read, passes the check.
    pub record Confirmed (e : Element) : Type 0 where
      pub root : Element
      pub answered : (post answer (update e) after_read).0 ≡ ok root
      pub confirmed : confirm root ((t ∷ "Status" ∷ []) ∷ []) ≡ ok tt
      pub read_back_ok :
          (read_back answer t name verify (post answer (update e) after_read).1).0 ≡ ok tt

    write_changed-ok :
        (e : Element) (note a : A)
        → (write_changed answer t name verify (true, e, note) after_read).0 ≡ ok a
        → (note ≡ a) × Confirmed e
    unfolding write_changed
    write_changed-ok e note a h = elim (Result-cases (post answer (update e) after_read).0) [
      | inr (x, p) ↦ absurd (cc (rw p at h))
      | inl (root, p) ↦ elim (Result-cases (confirm root ((t ∷ "Status" ∷ []) ∷ []))) [
        | inr (x, q) ↦ absurd (cc (rw (p, q) at h))
        | inl (u, q) ↦
            elim (Result-cases
              (read_back answer t name verify (post answer (update e) after_read).1).0) [
                | inr (x, r) ↦ absurd (cc (rw (p, q, r) at h))
                | inl (v, r) ↦ (
                  cc (rw (p, q, r) at h),
                  record { root = root; answered = p; confirmed = q; read_back_ok = r },
                )
              ]
      ]
    ]

    -- A read-modify-write succeeds only if the record was found, and either `change` found nothing to
    -- write, or the edited record was written and confirmed.
    pub modify_record_ok :
        (a : A)
        → (modify_record answer t name change verify w).0 ≡ ok a
        → (e e' : Element) × (found ≡ ok e)
          × ((change e ≡ ok (false, e', a)) ⊎ ((change e ≡ ok (true, e', a)) × Confirmed e'))
    unfolding modify_record
    modify_record_ok a h = elim (Result-cases found) [
      | inr (x, p) ↦ absurd (cc (rw p at h))
      | inl (e, p) ↦ elim (Result-cases (change e)) [
        | inr (x, q) ↦ absurd (cc (rw (p, q) at h))
        | inl ((false, e', note), q) ↦
            let same : note ≡ a = unfold write_changed in cc (rw (p, q) at h) in
            (e, e', p, inl (rw (← same) q))
        | inl ((true, e', note), q) ↦
            let (same, sent) = write_changed-ok e' note a (rw (p, q) at h) in
            (e, e', p, inr (rw (← same) q, sent))
      ]
    ]
