-- ===== src/Client/HostGroup/Additions.antt =====
-- When blocking a device creates an IP host on the firewall.
use mathlib.Core.List.{append-nil}
use ha_sophos_fw.Prelude.{
  String, ◌≡◌, refl, ap, ◌∙◌, ◌⊎◌, inl, inr, Bool, true, false, Option, none, some, List, [], ◌∷◌,
  ◌++◌, arith, first_where, contains,
}
use ha_sophos_fw.Xml.{Element}
use ha_sophos_fw.Client.Errors.{Result, ok, Result-cases}
use ha_sophos_fw.Client.Request.{Request, login, get, update, add_ip_host, set_wireless, set_ipsec}
use ha_sophos_fw.Client.Answer.{Outcome}
use ha_sophos_fw.Client.Action.{World, Action, pure, ◌>>◌}
use ha_sophos_fw.Client.Reading.{post, get_record_element}
use ha_sophos_fw.Client.Writing.{Change, read_back, write_changed, modify_record}
use ha_sophos_fw.Client.HostGroup.{
  host_members, check_ipv4_group, block_change, ip_hosts, add_host, pick_host, block_new,
  block_ip_in_group,
}

-- The hosts that a sequence of requests creates: address and name.
unfoldable pub additions : List Request → List (String × String)
additions [] = []
additions (add_ip_host ip name ∷ rs) = (ip, name) ∷ additions rs
additions (_ ∷ rs) = additions rs

additions-append : (rs qs : List Request) → additions (rs ++ qs) ≡ additions rs ++ additions qs
unfolding additions
additions-append [] qs = refl
additions-append (add_ip_host ip n ∷ rs) qs = ap (◌∷◌ (ip, n)) (additions-append rs qs)
additions-append (login ∷ rs) qs = additions-append rs qs
additions-append (get t ∷ rs) qs = additions-append rs qs
additions-append (update e ∷ rs) qs = additions-append rs qs
additions-append (set_wireless n b ∷ rs) qs = additions-append rs qs
additions-append (set_ipsec n b ∷ rs) qs = additions-append rs qs

module _ {S : Type 0} (answer : Request → S → Outcome × S) where
  additions-post :
      (r : Request) (w : World S)
      → additions (post answer r w).1.sent ≡ additions w.sent ++ additions (r ∷ [])
  unfolding post
  additions-post r w = additions-append w.sent (r ∷ [])

  additions-get :
      (t : String) (w : World S) → additions (post answer (get t) w).1.sent ≡ additions w.sent
  additions-get t w = rw additions-post (unfold additions in append-nil _)

  additions-update :
      (e : Element) (w : World S) → additions (post answer (update e) w).1.sent ≡ additions w.sent
  additions-update e w = rw additions-post (unfold additions in append-nil _)

  additions-get_record_element :
      (t name : String) (w : World S)
      → additions (get_record_element answer t name w).1.sent ≡ additions w.sent
  unfolding get_record_element
  additions-get_record_element t name w = ground (arith, additions-get t w)

  additions-read_back :
      (t name : String) (v : Option (Element → Bool)) (w : World S)
      → additions (read_back answer t name v w).1.sent ≡ additions w.sent
  unfolding read_back
  additions-read_back t name none w = refl
  additions-read_back t name (some v) w = additions-get_record_element t name w

  module _ {A : Type 0} (t name : String) (verify : Option (Element → Bool)) where
    additions-write_changed :
        (c : Bool × Element × A) (w : World S)
        → additions (write_changed answer t name verify c w).1.sent ≡ additions w.sent
    unfolding write_changed
    additions-write_changed (false, e, note) w = refl
    additions-write_changed (true, e, note) w =
        let sent = (post answer (update e) w).1 in
        ground (arith, additions-update e w, additions-read_back t name verify sent)

    additions-modify_record :
        (change : Change A) (w : World S)
        → additions (modify_record answer t name change verify w).1.sent ≡ additions w.sent
    unfolding modify_record
    additions-modify_record change w = elim (Result-cases (get_record_element answer t name w).0) [
      | inr (x, p) ↦ rw p kept
      | inl (e, p) ↦ elim (Result-cases (change e)) [
        | inr (x, q) ↦ rw (p, q) kept
        | inl (c, q) ↦ rw (p, q) (additions-write_changed c _ ∙ kept)
      ]
    ]
      where
        kept : additions (get_record_element answer t name w).1.sent ≡ additions w.sent
        kept = additions-get_record_element t name w

  additions-ip_hosts :
      (ip : String) (w : World S) → additions (ip_hosts answer ip w).1.sent ≡ additions w.sent
  unfolding ip_hosts
  additions-ip_hosts ip w = ground (arith, additions-get "IPHost" w)

  additions-add_host :
      (ip name : String) (w : World S)
      → additions (add_host answer ip name w).1.sent ≡ additions w.sent ++ (ip, name) ∷ []
  unfolding add_host additions
  additions-add_host ip name w = ground (arith, additions-post (add_ip_host ip name) w)

  module _ (group ip name : String) where
    abbrev modified : String → Action S (Bool × String)
    modified host = do
      modify_record answer "IPHostGroup" group (block_change host)
          (some (λ e. contains (host_members e) host))
      pure (true, host)

    additions-modified :
        (host : String) (w : World S) → additions (modified host w).1.sent ≡ additions w.sent
    additions-modified host w =
        ground (arith, additions-modify_record "IPHostGroup" group verify (block_change host) w)
      where
        verify : Option (Element → Bool)
        verify = some (λ e. contains (host_members e) host)

    additions-block_new :
        (o : Option String) (hosts : List String) (w : World S)
        → (additions (block_new answer o group hosts ip name w).1.sent ≡ additions w.sent)
          ⊎ ((hosts ≡ [])
              × (additions (block_new answer o group hosts ip name w).1.sent
                  ≡ additions w.sent ++ (ip, name) ∷ []))
    unfolding block_new pick_host
    additions-block_new (some m) hosts w = inl refl
    additions-block_new none [] w = inr (
      refl,
      elim (Result-cases (add_host answer ip name w).0) [
        | inr (x, p) ↦ rw p (additions-add_host ip name w)
        | inl (h, p) ↦
            rw p (additions-modified h (add_host answer ip name w).1 ∙ additions-add_host ip name w)
      ],
    )
    additions-block_new none (h ∷ hosts) w = inl (additions-modified h w)

    -- Blocking a device creates a host at most once, and only if the group could be read, is an IPv4
    -- group, and the firewall reports no host with the address: a wrong group name leaves no host behind.
    pub additions-block_ip_in_group :
        (w : World S)
        → let after = (get_record_element answer "IPHostGroup" group w).1 in
          let sent = (block_ip_in_group answer group ip name w).1.sent in
          (additions sent ≡ additions w.sent)
          ⊎ ((e : Element) × ((get_record_element answer "IPHostGroup" group w).0 ≡ ok e)
              × (check_ipv4_group e ≡ ok tt)
              × ((ip_hosts answer ip after).0 ≡ ok [])
              × (additions sent ≡ additions w.sent ++ (ip, name) ∷ []))
    unfolding block_ip_in_group
    additions-block_ip_in_group w = elim (Result-cases found) [
      | inr (x, p) ↦ inl (rw p kept)
      | inl (e, p) ↦ elim (Result-cases (check_ipv4_group e)) [
        | inr (x, q) ↦ inl (rw (p, q) kept)
        | inl (u, q) ↦ elim (Result-cases hosts) [
          | inr (x, r) ↦ inl (rw (p, q, r) listed)
          | inl (hs, r) ↦
              elim (additions-block_new (first_where (contains (host_members e)) hs) hs
                after_hosts) [
                  | inl same ↦ inl (rw (p, q, r) (same ∙ listed))
                  | inr (none_there, more) ↦ inr (
                    e,
                    p,
                    q,
                    r ∙ ap ok none_there,
                    rw (p, q, r) (more ∙ ap (λ l. l ++ (ip, name) ∷ []) listed),
                  )
                ]
        ]
      ]
    ]
      where
        found : Result Element
        found = (get_record_element answer "IPHostGroup" group w).0

        after : World S
        after = (get_record_element answer "IPHostGroup" group w).1

        hosts : Result (List String)
        hosts = (ip_hosts answer ip after).0

        after_hosts : World S
        after_hosts = (ip_hosts answer ip after).1

        kept : additions after.sent ≡ additions w.sent
        kept = additions-get_record_element "IPHostGroup" group w

        listed : additions after_hosts.sent ≡ additions w.sent
        listed = additions-ip_hosts ip after ∙ kept
