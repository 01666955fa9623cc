-- ===== src/Client/Records/Laws.antt =====
-- Collecting records by name, and the static leases of a DHCP server as the firewall sends them.
use ha_sophos_fw.Prelude.{
  suc, String, ◌≡◌, refl, ap, inl, inr, true, false, Option, none, some, List, [], ◌∷◌, map, arith,
  ◌==◌, eq_iff, if◌then◌else◌, Bool-cases, or_else, is_some, length, is_nil, keep_if, All, Distinct,
}
use ha_sophos_fw.Prelude.Dict
use ha_sophos_fw.Prelude.Dict.{Dict, get-put, put-Distinct}
use ha_sophos_fw.Xml.{
  Element, node, nil as no_children, cons as child, to_list, children, has_tag, find_all,
}
use ha_sophos_fw.Xml.Value.{child_value, elem_to_dict}
use ha_sophos_fw.Xml.Laws.{gather, to_values, elem_to_dict-gather}
use ha_sophos_fw.Client.Records.{
  keep_first, by_name_from, by_name, normalise, raw_leases, container_leases, static_leases,
}

module _ {ℓ} {A : Type ℓ} (name : A → String) where
  -- The first of the parsed records that has the name.
  unfoldable pub first_named : String → List (Option A) → Option A
  first_named k [] = none
  first_named k (none ∷ items) = first_named k items
  first_named k (some a ∷ items) = if name a == k then some a else first_named k items

  get-by_name_from :
      (k : String) (items : List (Option A)) (d : Dict A)
      → Dict.get k (by_name_from name items d) ≡ or_else (Dict.get k d) (first_named k items)
  unfolding by_name_from keep_first first_named
  get-by_name_from k [] d = ground arith
  get-by_name_from k (none ∷ items) d = get-by_name_from k items d
  get-by_name_from k (some a ∷ items) d = ground (
    arith,
    eq_iff (name a) k,
    get-put (name a) k a d,
    get-by_name_from k items (keep_first name (some a) d),
  )

  by_name_from-Distinct :
      (items : List (Option A)) (d : Dict A)
      → Distinct (Dict.keys d)
      → Distinct (Dict.keys (by_name_from name items d))
  unfolding by_name_from keep_first
  by_name_from-Distinct [] d h = h
  by_name_from-Distinct (none ∷ items) d h = by_name_from-Distinct items d h
  by_name_from-Distinct (some a ∷ items) d h = elim (Bool-cases (is_some (Dict.get (name a) d))) [
    | inl old ↦ rw old (by_name_from-Distinct items d h)
    | inr new ↦ rw new (by_name_from-Distinct items _ (put-Distinct (name a) a d h))
  ]

  -- The collected dict holds under each name the first of the parsed records with that name, records
  -- that did not parse are passed over, and no name occurs twice.
  pub by_name_lem :
      (items : List (Option A))
      → ((k : String) → Dict.get k (by_name name items) ≡ first_named k items)
        × Distinct (Dict.keys (by_name name items))
  unfolding by_name first_named Dict.get
  by_name_lem items = (λ k. get-by_name_from k items [], by_name_from-Distinct items [] tt)

-- A child <Lease> with fields of its own.
abbrev pub IsLease : Element → Type 0
IsLease (node t a x cs) = (t == "Lease" ≡ true) × (is_nil (to_list cs) ≡ false)

keep-leases : (cs : List Element) → All IsLease cs → keep_if (has_tag "Lease") cs ≡ cs
keep-leases [] h = refl
keep-leases (node t a x cs ∷ l) h = rw h.0.0 (ap (◌∷◌ (node t a x cs)) (keep-leases l h.1))

length-normalise :
    (cs : List Element)
    → All IsLease cs
    → length (normalise (to_values (map child_value cs))) ≡ length cs
unfolding normalise to_values child_value
length-normalise [] h = refl
length-normalise (node t a x no_children ∷ l) h = cc
length-normalise (node t a x (child c cs) ∷ l) h = ap suc (length-normalise l h.1)

length-raw_leases :
    (cs : List Element)
    → All IsLease cs
    → length (normalise (raw_leases (gather (map child_value cs)))) ≡ length cs
unfolding gather raw_leases
length-raw_leases [] h = unfold normalise in refl
length-raw_leases (node t a x no_children ∷ []) h = cc
length-raw_leases (node t a x (child c cs) ∷ []) h = unfold normalise child_value in refl
length-raw_leases (b ∷ c ∷ l) h = length-normalise (b ∷ c ∷ l) h

length-container :
    (sl : Element)
    → All IsLease (children sl)
    → length (normalise (container_leases (some (child_value sl)))) ≡ length (children sl)
unfolding container_leases child_value elem_to_dict
length-container (node t a x no_children) h = unfold normalise in refl
length-container (node t a x (child c cs)) h =
    rw (elem_to_dict-gather "Lease" (node t a x (child c cs))) (
      unfold find_all in rw (keep-leases (c ∷ to_list cs) h) (length-raw_leases (c ∷ to_list cs) h))

-- A server with one <StaticLease>, whose children are all <Lease> elements with fields, has as many
-- static leases as there are <Lease> elements: none, one or several.
pub length-static_leases :
    (e sl : Element)
    → find_all "StaticLease" e ≡ sl ∷ []
    → All IsLease (children sl)
    → length (static_leases (elem_to_dict e)) ≡ length (children sl)
unfolding static_leases
length-static_leases e sl one h =
    rw (elem_to_dict-gather, one) (unfold gather in length-container sl h)
