-- ===== src/Xml/Container.antt =====
-- A record with one child that holds a list of entries, such as <URLlist> or <HostList>: its entries,
-- its other fields, and how edits of the container change them.
use mathlib.Core.List.{append-nil}
use ha_sophos_fw.Prelude.{
  ◌≤◌, ◌≡◌, refl, sym, ap, ◌∙◌, inl, inr, Bool, true, not, Option, none, some, List, [], ◌∷◌, ◌++◌,
  arith, if◌then◌else◌, Bool-cases, length, is_nil, keep_if, first_where,
}
use ha_sophos_fw.Xml.{Element, children, with_children, edit_first, remove_first, insert_before}
use ha_sophos_fw.Xml.Edits.{
  children-with_children, keep_if-append, first_where-append, first_where-insert_before, others,
  others-insert_before, first_where-edit_first, others-edit_first, others-remove_first,
  first_where-remove_first,
}

items_of : Option Element → List Element
items_of none = []
items_of (some l) = children l

module _ (p : Element → Bool) where
  -- The entries of the first child that passes the test; the children that do not pass it.
  unfoldable pub items : Element → List Element
  unfolding items_of
  items e = items_of (first_where p (children e))

  unfoldable pub fields : Element → List Element
  fields e = others p (children e)

  module _ (e : Element) (cs : List Element) where
    items_at : (o : Option Element) → first_where p cs ≡ o → items (with_children cs e) ≡ items_of o
    unfolding items
    items_at o h = rw (children-with_children, h)

    fields_at : others p cs ≡ others p (children e) → fields (with_children cs e) ≡ fields e
    unfolding fields
    fields_at h = rw children-with_children h

  items_now :
      (e : Element) (o : Option Element) → first_where p (children e) ≡ o → items e ≡ items_of o
  unfolding items
  items_now e o h = rw h

  one_other : (x : Element) → p x ≡ true → others p (x ∷ []) ≡ []
  one_other x h = ground arith

  module _ (e new : Element) (h : first_where p (children e) ≡ none) (is_new : p new ≡ true) where
    -- A new container at the end, or before the first child that passes another test.
    pub append_container :
        let e' = with_children (children e ++ new ∷ []) e in
        (items e' ≡ items e ++ children new) × (fields e' ≡ fields e)
    append_container = (
      unfold items_of in
          items_at e _ (some new) (first_where-append p (children e) new h is_new)
          ∙ ap (λ l. l ++ children new) (sym (items_now e none h)),
      fields_at e _ (
          keep_if-append (λ c. not (p c)) (children e) (new ∷ [])
          ∙ rw (one_other new is_new, append-nil) refl),
    )

    pub insert_container :
        (q : Element → Bool)
        → let e' = with_children (insert_before q new (children e)) e in
          (items e' ≡ items e ++ children new) × (fields e' ≡ fields e)
    insert_container q = (
      unfold items_of in
          items_at e _ (some new) (first_where-insert_before p q new is_new (children e) h)
          ∙ ap (λ l. l ++ children new) (sym (items_now e none h)),
      fields_at e _ (others-insert_before p q new is_new (children e)),
    )

  module _ (e l : Element) (h : first_where p (children e) ≡ some l) where
    pub edit_container :
        (f : Element → Element)
        → ((m : Element) → p (f m) ≡ p m)
        → let e' = with_children (edit_first p f (children e)) e in
          (items e ≡ children l) × (items e' ≡ children (f l)) × (fields e' ≡ fields e)
    unfolding items_of
    edit_container f same = (
      items_now e (some l) h,
      items_at e _ (some (f l)) (first_where-edit_first p f (children e) l same h),
      fields_at e _ (others-edit_first p f (children e) same),
    )

    pub remove_container :
        length (keep_if p (children e)) ≤ 1
        → let e' = with_children (remove_first p (children e)) e in
          (items e' ≡ []) × (fields e' ≡ fields e)
    unfolding items_of
    remove_container one = (
      items_at e _ none (first_where-remove_first p (children e) one),
      fields_at e _ (others-remove_first p (children e)),
    )

-- Dropping the entries that pass a test from a container with the entries `l`: the container goes
-- with its last entry.
pub nil_of {ℓ} : {A : Type ℓ} (l : List A) → is_nil l ≡ true → l ≡ []
nil_of [] h = refl
nil_of (x ∷ l) h = cc

module _ (p q : Element → Bool) (drop : Element → Element)
    (dropped : (m : Element) → children (drop m) ≡ keep_if (λ i. not (q i)) (children m))
    (same : (m : Element) → p (drop m) ≡ p m) (e l : Element) where
  unfoldable pub drop_from : Element
  drop_from =
      if is_nil (children (drop l))
      then with_children (remove_first p (children e)) e
      else with_children (edit_first p drop (children e)) e

  pub drop_from_lem :
      first_where p (children e) ≡ some l
      → length (keep_if p (children e)) ≤ 1
      → (items p drop_from ≡ keep_if (λ i. not (q i)) (items p e))
        × (fields p drop_from ≡ fields p e)
  unfolding drop_from
  drop_from_lem h one =
      let (now, after, kept) = edit_container p e l h drop same in
      let (none_left, kept') = remove_container p e l h one in
      elim (Bool-cases (is_nil (children (drop l)))) [
        | inl empty ↦ rw empty (
          none_left
              ∙ sym (nil_of (children (drop l)) empty)
              ∙ dropped l
              ∙ ap (keep_if (λ i. not (q i))) (sym now),
          kept',
        )
        | inr more ↦ rw more (after ∙ dropped l ∙ ap (keep_if (λ i. not (q i))) (sym now), kept)
      ]
