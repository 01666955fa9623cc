-- ===== src/Xml/Edits.antt =====
-- In-place edits of an element's children, and what a later search finds.
use ha_sophos_fw.Prelude.{
  ◌≤◌, ◌≡◌, refl, ap, inl, inr, Bool, true, not, none, some, List, [], ◌∷◌, ◌++◌, arith, Bool-cases,
  length, keep_if, first_where,
}
use ha_sophos_fw.Xml.{
  Element, node, tag, to_list, to_children, children, with_children, edit_first, remove_first,
  insert_before,
}

to_list-to_children : (l : List Element) → to_list (to_children l) ≡ l
to_list-to_children [] = refl
to_list-to_children (c ∷ l) = ap (◌∷◌ c) (to_list-to_children l)

pub children-with_children : (l : List Element) (e : Element) → children (with_children l e) ≡ l
children-with_children l (node t a x cs) = to_list-to_children l

pub tag-with_children : (l : List Element) (e : Element) → tag (with_children l e) ≡ tag e
tag-with_children l (node t a x cs) = refl

module _ {ℓ} {A : Type ℓ} (p : A → Bool) where
  pub keep_if-append : (l m : List A) → keep_if p (l ++ m) ≡ keep_if p l ++ keep_if p m
  keep_if-append [] m = refl
  keep_if-append (x ∷ l) m = ground (arith, keep_if-append l m)

  pub first_where-append :
      (l : List A) (x : A)
      → first_where p l ≡ none
      → p x ≡ true
      → first_where p (l ++ x ∷ []) ≡ some x
  first_where-append [] x h px = ground arith
  first_where-append (y ∷ l) x h px = ground (arith, first_where-append l x)

  pub keep_if-nil_of_first_where : (l : List A) → first_where p l ≡ none → keep_if p l ≡ []
  keep_if-nil_of_first_where [] h = refl
  keep_if-nil_of_first_where (x ∷ l) h = ground (arith, keep_if-nil_of_first_where l)

  pub first_where_of_keep_if-nil : (l : List A) → keep_if p l ≡ [] → first_where p l ≡ none
  first_where_of_keep_if-nil [] h = refl
  first_where_of_keep_if-nil (x ∷ l) h = ground (arith, first_where_of_keep_if-nil l)

  -- What is kept once is kept again; what is dropped leaves nothing to keep.
  pub keep_if-not : (l : List A) → keep_if p (keep_if (λ x. not (p x)) l) ≡ []
  keep_if-not [] = refl
  keep_if-not (x ∷ l) = ground (arith, keep_if-not l)

  pub keep_if_all : (l : List A) → keep_if p l ≡ [] → keep_if (λ x. not (p x)) l ≡ l
  keep_if_all [] h = refl
  keep_if_all (x ∷ l) h = ground (arith, keep_if_all l)

nil_of_short {ℓ} : {A : Type ℓ} (l : List A) → length l ≤ 0 → l ≡ []
nil_of_short [] h = refl
nil_of_short (x ∷ l) h = absurd (omega arith)

module _ (p : Element → Bool) where
  -- The children that do not pass the test.
  abbrev pub others : List Element → List Element
  others l = keep_if (λ c. not (p c)) l

  pub first_where-edit_first :
      (f : Element → Element) (l : List Element) (c : Element)
      → ((e : Element) → p (f e) ≡ p e)
      → first_where p l ≡ some c
      → first_where p (edit_first p f l) ≡ some (f c)
  first_where-edit_first f [] c same h = cc
  first_where-edit_first f (d ∷ l) c same h =
      ground (arith, same d, first_where-edit_first f l c same)

  pub others-edit_first :
      (f : Element → Element) (l : List Element)
      → ((e : Element) → p (f e) ≡ p e)
      → others (edit_first p f l) ≡ others l
  others-edit_first f [] same = refl
  others-edit_first f (d ∷ l) same = ground (arith, same d, others-edit_first f l same)

  pub others-remove_first : (l : List Element) → others (remove_first p l) ≡ others l
  others-remove_first [] = refl
  others-remove_first (d ∷ l) = ground (arith, others-remove_first l)

  pub first_where-remove_first :
      (l : List Element) → length (keep_if p l) ≤ 1 → first_where p (remove_first p l) ≡ none
  first_where-remove_first [] h = refl
  first_where-remove_first (d ∷ l) h = elim (Bool-cases (p d)) [
    | inl e ↦ rw e (first_where_of_keep_if-nil p l (nil_of_short (keep_if p l) (short e)))
    | inr e ↦ ground (arith, first_where-remove_first l)
  ]
    where
      short : p d ≡ true → length (keep_if p l) ≤ 0
      short e = ground arith

  -- Inserting a child that passes the test.
  module _ (q : Element → Bool) (x : Element) (px : p x ≡ true) where
    pub others-insert_before : (l : List Element) → others (insert_before q x l) ≡ others l
    others-insert_before [] = ground arith
    others-insert_before (d ∷ l) = ground (arith, others-insert_before l)

    pub first_where-insert_before :
        (l : List Element) → first_where p l ≡ none → first_where p (insert_before q x l) ≡ some x
    first_where-insert_before [] h = ground arith
    first_where-insert_before (d ∷ l) h = ground (arith, first_where-insert_before l)
