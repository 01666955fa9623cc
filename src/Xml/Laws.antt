-- ===== src/Xml/Laws.antt =====
-- What the nested dict of an element holds under a tag, against the children that have it.
use mathlib.Core.List.{append-nil, append_assoc}
use ha_sophos_fw.Prelude.{
  String, ◌≡◌, refl, sym, ap, ◌∙◌, inl, inr, Bool, true, false, Option, none, some, List, [], ◌∷◌,
  ◌++◌, map, arith, ◌==◌, eq_iff, if◌then◌else◌, Bool-cases, keep_if, All,
}
use ha_sophos_fw.Xml.{
  Element, Children, node, nil as no_children, cons as child, tag, to_list, has_tag, find_all,
}
use ha_sophos_fw.Xml.Value.{
  Value, Values, Fields, leaf, dict, list, nil, cons, end, field, get, put, append, one_more,
  add_child, collect, child_value, elem_to_dict,
}

get-put :
    (k j : String) (v : Value) (d : Fields)
    → get j (put k v d) ≡ (if k == j then some v else get j d)
get-put k j v end = refl
get-put k j v (field i w d) = ground (arith, eq_iff i k, eq_iff k j, eq_iff i j, get-put k j v d)

unfoldable pub to_values : List Value → Values
to_values [] = nil
to_values (v ∷ vs) = cons v (to_values vs)

-- The value of a tag in a dict, given the values of the children with that tag, in order: none
-- without a child, the value itself with one, and a list with two or more.
unfoldable pub gather : List Value → Option Value
unfolding to_values
gather [] = none
gather (v ∷ []) = some v
gather (v ∷ w ∷ vs) = some (list (to_values (v ∷ w ∷ vs)))

abbrev is_plain : Value → Bool
is_plain (list vs) = false
is_plain v = true

child_value-is_plain : (c : Element) → is_plain (child_value c) ≡ true
unfolding child_value
child_value-is_plain (node t a x no_children) = refl
child_value-is_plain (node t a x (child c cs)) = refl

append-to_values :
    (vs : List Value) (v : Value) → append (to_values vs) v ≡ to_values (vs ++ v ∷ [])
unfolding to_values
append-to_values [] v = refl
append-to_values (w ∷ vs) v = ap (cons w) (append-to_values vs v)

abbrev AllPlain : List Value → Type 0
AllPlain = All (λ v. is_plain v ≡ true)

AllPlain-append :
    (vs : List Value) (v : Value) → AllPlain vs → is_plain v ≡ true → AllPlain (vs ++ v ∷ [])
AllPlain-append [] v h p = (p, tt)
AllPlain-append (w ∷ vs) v h p = (h.0, AllPlain-append vs v h.1 p)

gather-append :
    (vs : List Value) (v : Value)
    → AllPlain vs
    → gather (vs ++ v ∷ []) ≡ some (one_more (gather vs) v)
unfolding gather to_values
gather-append [] v h = refl
gather-append (leaf s ∷ []) v h = refl
gather-append (dict d ∷ []) v h = refl
gather-append (list l ∷ []) v h = cc
gather-append (u ∷ w ∷ vs) v h =
    ap (λ (l : Values). some (list l)) (sym (append-to_values (u ∷ w ∷ vs) v))

abbrev values : String → List Element → List Value
values k cs = map child_value (keep_if (has_tag k) cs)

add_child-same :
    (t k : String) (v : Value) (d : Fields) (vs : List Value)
    → is_plain v ≡ true
    → AllPlain vs
    → get k d ≡ gather vs
    → (t == k) ≡ true
    → get k (add_child t v d) ≡ gather (vs ++ v ∷ [])
add_child-same t k v d vs p h e same =
    rw (get-put, same, (eq_iff t k).0 same, e) (sym (gather-append vs v h))

add_child-other :
    (t k : String) (v : Value) (d : Fields) → (t == k) ≡ false → get k (add_child t v d) ≡ get k d
add_child-other t k v d other = rw (get-put, other)

collect-gather :
    (k : String) (cs : Children) (d : Fields) (vs : List Value)
    → AllPlain vs
    → get k d ≡ gather vs
    → get k (collect cs d) ≡ gather (vs ++ values k (to_list cs))
unfolding collect
collect-gather k no_children d vs h e = rw append-nil e
collect-gather k (child c cs) d vs h e = elim (Bool-cases (tag c == k)) [
  | inl same ↦
      let v : Value = child_value c in
      let next = add_child-same (tag c) k v d vs (child_value-is_plain c) h e same in
      rw same (
        collect-gather k cs _ (vs ++ v ∷ []) (AllPlain-append vs v h (child_value-is_plain c)) next
        ∙ ap gather (append_assoc vs (v ∷ []) (values k (to_list cs))))
  | inr other ↦ rw other (collect-gather k cs _ vs h (add_child-other (tag c) k _ d other ∙ e))
]

-- Under every tag the dict of an element has nothing if no child has the tag, the one child's
-- value if one has, and the list of the children's values, in document order, if several have.
pub elem_to_dict-gather :
    (k : String) (e : Element) → get k (elem_to_dict e) ≡ gather (map child_value (find_all k e))
unfolding elem_to_dict find_all gather
elem_to_dict-gather k (node t a x cs) = collect-gather k cs end [] tt refl
