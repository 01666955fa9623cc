-- ===== src/Xml.antt =====
-- Elements of an XML answer, with the operations of xml.etree.ElementTree that
-- custom_components/sophos_firewall/sophos_client.py uses, and its own helpers on elements. The
-- white space between elements (an element's tail) is not modelled: no code reads it.
pub mod Value
pub mod Laws
pub mod Edits
pub mod Container
use ha_sophos_fw.Prelude.{
  ℕ, zero, suc, ◌+◌, ◌-◌, ◌*◌, ◌/◌, ◌%◌, ◌≤◌, ◌<◌, String, ◌≡◌, refl, sym, ap, ◌∙◌, ◌≢◌, ◌↔◌, ◌⊎◌,
  inl, inr, Bool, true, false, not, ◌&&◌, ◌||◌, Option, none, some, List, [], ◌∷◌, ◌++◌, map, arith,
  ◌==◌, eq_iff, eq_refl, ltb, leb, eqb, if◌then◌else◌, leb→le, ltb→lt, eqb_iff, Bool-cases,
  Option-cases, or_else, is_some, get_or, ne→false, length, is_nil, keep_if, any_of, all_of,
  first_where, All, contains, Distinct,
}
use ha_sophos_fw.Prelude.Dict.{Dict, get}
use ha_sophos_fw.Text.{strip, lower, non_empty}

mutual
  -- tag, attributes, text and children
  pub data Element : Type 0 where
    node : String → Dict String → Option String → Children → Element

  pub data Children : Type 0 where
    nil : Children
    cons : Element → Children → Children

abbrev pub tag : Element → String
tag (node t a x cs) = t

abbrev pub attributes : Element → Dict String
attributes (node t a x cs) = a

abbrev pub text : Element → Option String
text (node t a x cs) = x

abbrev pub to_list : Children → List Element
to_list nil = []
to_list (cons c cs) = c ∷ to_list cs

abbrev pub to_children : List Element → Children
to_children [] = nil
to_children (c ∷ cs) = cons c (to_children cs)

-- `list(elem)`
abbrev pub children : Element → List Element
children (node t a x cs) = to_list cs

-- An element with other children, or another text.
abbrev pub with_children : List Element → Element → Element
with_children l (node t a x cs) = node t a x (to_children l)

abbrev pub with_text : String → Element → Element
with_text s (node t a x cs) = node t a (some s) cs

-- `ET.SubElement(parent, tag).text = s`, the new element alone; and one with no text.
abbrev pub leaf : String → String → Element
leaf t s = node t [] (some s) nil

abbrev pub branch : String → List Element → Element
branch t cs = node t [] none (to_children cs)

-- `elem.find(tag)` and `elem.findall(tag)` for a direct child.
abbrev pub has_tag : String → Element → Bool
has_tag t e = tag e == t

unfoldable pub find : String → Element → Option Element
find t e = first_where (has_tag t) (children e)

unfoldable pub find_all : String → Element → List Element
find_all t e = keep_if (has_tag t) (children e)

-- `elem.get(name, "")`
unfoldable pub attribute : String → Element → String
unfolding get
attribute name e = get_or (get name (attributes e)) ""

first_some {ℓ κ} : {A : Type ℓ} {B : Type κ} → (A → Option B) → List A → Option B
first_some f [] = none
first_some f (x ∷ xs) = or_else (f x) (first_some f xs)

-- `elem.find("A/B/C")`: the first match in document order below any <A>.
unfoldable pub find_path : List String → Element → Option Element
unfolding first_some
find_path [] e = some e
find_path (t ∷ []) e = first_where (has_tag t) (children e)
find_path (t ∷ u ∷ ts) e = first_some (find_path (u ∷ ts)) (keep_if (has_tag t) (children e))

mutual
  -- `elem.iter()`: the element and all below it, in document order.
  all_elements : Element → List Element
  all_elements (node t a x cs) = node t a x cs ∷ all_below cs

  all_below : Children → List Element
  all_below nil = []
  all_below (cons c cs) = all_elements c ++ all_below cs

-- `elem.iter(tag)`
unfoldable pub iter : String → Element → List Element
unfolding all_elements
iter t e = keep_if (has_tag t) (all_elements e)

-- `(elem.text or "").strip()`
unfoldable pub stripped : Element → String
stripped e = strip (get_or (text e) "")

unfoldable pub child_ci : String → Element → Option Element
child_ci t e = first_where (λ c. lower (tag c) == lower t) (children e)

or_empty : Option String → Option String
or_empty none = none
or_empty (some s) = non_empty (strip s)

child_text_of : Option Element → Option String
unfolding or_empty
child_text_of none = none
child_text_of (some c) = or_empty (text c)

unfoldable pub child_text : String → Element → Option String
unfolding child_text_of find
child_text t e = child_text_of (find t e)

status_only : List Element → Bool
status_only (c ∷ []) = tag c == "Status"
status_only cs = false

unfoldable pub is_status_only : Element → Bool
unfolding status_only
is_status_only e = status_only (children e)

module _ (p : Element → Bool) (f : Element → Element) where
  -- An in-place edit of the first child that passes the test.
  abbrev pub edit_first : List Element → List Element
  edit_first [] = []
  edit_first (c ∷ cs) = let rest = edit_first cs in if p c then f c ∷ cs else c ∷ rest

-- `parent.remove(child)` for the first child that passes the test.
abbrev pub remove_first : (Element → Bool) → List Element → List Element
remove_first p [] = []
remove_first p (c ∷ cs) = let rest = remove_first p cs in if p c then cs else c ∷ rest

-- `elem.insert(index, x)` before the first child that passes the test, or at the end.
abbrev pub insert_before : (Element → Bool) → Element → List Element → List Element
insert_before p x [] = x ∷ []
insert_before p x (c ∷ cs) = let rest = insert_before p x cs in if p c then x ∷ c ∷ cs else c ∷ rest
