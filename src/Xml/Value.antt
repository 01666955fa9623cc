-- ===== src/Xml/Value.antt =====
-- The nested dict of one XML record, and reading it (sophos_client.py: _elem_to_dict, _text, _path).
use ha_sophos_fw.Prelude.{
  String, Bool, true, false, Option, none, some, List, [], ◌∷◌, ◌==◌, if◌then◌else◌, get_or,
}
use ha_sophos_fw.Text.{strip, lower, non_empty}
use ha_sophos_fw.Xml.{Element, Children, node, nil as no_children, cons as child, tag}

mutual
  pub data Value : Type 0 where
    leaf : String → Value
    dict : Fields → Value
    list : Values → Value

  pub data Values : Type 0 where
    nil : Values
    cons : Value → Values → Values

  -- A dict in insertion order.
  pub data Fields : Type 0 where
    end : Fields
    field : String → Value → Fields → Fields

abbrev pub get : String → Fields → Option Value
get k end = none
get k (field j v d) = if j == k then some v else get k d

abbrev pub put : String → Value → Fields → Fields
put k v end = field k v end
put k v (field j w d) = let rest = put k v d in if j == k then field j v d else field j w rest

abbrev pub append : Values → Value → Values
append nil w = cons w nil
append (cons v vs) w = cons v (append vs w)

-- The value that a tag has after one more child with that tag.
abbrev pub one_more : Option Value → Value → Value
one_more none v = v
one_more (some (list vs)) v = list (append vs v)
one_more (some w) v = list (cons w (cons v nil))

abbrev pub add_child : String → Value → Fields → Fields
add_child t v d = put t (one_more (get t d) v) d

abbrev has_children : Children → Bool
has_children no_children = false
has_children (child c cs) = true

unfoldable mutual
  -- The loop of `_elem_to_dict` over the children.
  pub collect : Children → Fields → Fields
  collect no_children d = d
  collect (child c cs) d = collect cs (add_child (tag c) (child_value c) d)

  pub child_value : Element → Value
  child_value (node t a x cs) =
      let inner = collect cs end in if has_children cs then dict inner else leaf (get_or x "")

-- `_elem_to_dict`
unfoldable pub elem_to_dict : Element → Fields
unfolding collect
elem_to_dict (node t a x cs) = collect cs end

-- `_text`: a leaf's stripped text, or none if it is missing, empty or not a leaf.
leaf_text : Option Value → Option String
leaf_text (some (leaf s)) = non_empty (strip s)
leaf_text v = none

unfoldable pub text_of : Fields → String → Option String
unfolding leaf_text
text_of record_dict key = leaf_text (get key record_dict)

-- `_path`: nested dicts, with the empty dict for anything unexpected.
dict_or_end : Option Value → Fields
dict_or_end (some (dict d)) = d
dict_or_end v = end

unfoldable pub path_of : Fields → List String → Fields
unfolding dict_or_end
path_of d [] = d
path_of d (k ∷ ks) = path_of (dict_or_end (get k d)) ks

-- `_equals`
unfoldable pub equals : Option String → String → Option Bool
equals none expected = none
equals (some v) expected = some (lower v == lower expected)
