-- ===== src/SnmpClient/Table/Laws.antt =====
-- What a column of a walked table holds.
use Prim.Native.Char.{Char, code}
use ha_sophos_fw.Prelude.{
  String, ◌≡◌, refl, ap, ◌∙◌, Bool, true, false, not, ◌&&◌, Option, none, some, [], ◌∷◌, inl, inr,
  Bool-cases, arith, ◌==◌, eq_iff, eqb, if◌then◌else◌, or_else,
}
use ha_sophos_fw.Prelude.Dict
use ha_sophos_fw.Prelude.Dict.{Dict, get-put}
use ha_sophos_fw.Text.{append, is_digit, drop_prefix}
use ha_sophos_fw.SnmpClient.Table.{
  strip_dots, drop_end_dots, strip_ends, column_prefix, add_row, column_from, table_column,
}

-- The value of the last object that the row `index` of the column with the prefix has.
unfoldable pub last_at : {V : Type 0} → String → String → Dict V → Option V
last_at prefix index [] = none
last_at prefix index ((oid, value) ∷ objects) =
    or_else (last_at prefix index objects) (elim (drop_prefix prefix (strip_dots oid)) [
      | none ↦ none
      | some i ↦ if i == index then some value else none
    ])

module _ {V : Type 0} where
  get-add_row :
      (o : Option String) (value : V) (rows : Dict V) (index : String)
      → Dict.get index (add_row o value rows) ≡ (
          if is_digit index
          then or_else
              (elim o [ none ↦ none | some i ↦ if i == index then some value else none ])
              (Dict.get index rows)
          else Dict.get index rows)
  unfolding add_row
  get-add_row none value rows index = ground arith
  get-add_row (some i) value rows index = ground (arith, eq_iff i index, get-put i index value rows)

  get-column_from :
      (prefix : String) (objects rows : Dict V) (index : String)
      → Dict.get index (column_from prefix objects rows) ≡ (
          if is_digit index
          then or_else (last_at prefix index objects) (Dict.get index rows)
          else Dict.get index rows)
  unfolding column_from last_at
  get-column_from prefix [] rows index = ground arith
  get-column_from prefix ((oid, value) ∷ objects) rows index =
      let o = drop_prefix prefix (strip_dots oid) in
      ground (
        arith,
        get-add_row o value rows index,
        get-column_from prefix objects (add_row o value rows) index,
      )

-- A text of dots only, and one without a dot at its begin and at its end.
unfoldable pub all_dots : String → Bool
all_dots String.[] = true
all_dots (String.◌∷◌ c s) = eqb (code c) 46 && all_dots s

unfoldable pub begins_bare : String → Bool
begins_bare String.[] = true
begins_bare (String.◌∷◌ c s) = not (eqb (code c) 46)

unfoldable pub ends_bare : String → Bool
ends_bare String.[] = true
ends_bare (String.◌∷◌ c s) =
    let rest = ends_bare s in if s == "" then not (eqb (code c) 46) else rest

strip_dots-append :
    (front s : String) → all_dots front ≡ true → strip_dots (append front s) ≡ strip_dots s
unfolding strip_dots all_dots
strip_dots-append String.[] s h = refl
strip_dots-append (String.◌∷◌ c front) s h = ground (arith, h, strip_dots-append front s)

strip_dots_only : (s : String) → all_dots s ≡ true → strip_dots s ≡ ""
unfolding strip_dots all_dots
strip_dots_only String.[] h = refl
strip_dots_only (String.◌∷◌ c s) h = ground (arith, h, strip_dots_only s)

drop_end_dots_only : (s : String) → all_dots s ≡ true → drop_end_dots s ≡ ""
unfolding drop_end_dots all_dots
drop_end_dots_only String.[] h = refl
drop_end_dots_only (String.◌∷◌ c s) h =
    ground (arith, h, drop_end_dots_only s, eq_iff (drop_end_dots s) "")

starts : String → Bool
starts String.[] = false
starts (String.◌∷◌ c s) = true

not_empty : (c : Char) (s : String) → (String.◌∷◌ c s == "") ≡ false
unfolding starts
not_empty c s = elim (Bool-cases (String.◌∷◌ c s == "")) [
  | inl e ↦
      let differ : true ≡ false = ap starts ((eq_iff (String.◌∷◌ c s) "").0 e) in absurd (cc differ)
  | inr e ↦ e
]

ends_bare_tail : (c : Char) (s : String) → ends_bare (String.◌∷◌ c s) ≡ true → ends_bare s ≡ true
unfolding ends_bare
ends_bare_tail c String.[] h = refl
ends_bare_tail c (String.◌∷◌ d s) h = ground (arith, h, not_empty d s)

drop_end_dots-append :
    (core back : String)
    → ends_bare core ≡ true
    → all_dots back ≡ true
    → drop_end_dots (append core back) ≡ core
unfolding drop_end_dots ends_bare
drop_end_dots-append String.[] back h dots = drop_end_dots_only back dots
drop_end_dots-append (String.◌∷◌ c core) back h dots =
    let rest = drop_end_dots-append core back (ends_bare_tail c core h) dots in
    rw rest (ground (arith, h))

bare_start :
    (c : Char) (s : String)
    → begins_bare (String.◌∷◌ c s) ≡ true
    → strip_dots (String.◌∷◌ c s) ≡ String.◌∷◌ c s
unfolding strip_dots begins_bare
bare_start c s h = ground (arith, h)

strip_ends-append :
    (front core back : String)
    → all_dots front ≡ true
    → begins_bare core ≡ true
    → ends_bare core ≡ true
    → all_dots back ≡ true
    → strip_ends (append front (append core back)) ≡ core
unfolding strip_ends begins_bare
strip_ends-append front String.[] back f b e k =
    ap drop_end_dots (strip_dots-append front back f ∙ strip_dots_only back k)
strip_ends-append front (String.◌∷◌ c core) back f b e k =
    ap drop_end_dots (strip_dots-append front (String.◌∷◌ c (append core back)) f)
    ∙ rw (bare_start c (append core back) b) (drop_end_dots-append (String.◌∷◌ c core) back e k)

module _ {V : Type 0} where
  -- A column has an index that is a number, and only such, with the value of the last object whose OID
  -- is that of the column followed by the index; other columns and longer indexes are not read. Dots
  -- around the table's OID, and before an object's, do not matter.
  pub get-table_column :
      (objects : Dict V) (front table back column index : String)
      → all_dots front ≡ true
      → begins_bare table ≡ true
      → ends_bare table ≡ true
      → all_dots back ≡ true
      → Dict.get index (table_column objects (append front (append table back)) column) ≡ (
          if is_digit index
          then last_at (append table (append ".1." (append column "."))) index objects
          else none)
  unfolding table_column column_prefix Dict.get
  get-table_column objects front table back column index f b e k =
      rw (strip_ends-append front table back f b e k) (
        ground (
          arith,
          get-column_from (append table (append ".1." (append column "."))) objects [] index,
        ))
