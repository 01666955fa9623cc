-- ===== src/SnmpClient/Rows/Laws.antt =====
-- Which row of a table stands under a name.
use ha_sophos_fw.Prelude.{
  String, ◌≡◌, ap, inl, inr, Bool, true, false, Option, none, some, List, [], ◌∷◌, arith, ◌==◌,
  eq_iff, if◌then◌else◌, Option-cases, or_else, first_where,
}
use ha_sophos_fw.Prelude.Dict
use ha_sophos_fw.Prelude.Dict.{Dict, get-put}
use ha_sophos_fw.SnmpClient.Rows.{named_rows, add_named}

module _ {V : Type 0} (skip : String → Bool) (row : String → String → V) where
  -- The first of the rows that has the name.
  unfoldable pub first_named : (String → Option String) → String → List String → Option String
  first_named name_at name =
      first_where (λ index. elim (name_at index) [ none ↦ false | some n ↦ n == name ])

  found : String → Option String → Option V
  found name none = none
  found name (some index) = if skip name then none else some (row index name)

  get-named_from :
      (name_at : String → Option String) (indexes : List String) (rows : Dict V) (name : String)
      → Dict.get name (named_rows skip row name_at indexes rows)
        ≡ or_else (Dict.get name rows) (found name (first_named name_at name indexes))
  unfolding named_rows add_named first_named found
  get-named_from name_at [] rows name = ground arith
  get-named_from name_at (index ∷ indexes) rows name = elim (Option-cases (name_at index)) [
    | inl p ↦ rw p (get-named_from name_at indexes rows name)
    | inr (n, p) ↦
        let added = Dict.put n (row index n) rows in
        let same : (n == name) ≡ true → row index n ≡ row index name =
          λ e. ap (row index) ((eq_iff n name).0 e) in
        let skipped : (n == name) ≡ true → skip n ≡ skip name =
          λ e. ap skip ((eq_iff n name).0 e) in
        let had : (n == name) ≡ true → Dict.get n rows ≡ Dict.get name rows =
          λ e. ap (λ k. Dict.get k rows) ((eq_iff n name).0 e) in
        rw p (
          ground (
            arith,
            same,
            skipped,
            had,
            get-named_from name_at indexes rows name,
            get-named_from name_at indexes added name,
            get-put n name (row index n) rows,
          ))
  ]

  -- Under a name stands the data of the first row that has it, in the order of the rows; a later row of
  -- the same name changes nothing, and a name that is skipped has no data.
  pub get-named_rows :
      (name_at : String → Option String) (indexes : List String) (name : String)
      → Dict.get name (named_rows skip row name_at indexes [])
        ≡ elim (first_named name_at name indexes) [
          | none ↦ none
          | some index ↦ if skip name then none else some (row index name)
        ]
  unfolding Dict.get found
  get-named_rows name_at indexes name = ground (arith, get-named_from name_at indexes [] name)
