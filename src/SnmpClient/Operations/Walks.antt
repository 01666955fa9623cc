-- ===== src/SnmpClient/Operations/Walks.antt =====
-- What a walk of columns answers.
use ha_sophos_fw.Prelude.{
  ℕ, String, ◌≡◌, refl, sym, ◌∙◌, ap, true, Option, none, some, List, [], ◌∷◌, map, length, arith,
  ◌==◌, eq_iff, or_else, if◌then◌else◌,
}
use ha_sophos_fw.Prelude.Dict
use ha_sophos_fw.Prelude.Dict.{Dict, get-put}
use ha_sophos_fw.SnmpClient.Operations.{
  done, End, returns, raises, ok, Happening, run, all_running, all_or_nothing, merged, walked,
  walk_columns,
}
use ha_sophos_fw.SnmpClient.Operations.Tasks.{
  IsWhole, run-IsWhole, run-length, done-length, all_running-length,
}

module _ {V : Type 0} where
  -- The value of the last object with the OID in one column, and in the last column that has it.
  abbrev pub last_in : String → Dict V → Option V
  last_in oid [] = none
  last_in oid ((k, v) ∷ column) = or_else (last_in oid column) (if k == oid then some v else none)

  abbrev pub latest : String → List (Dict V) → Option V
  latest oid [] = none
  latest oid (column ∷ columns) = or_else (latest oid columns) (last_in oid column)

  get-update :
      (k : String) (d e : Dict V)
      → Dict.get k (Dict.update d e) ≡ or_else (last_in k e) (Dict.get k d)
  unfolding Dict.update Dict.get
  get-update k d [] = refl
  get-update k d ((j, v) ∷ e) =
      ground (arith, eq_iff j k, get-update k (Dict.put j v d) e, get-put j k v d)

  get-merged :
      (k : String) (columns : List (Dict V)) (d : Dict V)
      → Dict.get k (merged columns d) ≡ or_else (latest k columns) (Dict.get k d)
  unfolding merged
  get-merged k [] d = refl
  get-merged k (column ∷ columns) d =
      ground (arith, get-merged k columns (Dict.update d column), get-update k d column)

  or_else-none : (o : Option V) → or_else o none ≡ o
  or_else-none none = refl
  or_else-none (some v) = refl

  answered_columns :
      (o : Option (End (List (Dict V)))) (d : Dict V)
      → elim o [ none ↦ none | some end ↦ some (walked end) ] ≡ some (ok d)
      → (columns : List (Dict V)) × (o ≡ some (returns columns)) × (merged columns [] ≡ d)
  unfolding walked
  answered_columns none d h = ground (arith, h)
  answered_columns (some (returns columns)) d h = (columns, refl, ground (arith, h))
  answered_columns (some (raises f)) d h = ground (arith, h)

  -- A walk that is answered has walked all of its columns to their ends. It holds exactly the OIDs of these
  -- columns, each with the value of its last object in the last column that has it.
  pub walk_columns-whole :
      (count : ℕ) (happenings : List (Happening (Dict V))) (d : Dict V)
      → walk_columns true count happenings ≡ some (ok d)
      → (columns : List (Dict V)) × ((all_or_nothing count happenings).1 ≡ map done columns)
        × (length columns ≡ count)
        × ((oid : String) → Dict.get oid d ≡ latest oid columns)
  unfolding walk_columns all_or_nothing walked Dict.get IsWhole
  walk_columns-whole count happenings d h =
      let start = all_running {A = Dict V} count in
      let it = answered_columns (run happenings start).0 d h in
      let all = run-IsWhole happenings start it.0 it.1 in
      (
        it.0,
        all,
        sym (done-length it.0)
            ∙ ap length (sym all)
            ∙ run-length happenings start
            ∙ all_running-length (Dict V) count,
        λ oid.
            ap (Dict.get oid) (sym it.2) ∙ get-merged oid it.0 [] ∙ or_else-none (latest oid it.0),
      )
