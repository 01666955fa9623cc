-- ===== src/Prelude/Dict.antt =====
-- Python's `dict` with text keys: an association list in insertion order. An assignment to a key
-- that is present keeps the key's place.
use Prim.Native.String.{String}
use mathlib.Core.Path.{◌≡◌, refl}
use mathlib.Core.Bool.{Bool, true, false}
use mathlib.Core.List.{List, [], ◌∷◌, map}
use mathlib.Core.Option.{Option, none, some}
use native.Mathlib.Omega.{arith}
use text.Mathlib.Text.{◌==◌}
use text.Mathlib.TextEquality.{eq_iff}
use ha_sophos_fw.Prelude.Tests.{if◌then◌else◌, or_else}
use ha_sophos_fw.Prelude.Lists.{contains, Distinct, keep_if}

abbrev pub Dict {ℓ} : Type ℓ → Type ℓ
Dict V = List (String × V)

module _ {ℓ} {V : Type ℓ} where
  unfoldable pub get : String → Dict V → Option V
  get k [] = none
  get k ((j, v) ∷ d) = if j == k then some v else get k d

  -- `d[k] = v`
  unfoldable pub put : String → V → Dict V → Dict V
  put k v [] = (k, v) ∷ []
  put k v ((j, w) ∷ d) = if j == k then (j, v) ∷ d else (j, w) ∷ put k v d

  -- `d.pop(k, None)`
  unfoldable pub pop : String → Dict V → Dict V
  pop k [] = []
  pop k ((j, w) ∷ d) = let rest = pop k d in if j == k then rest else (j, w) ∷ rest

  abbrev pub keys : Dict V → List String
  keys = map (λ e. e.0)

  -- `d.update(e)`
  unfoldable pub update : Dict V → Dict V → Dict V
  update d [] = d
  update d ((k, v) ∷ e) = update (put k v d) e

  pub get-put :
      (k j : String) (v : V) (d : Dict V) → get j (put k v d) ≡ (if k == j then some v else get j d)
  unfolding get put
  get-put k j v [] = refl
  get-put k j v ((i, w) ∷ d) = ground (arith, eq_iff i k, eq_iff k j, eq_iff i j, get-put k j v d)

  pub get-pop : (k j : String) (d : Dict V) → get j (pop k d) ≡ (if k == j then none else get j d)
  unfolding get pop
  get-pop k j [] = ground arith
  get-pop k j ((i, w) ∷ d) = ground (arith, eq_iff i k, eq_iff k j, eq_iff i j, get-pop k j d)

  -- A key that no test finds is not among the keys, and conversely.
  pub contains-keys : (k : String) (d : Dict V) → contains (keys d) k ≡ false → get k d ≡ none
  unfolding get
  contains-keys k [] h = refl
  contains-keys k ((i, w) ∷ d) h = ground (arith, contains-keys k d)

  pub contains-put :
      (k j : String) (v : V) (d : Dict V)
      → contains (keys (put k v d)) j ≡ (if k == j then true else contains (keys d) j)
  unfolding put
  contains-put k j v [] = ground arith
  contains-put k j v ((i, w) ∷ d) =
      ground (arith, eq_iff i k, eq_iff k j, eq_iff i j, contains-put k j v d)

  -- An assignment keeps the keys distinct.
  pub put-Distinct :
      (k : String) (v : V) (d : Dict V) → Distinct (keys d) → Distinct (keys (put k v d))
  unfolding put
  put-Distinct k v [] h = ground arith
  put-Distinct k v ((i, w) ∷ d) h =
      ground (arith, eq_iff i k, eq_iff k i, contains-put k i v d, put-Distinct k v d h.1)

  pub update-Distinct : (d e : Dict V) → Distinct (keys d) → Distinct (keys (update d e))
  unfolding update
  update-Distinct d [] h = h
  update-Distinct d ((k, v) ∷ e) h = update-Distinct (put k v d) e (put-Distinct k v d h)

  -- What an update finds: the values of the second dictionary, and of the first for the other keys.
  pub get-update :
      (d e : Dict V) (k : String)
      → Distinct (keys e)
      → get k (update d e) ≡ or_else (get k e) (get k d)
  unfolding update get
  get-update d [] k h = refl
  get-update d ((j, v) ∷ e) k h =
      ground (arith, eq_iff j k, get-put j k v d, get-update (put j v d) e k h.1, contains-keys k e)

  -- Keeping the entries whose keys pass a test.
  pub get-keep_if :
      (p : String → Bool) (d : Dict V) (k : String)
      → get k (keep_if (λ e. p e.0) d) ≡ (if p k then get k d else none)
  unfolding get
  get-keep_if p [] k = ground arith
  get-keep_if p ((j, v) ∷ d) k = ground (arith, eq_iff j k, get-keep_if p d k)
