-- ===== src/Platform/Setups/Laws.antt =====
-- What an entity needs to be shown after a platform's setup, step by step.
use Prim.Native.String as Text
use ha_sophos_fw.Prelude.{
  String, ◌≡◌, refl, ap, inl, inr, Bool, true, false, not, ◌||◌, Option, none, some, List, [], ◌∷◌,
  ◌++◌, map, keep_if, arith, ◌==◌, eq_iff, Bool-cases, contains,
}
use ha_sophos_fw.Prelude.Dict.{Dict}
use ha_sophos_fw.Text.{append, starts_with}
use ha_sophos_fw.Setup.UniqueIds.{RegEntry}
use ha_sophos_fw.Entity.Items.{keyed, name_items, names}
use ha_sophos_fw.Entity.Removal.{contains-append}
use ha_sophos_fw.Platform.{build_unique_id, holds}
use ha_sophos_fw.Platform.Laws.{holds-remove_entities}
use ha_sophos_fw.Platform.Families.{Coordinator, Run, ran, failed, registry_of, added_of}
use ha_sophos_fw.Platform.Families.Reported.{among}
use ha_sophos_fw.Platform.Families.Added.{is_failed}
use ha_sophos_fw.Platform.Setups.{
  Placed, and_then, keys_of, registry_after, added_after, Static, has_source, add_static,
}

-- Whether a platform leaves an entity registered or adds it.
unfoldable pub is_shown : String → String → String → Placed → Bool
unfolding registry_after added_after
is_shown entry_id d s p =
    holds d (build_unique_id entry_id s) (registry_after p) || contains (added_after p) s

starts_with_self : (prefix name : String) → starts_with (append prefix name) prefix ≡ true
starts_with_self Text.[] name = refl
starts_with_self (Text.◌∷◌ c prefix) name = ground (arith, starts_with_self prefix name)

pub not_key :
    (prefix name s : String) → starts_with s prefix ≡ false → (append prefix name == s) ≡ false
not_key prefix name s h = elim (Bool-cases (append prefix name == s)) [
  | inr e ↦ e
  | inl e ↦
      let same : starts_with (append prefix name) prefix ≡ starts_with s prefix =
        ap (λ u. starts_with u prefix) ((eq_iff (append prefix name) s).0 e) in
      ground (arith, h, same, starts_with_self prefix name)
]

-- A family's items start with its prefix.
pub among-keyed :
    {V : Type 0} (prefix s : String)
    → starts_with s prefix ≡ false
    → (items : Option (Dict V)) → among (keys_of (keyed prefix items)) s ≡ false
unfolding keyed
among-keyed prefix s h none = refl
among-keyed prefix s h (some []) = refl
among-keyed prefix s h (some ((name, item) ∷ items)) =
    ground (arith, not_key prefix name s h, among-keyed prefix s h (some items))

pub among-name_items :
    {V : Type 0} (prefix s : String)
    → starts_with s prefix ≡ false
    → (items : Option (Dict V)) → among (keys_of (name_items prefix items)) s ≡ false
unfolding name_items names
among-name_items prefix s h none = refl
among-name_items prefix s h (some []) = refl
among-name_items prefix s h (some ((name, item) ∷ items)) =
    ground (arith, not_key prefix name s h, among-name_items prefix s h (some items))

module _ (entry_id d s : String) where
  -- An entity that a run neither leaves nor adds is shown only if what follows shows it.
  pub shown-and_then :
      (added : List String) (run : Run) (next : List RegEntry → List String → Placed)
      → contains added s ≡ false
      → holds d (build_unique_id entry_id s) (registry_of run) ≡ false
      → contains (added_of run) s ≡ false
      → ((registry : List RegEntry) (new : List String)
          → holds d (build_unique_id entry_id s) registry ≡ false
          → contains new s ≡ false
          → is_shown entry_id d s (next registry new) ≡ false)
      → is_shown entry_id d s (and_then added run next) ≡ false
  unfolding and_then is_shown registry_of added_of
  shown-and_then added (ran sh registry new) next h k l rest =
      unfold is_shown in
      rest registry (added ++ new) k (ground (arith, h, l, contains-append added new s))
  shown-and_then added (failed sh registry) next h k l rest = ground (arith, h, k)

  -- After a run that does not fail, what follows decides.
  pub shown-and_then_ran :
      (added : List String) (run : Run) (next : List RegEntry → List String → Placed)
      → is_failed run ≡ false
      → contains added s ≡ false
      → contains (added_of run) s ≡ false
      → ((registry : List RegEntry) (new : List String)
          → contains new s ≡ false
          → is_shown entry_id d s (next registry new) ≡ false)
      → is_shown entry_id d s (and_then added run next) ≡ false
  unfolding and_then added_of is_failed
  shown-and_then_ran added (ran sh registry new) next ok h k rest =
      rest registry (added ++ new) (ground (arith, h, k, contains-append added new s))
  shown-and_then_ran added (failed sh registry) next ok h k rest = absurd (ground (arith, ok))

  module _ {D : Type 0} (c : Coordinator D) (domain : String) where
    contains-kept :
        (p : Static → Bool) (entities : List Static)
        → contains (map (λ e. e.suffix) entities) s ≡ false
        → contains (map (λ e. e.suffix) (keep_if p entities)) s ≡ false
    contains-kept p [] h = refl
    contains-kept p (e ∷ entities) h = ground (arith, h, contains-kept p entities)

    -- Static entities concern their own suffixes only.
    pub add_static_lem :
        (entities : List Static) (registry : List RegEntry)
        → contains (map (λ e. e.suffix) entities) s ≡ false
        → (holds d (build_unique_id entry_id s) (add_static c entry_id domain entities registry).0
            ≡ holds d (build_unique_id entry_id s) registry)
          × (contains (add_static c entry_id domain entities registry).1 s ≡ false)
    unfolding add_static
    add_static_lem entities registry h =
        let dropped =
          map (λ (e : Static). e.suffix)
            (keep_if (λ (e : Static). not (has_source c e)) entities) in
        (
          ground (
            arith,
            contains-kept (λ e. not (has_source c e)) entities h,
            holds-remove_entities entry_id domain dropped registry d s,
          ),
          contains-kept (has_source c) entities h,
        )
