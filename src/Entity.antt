-- ===== src/Entity.antt =====
-- Entities created per firewall object (custom_components/sophos_firewall/entity.py:
-- async_setup_dynamic_entities and async_remove_stale_entities), for one family. The entity registry
-- is the list of the family's registered suffixes, read anew in each run.
pub mod Removal
pub mod Items
pub mod Confirm
use ha_sophos_fw.Prelude.{
  ℕ, zero, suc, ◌+◌, ◌-◌, ◌*◌, ◌/◌, ◌%◌, ◌≤◌, ◌<◌, String, ◌≡◌, refl, sym, ap, ◌∙◌, ◌≢◌, ◌↔◌, ◌⊎◌,
  inl, inr, Bool, true, false, not, ◌&&◌, ◌||◌, Option, none, some, List, [], ◌∷◌, ◌++◌, map, arith,
  ◌==◌, eq_iff, eq_refl, ltb, leb, eqb, if◌then◌else◌, leb→le, ltb→lt, eqb_iff, Bool-cases,
  Option-cases, or_else, is_some, get_or, ne→false, length, is_nil, keep_if, any_of, all_of,
  first_where, All, contains, Distinct,
}
use ha_sophos_fw.Prelude.Dict
use ha_sophos_fw.Prelude.Dict.{Dict}

pub record Family : Type 0 where
  pub remove_stale : Bool
  pub trust_empty : Bool
  pub confirm_missing : Bool

-- What a run of `_sync` sees of the coordinator: whether the endpoint is available, the suffixes of the
-- family's objects, and the time of the last fetch.
pub record View : Type 0 where
  pub available : Bool
  pub items : Option (List String)
  pub fetched : Option ℕ

-- The entries of `known`, `empty_streak`, `last_fetch`, `missing_streak` and `last_missing_fetch` for
-- the family.
pub record Tracker : Type 0 where
  pub known : List String
  pub empty_streak : Option ℕ
  pub last_fetch : Option ℕ
  pub missing_streak : Dict ℕ
  pub last_missing_fetch : Option ℕ

-- What a run leaves: the new tracker, the suffixes that stay registered, and those of new entities; or
-- the KeyError of a streak that was not started.
pub data Synced : Type 0 where
  synced : Tracker → List String → List String → Synced
  key_error : Synced

abbrev pub same : Option ℕ → Option ℕ → Bool
same (some m) (some n) = eqb m n
same none none = true
same o p = false

abbrev pub without : List String → List String → List String
without current l = keep_if (λ s. not (contains current s)) l

-- `async_remove_stale_entities`: what stays and what is removed.
unfoldable pub remove_stale : List String → List String → Bool → List String × List String
remove_stale registered current remove_all =
    if is_nil current && not remove_all
    then (registered, [])
    else if remove_all
    then ([], registered)
    else (keep_if (contains current) registered, without current registered)

unfoldable pub count_missing : Bool → List String → Dict ℕ → Dict ℕ
count_missing new_fetch [] streak = streak
count_missing new_fetch (s ∷ ss) streak =
    count_missing new_fetch ss
      (if new_fetch then Dict.put s (get_or (Dict.get s streak) 0 + 1) streak else streak)

abbrev pub pop_all : {V : Type 0} → List String → Dict V → Dict V
pop_all [] d = d
pop_all (s ∷ ss) d = pop_all ss (Dict.pop s d)

-- `_still_confirming`, for a registry that holds a suffix once; 3 is EMPTY_CONFIRMATIONS.
unfoldable pub still_confirming :
    List String → List String → Option ℕ → Tracker → Tracker × List String
unfolding count_missing
still_confirming registered present fetched t =
    let missing = without present registered in
    let streak = count_missing (not (same fetched t.last_missing_fetch)) missing t.missing_streak in
    (
      record t { last_missing_fetch = fetched; missing_streak = pop_all present streak },
      keep_if (λ s. ltb (get_or (Dict.get s streak) 0) 3) missing,
    )

-- The suffixes that are not known yet, each once.
unfoldable pub new_items : List String → List String → List String
new_items known [] = []
new_items known (s ∷ ss) =
    let old = new_items known ss in
    let rest = new_items (s ∷ known) ss in if contains known s then old else s ∷ rest

-- The streak of empty answers, counting each fetch once.
unfoldable pub count_empty : Option ℕ → Tracker → Tracker
count_empty fetched t =
    if same fetched t.last_fetch
    then t
    else record t { last_fetch = fetched; empty_streak = some (get_or t.empty_streak 0 + 1) }

unfoldable pub confirm :
    Family → List String → List String → Option ℕ → Tracker → Tracker × List String
unfolding still_confirming
confirm family registered items fetched t =
    let (t', keep) = still_confirming registered items fetched t in
    if family.confirm_missing then (t', items ++ keep) else (t, items)

-- The removal of a run, with the decision that the table stays empty.
unfoldable pub remove :
    Family → List String → List String → List String → Option ℕ → Bool → Tracker → Synced
unfolding confirm remove_stale
remove family registered items added fetched remove_all t =
    let (t', current) = confirm family registered items fetched t in
    let (kept, removed) = remove_stale registered current remove_all in
    synced (record t' { known = without removed t'.known }) kept added

-- `empty_streak[prefix] >= EMPTY_CONFIRMATIONS`
unfoldable pub remove_empty :
    Family → List String → List String → Option ℕ → Tracker → Option ℕ → Synced
unfolding remove
remove_empty family registered added fetched t none = key_error
remove_empty family registered added fetched t (some n) =
    remove family registered [] added fetched (leb 3 n) t

unfoldable pub sync_items : Family → List String → List String → Option ℕ → Tracker → Synced
unfolding new_items count_empty remove remove_empty
sync_items family registered items fetched t =
    let added = new_items t.known items in
    let t' = record t { known = t.known ++ added } in
    let counted = count_empty fetched t' in
    if not family.remove_stale
    then synced t' registered added
    else if family.trust_empty && is_nil items
    then remove_empty family registered added fetched counted counted.empty_streak
    else remove family registered items added fetched false (record t' { empty_streak = none })

-- `_sync` for one family.
unfoldable pub sync : Family → List String → View → Tracker → Synced
unfolding sync_items
sync family registered view t = elim view.items [
  | none ↦ synced t registered []
  | some items ↦
      if view.available
      then sync_items family registered items view.fetched t
      else synced t registered []
]
