-- ===== src/Setup/UniqueIds.antt =====
-- The migration of unique ids (__init__.py: _migrate_unique_ids), over any entity registry.
pub mod Laws
pub mod Pending
use ha_sophos_fw.Prelude.{
  ℕ, zero, suc, ◌+◌, ◌-◌, ◌*◌, ◌/◌, ◌%◌, ◌≤◌, ◌<◌, String, ◌≡◌, refl, sym, ap, ◌∙◌, ◌≢◌, ◌↔◌, ◌⊎◌,
  inl, inr, Bool, true, false, not, ◌&&◌, ◌||◌, Option, none, some, List, [], ◌∷◌, ◌++◌, map, arith,
  ◌==◌, eq_iff, eq_refl, ltb, leb, eqb, if◌then◌else◌, leb→le, ltb→lt, eqb_iff, Bool-cases,
  Option-cases, or_else, is_some, get_or, ne→false, length, is_nil, keep_if, any_of, all_of,
  first_where, All, contains, Distinct,
}
use ha_sophos_fw.Text.{drop_prefix, append}
use ha_sophos_fw.Setup.Pattern.{v1_suffix}

-- An entity of the config entry in Home Assistant's entity registry.
pub record RegEntry : Type 0 where
  pub entity_id : String
  pub domain : String
  pub unique_id : String

-- What the migration uses of the registry: the entities of the config entry, whether an entity of this
-- integration has a domain and a unique id, the removal of an entity, and the change of its unique id.
pub record Registry (R : Type 0) : Type 0 where
  pub entries : R → List RegEntry
  pub find : R → String → String → Bool
  pub remove : String → R → R
  pub rename : String → String → R → R

-- What the first loop decides for an entity: to leave it, to rename it (with whether it has the current
-- address), or to remove it.
pub data Decision : Type 0 where
  leave : Decision
  rename_to : Bool → String → Decision
  drop : Decision

decide_v1 : String → Option String → Decision
decide_v1 prefix none = drop
decide_v1 prefix (some suffix) = rename_to false (append prefix suffix)

decide_old : String → String → Option String → Decision
unfolding v1_suffix decide_v1
decide_old prefix uid none = decide_v1 prefix (v1_suffix uid)
decide_old prefix uid (some suffix) = rename_to true (append prefix suffix)

unfoldable pub decide : String → String → String → Decision
unfolding decide_old drop_prefix
decide prefix current uid =
    if is_some (drop_prefix prefix uid)
    then leave
    else decide_old prefix uid (drop_prefix current uid)

pub record Planned : Type 0 where
  pub is_current : Bool
  pub entry : RegEntry
  pub new_uid : String

unfoldable pub plan_of : Decision → RegEntry → List Planned
plan_of (rename_to is_current uid) e =
    record { is_current = is_current; entry = e; new_uid = uid } ∷ []
plan_of d e = []

-- `sorted(plan, key=lambda item: not item[0])`
unfoldable pub current_first : List Planned → List Planned
current_first plan = keep_if (λ p. p.is_current) plan ++ keep_if (λ p. not p.is_current) plan

module _ {R : Type 0} (registry : Registry R) where
  dropped : Decision → RegEntry → R → R
  dropped drop e r = registry.remove e.entity_id r
  dropped d e r = r

  -- The first loop.
  unfoldable pub plan_all : String → String → List RegEntry → R → List Planned × R
  unfolding plan_of dropped
  plan_all prefix current [] r = ([], r)
  plan_all prefix current (e ∷ es) r =
      let d = decide prefix current e.unique_id in
      let (plan, r') = plan_all prefix current es (dropped d e r) in (plan_of d e ++ plan, r')

  -- The second loop.
  unfoldable pub apply_one : Planned → R → R
  apply_one p r =
      if registry.find r p.entry.domain p.new_uid
      then registry.remove p.entry.entity_id r
      else registry.rename p.entry.entity_id p.new_uid r

  unfoldable pub apply_all : List Planned → R → R
  apply_all [] r = r
  apply_all (p ∷ ps) r = apply_all ps (apply_one p r)

  -- `_migrate_unique_ids`; `prefix` is that of the entry, `current` that of its host and port.
  unfoldable pub migrate : String → String → R → R
  unfolding plan_all apply_all current_first
  migrate prefix current r =
      let (plan, r') = plan_all prefix current (registry.entries r) r in
      apply_all (current_first plan) r'
