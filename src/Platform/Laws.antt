-- ===== src/Platform/Laws.antt =====
-- What the removals leave in the registry.
use ha_sophos_fw.Prelude.{
  String, ◌≡◌, refl, ap, get_or, ◌∙◌, Bool, true, not, ◌&&◌, ◌||◌, List, [], ◌∷◌, arith, ◌==◌,
  eq_iff, if◌then◌else◌, is_nil, keep_if, any_of, contains,
}
use ha_sophos_fw.Text.{append, starts_with, drop_prefix}
use ha_sophos_fw.Text.Laws.{starts_with-append, drop_prefix-append_both}
use ha_sophos_fw.Setup.UniqueIds.{RegEntry}
use ha_sophos_fw.Entity.Items.{eq-append}
use ha_sophos_fw.Platform.{
  build_unique_id, suffix_of, in_family, is_stale, remove_stale_entities, remove_entities,
  remove_families, holds,
}

-- A filter that looks at the domain and the unique id alone.
pub holds-keep_if :
    (p : String → String → Bool) (d uid : String) (registry : List RegEntry)
    → holds d uid (keep_if (λ e. p e.domain e.unique_id) registry)
      ≡ (holds d uid registry && p d uid)
unfolding holds
holds-keep_if p d uid [] = refl
holds-keep_if p d uid (e ∷ registry) =
    let same : (e.domain == d) ≡ true
        → (e.unique_id == uid) ≡ true
        → p e.domain e.unique_id ≡ p d uid =
      λ h k.
        ap (λ a. p a e.unique_id) ((eq_iff e.domain d).0 h)
        ∙ ap (λ u. p d u) ((eq_iff e.unique_id uid).0 k) in
    ground (arith, same, holds-keep_if p d uid registry)

suffix_of-build : (entry_id s : String) → suffix_of entry_id (build_unique_id entry_id s) ≡ s
unfolding suffix_of drop_prefix
suffix_of-build entry_id s =
    ap (λ o. get_or o "") (drop_prefix-append_both entry_id (append "_" "") (append "_" s))

pub in_family_lem :
    (entry_id domain prefix d s : String)
    → in_family entry_id domain prefix d (build_unique_id entry_id s)
      ≡ (d == domain && starts_with s prefix)
unfolding in_family
in_family_lem entry_id domain prefix d s =
    ap (λ b. (d == domain) && b) (starts_with-append entry_id (append "_" s) (append "_" prefix))

-- What `async_remove_stale_entities` leaves of an entity of the config entry.
pub holds-remove_stale_entities :
    (entry_id domain prefix : String) (current : List String) (remove_all : Bool)
    (registry : List RegEntry) (d s : String)
    → holds d
        (build_unique_id entry_id s)
        (remove_stale_entities entry_id domain prefix current remove_all registry).0
      ≡ (holds d (build_unique_id entry_id s) registry
          && not (
              d == domain
              && starts_with s prefix
              && (if is_nil current then remove_all else remove_all || not (contains current s))))
unfolding remove_stale_entities is_stale
holds-remove_stale_entities entry_id domain prefix current remove_all registry d s =
    let p : String → String → Bool =
      λ d' u. not (is_stale entry_id domain prefix current remove_all d' u) in
    ground (
      arith,
      holds-keep_if p d (build_unique_id entry_id s) registry,
      in_family_lem entry_id domain prefix d s,
      suffix_of-build entry_id s,
    )

-- Removing families removes what starts with one of their prefixes.
pub holds-remove_families :
    (entry_id domain : String) (prefixes : List String) (registry : List RegEntry) (d s : String)
    → holds d (build_unique_id entry_id s) (remove_families entry_id domain prefixes registry) ≡ (
        holds d (build_unique_id entry_id s) registry
        && not (d == domain && any_of (starts_with s) prefixes))
unfolding remove_families
holds-remove_families entry_id domain [] registry d s = ground arith
holds-remove_families entry_id domain (prefix ∷ prefixes) registry d s =
    let removed = (remove_stale_entities entry_id domain prefix [] true registry).0 in
    ground (
      arith,
      holds-remove_families entry_id domain prefixes removed d s,
      holds-remove_stale_entities entry_id domain prefix [] true registry d s,
    )

-- Removing entities removes those with exactly these suffixes.
pub holds-remove_entities :
    (entry_id domain : String) (suffixes : List String) (registry : List RegEntry) (d s : String)
    → holds d (build_unique_id entry_id s) (remove_entities entry_id domain suffixes registry)
      ≡ (holds d (build_unique_id entry_id s) registry && not (d == domain && contains suffixes s))
unfolding remove_entities
holds-remove_entities entry_id domain [] registry d s = ground arith
holds-remove_entities entry_id domain (suffix ∷ suffixes) registry d s =
    let uid = build_unique_id entry_id suffix in
    let p : String → String → Bool = λ d' u. not (d' == domain && u == uid) in
    let removed = keep_if (λ (e : RegEntry). p e.domain e.unique_id) registry in
    ground (
      arith,
      holds-remove_entities entry_id domain suffixes removed d s,
      holds-keep_if p d (build_unique_id entry_id s) registry,
      eq_iff (build_unique_id entry_id s) uid,
      eq_iff s suffix,
      eq_iff suffix s,
      eq-append entry_id (append "_" s) (append "_" suffix),
      eq-append "_" s suffix,
    )
