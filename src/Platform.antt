-- ===== src/Platform.antt =====
-- The entities of one config entry in Home Assistant's entity registry, and what the platforms do to
-- them (custom_components/sophos_firewall/entity.py).
pub mod Laws
pub mod Families
pub mod Setups
pub mod Sensors
pub mod Identity
use ha_sophos_fw.Prelude.{
  ℕ, String, Bool, true, false, not, ◌&&◌, ◌||◌, Option, none, some, List, [], ◌∷◌, map, ◌==◌,
  if◌then◌else◌, get_or, is_nil, keep_if, any_of, contains,
}
use ha_sophos_fw.Text.{append, starts_with, drop_prefix}
use ha_sophos_fw.Setup.UniqueIds.{RegEntry}

-- `build_unique_id`
abbrev pub build_unique_id : String → String → String
build_unique_id entry_id suffix = append entry_id (append "_" suffix)

-- The suffix of a unique id, `unique_id[len(base):]`, if it starts with the entry's id.
unfoldable pub suffix_of : String → String → String
suffix_of entry_id uid = get_or (drop_prefix (build_unique_id entry_id "") uid) ""

-- Whether an entity is of the domain and its suffix starts with the prefix.
unfoldable pub in_family : String → String → String → String → String → Bool
in_family entry_id domain prefix d uid =
    d == domain && starts_with uid (build_unique_id entry_id prefix)

-- `_registered_suffixes`
unfoldable pub registered_suffixes : String → String → String → List RegEntry → List String
unfolding in_family suffix_of
registered_suffixes entry_id domain prefix registry =
    map (λ e. suffix_of entry_id e.unique_id)
      (keep_if (λ e. in_family entry_id domain prefix e.domain e.unique_id) registry)

-- Whether `async_remove_stale_entities` removes an entity of the domain and the unique id.
unfoldable pub is_stale : String → String → String → List String → Bool → String → String → Bool
unfolding in_family suffix_of
is_stale entry_id domain prefix current remove_all d uid =
    in_family entry_id domain prefix d uid
    && (remove_all || not (contains current (suffix_of entry_id uid)))

-- `async_remove_stale_entities`: what stays and the suffixes that are removed.
unfoldable pub remove_stale_entities :
    String → String → String → List String → Bool → List RegEntry → List RegEntry × List String
unfolding is_stale
remove_stale_entities entry_id domain prefix current remove_all registry =
    let stale : RegEntry → Bool =
      λ e. is_stale entry_id domain prefix current remove_all e.domain e.unique_id in
    if is_nil current && not remove_all then (registry, []) else (
      keep_if (λ e. not (stale e)) registry,
      map (λ e. suffix_of entry_id e.unique_id) (keep_if stale registry),
    )

-- `async_remove_entities`
unfoldable pub remove_entities : String → String → List String → List RegEntry → List RegEntry
remove_entities entry_id domain [] registry = registry
remove_entities entry_id domain (suffix ∷ suffixes) registry =
    remove_entities entry_id domain suffixes (
      keep_if (λ e. not (e.domain == domain && e.unique_id == build_unique_id entry_id suffix))
        registry)

-- The removal of whole families, one after the other: the source is switched off.
unfoldable pub remove_families : String → String → List String → List RegEntry → List RegEntry
unfolding remove_stale_entities
remove_families entry_id domain [] registry = registry
remove_families entry_id domain (prefix ∷ prefixes) registry =
    remove_families entry_id domain prefixes
      (remove_stale_entities entry_id domain prefix [] true registry).0

-- Whether the registry holds an entity of the domain with the unique id.
unfoldable pub holds : String → String → List RegEntry → Bool
holds d uid registry = any_of (λ e. e.domain == d && e.unique_id == uid) registry

-- `SophosEntity.available`: the coordinator is up, and the endpoint that feeds the entity delivered data.
unfoldable pub entity_available : Bool → Option String → (String → Bool) → Bool
entity_available up none endpoint_available = up
entity_available up (some endpoint) endpoint_available = up && endpoint_available endpoint
