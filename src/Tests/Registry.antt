-- ===== src/Tests/Registry.antt =====
-- A registry of entities as a list, and a config entry of version 1.
use ha_sophos_fw.Prelude.{
  String, ◌≡◌, refl, true, not, ◌&&◌, List, [], ◌∷◌, map, ◌==◌, keep_if, any_of, all_of,
}
use ha_sophos_fw.Setup.UniqueIds.{RegEntry, Registry, migrate}
use ha_sophos_fw.Setup.UniqueIds.Pending.{is_new, with_uid}
use ha_sophos_fw.Setup.UniqueIds.Laws.{RegistryLaws, all_new-migrate, migrate_idem}

abbrev registry : Registry (List RegEntry)
registry = record {
  entries = λ r. r;
  find = λ r domain uid. any_of (λ (e : RegEntry). e.domain == domain && e.unique_id == uid) r;
  remove = λ id r. keep_if (λ (e : RegEntry). not (e.entity_id == id)) r;
  rename = λ id uid r. map (with_uid id uid) r;
}

abbrev laws : RegistryLaws registry
laws = record { entries-remove = λ id r. refl; entries-rename = λ id uid r. refl }

abbrev entity : String → String → RegEntry
entity id uid = record { entity_id = id; domain = "sensor"; unique_id = uid }

-- An entity of an old address, one of the current address with the same suffix, and one of an old host
-- with an underscore.
abbrev entities : List RegEntry
entities =
    entity "sensor.old" "10.0.0.9_4444_uptime"
    ∷ entity "sensor.now" "10.0.0.1_4444_uptime"
    ∷ entity "sensor.odd" "my_host_name"
    ∷ []

abbrev after : List RegEntry
after = migrate registry "abc_" "10.0.0.1_4444_" entities

all_new-migrate_example :
    all_of (is_new "abc_") (migrate registry "abc_" "10.0.0.1_4444_" entities) ≡ true
all_new-migrate_example = all_new-migrate registry laws "abc_" "10.0.0.1_4444_" entities

migrate_idem_example : migrate registry "abc_" "10.0.0.2_4444_" after ≡ after
migrate_idem_example = migrate_idem registry laws "abc_" "10.0.0.1_4444_" "10.0.0.2_4444_" entities
