-- ===== src/Setup/Options.antt =====
-- The migration of a config entry's settings (__init__.py: async_migrate_entry). A value of the entry
-- is of any type; `show` is its text.
use ha_sophos_fw.Prelude.{
  ℕ, String, ◌≡◌, refl, ap, ◌∙◌, Bool, not, ◌&&◌, Option, none, some, List, [], ◌∷◌, ◌==◌, ltb, eqb,
  if◌then◌else◌, or_else, keep_if, contains, Distinct,
}
use ha_sophos_fw.Prelude.Dict
use ha_sophos_fw.Prelude.Dict.{Dict, get-update, get-keep_if}
use ha_sophos_fw.Text.{append}

abbrev pub connection_keys : List String
connection_keys = "host" ∷ "port" ∷ "username" ∷ "password" ∷ "verify_ssl" ∷ []

abbrev pub obsolete_keys : List String
obsolete_keys =
    "snmp_version" ∷ "xml_interval" ∷ "snmp_interval" ∷ "interval_once" ∷ "poll_xml_zones"
    ∷ "poll_xml_admin" ∷ "poll_snmp_device" ∷ []

pub record ConfigEntry (V : Type 0) : Type 0 where
  pub entry_id : String
  pub version : ℕ
  pub settings : Dict V
  pub options : Dict V
  pub unique_id : Option String

-- The answer of the migration: refused, a KeyError for the host, or done with the new entry.
pub data Migrated (V : Type 0) : Type 0 where
  refused key_error : Migrated V
  migrated : ConfigEntry V → Migrated V

abbrev pub is_connection : String → Bool
is_connection = contains connection_keys

abbrev pub is_option : String → Bool
is_option key = not (contains connection_keys key) && not (contains obsolete_keys key)

-- `old or new`
known_id : Option String → String → String
known_id none new = new
known_id (some old) new = if old == "" then new else old

-- The unique id of the current address, if no other entry has it.
choose_id : String → Option String → String → Option String → String
unfolding known_id
choose_id entry_id old new none = new
choose_id entry_id old new (some other) = if other == entry_id then new else known_id old new

module _ {V : Type 0} (show : V → String) (taken : String → Option String) where
  port_text : Option V → String
  port_text none = "4444"
  port_text (some port) = show port

  unfoldable pub migrated_entry : ConfigEntry V → V → ConfigEntry V
  unfolding choose_id port_text
  migrated_entry entry host =
      let kept = keep_if (λ e. is_connection e.0) entry.settings in
      let address = append (show host) (append ":" (port_text (Dict.get "port" kept))) in
      record {
        entry_id = entry.entry_id;
        version = 2;
        settings = kept;
        options = keep_if (λ e. is_option e.0) (Dict.update entry.settings entry.options);
        unique_id = some (choose_id entry.entry_id entry.unique_id address (taken address));
      }

  with_host : ConfigEntry V → Option V → Migrated V
  unfolding migrated_entry
  with_host entry none = key_error
  with_host entry (some host) = migrated (migrated_entry entry host)

  -- `async_migrate_entry`, without the unique ids of the entities; `taken` gives the entry that has a
  -- unique id.
  unfoldable pub migrate_entry : ConfigEntry V → Migrated V
  unfolding with_host
  migrate_entry entry =
      if ltb 2 entry.version
      then refused
      else if eqb entry.version 1
      then with_host entry (Dict.get "host" (keep_if (λ e. is_connection e.0) entry.settings))
      else migrated entry

  -- Migrating an entry of version 1 that has a host keeps every setting: the connection settings, and
  -- they alone, stay in the data; every other setting that is not obsolete is an option, with the value
  -- that the old option had, or else the old data.
  pub get-migrate_entry :
      (entry : ConfigEntry V) (host : V) (key : String)
      → entry.version ≡ 1
      → Dict.get "host" entry.settings ≡ some host
      → Distinct (Dict.keys entry.options)
      → (after : ConfigEntry V) × (migrate_entry entry ≡ migrated after)
        × (after.version ≡ 2)
        × (Dict.get key after.settings
            ≡ (if is_connection key then Dict.get key entry.settings else none))
        × (Dict.get key after.options ≡ (
            if is_option key
            then or_else (Dict.get key entry.options) (Dict.get key entry.settings)
            else none))
  unfolding migrate_entry migrated_entry
  get-migrate_entry entry host key first has distinct =
      let found : Dict.get "host" (keep_if (λ e. is_connection e.0) entry.settings) ≡ some host =
        get-keep_if is_connection entry.settings "host" ∙ has in
      (
        migrated_entry entry host,
        rw (first, found) refl,
        refl,
        get-keep_if is_connection entry.settings key,
        get-keep_if is_option (Dict.update entry.settings entry.options) key
            ∙ ap (λ o. if is_option key then o else none)
                (get-update entry.settings entry.options key distinct),
      )
