-- ===== src/ConfigFlow.antt =====
-- The config flow (custom_components/sophos_firewall/config_flow.py): the settings, the sections of the
-- last form, and _flatten.
pub mod Checks
pub mod Steps
pub mod Changes
pub mod Options
use ha_sophos_fw.Prelude.{
  ℕ, zero, suc, ◌+◌, ◌-◌, ◌*◌, ◌/◌, ◌%◌, ◌≤◌, ◌<◌, String, ◌≡◌, refl, sym, ap, ◌∙◌, ◌≢◌, ◌↔◌, ◌⊎◌,
  inl, inr, Bool, true, false, not, ◌&&◌, ◌||◌, Option, none, some, List, [], ◌∷◌, ◌++◌, map, arith,
  ◌==◌, eq_iff, eq_refl, ltb, leb, eqb, if◌then◌else◌, leb→le, ltb→lt, eqb_iff, Bool-cases,
  Option-cases, or_else, is_some, get_or, ne→false, length, is_nil, keep_if, any_of, all_of,
  first_where, All, contains, Distinct,
}
use ha_sophos_fw.Prelude.Dict
use ha_sophos_fw.Prelude.Dict.{Dict, get-put, get-keep_if, put-Distinct, update-Distinct}

-- A setting's value.
pub data Value : Type 0 where
  text : String → Value
  number : ℕ → Value
  flag : Bool → Value

-- An item of a form's input: a setting, or a section with settings.
pub data Item : Type 0 where
  plain : Value → Item
  section : Dict Value → Item

add_item : String → Item → Dict Value → Dict Value
add_item key (plain value) flat = Dict.put key value flat
add_item key (section settings) flat = Dict.update flat settings

flatten_from : Dict Item → Dict Value → Dict Value
unfolding add_item
flatten_from [] flat = flat
flatten_from ((key, item) ∷ input) flat = flatten_from input (add_item key item flat)

-- `_flatten`
unfoldable pub flatten : Dict Item → Dict Value
unfolding flatten_from
flatten input = flatten_from input []

-- A field of the form, with the value it shows: a number between two bounds, or a switch.
pub data Field : Type 0 where
  interval : String → Value → ℕ → ℕ → Field
  toggle : String → Value → Field

abbrev pub key_of : Field → String
key_of (interval key shown low high) = key
key_of (toggle key shown) = key

pub record Source : Type 0 where
  pub key : String
  pub default : Bool
  pub needs_snmp : Bool

abbrev xml : String → Bool → Source
xml key default = record { key = key; default = default; needs_snmp = false }

abbrev snmp : String → Bool → Source
snmp key default = record { key = key; default = default; needs_snmp = true }

-- `get` gives the value that a field shows, from its key and its default.
module _ (snmp_enabled : Bool) (get : String → Value → Value) where
  interval_field : String → ℕ → ℕ → ℕ → Field
  interval_field key default low high = interval key (get key (number default)) low high

  toggles : List Source → List Field
  toggles [] = []
  toggles (s ∷ ss) =
      let rest = toggles ss in
      if snmp_enabled || not s.needs_snmp
      then toggle s.key (get s.key (flag s.default)) ∷ rest
      else rest

  -- `_polling_sections`
  unfoldable pub polling_sections : List (String × List Field)
  unfolding interval_field toggles
  polling_sections =
      (
        "realtime",
        interval_field "interval_realtime" 30 10 300
            ∷ toggles (
                xml "poll_xml_interfaces" true
                ∷ snmp "poll_snmp_stats" true
                ∷ snmp "poll_snmp_services" true
                ∷ snmp "poll_snmp_traffic" true
                ∷ []),
      )
      ∷ (
        "fast",
        interval_field "interval_fast" 120 60 600
            ∷ toggles (
                snmp "poll_snmp_tunnels" true
                ∷ snmp "poll_snmp_ha" false
                ∷ snmp "poll_snmp_wifi" true
                ∷ snmp "poll_snmp_poe" true
                ∷ []),
      )
      ∷ (
        "operative",
        interval_field "interval_operative" 600 60 3600
            ∷ toggles (
                xml "poll_xml_fw_rules" true
                ∷ xml "poll_xml_wireless" false
                ∷ snmp "poll_snmp_health" true
                ∷ []),
      )
      ∷ (
        "static",
        interval_field "interval_static" 1800 300 86400
            ∷ toggles (
                xml "poll_xml_dhcp" true
                ∷ xml "poll_xml_webfilter" true
                ∷ xml "poll_xml_backup" false
                ∷ snmp "poll_snmp_licenses" true
                ∷ []),
      )
      ∷ []

-- What the form gives back for sections, with a value for each field.
unfoldable pub filled : (String → Value) → List (String × List Field) → Dict Item
filled value [] = []
filled value ((name, fields) ∷ sections) =
    (name, section (map (λ f. (key_of f, value (key_of f))) fields)) ∷ filled value sections

unfoldable pub field_keys : List (String × List Field) → List String
field_keys [] = []
field_keys ((name, fields) ∷ sections) = map key_of fields ++ field_keys sections

contains-append :
    (l m : List String) (k : String) → contains (l ++ m) k ≡ contains l k || contains m k
contains-append [] m k = refl
contains-append (j ∷ l) m k = ground (arith, contains-append l m k)

get-update_all :
    (value : String → Value) (fields : List Field) (flat : Dict Value) (k : String)
    → Dict.get k (Dict.update flat (map (λ f. (key_of f, value (key_of f))) fields))
      ≡ (if contains (map key_of fields) k then some (value k) else Dict.get k flat)
unfolding Dict.update
get-update_all value [] flat k = refl
get-update_all value (f ∷ fields) flat k =
    let flat' = Dict.put (key_of f) (value (key_of f)) flat in
    elim (Bool-cases (key_of f == k)) [
      | inl p ↦
          let same : value (key_of f) ≡ value k = ap value ((eq_iff (key_of f) k).0 p) in
          ground (
            arith,
            get-update_all value fields flat' k,
            get-put (key_of f) k (value (key_of f)) flat,
            same,
            p,
          )
      | inr p ↦ ground (
        arith,
        get-update_all value fields flat' k,
        get-put (key_of f) k (value (key_of f)) flat,
        p,
      )
    ]

get-flatten_from :
    (value : String → Value) (sections : List (String × List Field)) (flat : Dict Value)
    (k : String)
    → Dict.get k (flatten_from (filled value sections) flat)
      ≡ (if contains (field_keys sections) k then some (value k) else Dict.get k flat)
unfolding flatten_from filled field_keys
get-flatten_from value [] flat k = refl
get-flatten_from value ((name, fields) ∷ sections) flat k =
    let flat' = Dict.update flat (map (λ f. (key_of f, value (key_of f))) fields) in
    ground (
      arith,
      get-flatten_from value sections flat' k,
      get-update_all value fields flat k,
      contains-append (map key_of fields) (field_keys sections) k,
    )

-- Flattening the sections' input gives each field of the form, and nothing else, the value entered for
-- it, whatever section it stands in.
pub get-flatten :
    (value : String → Value) (sections : List (String × List Field)) (k : String)
    → Dict.get k (flatten (filled value sections))
      ≡ (if contains (field_keys sections) k then some (value k) else none)
unfolding flatten Dict.get
get-flatten value sections k = get-flatten_from value sections [] k

add_item-Distinct :
    (key : String) (item : Item) (flat : Dict Value)
    → Distinct (Dict.keys flat)
    → Distinct (Dict.keys (add_item key item flat))
unfolding add_item
add_item-Distinct key (plain value) flat h = put-Distinct key value flat h
add_item-Distinct key (section settings) flat h = update-Distinct flat settings h

flatten_from-Distinct :
    (input : Dict Item) (flat : Dict Value)
    → Distinct (Dict.keys flat)
    → Distinct (Dict.keys (flatten_from input flat))
unfolding flatten_from
flatten_from-Distinct [] flat h = h
flatten_from-Distinct ((key, item) ∷ input) flat h =
    flatten_from-Distinct input (add_item key item flat) (add_item-Distinct key item flat h)

pub flatten-Distinct : (input : Dict Item) → Distinct (Dict.keys (flatten input))
unfolding flatten
flatten-Distinct input = flatten_from-Distinct input [] tt

-- `_without_password`
unfoldable pub without_password : Option (Dict Value) → Option (Dict Value)
without_password none = none
without_password (some input) = some (keep_if (λ e. not (e.0 == "password")) input)

-- A form that is shown again has every value that was entered, except the password.
pub get-without_password :
    (input : Dict Value) (key : String)
    → (shown : Dict Value) × (without_password (some input) ≡ some shown)
      × (Dict.get key shown ≡ (if key == "password" then none else Dict.get key input))
unfolding without_password
get-without_password input key =
    (_, refl, ground (arith, get-keep_if (λ (k : String). not (k == "password")) input key))
