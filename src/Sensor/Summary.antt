-- ===== src/Sensor/Summary.antt =====
-- The summaries of services and licenses (sensor.py: SophosServicesSummarySensor,
-- SophosLicensesSummarySensor). `parse` stands for _parse_expiry, which is datetime.strptime: the day of
-- an expiry date, if it is one.
pub mod Laws
pub mod Expiry
use Prim.Native.String.{compare}
use Prim.Native.Nat.{lt}
use ha_sophos_fw.Prelude.{
  ℕ, zero, suc, ◌+◌, ◌-◌, ◌*◌, ◌/◌, ◌%◌, ◌≤◌, ◌<◌, String, ◌≡◌, refl, sym, ap, ◌∙◌, ◌≢◌, ◌↔◌, ◌⊎◌,
  inl, inr, Bool, true, false, not, ◌&&◌, ◌||◌, Option, none, some, List, [], ◌∷◌, ◌++◌, map, arith,
  ◌==◌, eq_iff, eq_refl, ltb, leb, eqb, if◌then◌else◌, leb→le, ltb→lt, eqb_iff, Bool-cases,
  Option-cases, or_else, is_some, get_or, ne→false, length, is_nil, keep_if, any_of, all_of,
  first_where, All, contains, Distinct,
}
use ha_sophos_fw.Prelude.Dict
use ha_sophos_fw.Prelude.Dict.{Dict}
use ha_sophos_fw.Models.Snmp.{SnmpData, License}
use ha_sophos_fw.SnmpClient.Modules.{service_names}

-- `s < t`
abbrev pub text_before : String → String → Bool
text_before s t = elim (compare s t) [ lt ↦ true | _ ↦ false ]

-- `sorted(l)`, with the order as an argument.
module _ {A : Type 0} (before : A → A → Bool) where
  unfoldable pub insert_sorted : A → List A → List A
  insert_sorted x [] = x ∷ []
  insert_sorted x (y ∷ l) =
      let rest = insert_sorted x l in if before x y then x ∷ y ∷ l else y ∷ rest

  unfoldable pub sort_into : List A → List A → List A
  unfolding insert_sorted
  sort_into [] sorted = sorted
  sort_into (x ∷ l) sorted = sort_into l (insert_sorted x sorted)

  unfoldable pub sort : List A → List A
  unfolding sort_into
  sort l = sort_into l []

abbrev pub running_state : ℕ
running_state = 3

abbrev pub is_running : Option ℕ → Bool
is_running none = false
is_running (some code) = eqb code running_state

unfoldable pub service_name : String → String
service_name key = get_or (Dict.get key service_names) key

-- How many of the codes that are known pass a test; none if no code is known.
known_codes : List (Option ℕ) → List ℕ
known_codes [] = []
known_codes (none ∷ l) = known_codes l
known_codes (some code ∷ l) = code ∷ known_codes l

count_of : (ℕ → Bool) → List ℕ → Option ℕ
count_of p [] = none
count_of p (c ∷ l) = some (length (keep_if p (c ∷ l)))

-- `SophosServicesSummarySensor.native_value`
unfoldable pub running_services : SnmpData → Option ℕ
unfolding count_of known_codes
running_services d =
    count_of (λ code. eqb code running_state) (known_codes (map (λ e. e.1) (get_or d.services [])))

pub record ServicesSummary : Type 0 where
  pub total : ℕ
  pub running : List String
  pub stopped : List String
  pub details : Dict (Option ℕ)

details_from : Dict (Option ℕ) → Dict (Option ℕ) → Dict (Option ℕ)
unfolding service_name
details_from [] details = details
details_from ((key, code) ∷ services) details =
    details_from services (Dict.put (service_name key) code details)

names_where : (Option ℕ → Bool) → Dict (Option ℕ) → List String
names_where p services = map (λ e. service_name e.0) (keep_if (λ e. p e.1) services)

-- `SophosServicesSummarySensor.extra_state_attributes`
unfoldable pub services_summary : SnmpData → ServicesSummary
unfolding details_from names_where sort
services_summary d =
    let services = get_or d.services [] in
    record {
      total = length services;
      running = sort text_before (names_where is_running services);
      stopped = sort text_before (names_where (λ code. not (is_running code)) services);
      details = details_from services [];
    }

-- `code in LICENSE_OK_STATES`
abbrev pub is_ok : Option ℕ → Bool
is_ok none = false
is_ok (some code) = eqb code 1 || eqb code 3

-- `SophosLicensesSummarySensor.native_value`
unfoldable pub valid_licenses : SnmpData → Option ℕ
unfolding count_of known_codes
valid_licenses d =
    count_of (λ code. is_ok (some code))
      (known_codes (map (λ (e : String × License). e.1.status_code) (get_or d.licenses [])))

pub record LicensesSummary : Type 0 where
  pub total : ℕ
  pub ok : List String
  pub problem : List String
  pub next_expiry : Option String
  pub details : List License

module _ (parse : String → Option ℕ) where
  -- The day of a license's expiry with its text, if it has one that can be read.
  expiry : Option String → List (ℕ × String)
  expiry none = []
  expiry (some value) =
      if value == "" then [] else elim (parse value) [ none ↦ [] | some day ↦ (day, value) ∷ [] ]

  unfoldable pub expiries : List License → List (ℕ × String)
  unfolding expiry
  expiries [] = []
  expiries (l ∷ ls) = expiry l.expiry_date ++ expiries ls

-- `(a, s) < (b, t)`
abbrev pub date_before : ℕ × String → ℕ × String → Bool
date_before (a, s) (b, t) = ltb a b || (eqb a b && text_before s t)

-- `min(l)`
unfoldable pub earliest : List (ℕ × String) → Option (ℕ × String)
earliest [] = none
earliest (x ∷ l) = elim (earliest l) [
  | none ↦ some x
  | some y ↦ if date_before y x then some y else some x
]

unfoldable pub value_of : Option (ℕ × String) → Option String
value_of none = none
value_of (some (day, value)) = some value

-- `SophosLicensesSummarySensor.extra_state_attributes`
unfoldable pub licenses_summary : (String → Option ℕ) → SnmpData → LicensesSummary
unfolding sort expiries earliest value_of
licenses_summary parse d =
    let licenses = map (λ e. e.1) (get_or d.licenses []) in
    record {
      total = length licenses;
      ok =
          sort text_before (
            map (λ (l : License). l.name)
              (keep_if (λ (l : License). is_ok l.status_code) licenses));
      problem = sort text_before (
          map (λ (l : License). l.name)
            (keep_if (λ (l : License). not (is_ok l.status_code)) licenses));
      next_expiry = value_of (earliest (expiries parse licenses));
      details = sort (λ (l m : License). text_before l.name m.name) licenses;
    }
