-- ===== src/Sensor/Summary/Laws.antt =====
-- The summaries count every service and every license.
use ha_sophos_fw.Prelude.{
  ℕ, suc, ◌+◌, String, ◌≡◌, refl, sym, ap, ◌∙◌, inl, inr, Bool, false, not, Option, none, some,
  List, [], ◌∷◌, map, arith, if◌then◌else◌, Option-cases, is_some, get_or, length, is_nil, keep_if,
  any_of,
}
use ha_sophos_fw.Prelude.Dict.{Dict}
use ha_sophos_fw.Models.Snmp.{SnmpData, License}
use ha_sophos_fw.Sensor.Summary.{
  text_before, insert_sorted, sort_into, sort, is_running, running_services, names_where,
  services_summary, licenses_summary, valid_licenses, is_ok, known_codes, count_of,
}

module _ {A : Type 0} (before : A → A → Bool) where
  length-insert_sorted : (x : A) (l : List A) → length (insert_sorted before x l) ≡ suc (length l)
  unfolding insert_sorted
  length-insert_sorted x [] = refl
  length-insert_sorted x (y ∷ l) = ground (arith, length-insert_sorted x l)

  length-sort_into :
      (l sorted : List A) → length (sort_into before l sorted) ≡ length l + length sorted
  unfolding sort_into
  length-sort_into [] sorted = omega arith
  length-sort_into (x ∷ l) sorted =
      ground
        (arith, length-sort_into l (insert_sorted before x sorted), length-insert_sorted x sorted)

  length-sort : (l : List A) → length (sort before l) ≡ length l
  unfolding sort
  length-sort l = ground (arith, length-sort_into l [])

length-map : {A B : Type 0} (f : A → B) (l : List A) → length (map f l) ≡ length l
length-map f [] = refl
length-map f (x ∷ l) = ap suc (length-map f l)

length-keep_if :
    {A : Type 0} (p : A → Bool) (l : List A)
    → length (keep_if p l) + length (keep_if (λ x. not (p x)) l) ≡ length l
length-keep_if p [] = refl
length-keep_if p (x ∷ l) = ground (arith, length-keep_if p l)

length-keep_if-map :
    {A B : Type 0} (f : A → B) (p : B → Bool) (l : List A)
    → length (keep_if p (map f l)) ≡ length (keep_if (λ x. p (f x)) l)
length-keep_if-map f p [] = refl
length-keep_if-map f p (x ∷ l) = ground (arith, length-keep_if-map f p l)

is_nil-map : {A B : Type 0} (f : A → B) (l : List A) → is_nil (map f l) ≡ is_nil l
is_nil-map f [] = refl
is_nil-map f (x ∷ l) = refl

module _ {A : Type 0} (code : A → Option ℕ) (q : Option ℕ → Bool) (unknown : q none ≡ false) where
  abbrev p : ℕ → Bool
  p c = q (some c)

  length-known_codes :
      (l : List A)
      → length (keep_if p (known_codes (map code l))) ≡ length (keep_if (λ x. q (code x)) l)
  unfolding known_codes
  length-known_codes [] = refl
  length-known_codes (x ∷ l) = elim (Option-cases (code x)) [
    | inl e ↦ rw (e, unknown) (length-known_codes l)
    | inr (c, e) ↦ rw e (ground (arith, length-known_codes l))
  ]

  is_nil-known_codes :
      (l : List A) → is_nil (known_codes (map code l)) ≡ not (any_of (λ x. is_some (code x)) l)
  unfolding known_codes
  is_nil-known_codes [] = refl
  is_nil-known_codes (x ∷ l) = elim (Option-cases (code x)) [
    | inl e ↦ rw e (is_nil-known_codes l)
    | inr (c, e) ↦ rw e refl
  ]

  count_of_lem :
      (codes : List ℕ)
      → count_of p codes ≡ (if is_nil codes then none else some (length (keep_if p codes)))
  unfolding count_of
  count_of_lem [] = refl
  count_of_lem (c ∷ codes) = refl

  -- The state of a summary, from the number of those that are listed.
  count_of-known_codes :
      (l : List A)
      → count_of p (known_codes (map code l)) ≡ (
          if any_of (λ x. is_some (code x)) l
          then some (length (keep_if (λ x. q (code x)) l))
          else none)
  count_of-known_codes l =
      ground
        (arith, count_of_lem (known_codes (map code l)), length-known_codes l, is_nil-known_codes l)

length-names :
    (p : Option ℕ → Bool) (services : Dict (Option ℕ))
    → length (sort text_before (names_where p services)) ≡ length (keep_if (λ e. p e.1) services)
unfolding names_where
length-names p services = length-sort text_before _ ∙ length-map _ (keep_if (λ e. p e.1) services)

-- Every service is listed once, as running or as stopped; the state is the number of those that are
-- listed as running, and unknown if no service reports a code.
pub running_services_lem :
    (d : SnmpData)
    → let s = services_summary d in
      (length s.running + length s.stopped ≡ s.total)
      × (running_services d ≡ (
          if any_of (λ (e : String × Option ℕ). is_some e.1) (get_or d.services [])
          then some (length s.running)
          else none))
unfolding services_summary running_services
running_services_lem d =
    let services = get_or d.services [] in
    let listed = length-names is_running services in
    (
      ground (
        arith,
        listed,
        length-names (λ (c : Option ℕ). not (is_running c)) services,
        length-keep_if (λ (e : String × Option ℕ). is_running e.1) services,
      ),
      count_of-known_codes (λ (e : String × Option ℕ). e.1) is_running refl services
          ∙ ap
              (λ n.
                if any_of (λ (e : String × Option ℕ). is_some e.1) services then some n else none)
              (sym listed),
    )

length-listed :
    (p : License → Bool) (licenses : List License)
    → length (sort text_before (map (λ (l : License). l.name) (keep_if p licenses)))
      ≡ length (keep_if p licenses)
length-listed p licenses = length-sort text_before _ ∙ length-map _ (keep_if p licenses)

-- The same holds of the licenses, each listed once as valid or as a problem.
pub valid_licenses_lem :
    (d : SnmpData) (parse : String → Option ℕ)
    → let s = licenses_summary parse d in
      (length s.ok + length s.problem ≡ s.total)
      × (valid_licenses d ≡ (
          if any_of (λ (e : String × License). is_some e.1.status_code) (get_or d.licenses [])
          then some (length s.ok)
          else none))
unfolding licenses_summary valid_licenses
valid_licenses_lem d parse =
    let entries = get_or d.licenses [] in
    let licenses = map (λ (e : String × License). e.1) entries in
    let listed = length-listed (λ (l : License). is_ok l.status_code) licenses in
    let among =
      listed
      ∙ length-keep_if-map (λ (e : String × License). e.1) (λ (l : License). is_ok l.status_code)
          entries in
    (
      ground (
        arith,
        listed,
        length-listed (λ (l : License). not (is_ok l.status_code)) licenses,
        length-keep_if (λ (l : License). is_ok l.status_code) licenses,
      ),
      count_of-known_codes (λ (e : String × License). e.1.status_code) is_ok refl entries
          ∙ ap
              (λ n.
                if any_of (λ (e : String × License). is_some e.1.status_code) entries
                then some n
                else none)
              (sym among),
    )
