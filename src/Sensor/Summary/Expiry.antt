-- ===== src/Sensor/Summary/Expiry.antt =====
-- The next expiry that the summary of the licenses shows.
use ha_sophos_fw.Prelude.{
  ℕ, ◌≤◌, String, ◌≡◌, refl, ap, ◌⊎◌, inl, inr, Bool, true, false, Option, none, some, List, [],
  ◌∷◌, map, arith, if◌then◌else◌, Bool-cases, get_or, All,
}
use ha_sophos_fw.Models.Snmp.{SnmpData}
use ha_sophos_fw.Sensor.Summary.{date_before, expiries, earliest, licenses_summary, value_of}

-- No date is earlier.
NotBefore : ℕ → List (ℕ × String) → Type 0
NotBefore day l = All (λ (y : ℕ × String). day ≤ y.0) l

NotBefore-le : (m n : ℕ) (l : List (ℕ × String)) → m ≤ n → NotBefore n l → NotBefore m l
unfolding NotBefore
NotBefore-le m n [] h k = tt
NotBefore-le m n (y ∷ l) h (e, k) = (omega arith, NotBefore-le m n l h k)

choose : (y z : ℕ × String) → ℕ × String
choose y z = if date_before z y then z else y

choose_le : (y z : ℕ × String) → ((choose y z).0 ≤ y.0) × ((choose y z).0 ≤ z.0)
unfolding choose
choose_le (a, s) (b, t) = elim (Bool-cases (date_before (b, t) (a, s))) [
  | inl p ↦ rw p (ground (arith, p), omega arith)
  | inr p ↦ rw p (omega arith, ground (arith, p))
]

if-some :
    {A : Type 0} (b : Bool) (y z : A) → (if b then some y else some z) ≡ some (if b then y else z)
if-some true y z = refl
if-some false y z = refl

earliest-NotBefore :
    (l : List (ℕ × String))
    → ((l ≡ []) × (earliest l ≡ none))
      ⊎ ((x : ℕ × String) × (earliest l ≡ some x) × NotBefore x.0 l)
unfolding earliest NotBefore choose
earliest-NotBefore [] = inl (refl, refl)
earliest-NotBefore (y ∷ l) = elim (earliest-NotBefore l) [
  | inl (n, e) ↦ inr (y, rw e refl, (omega arith, rw n tt))
  | inr (z, e, h) ↦
      let (below, above) = choose_le y z in
      inr (
        choose y z,
        rw e (if-some (date_before z y) z y),
        (below, NotBefore-le (choose y z).0 z.0 l above h),
      )
]

-- The next expiry is the text of a date that is not later than any that can be read; there is none
-- exactly if no license has one.
pub next_expiry_lem :
    (d : SnmpData) (parse : String → Option ℕ)
    → let dates = expiries parse (map (λ e. e.1) (get_or d.licenses [])) in
      ((dates ≡ []) × ((licenses_summary parse d).next_expiry ≡ none))
      ⊎ ((day : ℕ) × (value : String) × ((licenses_summary parse d).next_expiry ≡ some value)
          × (earliest dates ≡ some (day, value))
          × All (λ (y : ℕ × String). day ≤ y.0) dates)
unfolding licenses_summary NotBefore value_of
next_expiry_lem d parse =
    elim (earliest-NotBefore (expiries parse (map (λ e. e.1) (get_or d.licenses [])))) [
      | inl (n, e) ↦ inl (n, ap value_of e)
      | inr ((day, value), e, h) ↦ inr (day, value, ap value_of e, e, h)
    ]
