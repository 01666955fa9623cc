-- ===== src/Sensor/Readings/Laws.antt =====
-- The average load of the processor.
use native.Mathlib.Nat.{mul-le-mul_left}
use ha_sophos_fw.Prelude.{
  ℕ, suc, ◌*◌, ◌≤◌, ◌<◌, ◌≡◌, refl, ◌⊎◌, inl, inr, none, some, List, [], ◌∷◌, map, arith, leb,
  leb→le, Bool-cases, get_or, length, All,
}
use ha_sophos_fw.Models.Snmp.{SnmpData}
use ha_sophos_fw.Coordinator.Snmp.Rates.{near-round_div, IsNearest}
use ha_sophos_fw.Sensor.Readings.{known, sum, average, cpu_usage}

sum_le : (bound : ℕ) (l : List ℕ) → All (λ n. n ≤ bound) l → sum l ≤ length l * bound
sum_le bound [] h = omega arith
sum_le bound (n ∷ l) (e, h) = let rest = sum_le bound l h in omega arith

sum_ge : (bound : ℕ) (l : List ℕ) → All (λ n. bound ≤ n) l → length l * bound ≤ sum l
sum_ge bound [] h = omega arith
sum_ge bound (n ∷ l) (e, h) = let rest = sum_ge bound l h in omega arith

-- A nearest number to a quotient does not pass a number that the quotient does not pass.
nearest_le : (t n d bound : ℕ) → 0 < d → n ≤ d * bound → IsNearest t n d → t ≤ bound
nearest_le t n d bound h k near = elim (Bool-cases (leb t bound)) [
  | inl p ↦ leb→le t bound p
  | inr p ↦
      let more = mul-le-mul_left {m = suc bound} {n = t} d (ground (arith, p)) in
      absurd (omega arith)
]

nearest_ge : (t n d bound : ℕ) → 0 < d → d * bound ≤ n → IsNearest t n d → bound ≤ t
nearest_ge t n d bound h k near = elim (Bool-cases (leb bound t)) [
  | inl p ↦ leb→le bound t p
  | inr p ↦
      let more = mul-le-mul_left {m = suc t} {n = bound} d (ground (arith, p)) in
      absurd (omega arith)
]

average-bounds :
    (low high : ℕ) (l : List ℕ)
    → All (λ n. low ≤ n) l
    → All (λ n. n ≤ high) l
    → ((l ≡ []) × (average l ≡ none))
      ⊎ ((t : ℕ) × (average l ≡ some t)
          × IsNearest t (10 * sum l) (length l)
          × (10 * low ≤ t)
          × (t ≤ 10 * high))
unfolding average
average-bounds low high [] above below = inl (refl, refl)
average-bounds low high (n ∷ l) above below =
    let loads = n ∷ l in
    let near = near-round_div (10 * sum loads) (length loads) (omega arith) in
    let least = sum_ge low loads above in
    let most = sum_le high loads below in
    inr (
      _,
      refl,
      near,
      nearest_ge _ (10 * sum loads) (length loads) (10 * low) (omega arith) (omega arith) near,
      nearest_le _ (10 * sum loads) (length loads) (10 * high) (omega arith) (omega arith) near,
    )

-- The load that is shown, in tenths, is nearest to the average of the cores that report one, and lies
-- between the lowest and the highest of them; none is shown if no core reports one.
pub cpu_usage_lem :
    (d : SnmpData) (low high : ℕ)
    → let loads = known (map (λ e. e.1) (get_or d.cpu [])) in
      All (λ n. low ≤ n) loads
      → All (λ n. n ≤ high) loads
      → ((loads ≡ []) × (cpu_usage d ≡ none))
        ⊎ ((t : ℕ) × (cpu_usage d ≡ some t)
            × IsNearest t (10 * sum loads) (length loads)
            × (10 * low ≤ t)
            × (t ≤ 10 * high))
unfolding cpu_usage
cpu_usage_lem d low high above below =
    average-bounds low high (known (map (λ e. e.1) (get_or d.cpu []))) above below
