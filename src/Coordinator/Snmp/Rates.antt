-- ===== src/Coordinator/Snmp/Rates.antt =====
-- The traffic rates of two samples.
use native.Mathlib.Omega.{div_any}
use native.Mathlib.Nat.{mod-lt}
use ha_sophos_fw.Prelude.{
  ℕ, ◌+◌, ◌-◌, ◌*◌, ◌/◌, ◌%◌, ◌≤◌, ◌<◌, String, ◌≡◌, refl, ◌∙◌, ◌⊎◌, inl, inr, Option, some, [],
  ◌∷◌, arith, eq_iff,
}
use ha_sophos_fw.Prelude.Dict
use ha_sophos_fw.Prelude.Dict.{Dict}
use ha_sophos_fw.Models.Snmp.{InterfaceCounters, TrafficSample, InterfaceTraffic}
use ha_sophos_fw.Coordinator.Snmp.{
  round_div, rate, then_of, interface_rates, rates_from, traffic_rates,
}

round_div-cases :
    (n d : ℕ)
    → ((round_div n d ≡ n / d) × (2 * (n % d) ≤ d))
      ⊎ ((round_div n d ≡ n / d + 1) × (d ≤ 2 * (n % d)))
unfolding round_div
round_div-cases n d = ground arith

-- `t` is a nearest number to the quotient: its error is at most half the divisor.
abbrev pub IsNearest : ℕ → ℕ → ℕ → Type 0
IsNearest t n d = (2 * (d * t) ≤ 2 * n + d) × (2 * n ≤ 2 * (d * t) + d)

pub near-round_div : (n d : ℕ) → 0 < d → IsNearest (round_div n d) n d
near-round_div n d h = elim (round_div-cases n d) [
  | inl (down, small) ↦ rw (down) ground (arith, div_any n d, mod-lt n h)
  | inr (up, large) ↦ rw (up) ground (arith, div_any n d, mod-lt n h)
]

-- The rates of an interface stand under its name, from its counters in both samples and the time
-- between them; an interface that is new in the second sample has no rates.
get-rates_from :
    (previous : Option TrafficSample) (ms : Option ℕ) (counters : Dict InterfaceCounters)
    (name : String)
    → Dict.get name (rates_from previous ms counters)
      ≡ then_of
          (Dict.get name counters)
          (λ now. some (interface_rates (then_of previous (λ p. Dict.get name p.counters)) ms now))
unfolding rates_from Dict.get
get-rates_from previous ms [] name = refl
get-rates_from previous ms ((j, now) ∷ counters) name =
    ground (arith, eq_iff j name, get-rates_from previous ms counters name)

rate_lem :
    (previous current ms : ℕ)
    → previous ≤ current
    → 1000 ≤ ms
    → rate (some previous) (some current) (some ms)
      ≡ some (round_div ((current - previous) * 80000) ms)
unfolding rate
rate_lem previous current ms h late = ground arith

-- For an interface that both samples count, whose counter did not go back, and samples at least a
-- second apart, the receive rate is a nearest tenth of a bit per second to the octets received times
-- eight over the time between the samples.
pub traffic_rates_lem :
    (p c : TrafficSample) (name : String) (before now : InterfaceCounters) (a b : ℕ)
    → p.sampled_at + 1000 ≤ c.sampled_at
    → Dict.get name p.counters ≡ some before
    → Dict.get name c.counters ≡ some now
    → before.in_octets ≡ some a
    → now.in_octets ≡ some b
    → a ≤ b
    → (t : InterfaceTraffic) × (r : ℕ) × (Dict.get name (traffic_rates (some p) c) ≡ some t)
      × (t.in_bps ≡ some r)
      × IsNearest r ((b - a) * 80000) (c.sampled_at - p.sampled_at)
unfolding traffic_rates interface_rates
traffic_rates_lem p c name before now a b late hp hc ha hb grows =
    let ms = c.sampled_at - p.sampled_at in
    let t = interface_rates (some before) (some ms) now in
    (
      t,
      round_div ((b - a) * 80000) ms,
      get-rates_from (some p) (some ms) c.counters name ∙ rw (hp, hc) refl,
      rw (ha, hb) (rate_lem a b ms grows ground arith),
      near-round_div ((b - a) * 80000) ms ground arith,
    )
