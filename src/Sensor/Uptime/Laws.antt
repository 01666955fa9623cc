-- ===== src/Sensor/Uptime/Laws.antt =====
-- The boot time that is shown is right within the tolerance, and does not follow the jitter.
use ha_sophos_fw.Prelude.{
  ℕ, ◌+◌, ◌-◌, ◌*◌, ◌/◌, ◌≤◌, ◌≡◌, refl, ap, ◌∙◌, inl, inr, Option, none, some, List, [], ◌∷◌, ◌++◌,
  arith, ltb, Bool-cases, All,
}
use ha_sophos_fw.Models.Snmp.{SystemStats}
use ha_sophos_fw.Sensor.Uptime.{
  Clock, tolerance, distance, reported_boot_time, native_value, boot_at,
}

-- The boot time shown after a sequence of reports.
unfoldable pub shown_after : Option ℕ → List (Option ℕ) → Option ℕ
shown_after shown [] = shown
shown_after shown (r ∷ rs) = shown_after (native_value shown r) rs

-- A boot time is shown exactly if one is reported, and it is at most a minute away from the report.
abbrev pub Near : Option ℕ → Option ℕ → Type 0
Near none none = Unit
Near (some a) (some b) = distance a b ≤ tolerance
Near a b = ⊥

native_value-Near : (shown reported : Option ℕ) → Near (native_value shown reported) reported
unfolding native_value
native_value-Near none none = tt
native_value-Near (some s) none = tt
native_value-Near none (some r) = ground arith
native_value-Near (some s) (some r) = elim (Bool-cases (ltb tolerance (distance r s))) [
  | inl p ↦ rw p (omega arith)
  | inr p ↦ rw p (ground (arith, p))
]

-- Whatever was reported before, the boot time shown after a report is at most a minute away from it, and
-- none is shown if none is reported.
pub shown_after-Near :
    (shown : Option ℕ) (before : List (Option ℕ)) (reported : Option ℕ)
    → Near (shown_after shown (before ++ reported ∷ [])) reported
unfolding shown_after
shown_after-Near shown [] reported = native_value-Near shown reported
shown_after-Near shown (r ∷ rs) reported = shown_after-Near (native_value shown r) rs reported

-- All reports are there, and at most a minute away from a time.
abbrev pub AllNear : ℕ → List (Option ℕ) → Type 0
AllNear shown rs = All (λ r. Near r (some shown)) rs

-- As long as the reports stay within a minute of the time shown, that time does not change.
pub shown_after_stable :
    (shown : ℕ) (rs : List (Option ℕ)) → AllNear shown rs → shown_after (some shown) rs ≡ some shown
unfolding shown_after native_value
shown_after_stable shown [] h = refl
shown_after_stable shown (none ∷ rs) h = absurd h.0
shown_after_stable shown (some r ∷ rs) (h, hs) =
    ap (λ s. shown_after s rs) (same r h) ∙ shown_after_stable shown rs hs
  where
    same : (r : ℕ) → distance r shown ≤ tolerance → native_value (some shown) (some r) ≡ some shown
    same r h = ground (arith, h)

whole_seconds :
    (boot utc : ℕ)
    → boot ≤ utc
    → let r = (utc - (utc - boot) / 1000 * 1000) / 1000 in (boot / 1000 ≤ r) × (r ≤ boot / 1000 + 1)
whole_seconds boot utc h = (omega arith, omega arith)

-- If the agent reports the whole seconds since the boot at the time of the fetch, then the boot time that
-- is computed from them, however long after the fetch, is that of the boot or one second more.
pub reported_accurate :
    (boot utc fetched age : ℕ) (stats : SystemStats)
    → boot ≤ utc
    → stats.uptime_seconds ≡ some ((utc - boot) / 1000)
    → (r : ℕ) × (reported_boot_time
          (record { utcnow = utc + age; monotonic = fetched + age })
          (some stats)
          (some fetched)
        ≡ some r)
      × (boot / 1000 ≤ r)
      × (r ≤ boot / 1000 + 1)
unfolding reported_boot_time boot_at
reported_accurate boot utc fetched age stats h up =
    let c : Clock = record { utcnow = utc + age; monotonic = fetched + age } in
    let aged : (utc + age) - (((fetched + age) - fetched) + (utc - boot) / 1000 * 1000)
        ≡ utc - (utc - boot) / 1000 * 1000 =
      omega arith in
    (
      _,
      ap (λ o. boot_at c o (some fetched)) up ∙ ap (λ n. some (n / 1000)) aged,
      (whole_seconds boot utc h).0,
      (whole_seconds boot utc h).1,
    )
