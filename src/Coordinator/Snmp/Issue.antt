-- ===== src/Coordinator/Snmp/Issue.antt =====
-- The repair issue for an SNMP agent that has not answered since setup (coordinator.py:
-- SophosSnmpCoordinator._async_update_data).
use ha_sophos_fw.Prelude.{
  ℕ, suc, ◌+◌, ◌≡◌, refl, Bool, true, false, not, ◌&&◌, Option, none, some, List, [], ◌∷◌, arith,
  leb, if◌then◌else◌, or_else, get_or, any_of,
}

-- How a refresh went: UpdateFailed at a time in milliseconds, another exception, or data, with whether
-- any endpoint is available.
pub data Refreshed : Type 0 where
  failed_at : ℕ → Refreshed
  raised_other : Refreshed
  answered : Bool → Refreshed

pub record Reach : Type 0 where
  pub reached : Bool
  pub failed_attempts : ℕ
  pub first_failure : Option ℕ

pub data Issue : Type 0 where
  raise_issue clear_issue : Issue

abbrev pub start : Reach
start = record { reached = false; failed_attempts = 0; first_failure = none }

-- `after_refresh` of one refresh: 3 attempts and 600 seconds are needed.
unfoldable pub after_refresh : Refreshed → Reach → Reach × Option Issue
after_refresh (failed_at now) r =
    let first = get_or r.first_failure now in
    let attempts = r.failed_attempts + 1 in
    if r.reached then (r, none) else (
      record { reached = r.reached; failed_attempts = attempts; first_failure = some first },
      if leb 3 attempts && leb (first + 600000) now then some raise_issue else none,
    )
after_refresh raised_other r = (r, none)
after_refresh (answered any_ok) r =
    if not r.reached && any_ok then (record r { reached = true }, some clear_issue) else (r, none)

unfoldable pub after_all : List Refreshed → Reach → Reach
after_all [] r = r
after_all (e ∷ es) r = after_all es (after_refresh e r).0

-- The history of the refreshes: whether the agent ever answered, the failures, the first one's time.
abbrev pub answers : Refreshed → Bool
answers (answered any_ok) = any_ok
answers e = false

abbrev pub failures : List Refreshed → ℕ
failures [] = 0
failures (failed_at t ∷ es) = suc (failures es)
failures (e ∷ es) = failures es

abbrev pub first_time : List Refreshed → Option ℕ
first_time [] = none
first_time (failed_at t ∷ es) = some t
first_time (e ∷ es) = first_time es

reached_stays :
    (es : List Refreshed) (r : Reach) → r.reached ≡ true → (after_all es r).reached ≡ true
unfolding after_all after_refresh
reached_stays [] r h = h
reached_stays (failed_at t ∷ es) r h = ground (arith, reached_stays es r)
reached_stays (raised_other ∷ es) r h = reached_stays es r h
reached_stays (answered b ∷ es) r h = ground (arith, reached_stays es r)

-- The state after a history tells it: whether the agent answered and, before it did, how many
-- refreshes failed and when the first one did.
Tells : List Refreshed → Reach → Reach → Type 0
Tells es r t =
    (t.reached ≡ any_of answers es)
    × (any_of answers es ≡ false
        → (t.failed_attempts ≡ r.failed_attempts + failures es)
          × (t.first_failure ≡ or_else r.first_failure (first_time es)))

history : (es : List Refreshed) (r : Reach) → r.reached ≡ false → Tells es r (after_all es r)
unfolding Tells after_all after_refresh
history [] r h = ground arith
history (failed_at t ∷ es) r h = ground (
  arith,
  history es
      (record {
        reached = r.reached;
        failed_attempts = r.failed_attempts + 1;
        first_failure = some (get_or r.first_failure t);
      })
      h,
)
history (raised_other ∷ es) r h = history es r h
history (answered true ∷ es) r h =
    ground (arith, reached_stays es (record r { reached = true }) refl)
history (answered false ∷ es) r h = ground (arith, history es r h)

-- After any history of refreshes, a failed one raises the issue exactly if no refresh before it was
-- answered, it is at least the third failure, and the first failure is at least 600 seconds ago.
pub issue_lem :
    (es : List Refreshed) (now : ℕ)
    → (after_refresh (failed_at now) (after_all es start)).1 ≡ (
        if not (any_of answers es)
          && leb 3 (failures es + 1)
          && leb (get_or (first_time es) now + 600000) now
        then some raise_issue
        else none)
unfolding after_refresh Tells
issue_lem es now = ground (arith, history es start refl)
