-- ===== src/Entity/Confirm/Empties.antt =====
-- Families that trust empty answers, over sequences of runs.
use ha_sophos_fw.Prelude.{
  ℕ, ◌+◌, String, ◌≡◌, refl, ap, ◌∙◌, inl, inr, Bool, true, false, Option, none, some, List, [],
  ◌∷◌, ◌++◌, arith, leb, if◌then◌else◌, get_or, Bool-cases, Option-cases,
}
use ha_sophos_fw.Entity.{
  Family, Tracker, same, new_items, confirm, remove, remove_empty, remove_stale, count_empty,
  sync_items, sync,
}
use ha_sophos_fw.Entity.Removal.{kept, is_key_error}
use ha_sophos_fw.Entity.Confirm.{Seen, tracker_after, run_all}
use ha_sophos_fw.Entity.Confirm.Runs.{runs_through, fresh}

-- A family such as those of the IPsec connections.
abbrev pub trusts : Family
trusts = record { remove_stale = true; trust_empty = true; confirm_missing = false }

-- The empty fetches since objects were last reported, with the empty fetch that was counted last.
pub record Empties : Type 0 where
  pub count : ℕ
  pub last : Option ℕ

unfoldable pub count_items : Option (List String) → Option ℕ → Empties → Empties
count_items none fetched e = e
count_items (some []) fetched e =
    if same fetched e.last then e else record { count = e.count + 1; last = fetched }
count_items (some (x ∷ items)) fetched e = record e { count = 0 }

unfoldable pub count_run : Seen → Empties → Empties
unfolding count_items
count_run r e = if r.view.available then count_items r.view.items r.view.fetched e else e

unfoldable pub count_runs : List Seen → Empties → Empties
count_runs [] e = e
count_runs (r ∷ runs) e = count_runs runs (count_run r e)

abbrev pub none_counted : Empties
none_counted = record { count = 0; last = none }

abbrev empties_of : Tracker → Empties
empties_of t = record { count = get_or t.empty_streak 0; last = t.last_fetch }

empties-count_empty :
    (fetched : Option ℕ) (t : Tracker)
    → empties_of (count_empty fetched t) ≡ count_items (some []) fetched (empties_of t)
unfolding count_empty count_items
empties-count_empty fetched t = ground arith

empties-remove :
    (registered items added : List String) (fetched : Option ℕ) (remove_all : Bool)
    (t before : Tracker)
    → empties_of (tracker_after (remove trusts registered items added fetched remove_all t) before)
      ≡ empties_of t
unfolding remove confirm tracker_after
empties-remove registered items added fetched remove_all t before = refl

empties-remove_empty :
    (registered added : List String) (fetched : Option ℕ) (t before : Tracker) (streak : Option ℕ)
    → is_key_error (remove_empty trusts registered added fetched t streak) ≡ false
    → empties_of (tracker_after (remove_empty trusts registered added fetched t streak) before)
      ≡ empties_of t
unfolding remove_empty is_key_error
empties-remove_empty registered added fetched t before none fine = ground (arith, fine)
empties-remove_empty registered added fetched t before (some n) fine =
    empties-remove registered [] added fetched (leb 3 n) t before

empties-sync_items :
    (registered items : List String) (fetched : Option ℕ) (t : Tracker)
    → is_key_error (sync_items trusts registered items fetched t) ≡ false
    → empties_of (tracker_after (sync_items trusts registered items fetched t) t)
      ≡ count_items (some items) fetched (empties_of t)
unfolding sync_items count_items
empties-sync_items registered [] fetched t fine =
    let t' : Tracker = record t { known = t.known ++ new_items t.known [] } in
    let counted = count_empty fetched t' in
    empties-remove_empty registered (new_items t.known []) fetched counted t counted.empty_streak
      fine
    ∙ empties-count_empty fetched t'
empties-sync_items registered (x ∷ items) fetched t fine =
    let added = new_items t.known (x ∷ items) in
    empties-remove registered (x ∷ items) added fetched false
      (record t { known = t.known ++ added; empty_streak = none }) t

empties-sync :
    (r : Seen) (t : Tracker)
    → is_key_error (sync trusts r.registered r.view t) ≡ false
    → empties_of (tracker_after (sync trusts r.registered r.view t) t) ≡ count_run r (empties_of t)
unfolding sync count_run tracker_after count_items
empties-sync r t fine = elim (Option-cases r.view.items) [
  | inl p ↦ rw p (ground arith)
  | inr (items, p) ↦ elim (Bool-cases r.view.available) [
    | inr off ↦ rw (p, off) refl
    | inl on ↦
        rw (p, on)
          (unfold tracker_after count_items in
            empties-sync_items r.registered items r.view.fetched t (rw (p, on) at fine))
  ]
]

empties-run_all :
    (runs : List Seen) (t : Tracker)
    → runs_through trusts runs t ≡ true
    → empties_of (run_all trusts runs t) ≡ count_runs runs (empties_of t)
unfolding run_all count_runs runs_through
empties-run_all [] t fine = refl
empties-run_all (r ∷ runs) t fine =
    empties-run_all runs (tracker_after (sync trusts r.registered r.view t) t)
      (ground (arith, fine))
    ∙ ap (count_runs runs) (empties-sync r t (ground (arith, fine)))

kept-remove_empty :
    (registered added : List String) (fetched : Option ℕ) (t : Tracker) (streak : Option ℕ)
    → is_key_error (remove_empty trusts registered added fetched t streak) ≡ false
    → kept (remove_empty trusts registered added fetched t streak) registered
      ≡ (if leb 3 (get_or streak 0) then [] else registered)
unfolding remove_empty remove confirm remove_stale kept is_key_error
kept-remove_empty registered added fetched t none fine = ground (arith, fine)
kept-remove_empty registered added fetched t (some n) fine = ground arith

-- After any sequence of runs for a family that trusts empty answers and does not confirm single objects, a
-- run with no object removes all of the family's entities if it is at least the third fetch in a row that
-- reported no object, and keeps all of them otherwise: each fetch counts once, however often the runs come,
-- and runs of a failed fetch count nothing. The runs are those that end in no KeyError.
pub kept-empty_run :
    (runs : List Seen) (r : Seen)
    → runs_through trusts runs fresh ≡ true
    → r.view.available ≡ true
    → r.view.items ≡ some []
    → is_key_error (sync trusts r.registered r.view (run_all trusts runs fresh)) ≡ false
    → kept (sync trusts r.registered r.view (run_all trusts runs fresh)) r.registered
      ≡ (if leb 3 (count_run r (count_runs runs none_counted)).count then [] else r.registered)
unfolding sync sync_items count_run kept is_key_error
kept-empty_run runs r fine on seen ends =
    let t = run_all trusts runs fresh in
    let t' : Tracker = record t { known = t.known ++ new_items t.known [] } in
    let counted = count_empty r.view.fetched t' in
    let now =
      empties-count_empty r.view.fetched t'
      ∙ ap (count_items (some []) r.view.fetched) (empties-run_all runs fresh fine) in
    rw (on, seen)
      (kept-remove_empty r.registered (new_items t.known []) r.view.fetched counted
          counted.empty_streak (rw (on, seen) at ends)
        ∙ ap (λ e. if leb 3 e.count then [] else r.registered) now)
