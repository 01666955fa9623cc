-- ===== src/Issues/Laws.antt =====
-- An entry's issues after any history.
use ha_sophos_fw.Prelude.{
  String, ◌≡◌, refl, ap, ◌∙◌, Bool, true, false, not, ◌&&◌, ◌||◌, List, [], ◌∷◌, arith, ◌==◌,
  eq_iff, is_some, contains,
}
use ha_sophos_fw.Prelude.Dict.{Dict}
use ha_sophos_fw.Text.{append}
use ha_sophos_fw.Entity.Items.{eq-append}
use ha_sophos_fw.Text.{starts_with}
use ha_sophos_fw.Entity.Removal.{contains-keep_if}
use ha_sophos_fw.Issues.{
  Kind, api_access_denied, snmp_unreachable, IssueRegistry, Entry, issue_id, issue_of, raise_issue,
  clear_issue, clear_all_issues, Watch, Event, raises, clears, sets_up, changes_state, is_removed,
  watch, state_changed, step, run,
}

abbrev pub same_kind : Kind → Kind → Bool
same_kind api_access_denied api_access_denied = true
same_kind snmp_unreachable snmp_unreachable = true
same_kind j k = false

differ : (s t p : String) → starts_with s p ≡ true → starts_with t p ≡ false → (s == t) ≡ false
differ s t p h k =
    let same : s ≡ t → starts_with s p ≡ starts_with t p = λ e. ap (λ u. starts_with u p) e in
    ground (arith, h, k, eq_iff s t, same)

-- Ids are the same only for the same kind and the same entry.
eq-issue_id :
    (j k : Kind) (e f : String) → (issue_id j e == issue_id k f) ≡ (same_kind j k && e == f)
unfolding issue_id
eq-issue_id api_access_denied api_access_denied e f = eq-append "api_access_denied_" e f
eq-issue_id snmp_unreachable snmp_unreachable e f = eq-append "snmp_unreachable_" e f
eq-issue_id api_access_denied snmp_unreachable e f =
    differ (append "api_access_denied_" e) (append "snmp_unreachable_" f) "a" refl refl
eq-issue_id snmp_unreachable api_access_denied e f =
    differ (append "snmp_unreachable_" e) (append "api_access_denied_" f) "s" refl refl

-- What a history says of one kind of issue of one entry: whether it stands, and whether the entry was
-- ever set up.
pub record Told : Type 0 where
  pub stands : Bool
  pub was_set_up : Bool

unfoldable pub tell : Kind → String → Event → Told → Told
tell j e (raises entry kind placeholders) h = record h {
  stands = h.stands || (same_kind kind j && entry.entry_id == e);
}
tell j e (clears f kind) h = record h { stands = h.stands && not (same_kind kind j && f == e) }
tell j e (sets_up f) h = record h { was_set_up = h.was_set_up || f == e }
tell j e (changes_state f disabled) h = record h {
  stands = h.stands && not (f == e && disabled && h.was_set_up);
}
tell j e (is_removed f) h = record h { stands = h.stands && not (f == e) }

unfoldable pub tell_all : Kind → String → List Event → Told → Told
tell_all j e [] h = h
tell_all j e (ev ∷ evs) h = tell_all j e evs (tell j e ev h)

module _ {R : Type 0} (registry : IssueRegistry R) (j : Kind) (e : String) where
  is_there : R → Bool
  is_there r = is_some (registry.find (issue_id j e) r)

  there-raise_issue :
      (entry : Entry) (kind : Kind) (placeholders : Dict String) (r : R)
      → is_there (raise_issue registry entry kind placeholders r)
        ≡ (is_there r || (same_kind kind j && entry.entry_id == e))
  unfolding raise_issue is_there
  there-raise_issue entry kind placeholders r = ground (
    arith,
    registry.find-create (issue_id kind entry.entry_id) (issue_id j e)
        (issue_of entry kind placeholders) r,
    eq-issue_id kind j entry.entry_id e,
  )

  there-clear_issue :
      (f : String) (kind : Kind) (r : R)
      → is_there (clear_issue registry f kind r) ≡ (is_there r && not (same_kind kind j && f == e))
  unfolding clear_issue is_there
  there-clear_issue f kind r =
      ground
        (arith, registry.find-delete (issue_id kind f) (issue_id j e) r, eq-issue_id kind j f e)

  there-clear_all_issues :
      (f : String) (r : R) → is_there (clear_all_issues registry f r) ≡ (is_there r && not (f == e))
  unfolding clear_all_issues
  there-clear_all_issues f r =
      let first = clear_issue registry f api_access_denied r in
      there-clear_issue f snmp_unreachable first
      ∙ ap (λ b. b && not (same_kind snmp_unreachable j && f == e))
          (there-clear_issue f api_access_denied r)
      ∙ either_kind j
    where
      either_kind :
          (j : Kind)
          → ((is_there r && not (same_kind api_access_denied j && f == e))
              && not (same_kind snmp_unreachable j && f == e))
            ≡ (is_there r && not (f == e))
      either_kind api_access_denied = ground arith
      either_kind snmp_unreachable = ground arith

  -- The registry agrees with the history, and an entry that is watched is listened to.
  Agrees : Watch R → Told → Type 0
  Agrees w h =
      (is_there w.contents ≡ h.stands)
      × (contains w.listening e ≡ h.was_set_up)
      × ((not (contains w.watched e) || h.was_set_up) ≡ true)

  watch-Agrees :
      (f : String) (w : Watch R) (h : Told)
      → Agrees w h
      → Agrees (watch registry f w) (tell j e (sets_up f) h)
  unfolding watch tell Agrees
  watch-Agrees f w h (a, b, c) =
      let same : (f == e) ≡ true → contains w.watched f ≡ contains w.watched e =
        λ p. ap (contains w.watched) ((eq_iff f e).0 p) in
      (ground (arith, a, b, c, same), ground (arith, a, b, c, same), ground (arith, a, b, c, same))

  state_changed-Agrees :
      (f : String) (disabled : Bool) (w : Watch R) (h : Told)
      → Agrees w h
      → Agrees (state_changed registry f disabled w) (tell j e (changes_state f disabled) h)
  unfolding state_changed tell Agrees
  state_changed-Agrees f disabled w h (a, b, c) =
      let same : (f == e) ≡ true → contains w.listening f ≡ contains w.listening e =
        λ p. ap (contains w.listening) ((eq_iff f e).0 p) in
      let cleared = there-clear_all_issues f w.contents in
      (
        ground (arith, a, b, c, same, cleared),
        ground (arith, a, b, c, same),
        ground (arith, a, b, c, same),
      )

  step-Agrees :
      (ev : Event) (w : Watch R) (h : Told)
      → Agrees w h
      → Agrees (step registry ev w) (tell j e ev h)
  unfolding step tell Agrees
  step-Agrees (raises entry kind placeholders) w h (a, b, c) = (
    there-raise_issue entry kind placeholders w.contents
        ∙ ap (λ t. t || (same_kind kind j && entry.entry_id == e)) a,
    b,
    c,
  )
  step-Agrees (clears f kind) w h (a, b, c) = (
    there-clear_issue f kind w.contents ∙ ap (λ t. t && not (same_kind kind j && f == e)) a,
    b,
    c,
  )
  step-Agrees (sets_up f) w h agrees = unfold Agrees tell in watch-Agrees f w h agrees
  step-Agrees (changes_state f disabled) w h agrees =
      unfold Agrees tell in state_changed-Agrees f disabled w h agrees
  step-Agrees (is_removed f) w h (a, b, c) = (
    there-clear_all_issues f w.contents ∙ ap (λ t. t && not (f == e)) a,
    b,
    ground (arith, c, contains-keep_if (λ g. not (g == f)) w.watched e),
  )

  run-Agrees :
      (evs : List Event) (w : Watch R) (h : Told)
      → Agrees w h
      → Agrees (run registry evs w) (tell_all j e evs h)
  unfolding run tell_all
  run-Agrees [] w h agrees = agrees
  run-Agrees (ev ∷ evs) w h agrees =
      run-Agrees evs (step registry ev w) (tell j e ev h) (step-Agrees ev w h agrees)

  -- Whatever happens to the entries, an issue of a kind stands for an entry exactly if it was raised for
  -- it and since then neither cleared, nor the entry disabled after it was set up, nor deleted; what
  -- happens to other entries and other kinds changes nothing.
  pub stands-run :
      (evs : List Event) (r : R)
      → is_some (registry.find (issue_id j e) r) ≡ false
      → is_some (
          registry.find
            (issue_id j e)
            (run registry evs (record { contents = r; watched = []; listening = [] })).contents)
        ≡ (tell_all j e evs (record { stands = false; was_set_up = false })).stands
  unfolding is_there Agrees
  stands-run evs r h =
      (run-Agrees evs (record { contents = r; watched = []; listening = [] })
        (record { stands = false; was_set_up = false }) (h, refl, refl)).0
