-- ===== src/Switch/Laws.antt =====
-- What a switch shows around a write.
use ha_sophos_fw.Prelude.{
  ℕ, ◌<◌, String, ◌≡◌, refl, Bool, true, false, Option, some, List, [], ◌∷◌, arith, is_nil,
  contains,
}
use ha_sophos_fw.Prelude.Dict
use ha_sophos_fw.Client.Errors
use ha_sophos_fw.Client.Errors.{Result}
use ha_sophos_fw.Coordinator.State.{State, fetched_at, invalidate}
use ha_sophos_fw.Coordinator.Fetch.{Fetches, ok}
use ha_sophos_fw.Coordinator.Cycle.{
  Source, Surroundings, IssueEvent, due_endpoints, limit, gather, refresh,
}
use ha_sophos_fw.Coordinator.Cycle.Times.{fetched_at-refresh, fetched_at-refresh_ok}
use ha_sophos_fw.Switch.{Switch, is_on, later, handle_update, set}

written : (on : Bool) (now : ℕ) (s : Switch) → Switch
written on now s = record s { optimistic = some on; written_at = some now }

module _ {V E H : Type 0} (src : Source V E H) where
  -- After a confirmed write a switch shows what was written even when a cycle ends that the write
  -- overtook, whatever that cycle read: the endpoint had not been read since the write.
  pub is_on-overtaken :
      (options : String → Option Bool) (around : Surroundings V E) (c : State V H)
      → (on : Bool) (now : ℕ) (s : Switch) (actual : Option Bool)
      → is_nil (due_endpoints src options c around.now) ≡ false
      → contains around.invalidated s.endpoint ≡ true
      → later (fetched_at c s.endpoint) (some now) ≡ false
      → let s' = (set on (Errors.ok tt) now c s).0.1 in
        is_on actual (handle_update (refresh src options around c).0 s') ≡ some on
  unfolding is_on handle_update set
  is_on-overtaken options around c on now s actual fetching overtaken unread =
      rw (fetched_at-refresh src options around c s.endpoint fetching overtaken, unread) refl

  -- Once a cycle after the write has read the endpoint, with no further invalidation, the switch shows
  -- what the firewall reports.
  pub is_on-read_again :
      (options : String → Option Bool) (around : Surroundings V E) (c : State V H)
      → (f : Fetches V E) (issues : List IssueEvent) (on : Bool) (now : ℕ) (s : Switch)
        (actual : Option Bool)
      → let (c', s') = (set on (Errors.ok tt) now c s).0 in
        let due = due_endpoints src options c' around.now in
        is_nil due ≡ false
        → gather src around (limit src c'.restrict_to due) ≡ (ok f, issues)
        → contains (Dict.keys f.updates) s.endpoint ≡ true
        → contains around.invalidated s.endpoint ≡ false
        → now < around.done
        → is_on actual (handle_update (refresh src options around c').0 s') ≡ actual
  unfolding is_on handle_update set
  is_on-read_again options around c f issues on now s actual fetching h read alone later_on =
      let c' = invalidate (s.endpoint ∷ []) c in
      rw (fetched_at-refresh_ok src options around c' f issues s.endpoint fetching h, read, alone)
        ground arith
