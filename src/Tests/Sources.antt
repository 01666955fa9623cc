-- ===== src/Tests/Sources.antt =====
-- The error handling, the SNMP coordinator and a switch.
use ha_sophos_fw.Prelude.{
  ℕ, ◌+◌, ◌-◌, ◌*◌, ◌≡◌, refl, true, false, not, ◌&&◌, none, some, List, [], ◌∷◌, arith, leb,
  if◌then◌else◌, get_or, any_of, contains,
}
use ha_sophos_fw.Prelude.Dict
use ha_sophos_fw.Prelude.Dict.{Dict}
use ha_sophos_fw.Models.Snmp.{InterfaceCounters, TrafficSample, InterfaceTraffic}
use ha_sophos_fw.Client.Errors
use ha_sophos_fw.Client.Errors.{connection_error, auth_error, access_error}
use ha_sophos_fw.Coordinator.Scheduler
use ha_sophos_fw.Coordinator.Scheduler.{
  Scheduler, Tier, realtime, static, OptionValue, init, read_intervals, is_due, mark_fetched,
  is_due, base_of, int_option,
}
use ha_sophos_fw.Coordinator.State.{
  Endpoint, endpoint_enabled, endpoint_configured, fetched_at, invalidate, invalidate_one,
}
use ha_sophos_fw.Coordinator.Fetch.{Fetches, fetch, fetch_into, add_result}
use ha_sophos_fw.Coordinator.Cycle.{clear_access_denied, due_endpoints, limit, gather, refresh}
use ha_sophos_fw.Coordinator.Cycle.First.{is_due-first_refresh_of}
use ha_sophos_fw.Coordinator.Cycle.{first_refresh_of}
use ha_sophos_fw.Coordinator.Xml.{
  Failure, sophos, xml_source, handle_failures, auth_keys, first_access, retry_auth, check_access,
}
use ha_sophos_fw.Coordinator.Xml.Laws.{rejects}
use ha_sophos_fw.Coordinator.Xml.Credentials.{is_auth_failed, auth_failed-handle_failures}
use ha_sophos_fw.Coordinator.Snmp.{traffic_rates}
use ha_sophos_fw.Coordinator.Snmp.Rates.{IsNearest, traffic_rates_lem}
use ha_sophos_fw.Coordinator.Snmp.Issue.{
  Refreshed, failed_at, raise_issue, start, after_refresh, after_all, answers, failures, first_time,
  issue_lem,
}
use ha_sophos_fw.Switch.{Switch, is_on, handle_update, set}
use ha_sophos_fw.Switch.Laws.{is_on-overtaken, is_on-read_again}
use ha_sophos_fw.Tests.Cycles.{fresh, nothing_set, rejecting, overtaken, quiet, all_fetched}

abbrev two : List Endpoint
two =
    record { key = "backup"; tier = static; toggle = none; toggle_default = true }
    ∷ record { key = "admin"; tier = static; toggle = none; toggle_default = true }
    ∷ []

abbrev both_read : Fetches ℕ Failure
both_read = record { updates = ("backup", 7) ∷ ("admin", 7) ∷ []; failures = [] }

abbrev admin_rejected : Fetches ℕ Failure
admin_rejected = record {
  updates = ("backup", 7) ∷ [];
  failures = ("admin", sophos auth_error) ∷ [];
}

abbrev rejected_again : Fetches ℕ Failure
rejected_again = record { updates = []; failures = ("admin", sophos auth_error) ∷ [] }

auth_failed-handle_failures_example :
    is_auth_failed (handle_failures two rejecting admin_rejected).0
    ≡ any_of
        (λ ep. contains (auth_keys admin_rejected.failures) ep.key && rejects (rejecting ep.key))
        two
unfolding fetch fetch_into add_result Dict.put auth_keys
auth_failed-handle_failures_example =
    auth_failed-handle_failures two rejecting admin_rejected rejected_again (ground arith) refl

abbrev admin_read : Fetches ℕ Failure
admin_read = record { updates = ("admin", 7) ∷ []; failures = [] }

abbrev two_failures : List Refreshed
two_failures = failed_at 1000 ∷ failed_at 31000 ∷ []

issue_lem_example : (after_refresh (failed_at 601000) (after_all two_failures start)).1 ≡ (
    if not (any_of answers two_failures)
      && leb 3 (failures two_failures + 1)
      && leb (get_or (first_time two_failures) 601000 + 600000) 601000
    then some raise_issue
    else none)
issue_lem_example = issue_lem two_failures 601000

abbrev counted : ℕ → InterfaceCounters
counted n = record { in_octets = some n; out_octets = some n }

abbrev sample_at : ℕ → ℕ → TrafficSample
sample_at at n = record { sampled_at = at; counters = ("Port1", counted n) ∷ [] }

traffic_rates_lem_example :
    (t : InterfaceTraffic) × (r : ℕ) × (Dict.get "Port1"
        (traffic_rates (some (sample_at 0 1000)) (sample_at 30000 4000))
      ≡ some t)
    × (t.in_bps ≡ some r)
    × IsNearest r ((4000 - 1000) * 80000) (30000 - 0)
unfolding Dict.get
traffic_rates_lem_example =
    traffic_rates_lem (sample_at 0 1000) (sample_at 30000 4000) "Port1" (counted 1000)
      (counted 4000) 1000 4000 (ground arith) refl refl refl refl (ground arith)

abbrev rule_switch : Switch
rule_switch = record { endpoint = "firewall_rules"; optimistic = none; written_at = none }

is_on-overtaken_example :
    let s' = (set true (Errors.ok tt) 5000 fresh rule_switch).0.1 in
    is_on (some false) (handle_update (refresh xml_source nothing_set overtaken fresh).0 s')
    ≡ some true
unfolding xml_source due_endpoints endpoint_enabled endpoint_configured is_due Dict.get init
    fetched_at
is_on-overtaken_example =
    is_on-overtaken xml_source nothing_set overtaken fresh true 5000 rule_switch (some false) refl
      refl refl

is_on-read_again_example :
    let (c', s') = (set true (Errors.ok tt) 500 fresh rule_switch).0 in
    is_on (some true) (handle_update (refresh xml_source nothing_set quiet c').0 s') ≡ some true
unfolding xml_source due_endpoints endpoint_enabled endpoint_configured is_due Dict.get init gather
    limit fetch fetch_into add_result Dict.put handle_failures retry_auth auth_keys check_access
    first_access read_intervals int_option base_of set invalidate invalidate_one
    Scheduler.invalidate Dict.pop
is_on-read_again_example =
    is_on-read_again xml_source nothing_set quiet fresh all_fetched (clear_access_denied ∷ []) true
      500 rule_switch (some true) refl refl refl refl (ground arith)

is_due-first_refresh_of_example :
    is_due
      (first_refresh_of xml_source nothing_set ("admin" ∷ []) quiet fresh).0.scheduler
      "backup"
      static
      9001
    ≡ true
unfolding xml_source due_endpoints endpoint_enabled endpoint_configured is_due Dict.get init fetch
    fetch_into add_result Dict.put handle_failures retry_auth auth_keys check_access first_access
is_due-first_refresh_of_example =
    is_due-first_refresh_of xml_source nothing_set ("admin" ∷ []) quiet fresh admin_read
      (clear_access_denied ∷ []) "backup" static 9001 refl refl refl refl refl refl
