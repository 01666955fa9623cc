-- ===== src/Tests/Cycles.antt =====
-- Cycles of the coordinators.
use ha_sophos_fw.Prelude.{
  ℕ, String, ◌≡◌, refl, inl, Bool, true, false, not, Option, none, [], ◌∷◌, arith, if◌then◌else◌,
  or_else,
}
use ha_sophos_fw.Prelude.Dict
use ha_sophos_fw.Prelude.Dict.{Dict}
use ha_sophos_fw.Client.Errors.{connection_error, auth_error}
use ha_sophos_fw.Coordinator.Scheduler
use ha_sophos_fw.Coordinator.Scheduler.{
  Scheduler, Tier, realtime, static, OptionValue, init, read_intervals, is_due, mark_fetched,
  is_due, base_of, int_option,
}
use ha_sophos_fw.Coordinator.Scheduler.Laws.{is_due-realtime}
use ha_sophos_fw.Coordinator.State.{
  State, record_success, invalidate, endpoint_enabled, endpoint_configured,
}
use ha_sophos_fw.Coordinator.Fetch.{
  fetched, failed, Attempt, Fetches, fetch, fetch_into, add_result,
}
use ha_sophos_fw.Coordinator.Cycle.{
  Surroundings, clear_access_denied, due_endpoints, limit, gather, previous, refresh,
}
use ha_sophos_fw.Coordinator.Cycle.Fresh.{gave, reads, some_reads, cycles, is_due-refresh}
use ha_sophos_fw.Coordinator.Cycle.States.{succeeded, is_failed, data-refresh}
use ha_sophos_fw.Coordinator.Xml.{
  Failure, sophos, xml_source, handle_failures, auth_keys, first_access, retry_auth, check_access,
}

abbrev no_options : Tier → Option OptionValue
no_options tier = none

abbrev pub scheduler : Scheduler
scheduler = init (read_intervals no_options)

abbrev pub fresh : State ℕ (Unit {0})
fresh = record {
  last_data = none;
  scheduler = scheduler;
  ok_by_key = [];
  failure_logged = [];
  last_fetched = [];
  generation = [];
  runtime_disabled = [];
  restrict_to = none;
  own = tt;
}

abbrev pub nothing_set : String → Option Bool
nothing_set option = none

abbrev pub all_answer : Attempt ℕ Failure
all_answer key = fetched 7

abbrev pub rejecting : Attempt ℕ Failure
rejecting key = failed (sophos auth_error)

-- A cycle that the firewall answers, and that a write to a rule overtakes.
abbrev pub overtaken : Surroundings ℕ Failure
overtaken = record {
  now = 1000;
  done = 9000;
  first = all_answer;
  first_retry = all_answer;
  second = all_answer;
  second_retry = all_answer;
  invalidated = "firewall_rules" ∷ [];
}

abbrev pub quiet : Surroundings ℕ Failure
quiet = record overtaken { invalidated = [] }

abbrev rule_read : Fetches ℕ Failure
rule_read = record {
  updates = ("firewall_rules", 7) ∷ [];
  failures = ("admin", sophos connection_error) ∷ [];
}

is_due-realtime_example :
    is_due (mark_fetched "interfaces" 40000 scheduler) "interfaces" realtime 69500 ≡ true
unfolding init read_intervals base_of int_option
is_due-realtime_example =
    is_due-realtime no_options "interfaces" 40000 69500 500 (inl refl) (ground arith)

-- A later cycle in which nothing answers.
abbrev no_answer : Attempt ℕ Failure
no_answer key = failed (sophos connection_error)

abbrev lost : Surroundings ℕ Failure
lost = record {
  now = 40000;
  done = 49000;
  first = no_answer;
  first_retry = no_answer;
  second = no_answer;
  second_retry = no_answer;
  invalidated = [];
}

lost_reads_nothing :
    some_reads xml_source nothing_set
      (lost ∷ [])
      "firewall_rules"
      (refresh xml_source nothing_set overtaken fresh).0
    ≡ false
unfolding some_reads reads gave xml_source due_endpoints endpoint_enabled endpoint_configured is_due
    Dict.get init refresh gather limit fetch fetch_into add_result handle_failures Dict.put
    record_success invalidate mark_fetched Scheduler.invalidate Dict.pop read_intervals
lost_reads_nothing = refl

is_due-refresh_example :
    is_due
      (cycles xml_source nothing_set
        (lost ∷ [])
        (refresh xml_source nothing_set overtaken fresh).0).scheduler
      "firewall_rules"
      static
      49001
    ≡ true
unfolding xml_source due_endpoints endpoint_enabled endpoint_configured is_due Dict.get init
is_due-refresh_example =
    is_due-refresh xml_source nothing_set overtaken fresh (lost ∷ []) "firewall_rules" static 49001
      refl refl lost_reads_nothing

abbrev all_read : Dict ℕ
all_read =
    ("interfaces", 7)
    ∷ ("firewall_rules", 7)
    ∷ ("dhcp_servers", 7)
    ∷ ("web_filter_policies", 7)
    ∷ ("admin", 7)
    ∷ []

abbrev pub all_fetched : Fetches ℕ Failure
all_fetched = record { updates = all_read; failures = [] }

data-refresh_example :
    let (s', report) = refresh xml_source nothing_set quiet fresh in
    (succeeded xml_source report.outcome ≡ not (is_failed xml_source all_fetched fresh))
    × (Dict.get "admin" (previous xml_source s') ≡ (
        if is_failed xml_source all_fetched fresh
        then Dict.get "admin" (previous xml_source fresh)
        else or_else (Dict.get "admin" all_read) (Dict.get "admin" (previous xml_source fresh))))
unfolding xml_source due_endpoints endpoint_enabled endpoint_configured is_due Dict.get init gather
    limit fetch fetch_into add_result Dict.put handle_failures retry_auth auth_keys check_access
    first_access read_intervals int_option base_of
data-refresh_example =
    data-refresh xml_source nothing_set quiet fresh all_fetched (clear_access_denied ∷ []) "admin"
      refl refl (ground arith)
