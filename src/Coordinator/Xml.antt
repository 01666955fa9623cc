-- ===== src/Coordinator/Xml.antt =====
-- SophosXmlCoordinator (coordinator.py): its endpoint table and its error handling.
pub mod Laws
pub mod Credentials
use ha_sophos_fw.Prelude.{
  ℕ, zero, suc, ◌+◌, ◌-◌, ◌*◌, ◌/◌, ◌%◌, ◌≤◌, ◌<◌, String, ◌≡◌, refl, sym, ap, ◌∙◌, ◌≢◌, ◌↔◌, ◌⊎◌,
  inl, inr, Bool, true, false, not, ◌&&◌, ◌||◌, Option, none, some, List, [], ◌∷◌, ◌++◌, map, arith,
  ◌==◌, eq_iff, eq_refl, ltb, leb, eqb, if◌then◌else◌, leb→le, ltb→lt, eqb_iff, Bool-cases,
  Option-cases, or_else, is_some, get_or, ne→false, length, is_nil, keep_if, any_of, all_of,
  first_where, All, contains, Distinct,
}
use ha_sophos_fw.Prelude.Dict
use ha_sophos_fw.Prelude.Dict.{Dict}
use ha_sophos_fw.Client.Errors.{SophosError, connection_error, auth_error, access_error}
use ha_sophos_fw.Coordinator.Scheduler.{realtime, operative, static}
use ha_sophos_fw.Coordinator.State.{Endpoint}
use ha_sophos_fw.Coordinator.Fetch.{
  Attempt, Fetches, Outcome, ok, raised, ◌>>=◌, auth_failed, access_denied, fetch,
}
use ha_sophos_fw.Coordinator.Cycle.{Source, IssueEvent, raise_access_denied, clear_access_denied}

-- The exception of a failed fetch.
pub data Failure : Type 0 where
  sophos : SophosError → Failure
  unexpected : Failure

abbrev pub is_connection : Failure → Bool
is_connection (sophos connection_error) = true
is_connection e = false

abbrev pub is_auth : Failure → Bool
is_auth (sophos auth_error) = true
is_auth e = false

-- The code of a SophosAccessError, "" where it has none.
abbrev pub access_code : Failure → Option String
access_code (sophos (access_error code)) = some (get_or code "")
access_code e = none

-- `_XML_ENDPOINTS` and the fields of XmlData that they fill.
abbrev pub xml_endpoints : List Endpoint
xml_endpoints =
    record {
      key = "interfaces";
      tier = realtime;
      toggle = some "poll_xml_interfaces";
      toggle_default = true;
    }
    ∷ record {
      key = "firewall_rules";
      tier = operative;
      toggle = some "poll_xml_fw_rules";
      toggle_default = true;
    }
    ∷ record {
      key = "dhcp_servers";
      tier = static;
      toggle = some "poll_xml_dhcp";
      toggle_default = true;
    }
    ∷ record {
      key = "web_filter_policies";
      tier = static;
      toggle = some "poll_xml_webfilter";
      toggle_default = true;
    }
    ∷ record {
      key = "backup";
      tier = static;
      toggle = some "poll_xml_backup";
      toggle_default = false;
    }
    ∷ record { key = "admin"; tier = static; toggle = none; toggle_default = true }
    ∷ record {
      key = "wireless_networks";
      tier = operative;
      toggle = some "poll_xml_wireless";
      toggle_default = false;
    }
    ∷ []

-- `[k for k, exc in failures.items() if isinstance(exc, SophosAuthError)]`
unfoldable pub auth_keys : Dict Failure → List String
auth_keys failures = Dict.keys (keep_if (λ e. is_auth e.1) failures)

unfoldable pub pop_all : List String → Dict Failure → Dict Failure
pop_all [] d = d
pop_all (k ∷ ks) d = pop_all ks (Dict.pop k d)

unfoldable pub any_auth : Dict Failure → Bool
any_auth d = any_of (λ e. is_auth e.1) d

unfoldable pub first_access : Dict Failure → Option String
first_access [] = none
first_access ((k, e) ∷ d) = or_else (access_code e) (first_access d)

module _ {V : Type 0} where
  -- The results of the retry replace the failures that it answers.
  unfoldable pub after_retry :
      List String → Fetches V Failure → Fetches V Failure → Outcome (Fetches V Failure)
  unfolding pop_all any_auth
  after_retry keys f again =
      if any_auth again.failures
      then raised auth_failed
      else ok (record {
        updates = Dict.update f.updates again.updates;
        failures = Dict.update (pop_all keys f.failures) again.failures;
      })

  -- One more try for the endpoints whose credentials were rejected.
  unfoldable pub retry_auth :
      List Endpoint → Attempt V Failure → Fetches V Failure → Outcome (Fetches V Failure)
  unfolding auth_keys after_retry
  retry_auth endpoints retry f =
      let keys = auth_keys f.failures in
      if is_nil keys
      then ok f
      else fetch retry (keep_if (λ ep. contains keys ep.key) endpoints) >>= after_retry keys f

  denied : Option String → Fetches V Failure → Outcome (Fetches V Failure) × List IssueEvent
  denied (some code) f = (raised (access_denied code), raise_access_denied code ∷ [])
  denied none f = (ok f, if is_nil f.updates then [] else clear_access_denied ∷ [])

  unfoldable pub check_access :
      Outcome (Fetches V Failure) → Outcome (Fetches V Failure) × List IssueEvent
  unfolding denied first_access
  check_access (ok f) = denied (first_access f.failures) f
  check_access (raised r) = (raised r, [])

  -- `_handle_failures`
  unfoldable pub handle_failures :
      List Endpoint
      → Attempt V Failure
      → Fetches V Failure
      → Outcome (Fetches V Failure) × List IssueEvent
  unfolding retry_auth check_access
  handle_failures endpoints retry f = check_access (retry_auth endpoints retry f)

  unfoldable pub xml_source : Source V Failure (Unit {0})
  unfolding handle_failures
  xml_source = record {
    endpoints = xml_endpoints;
    is_connection = is_connection;
    handle = handle_failures xml_endpoints;
    prepare = λ own updates. (updates, own);
    after_update = λ own updates. (own, []);
    empty = [];
  }
