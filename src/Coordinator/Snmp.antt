-- ===== src/Coordinator/Snmp.antt =====
-- SophosSnmpCoordinator (coordinator.py): endpoints, traffic rates, detection of a virtual appliance,
-- and the repair issue for an agent that never answers. A rate is rounded from the exact quotient.
pub mod Rates
pub mod Detection
pub mod Issue
use ha_sophos_fw.Prelude.{
  ℕ, zero, suc, ◌+◌, ◌-◌, ◌*◌, ◌/◌, ◌%◌, ◌≤◌, ◌<◌, String, ◌≡◌, refl, sym, ap, ◌∙◌, ◌≢◌, ◌↔◌, ◌⊎◌,
  inl, inr, Bool, true, false, not, ◌&&◌, ◌||◌, Option, none, some, List, [], ◌∷◌, ◌++◌, map, arith,
  ◌==◌, eq_iff, eq_refl, ltb, leb, eqb, if◌then◌else◌, leb→le, ltb→lt, eqb_iff, Bool-cases,
  Option-cases, or_else, is_some, get_or, ne→false, length, is_nil, keep_if, any_of, all_of,
  first_where, All, contains, Distinct,
}
use ha_sophos_fw.Prelude.Dict
use ha_sophos_fw.Prelude.Dict.{Dict}
use ha_sophos_fw.Models.Snmp.{
  SystemHealth, has_hardware_sensors, InterfaceCounters, TrafficSample, InterfaceTraffic,
}
use ha_sophos_fw.Coordinator.Scheduler.{realtime, fast, operative, static}
use ha_sophos_fw.Coordinator.State.{Endpoint}
use ha_sophos_fw.Coordinator.Fetch.{ok}
use ha_sophos_fw.Coordinator.Cycle.{Source}

-- `_SNMP_ENDPOINTS` and the fields of SnmpData that they fill.
abbrev pub snmp_endpoints : List Endpoint
snmp_endpoints =
    record {
      key = "stats";
      tier = realtime;
      toggle = some "poll_snmp_stats";
      toggle_default = true;
    }
    ∷ record {
      key = "services";
      tier = realtime;
      toggle = some "poll_snmp_services";
      toggle_default = true;
    }
    ∷ record {
      key = "tunnels";
      tier = fast;
      toggle = some "poll_snmp_tunnels";
      toggle_default = true;
    }
    ∷ record { key = "ha"; tier = fast; toggle = some "poll_snmp_ha"; toggle_default = false }
    ∷ record {
      key = "health";
      tier = operative;
      toggle = some "poll_snmp_health";
      toggle_default = true;
    }
    ∷ record {
      key = "licenses";
      tier = static;
      toggle = some "poll_snmp_licenses";
      toggle_default = true;
    }
    ∷ record { key = "device"; tier = static; toggle = none; toggle_default = true }
    ∷ record {
      key = "cpu";
      tier = realtime;
      toggle = some "poll_snmp_stats";
      toggle_default = true;
    }
    ∷ record {
      key = "traffic";
      tier = realtime;
      toggle = some "poll_snmp_traffic";
      toggle_default = true;
    }
    ∷ record {
      key = "links";
      tier = realtime;
      toggle = some "poll_xml_interfaces";
      toggle_default = true;
    }
    ∷ record {
      key = "access_points";
      tier = fast;
      toggle = some "poll_snmp_wifi";
      toggle_default = true;
    }
    ∷ record { key = "poe"; tier = fast; toggle = some "poll_snmp_poe"; toggle_default = true }
    ∷ []

-- `round(n / d)`: to the nearest number, from the middle to the even one.
unfoldable pub round_div : ℕ → ℕ → ℕ
round_div n d =
    let q = n / d in
    let twice = 2 * (n % d) in
    if ltb twice d then q else if ltb d twice then q + 1 else if eqb (q % 2) 0 then q else q + 1

-- `_rate` for a time in milliseconds, in tenths of a bit per second.
unfoldable pub rate : Option ℕ → Option ℕ → Option ℕ → Option ℕ
unfolding round_div
rate (some previous) (some current) (some ms) =
    if ltb ms 1000 || ltb current previous
    then none
    else some (round_div ((current - previous) * 80000) ms)
rate previous current ms = none

abbrev pub then_of : {A B : Type 0} → Option A → (A → Option B) → Option B
then_of none f = none
then_of (some a) f = f a

unfoldable pub interface_rates :
    Option InterfaceCounters → Option ℕ → InterfaceCounters → InterfaceTraffic
unfolding rate
interface_rates before ms now = record {
  in_octets = now.in_octets;
  out_octets = now.out_octets;
  in_bps = rate (then_of before (λ b. b.in_octets)) now.in_octets ms;
  out_bps = rate (then_of before (λ b. b.out_octets)) now.out_octets ms;
}

unfoldable pub rates_from :
    Option TrafficSample → Option ℕ → Dict InterfaceCounters → Dict InterfaceTraffic
unfolding interface_rates
rates_from previous ms [] = []
rates_from previous ms ((name, now) ∷ counters) =
    (name, interface_rates (then_of previous (λ p. Dict.get name p.counters)) ms now)
    ∷ rates_from previous ms counters

-- `traffic_rates`. The clock never runs backwards.
unfoldable pub traffic_rates : Option TrafficSample → TrafficSample → Dict InterfaceTraffic
unfolding rates_from
traffic_rates previous current =
    rates_from previous (then_of previous (λ p. some (current.sampled_at - p.sampled_at)))
      current.counters

-- What an SNMP endpoint gives; V are the values that this coordinator only passes on.
pub data SnmpValue (V : Type 0) : Type 0 where
  sample : TrafficSample → SnmpValue V
  traffic : Dict InterfaceTraffic → SnmpValue V
  health : SystemHealth → SnmpValue V
  other : V → SnmpValue V

-- What the coordinator keeps for its hooks.
pub record Own : Type 0 where
  pub is_virtual : Option Bool
  pub empty_health_reads : ℕ
  pub traffic_sample : Option TrafficSample

module _ {V : Type 0} where
  prepare_sample : Own → Option (SnmpValue V) → Dict (SnmpValue V) → Dict (SnmpValue V) × Own
  unfolding traffic_rates
  prepare_sample own (some (sample s)) updates = (
    Dict.put "traffic" (traffic (traffic_rates own.traffic_sample s)) updates,
    record own { traffic_sample = some s },
  )
  prepare_sample own value updates = (updates, own)

  -- `_prepare`
  unfoldable pub prepare : Own → Dict (SnmpValue V) → Dict (SnmpValue V) × Own
  unfolding prepare_sample
  prepare own updates = prepare_sample own (Dict.get "traffic" updates) updates

-- `_after_update` for one health read: the new state and whether health polling stops.
unfoldable pub read_health : SystemHealth → Own → Own × Bool
unfolding has_hardware_sensors
read_health h own =
    let reads = own.empty_health_reads + 1 in
    if is_some own.is_virtual
    then (own, false)
    else if has_hardware_sensors h
    then (record own { is_virtual = some false }, false)
    else if leb 3 reads
    then (record own { is_virtual = some true; empty_health_reads = reads }, true)
    else (record own { empty_health_reads = reads }, false)

module _ {V : Type 0} where
  after_health : Option (SnmpValue V) → Own → Own × List String
  unfolding read_health
  after_health (some (health h)) own =
      let (own', stop) = read_health h own in (own', if stop then "health" ∷ [] else [])
  after_health value own = (own, [])

  -- `_after_update`
  unfoldable pub after_update : Own → Dict (SnmpValue V) → Own × List String
  unfolding after_health
  after_update own updates = after_health (Dict.get "health" updates) own

  -- `is_connection` is `isinstance(exc, SophosSNMPError)`.
  unfoldable pub snmp_source : {E : Type 0} → (E → Bool) → Source (SnmpValue V) E Own
  unfolding prepare after_update
  snmp_source is_connection = record {
    endpoints = snmp_endpoints;
    is_connection = is_connection;
    handle = λ retry f. (ok f, []);
    prepare = prepare;
    after_update = after_update;
    empty = [];
  }
