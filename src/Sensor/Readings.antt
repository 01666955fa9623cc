-- ===== src/Sensor/Readings.antt =====
-- Sensors that show a value of the SNMP agent (sensor.py: SNMP_SENSORS, HARDWARE_SENSORS,
-- VERSION_SENSORS, TRAFFIC_SENSORS, fans, processor load, access points, PoE ports).
pub mod Laws
use ha_sophos_fw.Prelude.{
  ℕ, zero, suc, ◌+◌, ◌-◌, ◌*◌, ◌/◌, ◌%◌, ◌≤◌, ◌<◌, String, ◌≡◌, refl, sym, ap, ◌∙◌, ◌≢◌, ◌↔◌, ◌⊎◌,
  inl, inr, Bool, true, false, not, ◌&&◌, ◌||◌, Option, none, some, List, [], ◌∷◌, ◌++◌, map, arith,
  ◌==◌, eq_iff, eq_refl, ltb, leb, eqb, if◌then◌else◌, leb→le, ltb→lt, eqb_iff, Bool-cases,
  Option-cases, or_else, is_some, get_or, ne→false, length, is_nil, keep_if, any_of, all_of,
  first_where, All, contains, Distinct,
}
use ha_sophos_fw.Prelude.Dict
use ha_sophos_fw.Prelude.Dict.{Dict}
use ha_sophos_fw.Text.{append}
use ha_sophos_fw.Models.Snmp.{
  SnmpData, SystemStats, SystemHealth, DeviceInfo, InterfaceTraffic, AccessPoint, PoePort,
}
use ha_sophos_fw.Coordinator.Snmp.{round_div}

-- What a sensor shows: a number, a temperature in tenths of °C, or a text.
pub data Shown : Type 0 where
  count tenths : ℕ → Shown
  text : String → Shown

abbrev pub shown : {A : Type 0} → (A → Shown) → Option A → Option Shown
shown as_shown none = none
shown as_shown (some a) = some (as_shown a)

abbrev pub field_of : {A B : Type 0} → (A → Option B) → Option A → Option B
field_of field none = none
field_of field (some a) = field a

-- A sensor's description, as far as it says what is shown; names, units and classes for the frontend are
-- left out.
pub record Description : Type 0 where
  pub key : String
  pub endpoint : String
  pub value : SnmpData → Option Shown

-- `_stat`
unfoldable pub stat : (SystemStats → Option ℕ) → SnmpData → Option Shown
stat field d = shown count (field_of field d.stats)

on_stats : String → (SystemStats → Option ℕ) → Description
unfolding stat
on_stats key field = record { key = key; endpoint = "stats"; value = stat field }

unfoldable pub snmp_sensors : List Description
unfolding on_stats
snmp_sensors =
    on_stats "memory_percent" (λ s. s.memory_percent)
    ∷ on_stats "disk_percent" (λ s. s.disk_percent)
    ∷ on_stats "swap_percent" (λ s. s.swap_percent)
    ∷ on_stats "http_hits" (λ s. s.http_hits)
    ∷ on_stats "smtp_hits" (λ s. s.smtp_hits)
    ∷ on_stats "ftp_hits" (λ s. s.ftp_hits)
    ∷ on_stats "imap_hits" (λ s. s.imap_hits)
    ∷ on_stats "pop3_hits" (λ s. s.pop3_hits)
    ∷ on_stats "live_users" (λ s. s.live_users)
    ∷ []

unfoldable pub hardware_sensors : List Description
hardware_sensors =
    record {
      key = "cpu_temperature";
      endpoint = "health";
      value = λ d. shown tenths (field_of (λ (h : SystemHealth). h.cpu_temperature_c) d.health);
    }
    ∷ record {
      key = "npu_temperature";
      endpoint = "health";
      value = λ d. shown tenths (field_of (λ (h : SystemHealth). h.npu_temperature_c) d.health);
    }
    ∷ []

unfoldable pub version_sensors : List Description
version_sensors =
    record {
      key = "ips_version";
      endpoint = "device";
      value = λ d. shown text (field_of (λ (i : DeviceInfo). i.ips_version) d.device);
    }
    ∷ record {
      key = "webcat_version";
      endpoint = "device";
      value = λ d. shown text (field_of (λ (i : DeviceInfo). i.webcat_version) d.device);
    }
    ∷ []

-- `_present`: the suffixes of the sensor, once its value was reported.
unfoldable pub present : Description → SnmpData → List String
present desc d = if is_some (desc.value d) then append "sensor_" desc.key ∷ [] else []

abbrev pub known : {A : Type 0} → List (Option A) → List A
known [] = []
known (none ∷ l) = known l
known (some a ∷ l) = a ∷ known l

abbrev pub sum : List ℕ → ℕ
sum [] = 0
sum (n ∷ l) = n + sum l

average : List ℕ → Option ℕ
average [] = none
average (n ∷ l) = some (round_div (10 * sum (n ∷ l)) (length (n ∷ l)))

-- `SophosCpuUsageSensor.native_value`, in tenths of a percent.
unfoldable pub cpu_usage : SnmpData → Option ℕ
unfolding average
cpu_usage d = average (known (map (λ e. e.1) (get_or d.cpu [])))

abbrev pub flat : {A : Type 0} → Option (Option A) → Option A
flat none = none
flat (some o) = o

-- `SophosCpuCoreSensor.native_value`
unfoldable pub cpu_core : SnmpData → String → Option ℕ
cpu_core d core = flat (Dict.get core (get_or d.cpu []))

-- `SophosFanSensor.native_value`
unfoldable pub fan_speed : SnmpData → String → Option ℕ
fan_speed d key = flat (field_of (λ (h : SystemHealth). some (flat (Dict.get key h.fans))) d.health)

-- The four values of TRAFFIC_SENSORS; rates in tenths of a bit per second.
unfoldable pub traffic_value : (InterfaceTraffic → Option ℕ) → SnmpData → String → Option ℕ
traffic_value value d name = field_of value (Dict.get name (get_or d.traffic []))

-- `SophosAccessPointClientsSensor.native_value`
unfoldable pub access_point_clients : SnmpData → String → Option ℕ
access_point_clients d name =
    field_of (λ (a : AccessPoint). a.clients) (Dict.get name (get_or d.access_points []))

-- `SophosPoeSensor.native_value`, in milliwatts.
unfoldable pub poe_power : SnmpData → String → Option ℕ
poe_power d label = field_of (λ (p : PoePort). p.usage_w) (Dict.get label (get_or d.poe []))
