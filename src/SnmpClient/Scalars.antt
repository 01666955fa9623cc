-- ===== src/SnmpClient/Scalars.antt =====
-- The data that snmp_client.py builds from scalar objects; `raw` is the answer of `_multiget`.
use ha_sophos_fw.Prelude.{ℕ, String, Bool, Option, none, some, eqb}
use ha_sophos_fw.Models.Snmp.{DeviceInfo, SystemStats, HaStatus}
use ha_sophos_fw.SnmpClient.{Raw, to_int, to_str, to_value_str, timeticks_to_seconds}

-- The objects, by the names of their OIDs in const.py.
pub data Scalar : Type 0 where
  device_name device_type device_fw_version device_app_key webcat_version ips_version : Scalar
  current_date uptime disk_capacity disk_percent memory_capacity memory_percent swap_capacity :
      Scalar
  swap_percent live_users http_hits ftp_hits smtp_hits imap_hits pop3_hits : Scalar
  ha_status ha_current_state ha_peer_state : Scalar

module _ (show : Raw → String) (raw : Scalar → Raw) where
  unfoldable pub get_device_info : DeviceInfo
  get_device_info = record {
    name = to_str show (raw device_name);
    model = to_str show (raw device_type);
    firmware = to_value_str show (raw device_fw_version);
    serial = to_value_str show (raw device_app_key);
    webcat_version = to_value_str show (raw webcat_version);
    ips_version = to_value_str show (raw ips_version);
  }

  unfoldable pub get_stats : SystemStats
  get_stats = record {
    current_date = to_str show (raw current_date);
    uptime_seconds = timeticks_to_seconds show (raw uptime);
    disk_capacity_mb = to_int show (raw disk_capacity);
    disk_percent = to_int show (raw disk_percent);
    memory_capacity_mb = to_int show (raw memory_capacity);
    memory_percent = to_int show (raw memory_percent);
    swap_capacity_mb = to_int show (raw swap_capacity);
    swap_percent = to_int show (raw swap_percent);
    live_users = to_int show (raw live_users);
    http_hits = to_int show (raw http_hits);
    ftp_hits = to_int show (raw ftp_hits);
    smtp_hits = to_int show (raw smtp_hits);
    imap_hits = to_int show (raw imap_hits);
    pop3_hits = to_int show (raw pop3_hits);
  }

  is_one : Option ℕ → Option Bool
  is_one none = none
  is_one (some n) = some (eqb n 1)

  unfoldable pub get_ha_status : HaStatus
  unfolding is_one
  get_ha_status = record {
    enabled = is_one (to_int show (raw ha_status));
    current_state = to_int show (raw ha_current_state);
    peer_state = to_int show (raw ha_peer_state);
  }
