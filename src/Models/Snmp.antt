-- ===== src/Models/Snmp.antt =====
-- The SNMP half of custom_components/sophos_firewall/models.py, as far as the coordinators use it.
-- Temperatures are in tenths of °C.
use ha_sophos_fw.Prelude.{String, ℕ, Bool, not, ◌||◌, Option, is_some, is_nil}
use ha_sophos_fw.Prelude.Dict.{Dict}

pub record SystemHealth : Type 0 where
  pub cpu_temperature_c : Option ℕ
  pub npu_temperature_c : Option ℕ
  pub fans : Dict (Option ℕ)
  pub psus : Dict (Option Bool)

unfoldable pub has_hardware_sensors : SystemHealth → Bool
has_hardware_sensors h =
    is_some h.cpu_temperature_c
    || is_some h.npu_temperature_c
    || not (is_nil h.fans)
    || not (is_nil h.psus)

pub record InterfaceCounters : Type 0 where
  pub in_octets : Option ℕ
  pub out_octets : Option ℕ

-- `sampled_at` is a time in milliseconds.
pub record TrafficSample : Type 0 where
  pub sampled_at : ℕ
  pub counters : Dict InterfaceCounters

-- Rates are in tenths of a bit per second.
pub record InterfaceTraffic : Type 0 where
  pub in_octets : Option ℕ
  pub out_octets : Option ℕ
  pub in_bps : Option ℕ
  pub out_bps : Option ℕ

pub record DeviceInfo : Type 0 where
  pub name : Option String
  pub model : Option String
  pub firmware : Option String
  pub serial : Option String
  pub webcat_version : Option String
  pub ips_version : Option String

pub record SystemStats : Type 0 where
  pub current_date : Option String
  pub uptime_seconds : Option ℕ
  pub disk_capacity_mb : Option ℕ
  pub disk_percent : Option ℕ
  pub memory_capacity_mb : Option ℕ
  pub memory_percent : Option ℕ
  pub swap_capacity_mb : Option ℕ
  pub swap_percent : Option ℕ
  pub live_users : Option ℕ
  pub http_hits : Option ℕ
  pub ftp_hits : Option ℕ
  pub smtp_hits : Option ℕ
  pub imap_hits : Option ℕ
  pub pop3_hits : Option ℕ

pub record VpnTunnel : Type 0 where
  pub index : String
  pub name : String
  pub conn_status : Option ℕ
  pub activated : Option ℕ
  pub tunnels_configured : Option ℕ

pub record HaStatus : Type 0 where
  pub enabled : Option Bool
  pub current_state : Option ℕ
  pub peer_state : Option ℕ

pub record License : Type 0 where
  pub key : String
  pub name : String
  pub status_code : Option ℕ
  pub expiry_date : Option String

pub record InterfaceLink : Type 0 where
  pub admin_status : Option ℕ
  pub oper_status : Option ℕ

pub record AccessPoint : Type 0 where
  pub name : String
  pub model : Option String
  pub ip_address : Option String
  pub connected : Option Bool
  pub clients : Option ℕ

-- Powers are in milliwatts.
pub record PoePort : Type 0 where
  pub label : String
  pub enabled : Option Bool
  pub usage_w : Option ℕ
  pub limit_w : Option ℕ

-- One field for each endpoint of the SNMP coordinator.
pub record SnmpData : Type 0 where
  pub device : Option DeviceInfo
  pub stats : Option SystemStats
  pub services : Option (Dict (Option ℕ))
  pub licenses : Option (Dict License)
  pub tunnels : Option (Dict VpnTunnel)
  pub health : Option SystemHealth
  pub ha : Option HaStatus
  pub cpu : Option (Dict (Option ℕ))
  pub traffic : Option (Dict InterfaceTraffic)
  pub links : Option (Dict InterfaceLink)
  pub access_points : Option (Dict AccessPoint)
  pub poe : Option (Dict PoePort)
