-- ===== src/SnmpClient/Modules.antt =====
-- The services and the subscription modules (const.py: SERVICE_OIDS, LICENSE_OIDS; snmp_client.py:
-- get_services, get_licenses). The value of an object is given by its service's or its module's key.
use ha_sophos_fw.Prelude.{ℕ, String, Option, [], ◌∷◌, map}
use ha_sophos_fw.Prelude.Dict.{Dict}
use ha_sophos_fw.Models.Snmp.{License}
use ha_sophos_fw.SnmpClient.{Raw, to_int, to_value_str}

-- The friendly names of SERVICE_OIDS.
abbrev pub service_names : Dict String
service_names =
    ("pop3", "POP3")
    ∷ ("imap", "IMAP")
    ∷ ("smtp", "SMTP")
    ∷ ("ftp", "FTP")
    ∷ ("http", "HTTP-Proxy")
    ∷ ("av", "Antivirus")
    ∷ ("antispam", "Anti-Spam")
    ∷ ("dns", "DNS")
    ∷ ("ha_svc", "HA-Service")
    ∷ ("ips", "IPS")
    ∷ ("apache", "Apache")
    ∷ ("ntp", "NTP")
    ∷ ("tomcat", "Tomcat")
    ∷ ("ssl_vpn", "SSL-VPN")
    ∷ ("ipsec_vpn", "IPSec-VPN")
    ∷ ("database", "Database")
    ∷ ("network", "Network")
    ∷ ("garner", "Garner")
    ∷ ("drouting", "Dynamic Routing")
    ∷ ("sshd", "SSH")
    ∷ ("dgd", "DGD")
    ∷ []

-- The friendly names of LICENSE_OIDS.
abbrev pub license_names : Dict String
license_names =
    ("base_fw", "Base Firewall")
    ∷ ("net_protect", "Network Protection")
    ∷ ("web_protect", "Web Protection")
    ∷ ("mail_protect", "Email Protection")
    ∷ ("web_server", "Web Server Protection")
    ∷ ("sandstorm", "Zero-Day Protection")
    ∷ ("enh_support", "Enhanced Support")
    ∷ ("enh_plus", "Enhanced Plus Support")
    ∷ ("central_orch", "Central Orchestration")
    ∷ []

module _ (show : Raw → String) where
  unfoldable pub get_services : (String → Raw) → Dict (Option ℕ)
  get_services raw = map (λ e. (e.0, to_int show (raw e.0))) service_names

  unfoldable pub get_licenses : (String → Raw) → (String → Raw) → Dict License
  get_licenses status expiry =
      map
        (λ e. (
          e.0,
          record {
            key = e.0;
            name = e.1;
            status_code = to_int show (status e.0);
            expiry_date = to_value_str show (expiry e.0);
          },
        ))
        license_names
