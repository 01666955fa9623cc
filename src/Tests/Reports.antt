-- ===== src/Tests/Reports.antt =====
-- The diagnostics of a server with one lease.
use ha_sophos_fw.Prelude.{String, ◌≡◌, refl, none, some, List, [], ◌∷◌, map}
use ha_sophos_fw.Prelude.Dict
use ha_sophos_fw.Prelude.Dict.{Dict}
use ha_sophos_fw.Models.Xml.{XmlData, DhcpServer}
use ha_sophos_fw.Diagnostics.{data_report}
use ha_sophos_fw.Diagnostics.Laws.{changed, changed-data_report}

abbrev lan : DhcpServer
lan = record {
  name = "LAN";
  running = none;
  interface = some "PortA";
  default_lease_time = none;
  max_lease_time = none;
  static_leases = (("mac", "00:11:22:33:44:55") ∷ ("hostname", "tv") ∷ []) ∷ [];
}

abbrev polled : XmlData
polled = record {
  interfaces = none;
  firewall_rules = none;
  web_filter_policies = none;
  dhcp_servers = some (("LAN", lan) ∷ []);
  backup = none;
  admin = none;
  wireless_networks = none;
}

-- Every value becomes "hidden".
abbrev hidden : Dict String → Dict String
hidden [] = []
hidden ((key, value) ∷ fields) = (key, "hidden") ∷ hidden fields

abbrev all_hidden : List (Dict String) → List (Dict String)
all_hidden [] = []
all_hidden (lease ∷ leases) = hidden lease ∷ all_hidden leases

hidden-keys : (lease : Dict String) → Dict.keys (hidden lease) ≡ Dict.keys lease
hidden-keys [] = refl
hidden-keys ((key, value) ∷ fields) = rw (hidden-keys fields) refl

all_hidden_lem :
    (leases : List (Dict String))
    → map (λ lease. Dict.keys lease) (all_hidden leases) ≡ map (λ lease. Dict.keys lease) leases
all_hidden_lem [] = refl
all_hidden_lem (lease ∷ leases) = rw (hidden-keys lease, all_hidden_lem leases) refl

changed-data_report_example :
    data_report (some (changed all_hidden polled)) ≡ data_report (some polled)
changed-data_report_example = changed-data_report all_hidden all_hidden_lem polled
