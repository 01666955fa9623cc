-- ===== src/Diagnostics/Laws.antt =====
-- What the diagnostics tell of the static leases.
use ha_sophos_fw.Prelude.{
  suc, String, ◌≡◌, refl, ap, ◌||◌, Option, none, some, List, [], ◌∷◌, map, contains, length,
  any_of, ◌==◌, arith, eq_iff, ◌∙◌,
}
use ha_sophos_fw.Prelude.Dict
use ha_sophos_fw.Prelude.Dict.{Dict}
use ha_sophos_fw.Models.Xml.{XmlData, DhcpServer}
use ha_sophos_fw.Sensor.Summary.{sort, sort_into, insert_sorted, text_before}
use ha_sophos_fw.Diagnostics.{
  LeaseShape, add_all, field_names, lease_shape, server_report, reports_of, servers_report,
  data_report,
}

contains-insert_sorted :
    (x k : String) (l : List String)
    → contains (insert_sorted text_before x l) k ≡ ((x == k) || contains l k)
unfolding insert_sorted
contains-insert_sorted x k [] = ground arith
contains-insert_sorted x k (y ∷ l) = ground (arith, contains-insert_sorted x k l)

contains-sort_into :
    (k : String) (l sorted : List String)
    → contains (sort_into text_before l sorted) k ≡ (contains l k || contains sorted k)
unfolding sort_into
contains-sort_into k [] sorted = refl
contains-sort_into k (x ∷ l) sorted = ground (
  arith,
  contains-sort_into k l (insert_sorted text_before x sorted),
  contains-insert_sorted x k sorted,
)

contains-sort : (k : String) (l : List String) → contains (sort text_before l) k ≡ contains l k
unfolding sort
contains-sort k l = ground (arith, contains-sort_into k l [])

contains-add_all :
    (k : String) (ks seen : List String)
    → contains (add_all ks seen) k ≡ (contains ks k || contains seen k)
unfolding add_all
contains-add_all k [] seen = refl
contains-add_all k (j ∷ ks) seen =
    ground (arith, contains-add_all k ks seen, contains-add_all j ks seen, eq_iff j k)

contains-field_names :
    (k : String) (leases : List (Dict String))
    → contains (field_names leases) k ≡ any_of (λ lease. contains (Dict.keys lease) k) leases
unfolding field_names
contains-field_names k [] = refl
contains-field_names k (lease ∷ leases) = ground (
  arith,
  contains-field_names k leases,
  contains-add_all k (Dict.keys lease) (field_names leases),
)

-- The report of a server's leases names a field if and only if some lease has it.
pub fields-lease_shape :
    (leases : List (Dict String)) (k : String)
    → contains (lease_shape leases).fields k ≡ any_of (λ lease. contains (Dict.keys lease) k) leases
unfolding lease_shape
fields-lease_shape leases k = contains-sort k (field_names leases) ∙ contains-field_names k leases

-- The names, as a function of the fields of each lease.
names_of : List (List String) → List String
names_of [] = []
names_of (ks ∷ rest) = add_all ks (names_of rest)

field_names-names_of :
    (leases : List (Dict String))
    → field_names leases ≡ names_of (map (λ lease. Dict.keys lease) leases)
unfolding field_names names_of
field_names-names_of [] = refl
field_names-names_of (lease ∷ leases) = ap (add_all (Dict.keys lease)) (field_names-names_of leases)

length-fields :
    (leases : List (Dict String)) → length leases ≡ length (map (λ lease. Dict.keys lease) leases)
length-fields [] = refl
length-fields (lease ∷ leases) = ap suc (length-fields leases)

abbrev shape_from : List (List String) → LeaseShape
shape_from fields = record { count = length fields; fields = sort text_before (names_of fields) }

shape_from-lease_shape :
    (leases : List (Dict String))
    → lease_shape leases ≡ shape_from (map (λ lease. Dict.keys lease) leases)
unfolding lease_shape
shape_from-lease_shape leases = rw (field_names-names_of leases, length-fields leases) refl

-- The data after a change of the leases of every server.
module _ (change : List (Dict String) → List (Dict String)) where
  abbrev pub changed_server : DhcpServer → DhcpServer
  changed_server s = record s { static_leases = change s.static_leases }

  abbrev pub changed_all : Dict DhcpServer → Dict DhcpServer
  changed_all [] = []
  changed_all ((key, server) ∷ servers) = (key, changed_server server) ∷ changed_all servers

  abbrev pub changed_servers : Option (Dict DhcpServer) → Option (Dict DhcpServer)
  changed_servers none = none
  changed_servers (some servers) = some (changed_all servers)

  abbrev pub changed : XmlData → XmlData
  changed d = record d { dhcp_servers = changed_servers d.dhcp_servers }

module _ (change : List (Dict String) → List (Dict String))
    (same_fields : (leases : List (Dict String))
      → map (λ lease. Dict.keys lease) (change leases)
        ≡ map (λ lease. Dict.keys lease) leases) where
  same_shape : (leases : List (Dict String)) → lease_shape (change leases) ≡ lease_shape leases
  same_shape leases =
      rw (shape_from-lease_shape (change leases), shape_from-lease_shape leases, same_fields leases)
        refl

  same_server : (s : DhcpServer) → server_report (changed_server change s) ≡ server_report s
  unfolding server_report
  same_server s = rw (same_shape s.static_leases) refl

  same_servers :
      (servers : Dict DhcpServer) → reports_of (changed_all change servers) ≡ reports_of servers
  unfolding reports_of
  same_servers [] = refl
  same_servers ((k, s) ∷ servers) = rw (same_server s, same_servers servers) refl

  same_report :
      (o : Option (Dict DhcpServer)) → servers_report (changed_servers change o) ≡ servers_report o
  unfolding servers_report
  same_report none = refl
  same_report (some servers) = rw (same_servers servers) refl

  -- What stands in the fields of the static leases does not reach the diagnostics: they stay the same when
  -- the leases change and keep their number and the names of their fields.
  pub changed-data_report :
      (d : XmlData) → data_report (some (changed change d)) ≡ data_report (some d)
  unfolding data_report
  changed-data_report d = rw (same_report d.dhcp_servers) refl
