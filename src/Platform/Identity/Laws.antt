-- ===== src/Platform/Identity/Laws.antt =====
-- A family counts an entity under the suffix that the entity has.
use ha_sophos_fw.Prelude.{
  String, ◌≡◌, refl, ap, ◌∙◌, inl, inr, Bool, ◌||◌, Option, none, some, List, [], ◌∷◌, map, false,
  ◌==◌, eq_iff, Bool-cases, is_some, All,
}
use ha_sophos_fw.Prelude.Dict
use ha_sophos_fw.Prelude.Dict.{Dict}
use ha_sophos_fw.Text.{append}
use ha_sophos_fw.Models.Xml.{
  XmlData, Interface, FirewallRule, WebFilterPolicy, DhcpServer, WirelessNetwork,
}
use ha_sophos_fw.Models.Snmp.{VpnTunnel, AccessPoint, PoePort}
use ha_sophos_fw.Entity.Items.{prefixed, keyed, rule_items, policy_items, wlan_items, dhcp_items}
use ha_sophos_fw.Client.Records.{keep_first, by_name_from, by_name}
use ha_sophos_fw.SnmpClient.{Raw}
use ha_sophos_fw.SnmpClient.Table.{
  int_at, str_at, table_column, sort_indexes, tunnel_at, tunnels_from, vpn_tunnels,
}
use ha_sophos_fw.SnmpClient.Rows.{
  code_is, compound_column, named_rows, add_named, get_access_points, get_poe,
}
use ha_sophos_fw.Platform.Families.{Member}
use ha_sophos_fw.Platform.Setups.{switch_members, binary_members}
use ha_sophos_fw.Platform.Sensors.{dhcp_members}
use ha_sophos_fw.Platform.Identity.{
  Identity, rule_switch, policy_switch, network_switch, interface_sensor, rule_sensor,
  network_sensor, tunnel_sensor, access_point_sensor, dhcp_sensor, clients_sensor, poe_sensor,
}

-- Each item stands under its own name.
pub record Named {V : Type 0} (name : V → String) (d : Dict V) : Type 0 where
  pub own : All (λ e. e.0 ≡ name e.1) d

none-Named : {V : Type 0} (name : V → String) → Named name []
none-Named name = record { own = tt }

module _ {V : Type 0} (name : V → String) where
  put-Named :
      (k : String) (v : V) (d : Dict V) → k ≡ name v → Named name d → Named name (Dict.put k v d)
  unfolding Dict.put
  put-Named k v [] h all = record { own = (h, tt) }
  put-Named k v ((j, w) ∷ d) h all = elim (Bool-cases (j == k)) [
    | inl e ↦ rw e (record { own = ((eq_iff j k).0 e ∙ h, all.own.1) })
    | inr e ↦
        let rest = put-Named k v d h (record { own = all.own.1 }) in
        rw e (record { own = (all.own.0, rest.own) })
  ]

  by_name_from-Named :
      (items : List (Option V)) (d : Dict V) → Named name d → Named name (by_name_from name items d)
  unfolding by_name_from keep_first
  by_name_from-Named [] d h = h
  by_name_from-Named (none ∷ items) d h = by_name_from-Named items d h
  by_name_from-Named (some v ∷ items) d h = elim (Bool-cases (is_some (Dict.get (name v) d))) [
    | inl e ↦ rw e (by_name_from-Named items d h)
    | inr e ↦
        rw e (by_name_from-Named items (Dict.put (name v) v d) (put-Named (name v) v d refl h))
  ]

  pub by_name-Named : (items : List (Option V)) → Named name (by_name name items)
  unfolding by_name
  by_name-Named items = by_name_from-Named items [] (none-Named name)

  prefixed-Named :
      (prefix : String) (d : Dict V)
      → Named name d
      → Named (λ v. append prefix (name v)) (prefixed prefix d)
  prefixed-Named prefix [] h = record { own = tt }
  prefixed-Named prefix ((k, v) ∷ d) h =
      let rest = prefixed-Named prefix d (record { own = h.own.1 }) in
      record { own = (ap (append prefix) h.own.0, rest.own) }

  add_named-Named :
      (skip : String → Bool) (row : String → String → V)
      → ((index n : String) → n ≡ name (row index n))
      → (o : Option String) (index : String) (d : Dict V) → Named name d
      → Named name (add_named skip row o index d)
  unfolding add_named
  add_named-Named skip row own none index d h = h
  add_named-Named skip row own (some n) index d h =
      elim (Bool-cases (skip n || is_some (Dict.get n d))) [
        | inl e ↦ rw e h
        | inr e ↦ rw e (put-Named n (row index n) d (own index n) h)
      ]

  named_rows-Named :
      (skip : String → Bool) (row : String → String → V) (name_at : String → Option String)
      → ((index n : String) → n ≡ name (row index n))
      → (indexes : List String) (d : Dict V) → Named name d
      → Named name (named_rows skip row name_at indexes d)
  unfolding named_rows
  named_rows-Named skip row name_at own [] d h = h
  named_rows-Named skip row name_at own (i ∷ is) d h =
      named_rows-Named skip row name_at own is (add_named skip row (name_at i) i d)
        (add_named-Named skip row own (name_at i) i d h)

tunnel_at-Named :
    (show : Raw → String) (configured status activated : Dict Raw) (index : String)
    (o : Option String) (d : Dict VpnTunnel)
    → Named (λ t. t.index) d
    → Named (λ t. t.index) (tunnel_at show configured status activated index o d)
unfolding tunnel_at
tunnel_at-Named show configured status activated index none d h = h
tunnel_at-Named show configured status activated index (some name) d h =
    put-Named (λ t. t.index) index _ d refl h

tunnels_from-Named :
    (show : Raw → String) (names configured status activated : Dict Raw) (is : List String)
    (d : Dict VpnTunnel)
    → Named (λ t. t.index) d
    → Named (λ t. t.index) (tunnels_from show names configured status activated is d)
unfolding tunnels_from
tunnels_from-Named show names configured status activated [] d h = h
tunnels_from-Named show names configured status activated (i ∷ is) d h =
    tunnels_from-Named show names configured status activated is
      (tunnel_at show configured status activated i (str_at show i names) d)
      (tunnel_at-Named show configured status activated i (str_at show i names) d h)

vpn_tunnels-Named :
    (show : Raw → String) (table : String) (objects : Dict Raw)
    → Named (λ t. t.index) (vpn_tunnels show table objects)
unfolding vpn_tunnels
vpn_tunnels-Named show table objects =
    let names = table_column objects table "2" in
    tunnels_from-Named show names (table_column objects table "8") (table_column objects table "9")
      (table_column objects table "10") (sort_indexes (Dict.keys names)) []
      (none-Named (λ t. t.index))

access_points-Named :
    (show : Raw → String) (ip_str : Option Raw → Option String) (table : String)
    (objects : Dict Raw)
    → Named (λ a. a.name) (get_access_points show ip_str table objects)
unfolding get_access_points
access_points-Named show ip_str table objects =
    let names = compound_column objects table "1" in
    let models = compound_column objects table "2" in
    let ips = compound_column objects table "3" in
    let status = compound_column objects table "5" in
    let clients = compound_column objects table "6" in
    named_rows-Named (λ (a : AccessPoint). a.name) (λ name. false)
      (λ index name. record {
        name = name;
        model = str_at show index models;
        ip_address = ip_str (Dict.get index ips);
        connected = code_is show 0 (int_at show index status);
        clients = int_at show index clients;
      })
      (λ index. str_at show index names) (λ index n. refl) (Dict.keys names) []
      (none-Named (λ a. a.name))

poe-Named :
    (show : Raw → String) (table : String) (objects : Dict Raw)
    → Named (λ p. p.label) (get_poe show table objects)
unfolding get_poe
poe-Named show table objects =
    let labels = table_column objects table "2" in
    let enabled = table_column objects table "3" in
    let limit = table_column objects table "4" in
    let usage = table_column objects table "5" in
    named_rows-Named (λ (p : PoePort). p.label) (λ label. false)
      (λ index label. record {
        label = label;
        enabled = code_is show 1 (int_at show index enabled);
        usage_w = int_at show index usage;
        limit_w = int_at show index limit;
      })
      (λ index. str_at show index labels) (λ index n. refl) (sort_indexes (Dict.keys labels)) []
      (none-Named (λ p. p.label))

-- What the reads of the XML client give for the records of its answers.
abbrev pub read_data :
    List (Option Interface)
    → List (Option FirewallRule)
    → List (Option WebFilterPolicy)
    → List (Option WirelessNetwork)
    → List (Option DhcpServer)
    → XmlData
read_data interfaces rules policies networks servers = record {
  interfaces = some (by_name (λ i. i.name) interfaces);
  firewall_rules = some (by_name (λ r. r.name) rules);
  web_filter_policies = some (by_name (λ p. p.name) policies);
  dhcp_servers = some (by_name (λ d. d.name) servers);
  backup = none;
  admin = none;
  wireless_networks = some (by_name (λ n. n.hardware_name) networks);
}

-- The suffixes of the entities for the values of a dict.
abbrev pub suffixes_of : {V : Type 0} → (V → Identity) → Dict V → Option (List String)
suffixes_of identity items = some (map (λ e. (identity e.1).suffix) items)

-- The suffixes under which families list their items.
abbrev pub listed : XmlData → List (Member XmlData) → List (Option (List String))
listed d members = map (λ m. m.items d) members

keys-prefixed :
    {V : Type 0} (name : V → String) (prefix : String) (d : Dict V)
    → Named name d
    → Dict.keys (prefixed prefix d) ≡ map (λ e. append prefix (name e.1)) d
keys-prefixed name prefix [] h = refl
keys-prefixed name prefix ((k, v) ∷ d) h =
    let rest = keys-prefixed name prefix d (record { own = h.own.1 }) in rw (h.own.0, rest) refl

keys-by_name :
    {V : Type 0} (name : V → String) (prefix : String) (items : List (Option V))
    → Dict.keys (prefixed prefix (by_name name items))
      ≡ map (λ e. append prefix (name e.1)) (by_name name items)
keys-by_name name prefix items =
    keys-prefixed name prefix (by_name name items) (by_name-Named name items)

-- Whatever records the firewall sends, the families of the XML client's data list exactly the suffixes
-- that their entities have, in the order of the data: those of the switches, of the binary sensors
-- without write access, and of the sensors.
pub own_suffixes_xml :
    (interfaces : List (Option Interface)) (rules : List (Option FirewallRule))
    (policies : List (Option WebFilterPolicy)) (networks : List (Option WirelessNetwork))
    (servers : List (Option DhcpServer))
    → let d = read_data interfaces rules policies networks servers in
      (listed d switch_members ≡ (
        suffixes_of rule_switch (by_name (λ r. r.name) rules)
        ∷ suffixes_of policy_switch (by_name (λ p. p.name) policies)
        ∷ suffixes_of network_switch (by_name (λ n. n.hardware_name) networks)
        ∷ []))
      × (listed d (binary_members false) ≡ (
          suffixes_of interface_sensor (by_name (λ i. i.name) interfaces)
          ∷ suffixes_of rule_sensor (by_name (λ r. r.name) rules)
          ∷ suffixes_of network_sensor (by_name (λ n. n.hardware_name) networks)
          ∷ []))
      × (listed d dhcp_members ≡ suffixes_of dhcp_sensor (by_name (λ d. d.name) servers) ∷ [])
unfolding interface_sensor rule_sensor rule_switch policy_switch network_sensor network_switch
    dhcp_sensor switch_members binary_members rule_items policy_items wlan_items dhcp_items keyed
own_suffixes_xml interfaces rules policies networks servers = (
  rw
      (
        keys-by_name (λ (r : FirewallRule). r.name) "switch_fwrule_" rules,
        keys-by_name (λ (p : WebFilterPolicy). p.name) "switch_webfilter_" policies,
        keys-by_name (λ (n : WirelessNetwork). n.hardware_name) "switch_wlan_" networks,
      )
      refl,
  rw
      (
        keys-by_name (λ (i : Interface). i.name) "iface_" interfaces,
        keys-by_name (λ (r : FirewallRule). r.name) "fwrule_" rules,
        keys-by_name (λ (n : WirelessNetwork). n.hardware_name) "wlan_" networks,
      )
      refl,
  rw (keys-by_name (λ (d : DhcpServer). d.name) "dhcp_leases_" servers) refl,
)

-- What the SNMP client reads stands under the suffixes that the entities have.
pub own_suffixes_snmp :
    (show : Raw → String) (ip_str : Option Raw → Option String) (table : String)
    (objects : Dict Raw)
    → Named (λ t. (tunnel_sensor t).suffix) (prefixed "vpn_" (vpn_tunnels show table objects))
      × Named
          (λ a. (access_point_sensor a).suffix)
          (prefixed "ap_" (get_access_points show ip_str table objects))
      × Named
          (λ a. (clients_sensor a).suffix)
          (prefixed "ap_clients_" (get_access_points show ip_str table objects))
      × Named (λ p. (poe_sensor p).suffix) (prefixed "poe_" (get_poe show table objects))
unfolding tunnel_sensor access_point_sensor clients_sensor poe_sensor
own_suffixes_snmp show ip_str table objects = (
  prefixed-Named (λ t. t.index) "vpn_" _ (vpn_tunnels-Named show table objects),
  prefixed-Named (λ a. a.name) "ap_" _ (access_points-Named show ip_str table objects),
  prefixed-Named (λ a. a.name) "ap_clients_" _ (access_points-Named show ip_str table objects),
  prefixed-Named (λ p. p.label) "poe_" _ (poe-Named show table objects),
)
