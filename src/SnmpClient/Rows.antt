-- ===== src/SnmpClient/Rows.antt =====
-- The tables whose rows have names (snmp_client.py: get_traffic, get_links, get_access_points, get_poe;
-- const.py: INTERNAL_INTERFACE_RE). Powers are in milliwatts, without the rounding of _milli.
pub mod Laws
use Prim.Native.Char.{code}
use Prim.Native.String
use ha_sophos_fw.Prelude.{
  ℕ, zero, suc, ◌+◌, ◌-◌, ◌*◌, ◌/◌, ◌%◌, ◌≤◌, ◌<◌, String, ◌≡◌, refl, sym, ap, ◌∙◌, ◌≢◌, ◌↔◌, ◌⊎◌,
  inl, inr, Bool, true, false, not, ◌&&◌, ◌||◌, Option, none, some, List, [], ◌∷◌, ◌++◌, map, arith,
  ◌==◌, eq_iff, eq_refl, ltb, leb, eqb, if◌then◌else◌, leb→le, ltb→lt, eqb_iff, Bool-cases,
  Option-cases, or_else, is_some, get_or, ne→false, length, is_nil, keep_if, any_of, all_of,
  first_where, All, contains, Distinct,
}
use ha_sophos_fw.Prelude.Dict
use ha_sophos_fw.Prelude.Dict.{Dict}
use ha_sophos_fw.Text.{append, is_digit, is_digit_char, drop_prefix}
use ha_sophos_fw.Models.Snmp.{InterfaceCounters, TrafficSample, InterfaceLink, AccessPoint, PoePort}
use ha_sophos_fw.SnmpClient.{Raw, to_int, to_str}
use ha_sophos_fw.SnmpClient.Table.{
  strip_dots, column_prefix, table_column, sort_indexes, int_at, str_at,
}

is_numbered : String → String → Bool
is_numbered name prefix = elim (drop_prefix prefix name) [
  | none ↦ false
  | some rest ↦ is_digit rest
]

-- `INTERNAL_INTERFACE_RE.match`
unfoldable pub is_internal : String → Bool
unfolding is_numbered
is_internal name =
    contains ("lo" ∷ "dfq" ∷ "spq" ∷ []) name
    || any_of (is_numbered name) (
        "dummy" ∷ "ipsec" ∷ "sit" ∷ "ip6tnl" ∷ "gre" ∷ "gretap" ∷ "erspan" ∷ "ifb" ∷ "tunl"
        ∷ "ip_vti" ∷ "ip6_vti" ∷ "ip6gre" ∷ "teql" ∷ [])

-- Dotted numbers, one at least: an index of any length. The flag tells that a number has begun.
is_dotted : Bool → String → Bool
is_dotted begun String.[] = begun
is_dotted begun (String.◌∷◌ c s) =
    let more = is_dotted true s in
    let next = is_dotted false s in
    if is_digit_char c then more else begun && eqb (code c) b'.' && next

module _ {V : Type 0} where
  add_dotted : Option String → V → Dict V → Dict V
  unfolding is_dotted
  add_dotted none value rows = rows
  add_dotted (some index) value rows =
      if is_dotted false index then Dict.put index value rows else rows

  dotted_from : String → Dict V → Dict V → Dict V
  unfolding add_dotted
  dotted_from prefix [] rows = rows
  dotted_from prefix ((oid, value) ∷ objects) rows =
      dotted_from prefix objects (add_dotted (drop_prefix prefix (strip_dots oid)) value rows)

  -- `table_column(…, compound_index=True)`
  unfoldable pub compound_column : Dict V → String → String → Dict V
  unfolding dotted_from
  compound_column objects table column = dotted_from (column_prefix table column) objects []

module _ {V : Type 0} (skip : String → Bool) (row : String → String → V) where
  unfoldable pub add_named : Option String → String → Dict V → Dict V
  add_named none index rows = rows
  add_named (some name) index rows =
      if skip name || is_some (Dict.get name rows)
      then rows
      else Dict.put name (row index name) rows

  -- The loop over the rows: each is added under its name, unless that is skipped or taken.
  unfoldable pub named_rows : (String → Option String) → List String → Dict V → Dict V
  unfolding add_named
  named_rows name_at [] rows = rows
  named_rows name_at (index ∷ indexes) rows =
      named_rows name_at indexes (add_named (name_at index) index rows)

module _ (show : Raw → String) where
  -- `sampled_at` is the time after the walk.
  unfoldable pub get_traffic : ℕ → Dict Raw → TrafficSample
  unfolding is_internal named_rows
  get_traffic sampled_at objects =
      let names = table_column objects "1.3.6.1.2.1.31.1.1" "1" in
      let rx = table_column objects "1.3.6.1.2.1.31.1.1" "6" in
      let tx = table_column objects "1.3.6.1.2.1.31.1.1" "10" in
      record {
        sampled_at = sampled_at;
        counters =
            named_rows is_internal
              (λ index name. record {
                in_octets = int_at show index rx;
                out_octets = int_at show index tx;
              })
              (λ index. str_at show index names) (sort_indexes (Dict.keys names)) [];
      }

  unfoldable pub get_links : Dict Raw → Dict Raw → Dict InterfaceLink
  unfolding is_internal named_rows
  get_links name_objects status_objects =
      let names = table_column name_objects "1.3.6.1.2.1.31.1.1" "1" in
      let admin = table_column status_objects "1.3.6.1.2.1.2.2" "7" in
      let oper = table_column status_objects "1.3.6.1.2.1.2.2" "8" in
      named_rows is_internal
        (λ index name. record {
          admin_status = int_at show index admin;
          oper_status = int_at show index oper;
        })
        (λ index. str_at show index names) (sort_indexes (Dict.keys names)) []

  pub code_is : ℕ → Option ℕ → Option Bool
  code_is expected none = none
  code_is expected (some code) = some (eqb code expected)

  -- `ip_str` is the text of an address, which is a value of puresnmp's.
  unfoldable pub get_access_points :
      (Option Raw → Option String) → String → Dict Raw → Dict AccessPoint
  unfolding compound_column named_rows code_is
  get_access_points ip_str table objects =
      let names = compound_column objects table "1" in
      let models = compound_column objects table "2" in
      let ips = compound_column objects table "3" in
      let status = compound_column objects table "5" in
      let clients = compound_column objects table "6" in
      named_rows (λ name. false)
        (λ index name. record {
          name = name;
          model = str_at show index models;
          ip_address = ip_str (Dict.get index ips);
          connected = code_is 0 (int_at show index status);
          clients = int_at show index clients;
        })
        (λ index. str_at show index names) (Dict.keys names) []

  unfoldable pub get_poe : String → Dict Raw → Dict PoePort
  unfolding named_rows code_is
  get_poe table objects =
      let labels = table_column objects table "2" in
      let enabled = table_column objects table "3" in
      let limit = table_column objects table "4" in
      let usage = table_column objects table "5" in
      named_rows (λ label. false)
        (λ index label. record {
          label = label;
          enabled = code_is 1 (int_at show index enabled);
          usage_w = int_at show index usage;
          limit_w = int_at show index limit;
        })
        (λ index. str_at show index labels) (sort_indexes (Dict.keys labels)) []
