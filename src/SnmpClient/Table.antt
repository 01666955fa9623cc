-- ===== src/SnmpClient/Table.antt =====
-- The rows of walked tables, and the data that snmp_client.py builds from them. A table's objects are
-- pairs of an OID and a value.
pub mod Laws
use Prim.Native.Char.{code}
use Prim.Native.String
use ha_sophos_fw.Prelude.{
  ℕ, ◌+◌, String, Bool, ◌&&◌, Option, none, some, List, [], ◌∷◌, map, ◌==◌, ltb, eqb, if◌then◌else◌,
}
use ha_sophos_fw.Prelude.Dict
use ha_sophos_fw.Prelude.Dict.{Dict}
use ha_sophos_fw.Text
use ha_sophos_fw.Text.{append, is_digit, drop_prefix}
use ha_sophos_fw.Models.Snmp.{VpnTunnel, SystemHealth}
use ha_sophos_fw.SnmpClient.{Raw, to_int, to_str, tenths_to_celsius}

-- `oid.lstrip(".")`
unfoldable pub strip_dots : String → String
strip_dots String.[] = String.[]
strip_dots (String.◌∷◌ c s) =
    let rest = strip_dots s in if eqb (code c) 46 then rest else String.◌∷◌ c s

-- `text.strip(".")`: the dots at the end go where nothing else follows.
unfoldable pub drop_end_dots : String → String
drop_end_dots String.[] = String.[]
drop_end_dots (String.◌∷◌ c s) =
    let rest = drop_end_dots s in
    if eqb (code c) 46 && (rest == "") then String.[] else String.◌∷◌ c rest

unfoldable pub strip_ends : String → String
unfolding strip_dots drop_end_dots
strip_ends s = drop_end_dots (strip_dots s)

-- The prefix of a column's OIDs.
unfoldable pub column_prefix : String → String → String
unfolding strip_ends
column_prefix table column = append (strip_ends table) (append ".1." (append column "."))

unfoldable pub add_row : {V : Type 0} → Option String → V → Dict V → Dict V
add_row none value rows = rows
add_row (some index) value rows = if is_digit index then Dict.put index value rows else rows

module _ {V : Type 0} where
  unfoldable pub column_from : String → Dict V → Dict V → Dict V
  unfolding strip_dots drop_prefix add_row
  column_from prefix [] rows = rows
  column_from prefix ((oid, value) ∷ objects) rows =
      column_from prefix objects (add_row (drop_prefix prefix (strip_dots oid)) value rows)

  -- `table_column` for rows with one number as index.
  unfoldable pub table_column : Dict V → String → String → Dict V
  unfolding column_from column_prefix
  table_column objects table column = column_from (column_prefix table column) objects []

-- `sorted(indexes, key=int)`
insert_index : String → List String → List String
insert_index i [] = i ∷ []
insert_index i (j ∷ js) =
    let rest = insert_index i js in
    if ltb (Text.number i) (Text.number j) then i ∷ j ∷ js else j ∷ rest

sort_from : List String → List String → List String
unfolding insert_index
sort_from [] sorted = sorted
sort_from (i ∷ is) sorted = sort_from is (insert_index i sorted)

unfoldable pub sort_indexes : List String → List String
unfolding sort_from
sort_indexes is = sort_from is []

module _ (show : Raw → String) where
  -- `to_int(column.get(index))`
  unfoldable pub int_at : String → Dict Raw → Option ℕ
  int_at index column = elim (Dict.get index column) [ none ↦ none | some v ↦ to_int show v ]

  unfoldable pub str_at : String → Dict Raw → Option String
  str_at index column = elim (Dict.get index column) [ none ↦ none | some v ↦ to_str show v ]

  unfoldable pub tunnel_at :
      Dict Raw → Dict Raw → Dict Raw → String → Option String → Dict VpnTunnel → Dict VpnTunnel
  unfolding int_at
  tunnel_at configured status activated index none tunnels = tunnels
  tunnel_at configured status activated index (some name) tunnels =
      Dict.put index
        (record {
          index = index;
          name = name;
          conn_status = int_at index status;
          activated = int_at index activated;
          tunnels_configured = int_at index configured;
        })
        tunnels

  unfoldable pub tunnels_from :
      Dict Raw → Dict Raw → Dict Raw → Dict Raw → List String → Dict VpnTunnel → Dict VpnTunnel
  unfolding str_at tunnel_at
  tunnels_from names configured status activated [] tunnels = tunnels
  tunnels_from names configured status activated (i ∷ is) tunnels =
      tunnels_from names configured status activated is
        (tunnel_at configured status activated i (str_at i names) tunnels)

  -- `get_vpn_tunnels`, from the walked objects of the table `table`.
  unfoldable pub vpn_tunnels : String → Dict Raw → Dict VpnTunnel
  unfolding table_column sort_indexes tunnels_from
  vpn_tunnels table objects =
      let names = table_column objects table "2" in
      tunnels_from names (table_column objects table "8") (table_column objects table "9")
        (table_column objects table "10") (sort_indexes (Dict.keys names)) []

  -- `get_cpu_load`, with the numbers of the cores as they are written.
  loads_from : Dict Raw → (ℕ → String) → ℕ → List String → Dict (Option ℕ)
  unfolding int_at
  loads_from loads number core [] = []
  loads_from loads number core (i ∷ is) =
      (number core, int_at i loads) ∷ loads_from loads number (core + 1) is

  unfoldable pub cpu_load : (ℕ → String) → Dict Raw → Dict (Option ℕ)
  unfolding table_column sort_indexes loads_from
  cpu_load number objects =
      let loads = table_column objects "1.3.6.1.2.1.25.3.3" "2" in
      loads_from loads number 1 (sort_indexes (Dict.keys loads))

  is_up : Option ℕ → Option Bool
  is_up none = none
  is_up (some code) = some (eqb code 1)

  -- `get_system_health`, from the two temperatures and the walked objects of both tables.
  unfoldable pub system_health : Raw → Raw → String → Dict Raw → String → Dict Raw → SystemHealth
  unfolding table_column sort_indexes int_at is_up tenths_to_celsius
  system_health cpu npu fan_table fan_objects psu_table psu_objects =
      let fans = table_column fan_objects fan_table "2" in
      let psus = table_column psu_objects psu_table "2" in
      record {
        cpu_temperature_c = tenths_to_celsius show cpu;
        npu_temperature_c = tenths_to_celsius show npu;
        fans = map (λ i. (String.◌++◌ "fan_" i, int_at i fans)) (sort_indexes (Dict.keys fans));
        psus =
            map (λ i. (String.◌++◌ "psu_" i, is_up (int_at i psus)))
              (sort_indexes (Dict.keys psus));
      }
