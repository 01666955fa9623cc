-- ===== src/Tests/Tables.antt =====
-- Rows of an SNMP table.
use ha_sophos_fw.Prelude.{ℕ, ◌≡◌, refl, none, [], ◌∷◌, if◌then◌else◌}
use ha_sophos_fw.Prelude.Dict
use ha_sophos_fw.Prelude.Dict.{Dict}
use ha_sophos_fw.Text.{append, is_digit}
use ha_sophos_fw.SnmpClient.Table.{table_column}
use ha_sophos_fw.SnmpClient.Table.Laws.{last_at, all_dots, begins_bare, ends_bare, get-table_column}

abbrev objects : Dict ℕ
objects = (".1.3.1.2.1", 40) ∷ ("1.3.1.2.1.9", 41) ∷ ("1.3.1.3.1", 42) ∷ []

get-table_column_example :
    Dict.get "1" (table_column objects (append "." (append "1.3" "")) "2") ≡ (
      if is_digit "1"
      then last_at (append "1.3" (append ".1." (append "2" "."))) "1" objects
      else none)
unfolding all_dots begins_bare ends_bare
get-table_column_example = get-table_column objects "." "1.3" "" "2" "1" refl refl refl refl
