-- ===== src/DataNode/Memtable/Tests.antt =====
-- A memtable with two columns, written once.
use di_traffic_database.Common.{some, [], ◌∷◌, ◌≡◌, refl}
use di_traffic_database.DataNode.Text.{codes, str_eq}
use di_traffic_database.DataNode.Maps.{Dict, find}
use di_traffic_database.DataNode.Values.{
  Value, uint64, string, ColumnType, uint64_type, string_type,
}
use di_traffic_database.DataNode.Memtable.{create, write, row_values}
use di_traffic_database.DataNode.Memtable.Rows.{IsValid, create-IsValid, write-IsValid}

abbrev columns : Dict ColumnType
columns = (codes "packets", uint64_type) ∷ (codes "host", string_type) ∷ []

abbrev fields : Dict Value
fields = (codes "host", string (codes "a")) ∷ (codes "packets", uint64 12) ∷ []

row_values_runs : row_values columns fields ≡ some (uint64 12 ∷ string (codes "a") ∷ [])
unfolding row_values find str_eq
row_values_runs = refl

write-IsValid_example : IsValid (write (create columns) 5 fields).0
write-IsValid_example = write-IsValid 5 fields (create-IsValid columns)
