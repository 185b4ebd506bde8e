-- ===== src/DataNode/Values/Columns.antt =====
-- Which values `Column::append` of dataNodeLib/memtable.hpp takes.
use di_traffic_database.Common.{ℕ, List, [], ◌∷◌, ◌++◌, ◌≡◌, refl}
use di_traffic_database.DataNode.Exceptions.{ok, thrown, invalid_argument}
use di_traffic_database.DataNode.Values.{
  Value, uint64, int64, Column, ColumnType, int64_type, uint64_type, append, index, code_of,
}

abbrev pub column : ColumnType → List Value → Column
column type values = record { type = type; values = values }

-- A UINT64 column refuses every unsigned number and an INT64 column every signed one, while each takes
-- the numbers of the other: the variant's alternatives stand in another order than the enumerators.
pub append-swapped :
    (values : List Value) (n : ℕ)
    → (append (column uint64_type values) (uint64 n) ≡ thrown invalid_argument)
      × (append (column int64_type values) (int64 n) ≡ thrown invalid_argument)
      × (append (column int64_type values) (uint64 n)
          ≡ ok (column int64_type (values ++ (uint64 n ∷ []))))
      × (append (column uint64_type values) (int64 n)
          ≡ ok (column uint64_type (values ++ (int64 n ∷ []))))
unfolding append index code_of
append-swapped values n = (refl, refl, refl, refl)
