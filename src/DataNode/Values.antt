-- ===== src/DataNode/Values.antt =====
-- The values and columns of dataNodeLib/memtable.hpp. A double and a signed integer are their 64-bit
-- patterns, since the memtable only moves them.
pub mod Columns
use di_traffic_database.Common.{ℕ, ◌%◌, ◌^◌, List, [], ◌∷◌, ◌++◌, ◌==◌, if◌then◌else◌}
use di_traffic_database.DataNode.Exceptions.{Try, ok, thrown, invalid_argument}
use di_traffic_database.DataNode.Text.{Str}

-- The alternatives in the order of `std::variant`, from index 0.
pub data Value : Type 0 where
  uint64 : ℕ → Value
  int64 : ℕ → Value
  double : ℕ → Value
  string : Str → Value

-- `Value::index`
unfoldable pub index : Value → ℕ
index (uint64 n) = 0
index (int64 n) = 1
index (double n) = 2
index (string s) = 3

-- The enumerators in their order, and the values outside them that a cast can make.
pub data ColumnType : Type 0 where
  int64_type uint64_type double_type string_type : ColumnType
  unknown_type : ℕ → ColumnType

unfoldable pub code_of : ColumnType → ℕ
code_of int64_type = 0
code_of uint64_type = 1
code_of double_type = 2
code_of string_type = 3
code_of (unknown_type n) = n

-- `(enum ColumnType)n`: the underlying type has 32 bits.
unfoldable pub of_code : ℕ → ColumnType
of_code n =
    let c = n % 2 ^ 32 in
    if c == 0
    then int64_type
    else if c == 1
    then uint64_type
    else if c == 2
    then double_type
    else if c == 3
    then string_type
    else unknown_type c

pub record Column : Type 0 where
  pub type : ColumnType
  pub values : List Value

unfoldable pub append : Column → Value → Try Column
append c v =
    if index v == code_of c.type
    then ok (record c { values = c.values ++ (v ∷ []) })
    else thrown invalid_argument
