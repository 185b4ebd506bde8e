-- ===== src/DataNode/Json.antt =====
-- What the node calls of nlohmann::json and of the file system, which are not part of this repository.
-- `none` stands for an exception of the library's own type.
use di_traffic_database.Common.{ℕ, Bool, Option, List}
use di_traffic_database.DataNode.Text.{Str}
use di_traffic_database.DataNode.Maps.{Dict}

pub record Libraries : Type 1 where
  pub Json : Type 0
  pub parse : Str → Option Json
  pub is_array : Json → Bool
  pub is_object : Json → Bool
  pub is_number_unsigned : Json → Bool
  pub is_number_integer : Json → Bool
  pub is_number_float : Json → Bool
  pub is_string : Json → Bool
  pub get_uint64 : Json → Option ℕ
  pub get_int64 : Json → Option ℕ
  pub get_double : Json → Option ℕ
  pub get_string : Json → Option Str
  -- `get<std::vector<std::unordered_map<std::string, std::string>>>`
  pub get_dict_list : Json → Option (List (Dict Str))
  -- the entries that `items()` visits, in its order
  pub items : Json → List (Str × Json)
  -- whether `sst.log` in this folder can be opened to append
  pub log_opens : Str → Bool
