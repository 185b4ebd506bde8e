-- ===== src/DataNode/Worker/Fields.antt =====
-- The loops over parsed JSON in regionWorker.cpp.
use di_traffic_database.Common.{Option, none, some, List, [], ◌∷◌, if◌then◌else◌}
use di_traffic_database.DataNode.Exceptions.{Try, ok, thrown, json_error}
use di_traffic_database.DataNode.Text.{Str}
use di_traffic_database.DataNode.Maps.{Dict, insert}
use di_traffic_database.DataNode.Values.{Value, uint64, int64, double, string, ColumnType, of_code}
use di_traffic_database.DataNode.Json.{Libraries}

-- `none` also for an exception of the library, which the code's `catch` turns into a return.
abbrev as_value {ℓ} : {A : Type ℓ} → (A → Value) → Option A → Option Value
as_value f none = none
as_value f (some a) = some (f a)

module _ (lib : Libraries) where
  open lib use {
    Json, parse, is_object, is_number_unsigned, is_number_integer, is_number_float, is_string,
    get_uint64, get_int64, get_double, get_string, items,
  }

  unfoldable pub field_value : Json → Option Value
  field_value j =
      if is_number_unsigned j
      then as_value uint64 (get_uint64 j)
      else if is_number_integer j
      then as_value int64 (get_int64 j)
      else if is_number_float j
      then as_value double (get_double j)
      else if is_string j
      then as_value string (get_string j)
      else none

  fields_from : Dict Value → List (Str × Json) → Option (Dict Value)
  fields_from fields [] = some fields
  fields_from fields ((key, j) ∷ rest) = elim (field_value j) [
    | none ↦ none
    | some v ↦ fields_from (insert key v fields) rest
  ]

  -- The fields of a write. A text that is no object is logged and then read on all the same.
  unfoldable pub parse_fields : Str → Option (Dict Value)
  unfolding fields_from
  parse_fields text = elim (parse text) [ none ↦ none | some j ↦ fields_from [] (items j) ]

  attrs_from : Dict Str → List (Str × Json) → Option (Dict Str)
  attrs_from attrs [] = some attrs
  attrs_from attrs ((key, j) ∷ rest) = elim (get_string j) [
    | none ↦ none
    | some v ↦ attrs_from (insert key v attrs) rest
  ]

  -- The attributes of a CREATE: an object of strings.
  unfoldable pub parse_attrs : Str → Option (Dict Str)
  unfolding attrs_from
  parse_attrs text = elim (parse text) [
    | none ↦ none
    | some j ↦ if is_object j then attrs_from [] (items j) else none
  ]

  columns_from : Dict ColumnType → List (Str × Json) → Try (Dict ColumnType)
  columns_from columns [] = ok columns
  columns_from columns ((key, j) ∷ rest) = elim (get_uint64 j) [
    | none ↦ thrown json_error
    | some n ↦ columns_from (insert key (of_code n) columns) rest
  ]

  -- The columns of an OPEN, read outside any `try`; `ok none` for a text that is no object.
  unfoldable pub parse_columns : Str → Try (Option (Dict ColumnType))
  unfolding columns_from
  parse_columns text = elim (parse text) [
    | none ↦ thrown json_error
    | some j ↦
        if is_object j
        then elim (columns_from [] (items j)) [
          | ok columns ↦ ok (some columns)
          | thrown e ↦ thrown e
        ]
        else ok none
  ]
