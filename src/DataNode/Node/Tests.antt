-- ===== src/DataNode/Node/Tests.antt =====
-- A node with two workers that creates a region, opens it and writes one row.
use di_traffic_database.Common.{
  ℕ, true, false, Option, some, none, List, [], ◌∷◌, ◌≡◌, ◌%◌, refl, if◌then◌else◌,
}
use di_traffic_database.DataNode.Exceptions.{Try, ok, thrown}
use di_traffic_database.DataNode.Text.{Str, codes, str_eq, stoull}
use di_traffic_database.DataNode.Maps.{Dict, find, insert, contains}
use di_traffic_database.DataNode.Values.{uint64, of_code}
use di_traffic_database.DataNode.Json.{Libraries}
use di_traffic_database.DataNode.Memtable
use di_traffic_database.DataNode.Memtable.{
  Row, cal_row_size, row_values, write, capacity, var_capacity, add_row_size, freeze,
}
use di_traffic_database.DataNode.Region
use di_traffic_database.DataNode.Region.{get_attr, set_memtable, set_sst}
use di_traffic_database.DataNode.Server
use di_traffic_database.DataNode.Server.{
  Server, lacks, text_at, may_be_unknown, handle_new_region, new_signal, parse_write, parse_create,
  parse_admin, parse_request, parse_list, requests_of, parse_requests, send_region_request,
  send_all,
}
use di_traffic_database.DataNode.Engine
use di_traffic_database.DataNode.Engine.Routes.{for_worker}
use di_traffic_database.DataNode.Worker
use di_traffic_database.DataNode.Worker.{
  Worker, memtable_of, update_memtable, check_region_mem_usage, flush_signal, send_flush_signal,
  threshold_of, stored_row, store_row,
}
use di_traffic_database.DataNode.Worker.Fields.{
  field_value, parse_fields, parse_attrs, parse_columns,
}
use di_traffic_database.DataNode.Worker.Write.{handle_write, write_fields}
use di_traffic_database.DataNode.Worker.Status.{handle_status, handle_open, handle_create, opened}
use di_traffic_database.DataNode.Worker.Dispatch
use di_traffic_database.DataNode.Worker.Dispatch.{handle_absent, dispatch, handle_signal}
use di_traffic_database.DataNode.Worker.Rows.{rows_of, flushed_rows}

abbrev request : Str → Dict Str → Dict Str
request type rest = (codes "type", type) ∷ (codes "regionID", codes "9") ∷ rest

abbrev requests : List (Dict Str)
requests =
    request (codes "ADMIN") (
      (codes "operation", codes "CREATE")
      ∷ (codes "regionName", codes "traffic")
      ∷ (codes "expr", [])
      ∷ (codes "attrs", codes "attrs")
      ∷ [])
    ∷ request (codes "ADMIN") ((codes "operation", codes "OPEN") ∷ [])
    ∷ request (codes "WRITE")
        ((codes "timestamp", codes "5") ∷ (codes "jsonData", codes "row") ∷ [])
    ∷ []

abbrev more_requests : List (Dict Str)
more_requests =
    request (codes "WRITE") ((codes "timestamp", codes "6") ∷ (codes "jsonData", codes "row") ∷ [])
    ∷ request (codes "WRITE") ((codes "jsonData", codes "row") ∷ [])
    ∷ []

abbrev members : Str → List (Str × Str)
members s =
    if str_eq s (codes "attrs")
    then (codes "columnNames", codes "columns")
      ∷ (codes "memTableUsageThreshold", codes "40")
      ∷ (codes "sstPath", codes "data")
      ∷ []
    else if str_eq s (codes "columns")
    then (codes "v", codes "1") ∷ []
    else if str_eq s (codes "row")
    then (codes "v", codes "7") ∷ []
    else []

abbrev the_number : Str → Option ℕ
the_number s = elim (stoull s) [ ok n ↦ some n | thrown e ↦ none ]

-- A value is its text.
abbrev text_json : Libraries
text_json = record {
  Json = Str;
  parse = some;
  is_array = λ j. true;
  is_object = λ j. true;
  is_number_unsigned = λ j. str_eq j (codes "7");
  is_number_integer = λ j. false;
  is_number_float = λ j. false;
  is_string = λ j. true;
  get_uint64 = the_number;
  get_int64 = λ j. none;
  get_double = λ j. none;
  get_string = some;
  get_dict_list = λ j.
      if str_eq j (codes "requests")
      then some requests
      else if str_eq j (codes "more")
      then some more_requests
      else none;
  items = members;
  log_opens = λ path. true;
}

abbrev clock : ℕ → ℕ
clock n = 1000

abbrev setup : List Str
setup = codes "requests" ∷ []

abbrev lines : List Str
lines = codes "more" ∷ []

abbrev server_or : Server → Try Server → Server
server_or s (ok s') = s'
server_or s (thrown e) = s

abbrev set_up : Server
set_up = server_or Server.create (Server.run clock text_json Server.create setup)

abbrev served : Server
served = server_or set_up (Server.run clock text_json set_up lines)

abbrev worker_or : Worker → Try Worker → Worker
worker_or w (ok w') = w'
worker_or w (thrown e) = w

abbrev start : Worker
start = Worker.create (codes "log")

abbrev handled : Worker
handled = worker_or start (Dispatch.run text_json start (for_worker 2 (9 % 2) served.sent))

-- The rows of both lines.
handled_rows :
    rows_of handled 9
    ≡ record { timestamp = 5; values = uint64 7 ∷ [] }
      ∷ record { timestamp = 6; values = uint64 7 ∷ [] }
      ∷ []
unfolding Server.run parse_requests parse_list parse_request parse_write parse_create parse_admin
    requests_of send_all send_region_request new_signal handle_new_region may_be_unknown text_at
    lacks find contains str_eq stoull Server.create Dispatch.run handle_signal dispatch handle_write
    write_fields memtable_of threshold_of check_region_mem_usage send_flush_signal store_row
    stored_row update_memtable write row_values cal_row_size capacity var_capacity add_row_size
    parse_fields field_value flush_signal freeze handle_absent handle_status handle_create
    handle_open opened parse_attrs parse_columns Worker.create insert of_code Region.create set_sst
    set_memtable get_attr Memtable.create flushed_rows
handled_rows = refl
