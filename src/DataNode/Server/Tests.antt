-- ===== src/DataNode/Server/Tests.antt =====
-- A server that reads a write for an unknown region, and then two requests in one line.
use di_traffic_database.Common.{
  ℕ, true, false, some, none, List, [], ◌∷◌, ◌≡◌, refl, if◌then◌else◌, map,
}
use di_traffic_database.DataNode.Exceptions.{Try, ok, thrown}
use di_traffic_database.DataNode.Text.{Str, codes, str_eq, stoull}
use di_traffic_database.DataNode.Maps.{Dict, find, contains}
use di_traffic_database.DataNode.Json.{Libraries}
use di_traffic_database.DataNode.Server.{
  Server, create, lacks, text_at, may_be_unknown, handle_new_region, new_signal, parse_write,
  parse_create, parse_admin, parse_request, parse_list, requests_of, parse_requests,
  send_region_request, send_all, run,
}
use di_traffic_database.DataNode.Server.Order.{IsOrdered, create-IsOrdered, run-IsOrdered}

abbrev write_nine : Dict Str
write_nine =
    (codes "type", codes "WRITE")
    ∷ (codes "regionID", codes "9")
    ∷ (codes "timestamp", codes "100")
    ∷ (codes "jsonData", codes "{}")
    ∷ []

abbrev create_nine : Dict Str
create_nine =
    (codes "type", codes "ADMIN")
    ∷ (codes "regionID", codes "9")
    ∷ (codes "operation", codes "CREATE")
    ∷ (codes "regionName", codes "traffic")
    ∷ (codes "expr", [])
    ∷ (codes "attrs", codes "{}")
    ∷ []

-- Two texts stand for two lists of requests, and all others for no array.
abbrev line_json : Libraries
line_json = record {
  Json = Str;
  parse = some;
  is_array = λ j. true;
  is_object = λ j. false;
  is_number_unsigned = λ j. false;
  is_number_integer = λ j. false;
  is_number_float = λ j. false;
  is_string = λ j. false;
  get_uint64 = λ j. none;
  get_int64 = λ j. none;
  get_double = λ j. none;
  get_string = λ j. none;
  get_dict_list = λ j.
      if str_eq j (codes "early")
      then some (write_nine ∷ [])
      else if str_eq j (codes "both")
      then some (create_nine ∷ write_nine ∷ [])
      else none;
  items = λ j. [];
  log_opens = λ path. true;
}

abbrev lines : List Str
lines = codes "early" ∷ codes "both" ∷ codes "other" ∷ []

abbrev server_or : Server → Try Server → Server
server_or s (ok s') = s'
server_or s (thrown e) = s

abbrev clock : ℕ → ℕ
clock n = 1000

abbrev final : Server
final = server_or create (run clock line_json create lines)

final_runs : run clock line_json create lines ≡ ok final
unfolding run parse_requests parse_list parse_request parse_write parse_create parse_admin
    requests_of send_all send_region_request new_signal handle_new_region may_be_unknown text_at
    lacks find contains str_eq stoull create
final_runs = refl

final_sends : map (λ s. s.region_id) final.sent ≡ 9 ∷ 9 ∷ []
unfolding run parse_requests parse_list parse_request parse_write parse_create parse_admin
    requests_of send_all send_region_request new_signal handle_new_region may_be_unknown text_at
    lacks find contains str_eq stoull create
final_sends = refl

run-IsOrdered_example : IsOrdered final
run-IsOrdered_example = run-IsOrdered clock line_json lines create-IsOrdered final_runs
