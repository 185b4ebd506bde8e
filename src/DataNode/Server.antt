-- ===== src/DataNode/Server.antt =====
-- src/dataNode/regionServer.cpp: reads request texts, one to a line, and sends the requests to the
-- engine. The log file is not modelled, nor is `handleFailure`, which only logs.
pub mod Known
pub mod Order
pub mod Writes
mod Tests
use di_traffic_database.Common.{
  ℕ, Bool, true, false, not, ◌&&◌, ◌||◌, Option, none, some, List, [], ◌∷◌, ◌++◌, if◌then◌else◌,
  add64,
}
use di_traffic_database.DataNode.Exceptions.{Try, ok, thrown, ◌>>=◌}
use di_traffic_database.DataNode.Text.{Str, codes, str_eq, stoull}
use di_traffic_database.DataNode.Maps.{Dict, find, contains, Table, no_entries, put}
use di_traffic_database.DataNode.Json.{Libraries}
use di_traffic_database.DataNode.Requests.{
  RegionAdminRequest, create_region, open_region, close_region, drop_region, Payload, write_payload,
  admin_payload, Signal,
}
use di_traffic_database.DataNode.Worker.{has}

-- `sent` holds the signals put into the first engine pipe, the only one that the code uses.
pub record Server : Type 0 where
  pub region_engine_map : Table Str
  pub request_id : ℕ
  pub sent : List Signal

unfoldable pub create : Server
create = record { region_engine_map = no_entries; request_id = 0; sent = [] }

-- `request.find(k) == request.end() || request.find(l) == request.end() || ...`
unfoldable pub lacks : Dict Str → List Str → Bool
lacks request [] = false
lacks request (key ∷ keys) = not (contains key request) || lacks request keys

-- `request[key]` for a key that may be missing.
unfoldable pub text_at : Dict Str → Str → Str
text_at request key = elim (find key request) [ none ↦ [] | some v ↦ v ]

abbrev pub is : Dict Str → Str → Str → Bool
is request key value = str_eq (text_at request key) value

-- `regionEngineMap.find(id) != end()`
abbrev pub is_known : Server → ℕ → Bool
is_known s id = has s.region_engine_map id

-- Only a request to create a region passes for a region that is not known.
unfoldable pub may_be_unknown : Dict Str → Bool
may_be_unknown request =
    is request (codes "type") (codes "ADMIN")
    && not (lacks request (codes "operation" ∷ []))
    && is request (codes "operation") (codes "CREATE")

unfoldable pub handle_new_region : Server → ℕ → Server
handle_new_region s id = record s {
  region_engine_map = put id (codes "MitoEngine") s.region_engine_map;
}

-- `signals.push_back(signal)`
abbrev pub with_signal : Option Signal → Server × List Signal → Server × List Signal
with_signal none (s, signals) = (s, signals)
with_signal (some signal) (s, signals) = (s, signal ∷ signals)

module _ (now : ℕ → ℕ) where
  -- `new MitoSignal`. `now` gives what the clock shows when it is read for a request number.
  unfoldable pub new_signal : Server → ℕ → Payload → Server × Option Signal
  new_signal s id payload = (
    record s { request_id = add64 s.request_id 1 },
    some (record {
      region_id = id;
      request = record {
        header = record { request_id = s.request_id; timestamp_ns = now s.request_id };
        payload = payload;
      };
    }),
  )

  unfoldable pub parse_write : Server → ℕ → Dict Str → Try (Server × Option Signal)
  parse_write s id request =
      if lacks request (codes "timestamp" ∷ codes "jsonData" ∷ []) then ok (s, none) else do
        ts ← stoull (text_at request (codes "timestamp"))
        ok (
            new_signal s id (
              write_payload
                (record { timestamp = ts; json_data = text_at request (codes "jsonData") })))

  unfoldable pub parse_create : Server → ℕ → Dict Str → Server × Option Signal
  parse_create s id request =
      if lacks request (codes "regionName" ∷ codes "expr" ∷ codes "attrs" ∷ [])
      then (s, none)
      else new_signal (handle_new_region s id) id (
          admin_payload (
            create_region (record {
              name = text_at request (codes "regionName");
              partition = text_at request (codes "expr");
              attrs_json = text_at request (codes "attrs");
            })))

  unfoldable pub parse_admin : Server → ℕ → Dict Str → Server × Option Signal
  parse_admin s id request =
      if lacks request (codes "operation" ∷ [])
      then (s, none)
      else if is request (codes "operation") (codes "CREATE")
      then parse_create s id request
      else if is request (codes "operation") (codes "OPEN")
      then new_signal s id (admin_payload (open_region false))
      else if is request (codes "operation") (codes "CLOSE")
      then new_signal s id (admin_payload (close_region false))
      else if is request (codes "operation") (codes "DROP")
      then new_signal s id (admin_payload (drop_region true))
      else (s, none)

  -- One turn of the loop of `parseRequests`: `none` where the code says `continue`.
  unfoldable pub parse_request : Server → Dict Str → Try (Server × Option Signal)
  parse_request s request =
      if lacks request (codes "type" ∷ codes "regionID" ∷ []) then ok (s, none) else do
        id ← stoull (text_at request (codes "regionID"))
        if not (is_known s id) && not (may_be_unknown request)
            then ok (s, none)
            else if is request (codes "type") (codes "WRITE")
            then parse_write s id request
            else if is request (codes "type") (codes "ADMIN")
            then ok (parse_admin s id request)
            else ok (s, none)

  unfoldable pub parse_list : Server → List (Dict Str) → Try (Server × List Signal)
  parse_list s [] = ok (s, [])
  parse_list s (request ∷ requests) = elim (parse_request s request) [
    | thrown x ↦ thrown x
    | ok (s', signal) ↦ elim (parse_list s' requests) [
      | thrown x ↦ thrown x
      | ok out ↦ ok (with_signal signal out)
    ]
  ]

module _ (lib : Libraries) where
  open lib use {parse, is_array, get_dict_list}

  -- The requests of a line; errors in its text are logged.
  unfoldable pub requests_of : Str → List (Dict Str)
  requests_of text = elim (parse text) [
    | none ↦ []
    | some j ↦ if is_array j then elim (get_dict_list j) [ none ↦ [] | some l ↦ l ] else []
  ]

-- A signal for a region that is not known is deleted.
unfoldable pub send_region_request : Server → Signal → Server
send_region_request s signal =
    if is_known s signal.region_id then record s { sent = s.sent ++ (signal ∷ []) } else s

unfoldable pub send_all : Server → List Signal → Server
send_all s [] = s
send_all s (signal ∷ signals) = send_all (send_region_request s signal) signals

module _ (now : ℕ → ℕ) (lib : Libraries) where
  unfoldable pub parse_requests : Server → Str → Try (Server × List Signal)
  parse_requests s text = parse_list now s (requests_of lib text)

  -- The loop of `run` over the lines that `getRequest` reads.
  unfoldable pub run : Server → List Str → Try Server
  run s [] = ok s
  run s (line ∷ lines) = elim (parse_requests s line) [
    | thrown x ↦ thrown x
    | ok (s', signals) ↦ run (send_all s' signals) lines
  ]
