-- ===== src/DataNode/Worker/Tests.antt =====
-- A worker that creates a region, opens it, writes to it past its threshold and closes it.
use mathlib.Core.Path.{subst₂}
use di_traffic_database.Common.{
  ℕ, Bool, true, false, Option, none, some, List, [], ◌∷◌, ◌++◌, ◌≡◌, refl, arith, if◌then◌else◌,
}
use di_traffic_database.DataNode.Exceptions.{Try, ok, thrown}
use di_traffic_database.DataNode.Text.{Str, codes, str_eq, stoull}
use di_traffic_database.DataNode.Maps.{Dict, find, insert}
use di_traffic_database.DataNode.Values.{Value, uint64, of_code}
use di_traffic_database.DataNode.Json.{Libraries}
use di_traffic_database.DataNode.Memtable
use di_traffic_database.DataNode.Memtable.{
  Memtable, Row, cal_row_size, row_values, write, capacity, var_capacity, add_row_size, freeze,
}
use di_traffic_database.DataNode.Region
use di_traffic_database.DataNode.Region.{Region, get_attr, set_memtable, set_sst}
use di_traffic_database.DataNode.Requests.{
  create_region, open_region, close_region, Payload, write_payload, admin_payload, Signal,
  WriteRequest,
}
use di_traffic_database.DataNode.Worker.{
  Worker, create, memtable_of, update_memtable, check_region_mem_usage, flush_signal,
  send_flush_signal, threshold_of, stored_row, store_row,
}
use di_traffic_database.DataNode.Worker.Fields.{
  field_value, parse_fields, parse_attrs, parse_columns,
}
use di_traffic_database.DataNode.Worker.Write.{handle_write, write_fields}
use di_traffic_database.DataNode.Worker.Status.{
  handle_status, handle_open, handle_close, handle_create, opened, flushed_for_close,
  moved_to_closed,
}
use di_traffic_database.DataNode.Worker.Dispatch.{handle_absent, dispatch, handle_signal, run}
use di_traffic_database.DataNode.Worker.Sound.{IsSound, create-IsSound}
use di_traffic_database.DataNode.Worker.Rows.{rows_of, only_for, flushed_rows}
use di_traffic_database.DataNode.Worker.Accept.{Handled, accepted_write, handle_write-Handled}
use di_traffic_database.DataNode.Worker.Lifecycle.{handle_status-Handled}
use di_traffic_database.DataNode.Worker.Safety.{IsServed, handle_signal-returns}
use di_traffic_database.DataNode.Worker.History.{
  accepted, accepted_over, handle_signal-Handled, run_conserves, run-IsSound,
}

data Leaf : Type 0 where
  number : ℕ → Leaf
  text : Str → Leaf

data Flat : Type 0 where
  leaf : Leaf → Flat
  object : Dict Leaf → Flat

abbrev is_number : Flat → Bool
is_number (leaf (number n)) = true
is_number (leaf (text s)) = false
is_number (object d) = false

abbrev is_text : Flat → Bool
is_text (leaf (number n)) = false
is_text (leaf (text s)) = true
is_text (object d) = false

abbrev is_flat_object : Flat → Bool
is_flat_object (leaf l) = false
is_flat_object (object d) = true

abbrev the_number : Flat → Option ℕ
the_number (leaf (number n)) = some n
the_number (leaf (text s)) = none
the_number (object d) = none

abbrev the_text : Flat → Option Str
the_text (leaf (number n)) = none
the_text (leaf (text s)) = some s
the_text (object d) = none

abbrev leaves : Dict Leaf → List (Str × Flat)
leaves [] = []
leaves ((k, l) ∷ d) = (k, leaf l) ∷ leaves d

abbrev entries : Flat → List (Str × Flat)
entries (leaf l) = []
entries (object d) = leaves d

-- The texts of the requests below.
abbrev parsed : Str → Option Flat
parsed s =
    if str_eq s (codes "attrs")
    then some (
        object (
          (codes "columnNames", text (codes "columns"))
          ∷ (codes "memTableUsageThreshold", text (codes "40"))
          ∷ (codes "sstPath", text (codes "data"))
          ∷ []))
    else if str_eq s (codes "columns")
    then some (object ((codes "v", number 1) ∷ []))
    else if str_eq s (codes "row")
    then some (object ((codes "v", number 7) ∷ []))
    else none

abbrev flat_json : Libraries
flat_json = record {
  Json = Flat;
  parse = parsed;
  is_array = λ j. false;
  is_object = is_flat_object;
  is_number_unsigned = is_number;
  is_number_integer = λ j. false;
  is_number_float = λ j. false;
  is_string = is_text;
  get_uint64 = the_number;
  get_int64 = λ j. none;
  get_double = λ j. none;
  get_string = the_text;
  get_dict_list = λ j. none;
  items = entries;
  log_opens = λ path. true;
}

abbrev signal : Payload → Signal
signal payload = record {
  region_id = 3;
  request = record { header = record { request_id = 0; timestamp_ns = 0 }; payload = payload };
}

abbrev row_at : ℕ → WriteRequest
row_at ts = record { timestamp = ts; json_data = codes "row" }

abbrev row : ℕ → Row
row ts = record { timestamp = ts; values = uint64 7 ∷ [] }

abbrev create_and_open : List Signal
create_and_open =
    signal (
      admin_payload (
        create_region
          (record { name = codes "traffic"; partition = []; attrs_json = codes "attrs" })))
    ∷ signal (admin_payload (open_region false))
    ∷ []

abbrev three_rows : List Signal
three_rows =
    signal (write_payload (row_at 1))
    ∷ signal (write_payload (row_at 2))
    ∷ signal (write_payload (row_at 3))
    ∷ []

abbrev start : Worker
start = create (codes "log")

abbrev worker_or : Worker → Try Worker → Worker
worker_or w (ok w') = w'
worker_or w (thrown e) = w

abbrev ready_worker : Worker
ready_worker = worker_or start (run flat_json start create_and_open)

abbrev full_worker : Worker
full_worker = worker_or start (run flat_json ready_worker three_rows)

ready_runs : run flat_json start create_and_open ≡ ok ready_worker
unfolding run handle_signal dispatch handle_write write_fields memtable_of threshold_of
    check_region_mem_usage send_flush_signal store_row stored_row update_memtable write row_values
    cal_row_size capacity var_capacity add_row_size stoull parse_fields field_value flush_signal
    freeze handle_absent handle_status handle_create handle_open opened parse_attrs parse_columns
    create str_eq find insert of_code Region.create set_sst set_memtable get_attr Memtable.create
    flushed_rows handle_close flushed_for_close moved_to_closed
ready_runs = refl

full_runs : run flat_json ready_worker three_rows ≡ ok full_worker
unfolding run handle_signal dispatch handle_write write_fields memtable_of threshold_of
    check_region_mem_usage send_flush_signal store_row stored_row update_memtable write row_values
    cal_row_size capacity var_capacity add_row_size stoull parse_fields field_value flush_signal
    freeze handle_absent handle_status handle_create handle_open opened parse_attrs parse_columns
    create str_eq find insert of_code Region.create set_sst set_memtable get_attr Memtable.create
    flushed_rows handle_close flushed_for_close moved_to_closed
full_runs = refl

all_run : run flat_json start (create_and_open ++ three_rows) ≡ ok full_worker
unfolding run handle_signal dispatch handle_write write_fields memtable_of threshold_of
    check_region_mem_usage send_flush_signal store_row stored_row update_memtable write row_values
    cal_row_size capacity var_capacity add_row_size stoull parse_fields field_value flush_signal
    freeze handle_absent handle_status handle_create handle_open opened parse_attrs parse_columns
    create str_eq find insert of_code Region.create set_sst set_memtable get_attr Memtable.create
    flushed_rows handle_close flushed_for_close moved_to_closed
all_run = refl

-- Two rows are flushed, and the third one waits.
full_worker_runs :
    (flushed_rows 3 full_worker.sent ≡ row 1 ∷ row 2 ∷ [])
    × (rows_of full_worker 3 ≡ row 1 ∷ row 2 ∷ row 3 ∷ [])
unfolding run handle_signal dispatch handle_write write_fields memtable_of threshold_of
    check_region_mem_usage send_flush_signal store_row stored_row update_memtable write row_values
    cal_row_size capacity var_capacity add_row_size stoull parse_fields field_value flush_signal
    freeze handle_absent handle_status handle_create handle_open opened parse_attrs parse_columns
    create str_eq find insert of_code Region.create set_sst set_memtable get_attr Memtable.create
    flushed_rows handle_close flushed_for_close moved_to_closed
full_worker_runs = (refl, refl)

ready_worker-IsSound : IsSound 2 ready_worker
ready_worker-IsSound =
    run-IsSound flat_json create_and_open (omega arith) (create-IsSound (codes "log")) ready_runs

run_conserves_example :
    rows_of full_worker 3 ≡ accepted_over flat_json start (create_and_open ++ three_rows) 3
run_conserves_example =
    run_conserves flat_json (codes "log") (create_and_open ++ three_rows) (omega arith) all_run 3

abbrev first_write : Signal
first_write = signal (write_payload (row_at 1))

abbrev written_worker : Worker
written_worker = worker_or start (handle_signal flat_json ready_worker first_write)

write_runs : handle_signal flat_json ready_worker first_write ≡ ok written_worker
unfolding run handle_signal dispatch handle_write write_fields memtable_of threshold_of
    check_region_mem_usage send_flush_signal store_row stored_row update_memtable write row_values
    cal_row_size capacity var_capacity add_row_size stoull parse_fields field_value flush_signal
    freeze handle_absent handle_status handle_create handle_open opened parse_attrs parse_columns
    create str_eq find insert of_code Region.create set_sst set_memtable get_attr Memtable.create
    flushed_rows handle_close flushed_for_close moved_to_closed
write_runs = refl

handle_signal-Handled_example :
    Handled 2 ready_worker
      (accepted flat_json ready_worker 3 (write_payload (row_at 1)))
      written_worker
handle_signal-Handled_example =
    handle_signal-Handled flat_json first_write (omega arith) ready_worker-IsSound write_runs

first_write-IsServed : IsServed flat_json ready_worker 3 (write_payload (row_at 1))
unfolding run handle_signal dispatch handle_write write_fields memtable_of threshold_of
    check_region_mem_usage send_flush_signal store_row stored_row update_memtable write row_values
    cal_row_size capacity var_capacity add_row_size stoull parse_fields field_value flush_signal
    freeze handle_absent handle_status handle_create handle_open opened parse_attrs parse_columns
    create str_eq find insert of_code Region.create set_sst set_memtable get_attr Memtable.create
    flushed_rows handle_close flushed_for_close moved_to_closed
first_write-IsServed m fields held read = (
  40,
  uint64 7 ∷ [],
  refl,
  subst₂
      (λ (o : Option Memtable) (fs : Option (Dict Value)). elim o [
        | none ↦ Unit {0}
        | some u ↦ elim fs [
          | none ↦ Unit {0}
          | some f ↦ row_values u.column_names f ≡ some (uint64 7 ∷ [])
        ]
      ])
      held read refl,
)

handle_signal-returns_example :
    (w' : Worker) × (handle_signal flat_json ready_worker first_write ≡ ok w')
handle_signal-returns_example =
    handle_signal-returns flat_json ready_worker first_write ready_worker-IsSound
      first_write-IsServed

abbrev region_or : Region → Option Region → Region
region_or r (some r') = r'
region_or r none = r

abbrev ready_region : Region
ready_region = region_or (Region.create 0 [] [] []) (ready_worker.regions 3)

ready_region_runs : ready_worker.regions 3 ≡ some ready_region
unfolding run handle_signal dispatch handle_write write_fields memtable_of threshold_of
    check_region_mem_usage send_flush_signal store_row stored_row update_memtable write row_values
    cal_row_size capacity var_capacity add_row_size stoull parse_fields field_value flush_signal
    freeze handle_absent handle_status handle_create handle_open opened parse_attrs parse_columns
    create str_eq find insert of_code Region.create set_sst set_memtable get_attr Memtable.create
    flushed_rows handle_close flushed_for_close moved_to_closed
ready_region_runs = refl

write_runs_alone : handle_write flat_json ready_worker (row_at 1) 3 ≡ ok written_worker
unfolding run handle_signal dispatch handle_write write_fields memtable_of threshold_of
    check_region_mem_usage send_flush_signal store_row stored_row update_memtable write row_values
    cal_row_size capacity var_capacity add_row_size stoull parse_fields field_value flush_signal
    freeze handle_absent handle_status handle_create handle_open opened parse_attrs parse_columns
    create str_eq find insert of_code Region.create set_sst set_memtable get_attr Memtable.create
    flushed_rows handle_close flushed_for_close moved_to_closed
write_runs_alone = refl

handle_write-Handled_example :
    Handled 2 ready_worker
      (only_for 3 (accepted_write flat_json (some ready_region) (row_at 1)))
      written_worker
handle_write-Handled_example =
    handle_write-Handled flat_json (row_at 1) 3 ready_region (omega arith) ready_worker-IsSound
      ready_region_runs write_runs_alone

abbrev closed_worker : Worker
closed_worker = worker_or start (handle_status flat_json full_worker (close_region false) 3)

close_runs : handle_status flat_json full_worker (close_region false) 3 ≡ ok closed_worker
unfolding run handle_signal dispatch handle_write write_fields memtable_of threshold_of
    check_region_mem_usage send_flush_signal store_row stored_row update_memtable write row_values
    cal_row_size capacity var_capacity add_row_size stoull parse_fields field_value flush_signal
    freeze handle_absent handle_status handle_create handle_open opened parse_attrs parse_columns
    create str_eq find insert of_code Region.create set_sst set_memtable get_attr Memtable.create
    flushed_rows handle_close flushed_for_close moved_to_closed
close_runs = refl

handle_status-Handled_example : Handled 5 full_worker (λ j. []) closed_worker
handle_status-Handled_example =
    handle_status-Handled flat_json (close_region false) 3 run-IsSound_full close_runs
  where
    run-IsSound_full : IsSound 5 full_worker
    run-IsSound_full = run-IsSound flat_json three_rows (omega arith) ready_worker-IsSound full_runs
