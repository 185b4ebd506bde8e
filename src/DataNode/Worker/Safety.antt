-- ===== src/DataNode/Worker/Safety.antt =====
-- Which exceptions a sound worker can meet, and when it meets none.
use di_traffic_database.Common.{
  ℕ, Bool, true, false, Option, none, some, List, ◌≡◌, refl, inl, inr, ◌&&◌, if◌then◌else◌, ltb,
  add64, Option-cases, Bool-cases,
}
use di_traffic_database.DataNode.Exceptions.{Try, ok}
use di_traffic_database.DataNode.Text.{stoull}
use di_traffic_database.DataNode.Maps.{Dict}
use di_traffic_database.DataNode.Values.{Value, ColumnType}
use di_traffic_database.DataNode.Json.{Libraries}
use di_traffic_database.DataNode.Memtable
use di_traffic_database.DataNode.Memtable.{Memtable, RowSize, cal_row_size, row_values}
use di_traffic_database.DataNode.Region.{Region, get_attr}
use di_traffic_database.DataNode.Requests.{
  CreateRegion, WriteRequest, RegionAdminRequest, create_region, open_region, close_region,
  drop_region, Payload, write_payload, admin_payload, Signal,
}
use di_traffic_database.DataNode.Worker.{Worker, has, threshold_key, store_row}
use di_traffic_database.DataNode.Worker.Fields.{parse_fields, parse_attrs, parse_columns}
use di_traffic_database.DataNode.Worker.Status.{
  columns_key, handle_status, handle_open, handle_close, handle_create, handle_drop,
}
use di_traffic_database.DataNode.Worker.Write.{handle_write, write_fields}
use di_traffic_database.DataNode.Worker.Dispatch.{handle_absent, dispatch, handle_signal}
use di_traffic_database.DataNode.Worker.Sound.{
  IsSound, Opened, region_parts, has-some, has-none, memtable_of_lem, send_flush_signal_lem,
  store_row-stored, after_flush, put_self,
}
use di_traffic_database.DataNode.Worker.Accept.{threshold_of_lem, usage_lem, flushed_if}

abbrev Returns : Try Worker → Type 0
Returns result = (w' : Worker) × (result ≡ ok w')

module _ (lib : Libraries) where
  -- A write raises no exception where the region is open: its threshold is a number, and a row with
  -- known types that fits the threshold has a value for each column.
  abbrev pub Completes : Option Region → WriteRequest → Type 0
  Completes none request = Unit {0}
  Completes (some r) request =
      (m : Memtable) (fields : Dict Value)
      → r.current_memtable ≡ some m
      → parse_fields lib request.json_data ≡ some fields
      → (threshold : ℕ) × (vs : List Value) × (stoull (get_attr r threshold_key) ≡ ok threshold)
        × (row_values m.column_names fields ≡ some vs)

  -- The attribute with the columns of a closed region is JSON with numbers for types.
  abbrev pub Readable : Option Region → Type 0
  Readable none = Unit {0}
  Readable (some r) =
      (columns : Option (Dict ColumnType)) × (parse_columns lib (get_attr r columns_key)
        ≡ ok columns)

  abbrev pub IsServed : Worker → ℕ → Payload → Type 0
  IsServed w id (write_payload request) = Completes (w.regions id) request
  IsServed w id (admin_payload (create_region paras)) = lib.log_opens w.log_path ≡ true
  IsServed w id (admin_payload (open_region force)) = Readable (w.closed_regions id)
  IsServed w id (admin_payload (close_region force)) = Unit {0}
  IsServed w id (admin_payload (drop_region keep_files)) = Unit {0}

store_row-Returns :
    {n : ℕ} {w : Worker} (full : Bool) (id : ℕ) (r : Region) (o : Opened n w id r) (ts : ℕ)
    (fields : Dict Value) (size : RowSize) (vs : List Value)
    → w.regions id ≡ some r
    → row_values o.memtable.column_names fields ≡ some vs
    → Returns (store_row (flushed_if full w id) id ts fields size)
unfolding Memtable.create
store_row-Returns {w = w} false id r o ts fields size vs e found =
    (_, store_row-stored w id r o.memtable ts fields size e o.held o.mutable vs found)
store_row-Returns {w = w} true id r o ts fields size vs e found =
    rw (send_flush_signal_lem w id r o.memtable o.sst e o.held o.target) (
      _,
      store_row-stored (after_flush w id r o.memtable o.sst) id
          (record r { current_memtable = some fresh }) fresh ts fields size
          (put_self id _ w.regions) refl refl vs found,
    )
  where
    fresh : Memtable
    fresh = Memtable.create o.memtable.column_names

write_fields-Returns :
    {n : ℕ} {w : Worker} (id : ℕ) (r : Region) (o : Opened n w id r) (ts : ℕ) (fields : Dict Value)
    (threshold : ℕ) (vs : List Value)
    → w.regions id ≡ some r
    → stoull (get_attr r threshold_key) ≡ ok threshold
    → row_values o.memtable.column_names fields ≡ some vs
    → Returns (write_fields w ts id fields)
unfolding write_fields
write_fields-Returns {w = w} id r o ts fields threshold vs e number found =
    rw
      (
        memtable_of_lem w id r o.memtable e o.held,
        threshold_of_lem w id r e,
        number,
        usage_lem w id r o.memtable e o.held,
      )
      (elim (Bool-cases
        (ltb threshold (add64 (cal_row_size fields).fixed_size (cal_row_size fields).var_size))) [
          | inl large ↦ rw large (w, refl)
          | inr fits ↦
              rw fits (store_row-Returns _ id r o ts fields (cal_row_size fields) vs e found)
        ])

module _ (lib : Libraries) where
  handle_write-Returns :
      {n : ℕ} {w : Worker} (request : WriteRequest) (id : ℕ) (r : Region)
      → IsSound n w
      → w.regions id ≡ some r
      → Completes lib (some r) request
      → Returns (handle_write lib w request id)
  unfolding handle_write
  handle_write-Returns {w = w} request id r v e c =
      elim (Option-cases (parse_fields lib request.json_data)) [
        | inl unreadable ↦ rw (handle_write, unreadable) (w, refl)
        | inr (fields, readable) ↦
            let o = region_parts id r v e in
            let (threshold, vs, number, found) = c o.memtable fields o.held readable in
            rw (handle_write, readable)
              (write_fields-Returns id r o request.timestamp fields threshold vs e number found)
      ]

  handle_open-Returns :
      (w : Worker) (id : ℕ) → Readable lib (w.closed_regions id) → Returns (handle_open lib w id)
  unfolding handle_open
  handle_open-Returns w id readable = elim (Bool-cases (has w.regions id)) [
    | inl opened ↦ rw (handle_open, opened) (w, refl)
    | inr absent ↦ elim (Option-cases (w.closed_regions id)) [
      | inl missing ↦ rw (handle_open, absent, missing) (w, refl)
      | inr (r, e) ↦
          let (columns, read) : Readable lib (some r) = rw e at readable in
          rw (handle_open, absent, e, read) (_, refl)
    ]
  ]

  handle_create-Returns :
      (w : Worker) (paras : CreateRegion) (id : ℕ)
      → lib.log_opens w.log_path ≡ true
      → Returns (handle_create lib w paras id)
  unfolding handle_create
  handle_create-Returns w paras id opens =
      elim (Bool-cases (has w.regions id && has w.closed_regions id)) [
        | inl known ↦ rw (handle_create, known) (w, refl)
        | inr new ↦ elim (Option-cases (parse_attrs lib paras.attrs_json)) [
          | inl unreadable ↦ rw (handle_create, new, unreadable) (w, refl)
          | inr (attrs, readable) ↦ rw (handle_create, new, readable, opens) (_, refl)
        ]
      ]

  handle_status-Returns :
      (w : Worker) (request : RegionAdminRequest) (id : ℕ)
      → IsServed lib w id (admin_payload request)
      → Returns (handle_status lib w request id)
  unfolding handle_status handle_close handle_drop
  handle_status-Returns w (create_region paras) id h = handle_create-Returns w paras id h
  handle_status-Returns w (open_region force) id h = handle_open-Returns w id h
  handle_status-Returns w (close_region force) id h = elim (Option-cases (w.regions id)) [
    | inl absent ↦ rw (handle_close, absent) (w, refl)
    | inr (r, e) ↦ rw (handle_close, e) (_, refl)
  ]
  handle_status-Returns w (drop_region keep_files) id h = elim (Bool-cases (has w.regions id)) [
    | inl opened ↦ rw (handle_drop, opened) (w, refl)
    | inr absent ↦ elim (Option-cases (w.closed_regions id)) [
      | inl missing ↦ rw (handle_drop, absent, missing) (w, refl)
      | inr (r, e) ↦ rw (handle_drop, absent, e) (_, refl)
    ]
  ]

  guarded-Returns :
      (w : Worker) (test : Bool) {result : Try Worker}
      → Returns result
      → Returns (if test then result else ok w)
  guarded-Returns w true h = h
  guarded-Returns w false h = (w, refl)

  handle_absent-Returns :
      (w : Worker) (request : RegionAdminRequest) (id : ℕ)
      → IsServed lib w id (admin_payload request)
      → Returns (handle_absent lib w request id)
  unfolding handle_absent
  handle_absent-Returns w (create_region paras) id h =
      handle_status-Returns w (create_region paras) id h
  handle_absent-Returns w (open_region force) id h =
      guarded-Returns w _ (handle_status-Returns w (open_region force) id h)
  handle_absent-Returns w (close_region force) id h =
      guarded-Returns w _ (handle_status-Returns w (close_region force) id h)
  handle_absent-Returns w (drop_region keep_files) id h =
      guarded-Returns w _ (handle_status-Returns w (drop_region keep_files) id h)

  dispatch-Returns :
      {n : ℕ} (w : Worker) (payload : Payload) (id : ℕ)
      → IsSound n w
      → IsServed lib w id payload
      → Returns (dispatch lib w payload id)
  unfolding dispatch
  dispatch-Returns w (write_payload request) id v h = elim (Option-cases (w.regions id)) [
    | inl absent ↦ rw (dispatch, has-none w.regions id absent) (w, refl)
    | inr (r, e) ↦
        let c : Completes lib (some r) request = rw e at h in
        rw (dispatch, has-some w.regions id e) (handle_write-Returns request id r v e c)
  ]
  dispatch-Returns w (admin_payload request) id v h = elim (Bool-cases (has w.regions id)) [
    | inl opened ↦ rw (dispatch, opened) (handle_status-Returns w request id h)
    | inr absent ↦ rw (dispatch, absent) (handle_absent-Returns w request id h)
  ]

  -- A sound worker handles a signal without any exception, a null pointer included, if a write to an
  -- open region finds a number for the threshold and a value for every column, an OPEN finds its column
  -- types readable, and a CREATE finds a log file that it can open. CLOSE and DROP need nothing.
  pub handle_signal-returns :
      {n : ℕ} (w : Worker) (s : Signal)
      → IsSound n w
      → IsServed lib w s.region_id s.request.payload
      → (w' : Worker) × (handle_signal lib w s ≡ ok w')
  unfolding handle_signal
  handle_signal-returns w s v h = dispatch-Returns w s.request.payload s.region_id v h
