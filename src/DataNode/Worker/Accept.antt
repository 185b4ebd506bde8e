-- ===== src/DataNode/Worker/Accept.antt =====
-- Which row a write adds, and that `handleWrite` adds exactly it.
use mathlib.Core.List.{append-nil}
use di_traffic_database.Common.{
  ℕ, suc, ◌<◌, ◌^◌, Bool, true, false, Option, none, some, List, [], ◌∷◌, ◌++◌, ◌≡◌, refl, arith,
  if◌then◌else◌, inl, inr, Option-cases, Bool-cases, length-append, add64, ltb, sym, ap, ◌∙◌, subst,
}
use di_traffic_database.DataNode.Exceptions.{Exception, Try, ok, thrown, ok-injective, ◌>>=◌}
use di_traffic_database.DataNode.Text.{stoull}
use di_traffic_database.DataNode.Maps.{Dict}
use di_traffic_database.DataNode.Values.{Value}
use di_traffic_database.DataNode.Json.{Libraries}
use di_traffic_database.DataNode.Memtable
use di_traffic_database.DataNode.Memtable.{
  Memtable, Row, RowSize, cal_row_size, row_values, add_row_size, freeze,
}
use di_traffic_database.DataNode.Memtable.Rows.{appended}
use di_traffic_database.DataNode.Region.{Region, get_attr}
use di_traffic_database.DataNode.Requests.{WriteRequest}
use di_traffic_database.DataNode.Worker.{
  Worker, send_flush_signal, threshold_key, store_row, usage, threshold_of, check_region_mem_usage,
}
use di_traffic_database.DataNode.Worker.Fields.{parse_fields}
use di_traffic_database.DataNode.Worker.Write.{handle_write, write_fields}
use di_traffic_database.DataNode.Worker.Rows.{rows_of, only_for, rows-after_store, rows-after_flush}
use di_traffic_database.DataNode.Worker.Sound.{
  IsSound, IsWritable, Opened, IsSound-suc, put_self, region_parts, after_flush, after_store,
  send_flush_signal_lem, put-IsSound, memtable_of_lem, store_row-stored, store_row-missing,
  create-IsWritable,
}

-- The row that `fields` makes in the memtable `m`, if it has every column and fits the threshold.
abbrev pub row_of : Memtable → Try ℕ → ℕ → Dict Value → List Row
row_of m (thrown e) ts fields = []
row_of m (ok threshold) ts fields =
    if ltb threshold (add64 (cal_row_size fields).fixed_size (cal_row_size fields).var_size)
    then []
    else elim (row_values m.column_names fields) [
      | none ↦ []
      | some vs ↦ record { timestamp = ts; values = vs } ∷ []
    ]

-- A row counts as accepted if its region is open, its text parses to values of the known types, all
-- columns are there, and its size is at most the region's threshold.
module _ (lib : Libraries) where
  abbrev pub accepted_write : Option Region → WriteRequest → List Row
  accepted_write none request = []
  accepted_write (some r) request = elim r.current_memtable [
    | none ↦ []
    | some m ↦ elim (parse_fields lib request.json_data) [
      | none ↦ []
      | some fields ↦ row_of m (stoull (get_attr r threshold_key)) request.timestamp fields
    ]
  ]

-- What one handler does to a sound worker.
pub record Handled (n : ℕ) (w : Worker) (new : ℕ → List Row) (w' : Worker) : Type 0 where
  pub sound : IsSound (suc n) w'
  pub rows : (j : ℕ) → rows_of w' j ≡ rows_of w j ++ new j

pub unchanged-Handled : {n : ℕ} {w : Worker} → IsSound n w → Handled n w (λ j. []) w
unchanged-Handled v = record { sound = IsSound-suc v; rows = λ j. sym (append-nil _) }

-- If the handler returns, it has done so.
abbrev Returns : ℕ → Worker → ℕ → List Row → Try Worker → Type 0
Returns n w id new result = (w' : Worker) → result ≡ ok w' → Handled n w (only_for id new) w'

Returns-thrown :
    {n : ℕ} {w : Worker} (id : ℕ) (new : List Row) (x : Exception) → Returns n w id new (thrown x)
Returns-thrown id new x w' e = cc

Returns-unchanged : {n : ℕ} {w : Worker} (id : ℕ) → IsSound n w → Returns n w id [] (ok w)
Returns-unchanged {n} {w} id v w' e =
    subst (Handled n w (only_for id [])) (ok-injective e)
      (record { sound = IsSound-suc v; rows = λ j. rw (only_for-nil id j) (sym (append-nil _)) })
  where
    only_for-nil : (k j : ℕ) → only_for k [] j ≡ []
    only_for-nil k j = ground arith

-- The last step of `handleWrite`, from a worker whose region `id` holds the memtable `m`.
module _ {n : ℕ} {w : Worker} (id : ℕ) (r : Region) (m : Memtable) (short : suc n < 2 ^ 64)
    (v : IsSound n w) (e : w.regions id ≡ some r) (held : r.current_memtable ≡ some m)
    (usable : IsWritable n (some m)) where
  after_store-Handled :
      (ts : ℕ) (vs : List Value) (size : RowSize)
      → Handled n w
          (only_for id (record { timestamp = ts; values = vs } ∷ []))
          (after_store w id r m ts vs size)
  unfolding add_row_size
  after_store-Handled ts vs size = record {
    sound = put-IsSound id r (add_row_size (appended m ts vs) size) w.sent (IsSound-suc v) e (
      usable.0,
      omega (arith, usable, length-append m.table (record { timestamp = ts; values = vs } ∷ [])),
      omega (arith, usable, length-append m.table (record { timestamp = ts; values = vs } ∷ [])),
    );
    rows = rows-after_store w id r m e held ts vs size;
  }

  store_row-Returns :
      (ts : ℕ) (fields : Dict Value) (size : RowSize)
      → Returns n w id
          (elim (row_values m.column_names fields) [
            | none ↦ []
            | some vs ↦ record { timestamp = ts; values = vs } ∷ []
          ])
          (store_row w id ts fields size)
  store_row-Returns ts fields size = elim (Option-cases (row_values m.column_names fields)) [
    | inl missing ↦
        rw (missing, store_row-missing w id r m ts fields size e held usable.0 missing)
          (Returns-thrown id [] _)
    | inr (vs, found) ↦
        rw (found, store_row-stored w id r m ts fields size e held usable.0 vs found)
          (λ w' p. subst (Handled n w _) (ok-injective p) (after_store-Handled ts vs size))
  ]

pub threshold_of_lem :
    (w : Worker) (id : ℕ) (r : Region)
    → w.regions id ≡ some r
    → threshold_of w id ≡ stoull (get_attr r threshold_key)
unfolding threshold_of
threshold_of_lem w id r e = rw (e, threshold_of)

pub usage_lem :
    (w : Worker) (id : ℕ) (r : Region) (m : Memtable)
    → w.regions id ≡ some r
    → r.current_memtable ≡ some m
    → check_region_mem_usage w id ≡ ok (usage m)
unfolding check_region_mem_usage
usage_lem w id r m e held = rw (memtable_of_lem w id r m e held)

-- The worker that `handleWrite` stores the row from.
abbrev pub flushed_if : Bool → Worker → ℕ → Worker
flushed_if full w id = if full then send_flush_signal w id else w

-- The row that the fields make, if every column has a value.
abbrev complete_row : Memtable → ℕ → Dict Value → List Row
complete_row m ts fields = elim (row_values m.column_names fields) [
  | none ↦ []
  | some vs ↦ record { timestamp = ts; values = vs } ∷ []
]

flushed_if-Returns :
    {n : ℕ} {w : Worker} (full : Bool) (id : ℕ) (r : Region) (o : Opened n w id r)
    → suc n < 2 ^ 64
    → IsSound n w
    → w.regions id ≡ some r
    → (ts : ℕ) (fields : Dict Value) (size : RowSize)
    → Returns n w id
        (complete_row o.memtable ts fields)
        (store_row (flushed_if full w id) id ts fields size)
unfolding Memtable.create
flushed_if-Returns {n} {w} false id r o short v e ts fields size =
    store_row-Returns id r o.memtable short v e o.held (o.mutable, o.short, o.counted) ts fields
      size
flushed_if-Returns {n} {w} true id r o short v e ts fields size =
    rw (send_flush_signal_lem w id r o.memtable o.sst e o.held o.target) after
  where
    fresh : Memtable
    fresh = Memtable.create o.memtable.column_names

    emptied : Worker
    emptied = after_flush w id r o.memtable o.sst

    emptied-IsSound : IsSound n emptied
    emptied-IsSound =
        put-IsSound id r fresh emptied.sent v e (create-IsWritable n o.memtable.column_names)

    after : Returns n w id (complete_row o.memtable ts fields) (store_row emptied id ts fields size)
    after w' done =
        let h : Handled n emptied (only_for id (complete_row o.memtable ts fields)) w' =
          store_row-Returns id (record r { current_memtable = some fresh }) fresh short
            emptied-IsSound (put_self id _ w.regions) refl
            (create-IsWritable n o.memtable.column_names) ts fields size w' done in
        record {
          sound = h.sound;
          rows = λ j.
              h.rows j
              ∙ ap (λ rows. rows ++ only_for id (complete_row o.memtable ts fields) j)
                  (rows-after_flush w id r o.memtable e o.held o.sst j);
        }

write_fields-Returns :
    {n : ℕ} {w : Worker} (id : ℕ) (r : Region) (o : Opened n w id r)
    → suc n < 2 ^ 64
    → IsSound n w
    → w.regions id ≡ some r
    → (ts : ℕ) (fields : Dict Value)
    → Returns n w id
        (row_of o.memtable (stoull (get_attr r threshold_key)) ts fields)
        (write_fields w ts id fields)
unfolding write_fields
write_fields-Returns {n} {w} id r o short v e ts fields =
    rw (memtable_of_lem w id r o.memtable e o.held, threshold_of_lem w id r e)
      (checked (stoull (get_attr r threshold_key)))
  where
    size : RowSize
    size = cal_row_size fields

    checked :
        (threshold : Try ℕ)
        → Returns n w id (row_of o.memtable threshold ts fields) (
            threshold >>= λ t.
            if ltb t (add64 size.fixed_size size.var_size)
            then ok w
            else check_region_mem_usage w id >>= λ used.
                store_row
                  (flushed_if (ltb t (add64 (add64 used size.fixed_size) size.var_size)) w id)
                  id
                  ts
                  fields
                  size)
    checked (thrown x) = Returns-thrown id [] x
    checked (ok t) = elim (Bool-cases (ltb t (add64 size.fixed_size size.var_size))) [
      | inl large ↦ rw large (Returns-unchanged id v)
      | inr fits ↦
          rw (fits, usage_lem w id r o.memtable e o.held)
            (flushed_if-Returns
              (ltb t (add64 (add64 (usage o.memtable) size.fixed_size) size.var_size)) id r o short
              v e ts fields size)
    ]

module _ (lib : Libraries) where
  handle_write-Returns :
      {n : ℕ} {w : Worker} (request : WriteRequest) (id : ℕ) (r : Region)
      → suc n < 2 ^ 64
      → IsSound n w
      → w.regions id ≡ some r
      → Returns n w id (accepted_write lib (some r) request) (handle_write lib w request id)
  unfolding handle_write
  handle_write-Returns {n} {w} request id r short v e =
      let o = region_parts id r v e in
      elim (Option-cases (parse_fields lib request.json_data)) [
        | inl unreadable ↦ rw (o.held, handle_write, unreadable) (Returns-unchanged id v)
        | inr (fields, readable) ↦
            rw (o.held, handle_write, readable)
              (write_fields-Returns id r o short v e request.timestamp fields)
      ]

  -- If `handleWrite` returns for an open region of a sound worker, whose memtables have room for one more
  -- row below 2 ^ 64, the accepted row, if there is one, is the last of its region, no other
  -- row of any region is lost or moved, and the worker is sound.
  pub handle_write-Handled :
      {n : ℕ} {w w' : Worker} (request : WriteRequest) (id : ℕ) (r : Region)
      → suc n < 2 ^ 64
      → IsSound n w
      → w.regions id ≡ some r
      → handle_write lib w request id ≡ ok w'
      → Handled n w (only_for id (accepted_write lib (some r) request)) w'
  handle_write-Handled {w' = w'} request id r short v e done =
      handle_write-Returns request id r short v e w' done
