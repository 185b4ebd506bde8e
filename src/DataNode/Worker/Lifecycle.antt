-- ===== src/DataNode/Worker/Lifecycle.antt =====
-- What `handleStatus` does to a sound worker: it keeps every row and the invariant.
use mathlib.Core.List.{append-nil}
use di_traffic_database.Common.{
  ℕ, Option, none, some, List, [], ◌∷◌, ◌++◌, ◌≡◌, refl, arith, ◌==◌, ==_iff, length, inl, inr,
  Option-cases, Bool-cases, ltb, sym, ap, ◌∙◌, subst, ◌&&◌,
}
use di_traffic_database.DataNode.Exceptions.{Exception, Try, ok, thrown, ok-injective, Try-cases}
use di_traffic_database.DataNode.Maps.{put, erase, Dict}
use di_traffic_database.DataNode.Values.{ColumnType}
use di_traffic_database.DataNode.Json.{Libraries}
use di_traffic_database.DataNode.Memtable
use di_traffic_database.DataNode.Memtable.{Memtable, Row}
use di_traffic_database.DataNode.Region.{Region, get_attr}
use di_traffic_database.DataNode.Requests.{
  CreateRegion, RegionAdminRequest, create_region, open_region, close_region, drop_region,
}
use di_traffic_database.DataNode.Worker.{Worker, has}
use di_traffic_database.DataNode.Worker.Fields.{parse_attrs, parse_columns}
use di_traffic_database.DataNode.Worker.Status.{
  opened, moved_to_closed, handle_close, handle_drop, handle_create, handle_open, handle_status,
  columns_key,
}
use di_traffic_database.DataNode.Worker.Accept.{Handled, unchanged-Handled}
use di_traffic_database.DataNode.Worker.Rows.{held_rows, rows-after_flush}
use di_traffic_database.DataNode.Worker.Sound.{
  IsSound, Opened, region_parts, IsSound-suc, has-some, has-none, IsShut, put-IsSound,
  create-IsWritable, put_self, HasSst, send_flush_signal_lem, after_flush,
}

abbrev nothing : ℕ → List Row
nothing j = []

abbrev Keeps : ℕ → Worker → Try Worker → Type 0
Keeps n w result = (w' : Worker) → result ≡ ok w' → Handled n w nothing w'

Keeps-ok : {n : ℕ} {w w₁ : Worker} → Handled n w nothing w₁ → Keeps n w (ok w₁)
Keeps-ok {n} {w} h w' e = subst (Handled n w nothing) (ok-injective e) h

Keeps-thrown : {n : ℕ} {w : Worker} (x : Exception) → Keeps n w (thrown x)
Keeps-thrown x w' e = cc

-- The open regions keep their memtables, and nothing is sent.
closed_put-Handled :
    {n : ℕ} {w : Worker} (id : ℕ) (r : Region)
    → IsSound n w
    → r.current_memtable ≡ none
    → HasSst r.current_sst
    → Handled n w nothing (record w { closed_regions = put id r w.closed_regions })
closed_put-Handled {n} {w} id r v empty target = record {
  sound = record {
    open_ready = (IsSound-suc v).open_ready;
    closed_shut = λ j. ground (arith, v.closed_shut j);
  };
  rows = λ j. sym (append-nil _);
}

closed_erase-Handled :
    {n : ℕ} {w : Worker} (id : ℕ) (r : Region)
    → IsSound n w
    → Handled n w nothing (record w {
      droping_regions = put id r w.droping_regions;
      closed_regions = erase id w.closed_regions;
    })
closed_erase-Handled {n} {w} id r v = record {
  sound = record {
    open_ready = (IsSound-suc v).open_ready;
    closed_shut = λ j. ground (arith, v.closed_shut j);
  };
  rows = λ j. sym (append-nil _);
}

opened-Handled :
    {n : ℕ} {w : Worker} (id : ℕ) (r : Region) (columns : Option (Dict ColumnType))
    → IsSound n w
    → w.regions id ≡ none
    → HasSst r.current_sst
    → Handled n w nothing (opened w id r columns)
unfolding opened Memtable.create
opened-Handled id r none v absent target = unchanged-Handled v
opened-Handled {n} {w} id r (some columns) v absent target = record {
  sound = record {
    open_ready = λ j. ground (arith, (IsSound-suc v).open_ready j);
    closed_shut = λ j. ground (arith, v.closed_shut j);
  };
  rows = λ j. elim (Bool-cases (j == id)) [
    | inl same ↦ rw (same, ap w.regions ((==_iff j id).0 same) ∙ absent) (sym (append-nil _))
    | inr other ↦ rw other (sym (append-nil _))
  ];
}

moved-Handled :
    {n : ℕ} {w : Worker} (id : ℕ) (r : Region)
    → IsSound n w
    → w.regions id ≡ some r
    → held_rows r.current_memtable ≡ []
    → HasSst r.current_sst
    → Handled n w nothing (moved_to_closed w id)
unfolding moved_to_closed
moved-Handled {n} {w} id r v e no_rows target =
    rw (moved_to_closed, e)
      (record {
        sound = record {
          open_ready = λ j. ground (arith, (IsSound-suc v).open_ready j);
          closed_shut = λ j. ground (arith, v.closed_shut j);
        };
        rows = λ j. elim (Bool-cases (j == id)) [
          | inl same ↦
              rw (same, ap w.regions ((==_iff j id).0 same) ∙ e, no_rows) (sym (append-nil _))
          | inr other ↦ rw other (sym (append-nil _))
        ];
      })

-- Flushing first changes neither the rows nor what the worker may do next.
after_flush-Handled :
    {n : ℕ} {w w' : Worker} (id : ℕ) (r : Region) (o : Opened n w id r)
    → w.regions id ≡ some r
    → Handled n (after_flush w id r o.memtable o.sst) nothing w'
    → Handled n w nothing w'
after_flush-Handled {w = w} id r o e h = record {
  sound = h.sound;
  rows =
      λ j. h.rows j ∙ ap (λ rows. rows ++ []) (rows-after_flush w id r o.memtable e o.held o.sst j);
}

no_rows_of_length {ℓ} : {A : Type ℓ} (xs : List A) → length xs ≡ 0 → xs ≡ []
no_rows_of_length [] h = refl
no_rows_of_length (x ∷ xs) h = absurd (omega arith)

close_flushed-Handled :
    {n : ℕ} {w : Worker} (id : ℕ) (r : Region) (o : Opened n w id r)
    → IsSound n w
    → w.regions id ≡ some r
    → Handled n w nothing (moved_to_closed (after_flush w id r o.memtable o.sst) id)
unfolding Memtable.create
close_flushed-Handled {n} {w} id r o v e = after_flush-Handled id r o e (
    moved-Handled id (record r { current_memtable = some fresh })
      (put-IsSound id r fresh _ v e (create-IsWritable n o.memtable.column_names))
      (put_self id _ w.regions) refl (rw o.target tt))
  where
    fresh : Memtable
    fresh = Memtable.create o.memtable.column_names

handle_close-Keeps : {n : ℕ} {w : Worker} (id : ℕ) → IsSound n w → Keeps n w (handle_close w id)
unfolding handle_close
handle_close-Keeps {n} {w} id v = elim (Option-cases (w.regions id)) [
  | inl absent ↦ rw (handle_close, absent) (Keeps-ok (unchanged-Handled v))
  | inr (r, e) ↦
      let o = region_parts id r v e in
      elim (Bool-cases (ltb 0 o.memtable.row_count)) [
        | inl some_rows ↦
            rw
              (
                handle_close,
                e,
                o.held,
                some_rows,
                send_flush_signal_lem w id r o.memtable o.sst e o.held o.target,
              )
              (Keeps-ok (close_flushed-Handled id r o v e))
        | inr no_rows ↦
            rw (handle_close, e, o.held, no_rows)
              (Keeps-ok (
                moved-Handled id r v e
                  (rw o.held (no_rows_of_length o.memtable.table (ground (arith, o.counted))))
                  (rw o.target tt)))
      ]
]

module _ (lib : Libraries) where
  handle_create-Keeps :
      {n : ℕ} {w : Worker} (paras : CreateRegion) (id : ℕ)
      → IsSound n w
      → Keeps n w (handle_create lib w paras id)
  unfolding handle_create
  handle_create-Keeps {w = w} paras id v =
      elim (Bool-cases (has w.regions id && has w.closed_regions id)) [
        | inl known ↦ rw (handle_create, known) (Keeps-ok (unchanged-Handled v))
        | inr new ↦ elim (Option-cases (parse_attrs lib paras.attrs_json)) [
          | inl unreadable ↦ rw (handle_create, new, unreadable) (Keeps-ok (unchanged-Handled v))
          | inr (attrs, readable) ↦ elim (Bool-cases (lib.log_opens w.log_path)) [
            | inl opens ↦
                rw (handle_create, new, readable, opens)
                  (Keeps-ok (closed_put-Handled id _ v refl tt))
            | inr shut ↦ rw (handle_create, new, readable, shut) (Keeps-thrown _)
          ]
        ]
      ]

  handle_open-Keeps : {n : ℕ} {w : Worker} (id : ℕ) → IsSound n w → Keeps n w (handle_open lib w id)
  unfolding handle_open
  handle_open-Keeps {w = w} id v = elim (Option-cases (w.regions id)) [
    | inr (r, e) ↦ rw (handle_open, has-some w.regions id e) (Keeps-ok (unchanged-Handled v))
    | inl absent ↦ elim (Option-cases (w.closed_regions id)) [
      | inl missing ↦
          rw (handle_open, has-none w.regions id absent, missing) (Keeps-ok (unchanged-Handled v))
      | inr (r, e) ↦ elim (Try-cases (parse_columns lib (get_attr r columns_key))) [
        | inr (x, failed) ↦
            rw (handle_open, has-none w.regions id absent, e, failed) (Keeps-thrown x)
        | inl (columns, read) ↦
            let shut : IsShut (some r) = rw e at (v.closed_shut id) in
            rw (handle_open, has-none w.regions id absent, e, read)
              (Keeps-ok (opened-Handled id r columns v absent shut.1))
      ]
    ]
  ]

handle_drop-Keeps : {n : ℕ} {w : Worker} (id : ℕ) → IsSound n w → Keeps n w (handle_drop w id)
unfolding handle_drop
handle_drop-Keeps {w = w} id v = elim (Option-cases (w.regions id)) [
  | inr (r, e) ↦ rw (handle_drop, has-some w.regions id e) (Keeps-ok (unchanged-Handled v))
  | inl absent ↦ elim (Option-cases (w.closed_regions id)) [
    | inl missing ↦
        rw (handle_drop, has-none w.regions id absent, missing) (Keeps-ok (unchanged-Handled v))
    | inr (r, e) ↦
        rw (handle_drop, has-none w.regions id absent, e) (Keeps-ok (closed_erase-Handled id r v))
  ]
]

-- An admin request that a sound worker handles without an exception loses, adds or reorders no row of
-- any region, flushed or not, and leaves the worker sound.
pub handle_status-Handled :
    (lib : Libraries) {n : ℕ} {w w' : Worker} (request : RegionAdminRequest) (id : ℕ)
    → IsSound n w
    → handle_status lib w request id ≡ ok w'
    → Handled n w (λ j. []) w'
unfolding handle_status
handle_status-Handled lib {w' = w'} (create_region paras) id v e =
    handle_create-Keeps lib paras id v w' e
handle_status-Handled lib {w' = w'} (open_region force) id v e = handle_open-Keeps lib id v w' e
handle_status-Handled lib {w' = w'} (close_region force) id v e = handle_close-Keeps id v w' e
handle_status-Handled lib {w' = w'} (drop_region keep_files) id v e = handle_drop-Keeps id v w' e
