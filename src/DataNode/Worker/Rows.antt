-- ===== src/DataNode/Worker/Rows.antt =====
-- The rows of a region: those handed to the flusher, then those still in its memtable.
use mathlib.Core.List.{append-nil, append_assoc}
use di_traffic_database.Common.{
  ℕ, true, Option, none, some, List, [], ◌∷◌, ◌++◌, ◌≡◌, refl, arith, ◌==◌, ==_iff, if◌then◌else◌,
  inl, inr, Option-cases, Bool-cases, sym, ap, ◌∙◌,
}
use di_traffic_database.DataNode.Values.{Value}
use di_traffic_database.DataNode.Memtable
use di_traffic_database.DataNode.Memtable.{Memtable, Row, RowSize, add_row_size, freeze}
use di_traffic_database.DataNode.Region.{Region, Sst}
use di_traffic_database.DataNode.Requests.{FlushSignal}
use di_traffic_database.DataNode.Text.{Str}
use di_traffic_database.DataNode.Worker.{Worker, create, send_flush_signal, flush_signal}
use di_traffic_database.DataNode.Worker.Sound.{
  IsSound, region_parts, after_flush, after_store, send_flush_signal_lem,
}

unfoldable pub flushed_rows : ℕ → List FlushSignal → List Row
flushed_rows id [] = []
flushed_rows id (s ∷ rest) =
    (if id == s.region_id then s.memtable.table else []) ++ flushed_rows id rest

abbrev pub held_rows : Option Memtable → List Row
held_rows none = []
held_rows (some m) = m.table

abbrev pub pending_rows : Option Region → List Row
pending_rows none = []
pending_rows (some r) = held_rows r.current_memtable

abbrev pub rows_of : Worker → ℕ → List Row
rows_of w id = flushed_rows id w.sent ++ pending_rows (w.regions id)

-- `rows` for the region `id`, nothing for the others.
abbrev pub only_for : ℕ → List Row → ℕ → List Row
only_for id rows j = if j == id then rows else []

pub only_for-nil : (id j : ℕ) → only_for id [] j ≡ []
only_for-nil id j = ground arith

flushed_rows-snoc :
    (j : ℕ) (signals : List FlushSignal) (s : FlushSignal)
    → flushed_rows j (signals ++ (s ∷ []))
      ≡ flushed_rows j signals ++ only_for s.region_id s.memtable.table j
unfolding flushed_rows
flushed_rows-snoc j [] s = append-nil _
flushed_rows-snoc j (t ∷ rest) s =
    ap (λ rows. (if j == t.region_id then t.memtable.table else []) ++ rows)
      (flushed_rows-snoc j rest s)
    ∙ sym (append_assoc (if j == t.region_id then t.memtable.table else []) (flushed_rows j rest) _)

module _ (w : Worker) (id : ℕ) (r : Region) (m : Memtable) (e : w.regions id ≡ some r)
    (held : r.current_memtable ≡ some m) where
  pending_lem : (j : ℕ) → (j == id) ≡ true → pending_rows (w.regions j) ≡ m.table
  pending_lem j same = ap pending_rows (ap w.regions ((==_iff j id).0 same) ∙ e) ∙ ap held_rows held

  -- A flush moves the rows of the memtable, and loses none.
  pub rows-after_flush : (sst : Sst) (j : ℕ) → rows_of (after_flush w id r m sst) j ≡ rows_of w j
  unfolding flush_signal freeze Memtable.create
  rows-after_flush sst j = elim (Bool-cases (j == id)) [
    | inl same ↦
        rw (flushed_rows-snoc j w.sent (flush_signal id m sst), same, pending_lem j same)
          (append-nil _)
    | inr other ↦
        rw (flushed_rows-snoc j w.sent (flush_signal id m sst), other)
          (ap (λ rows. rows ++ pending_rows (w.regions j)) (append-nil (flushed_rows j w.sent)))
  ]

  -- A stored row comes last in its region, and changes no other region.
  pub rows-after_store :
      (ts : ℕ) (vs : List Value) (size : RowSize) (j : ℕ)
      → rows_of (after_store w id r m ts vs size) j
        ≡ rows_of w j ++ only_for id (record { timestamp = ts; values = vs } ∷ []) j
  unfolding add_row_size
  rows-after_store ts vs size j = elim (Bool-cases (j == id)) [
    | inl same ↦
        rw (same, pending_lem j same) (sym (append_assoc (flushed_rows j w.sent) m.table _))
    | inr other ↦ rw other (sym (append-nil _))
  ]

pub rows-send_flush_signal :
    {n : ℕ} {w : Worker} (id j : ℕ) → IsSound n w → rows_of (send_flush_signal w id) j ≡ rows_of w j
unfolding send_flush_signal
rows-send_flush_signal {w = w} id j v = elim (Option-cases (w.regions id)) [
  | inl absent ↦ rw (absent, send_flush_signal)
  | inr (r, e) ↦
      let o = region_parts id r v e in
      rw (send_flush_signal_lem w id r o.memtable o.sst e o.held o.target)
        (rows-after_flush w id r o.memtable e o.held o.sst j)
]

pub create-rows : (log_path : Str) (j : ℕ) → rows_of (create log_path) j ≡ []
unfolding create flushed_rows
create-rows log_path j = refl
