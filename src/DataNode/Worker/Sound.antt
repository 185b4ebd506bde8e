-- ===== src/DataNode/Worker/Sound.antt =====
-- The invariant of a worker: an open region has a memtable that accepts writes and an SST to flush to,
-- a closed one has its SST and no memtable.
use di_traffic_database.Common.{
  ℕ, suc, ◌≤◌, true, false, Option, none, some, List, [], ◌∷◌, ◌++◌, ◌≡◌, refl, arith, length, inl,
  inr, ==_iff, Option-cases, ap,
}
use di_traffic_database.DataNode.Exceptions.{ok, thrown, invalid_argument}
use di_traffic_database.DataNode.Maps.{put, Dict}
use di_traffic_database.DataNode.Values.{ColumnType, Value}
use di_traffic_database.DataNode.Memtable
use di_traffic_database.DataNode.Memtable.{Memtable, RowSize, row_values, add_row_size, freeze}
use di_traffic_database.DataNode.Memtable.Rows.{appended, write-appended, write-missing}
use di_traffic_database.DataNode.Region.{Region, Sst, set_memtable}
use di_traffic_database.DataNode.Requests.{FlushSignal}
use di_traffic_database.DataNode.Worker.{
  Worker, has, memtable_of, update_memtable, send_flush_signal, flush_signal, store_row, stored_row,
  create,
}

-- A memtable in use, of at most `n` rows.
abbrev pub IsWritable : ℕ → Option Memtable → Type 0
IsWritable n none = ⊥
IsWritable n (some m) = (m.mut ≡ true) × (length m.table ≤ n) × (m.row_count ≡ length m.table)

abbrev pub HasSst : Option Sst → Type 0
HasSst none = ⊥
HasSst (some s) = Unit {0}

abbrev pub IsReady : ℕ → Option Region → Type 0
IsReady n none = Unit {0}
IsReady n (some r) = IsWritable n r.current_memtable × HasSst r.current_sst

abbrev pub IsShut : Option Region → Type 0
IsShut none = Unit {0}
IsShut (some r) = (r.current_memtable ≡ none) × HasSst r.current_sst

pub record IsSound (n : ℕ) (w : Worker) : Type 0 where
  pub open_ready : (id : ℕ) → IsReady n (w.regions id)
  pub closed_shut : (id : ℕ) → IsShut (w.closed_regions id)

pub create-IsSound : (log_path : List ℕ) → IsSound 0 (create log_path)
unfolding create
create-IsSound log_path = record { open_ready = λ id. tt; closed_shut = λ id. tt }

pub IsSound-suc : {n : ℕ} {w : Worker} → IsSound n w → IsSound (suc n) w
IsSound-suc {n} {w} v = record {
  open_ready = λ j. ground (arith, v.open_ready j);
  closed_shut = v.closed_shut;
}

pub put_self {ℓ} : {V : Type ℓ} (k : ℕ) (v : V) (t : ℕ → Option V) → put k v t k ≡ some v
put_self k v t = rw ((==_iff k k).1 refl)

pub has-some {ℓ} :
    {V : Type ℓ} (t : ℕ → Option V) (id : ℕ) {v : V} → t id ≡ some v → has t id ≡ true
has-some t id e = ap (λ o. elim o [ none ↦ false | some _ ↦ true ]) e

pub has-none {ℓ} : {V : Type ℓ} (t : ℕ → Option V) (id : ℕ) → t id ≡ none → has t id ≡ false
has-none t id e = ap (λ o. elim o [ none ↦ false | some _ ↦ true ]) e

-- An open region of a sound worker, with its memtable and SST.
pub record Opened (n : ℕ) (w : Worker) (id : ℕ) (r : Region) : Type 0 where
  pub memtable : Memtable
  pub sst : Sst
  pub held : r.current_memtable ≡ some memtable
  pub target : r.current_sst ≡ some sst
  pub mutable : memtable.mut ≡ true
  pub short : length memtable.table ≤ n
  pub counted : memtable.row_count ≡ length memtable.table

pub region_parts :
    {n : ℕ} {w : Worker} (id : ℕ) (r : Region)
    → IsSound n w
    → w.regions id ≡ some r
    → Opened n w id r
region_parts {n} {w} id r v e =
    parts r.current_memtable r.current_sst refl refl (rw e at (v.open_ready id))
  where
    parts :
        (m : Option Memtable) (s : Option Sst)
        → r.current_memtable ≡ m
        → r.current_sst ≡ s
        → IsReady n (some r)
        → Opened n w id r
    parts none s em es h = absurd (rw em at (h.0))
    parts (some m) none em es h = absurd (rw es at (h.1))
    parts (some m) (some s) em es h =
        let facts : IsWritable n (some m) = rw em at (h.0) in
        record {
          memtable = m;
          sst = s;
          held = em;
          target = es;
          mutable = facts.0;
          short = facts.1;
          counted = facts.2;
        }

-- The worker after a flush of region `id`.
abbrev pub after_flush : Worker → ℕ → Region → Memtable → Sst → Worker
after_flush w id r m sst = record w {
  regions =
      put id (record r { current_memtable = some (Memtable.create m.column_names) }) w.regions;
  sent = w.sent ++ (flush_signal id m sst ∷ []);
}

pub send_flush_signal_lem :
    (w : Worker) (id : ℕ) (r : Region) (m : Memtable) (sst : Sst)
    → w.regions id ≡ some r
    → r.current_memtable ≡ some m
    → r.current_sst ≡ some sst
    → send_flush_signal w id ≡ after_flush w id r m sst
unfolding send_flush_signal set_memtable
send_flush_signal_lem w id r m sst e em es = ground arith

pub memtable_of_lem :
    (w : Worker) (id : ℕ) (r : Region) (m : Memtable)
    → w.regions id ≡ some r
    → r.current_memtable ≡ some m
    → memtable_of w id ≡ ok m
unfolding memtable_of
memtable_of_lem w id r m e em = ground arith

-- Replacing the memtable of an open region by another one in use keeps the invariant.
pub put-IsSound :
    {n : ℕ} {w : Worker} (id : ℕ) (r : Region) (m : Memtable) (sent : List FlushSignal)
    → IsSound n w
    → w.regions id ≡ some r
    → IsWritable n (some m)
    → IsSound n (record w {
      regions = put id (record r { current_memtable = some m }) w.regions;
      sent = sent;
    })
put-IsSound {n} {w} id r m sent v e h = record {
  open_ready = λ j. ground (arith, v.open_ready j, v.open_ready id);
  closed_shut = v.closed_shut;
}

pub create-IsWritable :
    (n : ℕ) (columns : Dict ColumnType) → IsWritable n (some (Memtable.create columns))
unfolding Memtable.create
create-IsWritable n columns = (refl, omega arith, refl)

pub send_flush_signal-IsSound :
    {n : ℕ} {w : Worker} (id : ℕ) → IsSound n w → IsSound n (send_flush_signal w id)
unfolding send_flush_signal
send_flush_signal-IsSound {n} {w} id v = elim (Option-cases (w.regions id)) [
  | inl absent ↦ rw (absent, send_flush_signal) v
  | inr (r, e) ↦
      let o = region_parts id r v e in
      rw (send_flush_signal_lem w id r o.memtable o.sst e o.held o.target) (
        put-IsSound id r (Memtable.create o.memtable.column_names) _ v e
          (create-IsWritable n o.memtable.column_names))
]

-- The worker after a row is stored in the memtable `m` of region `id`.
abbrev pub after_store : Worker → ℕ → Region → Memtable → ℕ → List Value → RowSize → Worker
after_store w id r m ts vs size = record w {
  regions =
      put id (record r { current_memtable = some (add_row_size (appended m ts vs) size) })
        w.regions;
}

module _ (w : Worker) (id : ℕ) (r : Region) (m : Memtable) (ts : ℕ) (fields : Dict Value)
    (size : RowSize) (e : w.regions id ≡ some r) (held : r.current_memtable ≡ some m)
    (mutable : m.mut ≡ true) where
  pub store_row-stored :
      (vs : List Value)
      → row_values m.column_names fields ≡ some vs
      → store_row w id ts fields size ≡ ok (after_store w id r m ts vs size)
  unfolding store_row update_memtable set_memtable
  store_row-stored vs found = rw (
    memtable_of_lem w id r m e held,
    write-appended m ts fields vs mutable found,
    update_memtable,
    e,
  )

  pub store_row-missing :
      row_values m.column_names fields ≡ none
      → store_row w id ts fields size ≡ thrown invalid_argument
  unfolding store_row stored_row
  store_row-missing missing =
      rw (memtable_of_lem w id r m e held)
        (ground (arith, write-missing m ts fields mutable missing))
