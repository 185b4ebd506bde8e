-- ===== src/DataNode/Sst/Total.antt =====
-- When a block is made without an exception.
use di_traffic_database.Common.{ℕ, suc, List, [], ◌∷◌, ◌+◌, ◌*◌, ◌≡◌, refl, length, u64, add64}
use di_traffic_database.DataNode.Exceptions.{Try, ok, ◌>>=◌}
use di_traffic_database.DataNode.Text.{Str}
use di_traffic_database.DataNode.Maps.{Dict}
use di_traffic_database.DataNode.Values.{
  Value, uint64, int64, double, string, ColumnType, int64_type, uint64_type, double_type,
  string_type,
}
use di_traffic_database.DataNode.Memtable.{Memtable, Row, var_capacity}
use di_traffic_database.DataNode.Sst.{
  Copy, column_bytes, Layout, layout_from, layout_of, disk_size, var_meta_copies, value_copies,
  text_length, row_copies, table_copies, serialize_memtable, flush_block, basic_size, var_meta_size,
  fixed_data_size,
}
use di_traffic_database.DataNode.Sst.Places.{bind-ok}

-- The value has the alternative that the column's type names.
pub data HasType : ColumnType → Value → Type 0 where
  a_string : (s : Str) → HasType string_type (string s)
  an_int64 : (n : ℕ) → HasType int64_type (int64 n)
  a_uint64 : (n : ℕ) → HasType uint64_type (uint64 n)
  a_double : (n : ℕ) → HasType double_type (double n)

abbrev pub Typed : List (ColumnType × ℕ) → List Value → Type 0
Typed [] values = Unit {0}
Typed (c ∷ columns) [] = ⊥
Typed ((type, offset) ∷ columns) (v ∷ values) = HasType type v × Typed columns values

abbrev pub AllTyped : Layout → List Row → Type 0
AllTyped l [] = Unit {0}
AllTyped l (r ∷ rows) = Typed l.columns r.values × AllTyped l rows

value_copies-returns :
    (d place text_place : ℕ) (type : ColumnType) (v : Value)
    → HasType type v
    → (copies : List Copy) × (value_copies d place text_place type v ≡ ok copies)
unfolding value_copies
value_copies-returns d place text_place _ _ (a_string s) = (_, refl)
value_copies-returns d place text_place _ _ (an_int64 n) = (_, refl)
value_copies-returns d place text_place _ _ (a_uint64 n) = (_, refl)
value_copies-returns d place text_place _ _ (a_double n) = (_, refl)

-- Two steps that return, one after the other.
both-return :
    {A B : Type 0} {t : Try A} {a : A} {b : B} (f : A → Try B)
    → t ≡ ok a
    → f a ≡ ok b
    → (t >>= f) ≡ ok b
both-return f e h = rw e h

module _ (d var_place : ℕ) where
  row_copies-returns :
      (row_place var_offset : ℕ) (columns : List (ColumnType × ℕ)) (values : List Value)
      → Typed columns values
      → (out : List Copy × ℕ) × (row_copies d var_place row_place var_offset columns values
          ≡ ok out)
  unfolding row_copies
  row_copies-returns row_place var_offset [] values h = (_, refl)
  row_copies-returns row_place var_offset (c ∷ columns) [] h = absurd h
  row_copies-returns row_place var_offset ((type, offset) ∷ columns) (v ∷ values) h =
      let (copies, copied) =
        value_copies-returns d (row_place + offset) (var_place + var_offset) type v h.0 in
      let (rest, found) =
        row_copies-returns row_place (add64 var_offset (text_length type v)) columns values h.1 in
      (_, both-return _ copied (both-return _ found refl))

  table_copies-returns :
      (l : Layout) (fixed_place row_id var_offset : ℕ) (rows : List Row)
      → AllTyped l rows
      → (copies : List Copy) × (table_copies d var_place l fixed_place row_id var_offset rows
          ≡ ok copies)
  unfolding table_copies
  table_copies-returns l fixed_place row_id var_offset [] h = (_, refl)
  table_copies-returns l fixed_place row_id var_offset (r ∷ rows) h =
      let (row, found) =
        row_copies-returns (fixed_place + u64 (l.row_size * row_id)) var_offset l.columns r.values
          h.0 in
      let (rest, below) = table_copies-returns l fixed_place (suc row_id) row.1 rows h.1 in
      (_, both-return _ found (both-return _ below refl))

var_meta_copies-returns :
    (types sizes offsets names idx name_offset offset : ℕ) (columns : Dict ColumnType) (l : Layout)
    → layout_from offset columns ≡ ok l
    → (copies : List Copy) × (var_meta_copies types sizes offsets names idx name_offset columns
        ≡ ok copies)
unfolding var_meta_copies layout_from
var_meta_copies-returns types sizes offsets names idx name_offset offset [] l e = (_, refl)
var_meta_copies-returns types sizes offsets names idx name_offset offset ((name, type) ∷ rest) l e =
    let (size, sized, e₁) = bind-ok (column_bytes type) _ e in
    let (below, found, e₂) = bind-ok (layout_from (add64 offset size) rest) _ e₁ in
    let (copies, described) =
      var_meta_copies-returns types sizes offsets names (suc idx) (add64 name_offset (length name))
        (add64 offset size) rest below found in
    (_, both-return _ sized (both-return _ described refl))

-- `flushBlock` makes a block of a memtable with known column types, all of whose rows have a value of
-- the right alternative for every column.
pub flush_block-returns :
    (m : Memtable) (l : Layout)
    → layout_of m ≡ ok l
    → AllTyped l m.table
    → (copies : List Copy) × (flush_block m ≡ ok (disk_size m l, copies))
unfolding flush_block serialize_memtable layout_of
flush_block-returns m l laid_out typed =
    let n = length m.column_names in
    let (metas, described) =
      var_meta_copies-returns 56 (56 + 4 * n) (56 + 12 * n) (56 + basic_size n) 0 0 0 m.column_names
        l laid_out in
    let (rows, stored) =
      table_copies-returns (var_capacity m) (56 + var_meta_size m + fixed_data_size m l) l
        (56 + var_meta_size m) 0 0 m.table typed in
    (
      _,
      both-return _ laid_out
          (both-return _ (both-return _ described (both-return _ stored refl)) refl),
    )
