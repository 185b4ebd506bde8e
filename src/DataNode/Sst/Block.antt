-- ===== src/DataNode/Sst/Block.antt =====
-- Every copy into a block's buffer stays inside the buffer.
use native.Mathlib.Nat.{zero-add}
use di_traffic_database.Common.{
  ℕ, ◌+◌, ◌*◌, ◌<◌, ◌≤◌, ◌^◌, List, [], ◌∷◌, ◌++◌, ◌≡◌, arith, length, ap, sym, ◌∙◌, subst,
}
use di_traffic_database.DataNode.Exceptions.{ok, ok-injective}
use di_traffic_database.DataNode.Maps.{Dict}
use di_traffic_database.DataNode.Values.{
  ColumnType, int64_type, uint64_type, double_type, string_type, unknown_type,
}
use di_traffic_database.DataNode.Memtable.{Memtable, var_capacity}
use di_traffic_database.DataNode.Memtable.Capacity.{name_bytes}
use di_traffic_database.DataNode.Sst.{
  Copy, word_at, basic_size, Layout, layout_of, var_meta_size, fixed_data_size, disk_size,
  fixed_meta_copies, var_meta_copies, table_copies, serialize_memtable, flush_block,
}
use di_traffic_database.DataNode.Sst.Places.{
  IsInside, AllInside, AllInside-append, AllInside-widen, word_at-IsInside, width, row_width, Fits,
  bind-ok, layout_from-Fits,
}
use di_traffic_database.DataNode.Sst.Bounds.{
  meta_end, var_meta_copies-AllInside, table_text, table_copies-AllInside,
}

fixed_meta_copies-AllInside :
    (m : Memtable) (l : Layout) (limit : ℕ) → 56 ≤ limit → AllInside limit (fixed_meta_copies m l)
unfolding fixed_meta_copies
fixed_meta_copies-AllInside m l limit h =
    let inside : (offset n : ℕ) → offset ≤ 48 → IsInside limit (word_at offset n) =
      λ offset n p. word_at-IsInside limit offset n (omega arith) in
    (
      inside 0 _ (omega arith),
      (
        inside 8 _ (omega arith),
        (
          inside 40 _ (omega arith),
          (
            inside 48 _ (omega arith),
            (
              inside 16 _ (omega arith),
              (inside 24 _ (omega arith), (inside 32 _ (omega arith), tt)),
            ),
          ),
        ),
      ),
    )

width-le : (type : ColumnType) → width type ≤ 16
width-le string_type = omega arith
width-le int64_type = omega arith
width-le uint64_type = omega arith
width-le double_type = omega arith
width-le (unknown_type n) = omega arith

row_width-le : (columns : Dict ColumnType) → row_width columns ≤ 16 * length columns
row_width-le [] = omega arith
row_width-le ((name, type) ∷ rest) = omega (arith, width-le type, row_width-le rest)

-- The size of a block, counted without bound.
unfoldable pub total_size : Memtable → ℕ
total_size m =
    meta_end (length m.column_names) (name_bytes m.column_names)
    + row_width m.column_names * length m.table
    + m.var_data_size

module _ (m : Memtable) (l : Layout) (laid_out : layout_of m ≡ ok l)
    (named : m.column_name_size ≡ name_bytes m.column_names) (small : total_size m < 2 ^ 64) where
  layout_lem : (l.row_size ≡ 0 + row_width m.column_names) × Fits l.row_size l.columns
  unfolding layout_of total_size
  layout_lem =
      layout_from-Fits 0 m.column_names l (omega (arith, row_width-le m.column_names)) laid_out

  -- The buffer has exactly the size of the block, if that fits 64 bits.
  disk_size_lem : disk_size m l ≡ total_size m
  unfolding disk_size total_size var_meta_size basic_size fixed_data_size var_capacity
  disk_size_lem = omega (arith, ap (λ (t : ℕ). t * length m.table) (layout_lem.0 ∙ zero-add _))

  -- The whole row part, and where it starts.
  fixed_part :
      (l.row_size * (0 + length m.table) ≡ row_width m.column_names * length m.table)
      × (56 + var_meta_size m + fixed_data_size m l
          ≡ meta_end (length m.column_names) (name_bytes m.column_names)
            + row_width m.column_names * length m.table)
  unfolding total_size var_meta_size basic_size fixed_data_size
  fixed_part =
      (ap (λ (t : ℕ). l.row_size * t) (zero-add (length m.table)) ∙ rows, omega (arith, rows))
    where
      rows : l.row_size * length m.table ≡ row_width m.column_names * length m.table
      rows = ap (λ (t : ℕ). t * length m.table) (layout_lem.0 ∙ zero-add _)

  serialize_memtable-AllInside :
      (copies : List Copy)
      → table_text l m.table ≤ m.var_data_size
      → serialize_memtable m l ≡ ok copies
      → AllInside (total_size m) copies
  unfolding serialize_memtable total_size var_capacity var_meta_size basic_size
  serialize_memtable-AllInside copies texts e =
      let n = length m.column_names in
      let places : disk_size m l ≡ total_size m = disk_size_lem in
      let (metas, described, e₁) =
        bind-ok
          (var_meta_copies 56 (56 + 4 * n) (56 + 12 * n) (56 + basic_size n) 0 0 m.column_names) _
          e in
      let (rows, stored, e₂) =
        bind-ok
          (table_copies (var_capacity m) (56 + var_meta_size m + fixed_data_size m l) l
            (56 + var_meta_size m) 0 0 m.table)
          _ e₁ in
      let metas_inside : AllInside (total_size m) metas =
        AllInside-widen (meta_end n (name_bytes m.column_names)) (total_size m) metas (omega arith)
          (var_meta_copies-AllInside n (name_bytes m.column_names) 0 0 m.column_names metas
            (omega arith) (omega arith) (omega arith) described) in
      subst (AllInside (total_size m)) (ok-injective e₂) (
        AllInside-append (total_size m) (fixed_meta_copies m l ++ metas) rows
          (AllInside-append (total_size m) (fixed_meta_copies m l) metas
            (fixed_meta_copies-AllInside m l (total_size m) (omega arith)) metas_inside)
          (table_copies-AllInside (total_size m) (var_capacity m)
            (56 + var_meta_size m + fixed_data_size m l) small l (56 + var_meta_size m) 0 0 m.table
            rows layout_lem.1 (omega (arith, fixed_part.0, fixed_part.1))
            (omega (arith, texts, fixed_part.1)) stored))

-- When a memtable has a correct count of its column names' bytes, its texts are no longer than
-- `var_data_size`, and its block fits 64 bits, every copy that `flushBlock` makes is inside the buffer
-- that it has allocated.
pub flush_block-AllInside :
    (m : Memtable) (l : Layout) {size : ℕ} {copies : List Copy}
    → layout_of m ≡ ok l
    → m.column_name_size ≡ name_bytes m.column_names
    → table_text l m.table ≤ m.var_data_size
    → total_size m < 2 ^ 64
    → flush_block m ≡ ok (size, copies)
    → AllInside size copies
unfolding flush_block
flush_block-AllInside m l {size} {copies} laid_out named texts small e =
    let (made, serialized, same) =
      bind-ok (serialize_memtable m l) _ (rw (laid_out, flush_block) at e) in
    subst (λ out. AllInside out.0 out.1) (ok-injective same)
      (subst (λ limit. AllInside limit made) (sym (disk_size_lem m l laid_out named small))
        (serialize_memtable-AllInside m l laid_out named small made texts serialized))
