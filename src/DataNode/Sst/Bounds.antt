-- ===== src/DataNode/Sst/Bounds.antt =====
-- The copies of the column descriptions and of the rows stay inside the buffer.
use native.Mathlib.Nat.{mul-suc, mul-add}
use di_traffic_database.Common.{
  ℕ, suc, ◌+◌, ◌*◌, ◌<◌, ◌≤◌, ◌^◌, List, [], ◌∷◌, ◌≡◌, arith, length, length-append, u64, add64, ap,
  subst,
}
use di_traffic_database.DataNode.Exceptions.{ok, ok-injective, thrown-ne-ok}
use di_traffic_database.DataNode.Maps.{Dict}
use di_traffic_database.DataNode.Values.{
  Value, uint64, int64, double, string, ColumnType, int64_type, uint64_type, double_type,
  string_type, unknown_type, code_of,
}
use di_traffic_database.DataNode.Memtable.{Row}
use di_traffic_database.DataNode.Memtable.Capacity.{name_bytes}
use di_traffic_database.DataNode.Sst.{
  Copy, bytes_of, basic_size, column_bytes, Layout, var_meta_copies, value_copies, text_length,
  row_copies, table_copies,
}
use di_traffic_database.DataNode.Sst.Places.{
  AllInside, AllInside-append, length-bytes_of, word_at-IsInside, width, Fits, bind-ok,
}

-- The copies of the column types, sizes, name offsets and names for `n` columns whose names have
-- `names` bytes.
abbrev pub meta_end : ℕ → ℕ → ℕ
meta_end n names = 56 + (20 * n + 8) + names

pub var_meta_copies-AllInside :
    (n names idx name_offset : ℕ) (columns : Dict ColumnType) (copies : List Copy)
    → meta_end n names < 2 ^ 64
    → idx + length columns ≡ n
    → name_offset + name_bytes columns ≡ names
    → var_meta_copies 56 (56 + 4 * n) (56 + 12 * n) (56 + basic_size n) idx name_offset columns
      ≡ ok copies
    → AllInside (meta_end n names) copies
unfolding var_meta_copies basic_size
var_meta_copies-AllInside n names idx name_offset [] copies small at_end named e =
    subst (AllInside (meta_end n names)) (ok-injective e)
      (word_at-IsInside (meta_end n names) (56 + 12 * n + 8 * idx) name_offset (omega arith), tt)
var_meta_copies-AllInside n names idx name_offset ((name, type) ∷ rest) copies small at_end named
      e =
    let (size, sized, e₁) = bind-ok (column_bytes type) _ e in
    let (below, found, e₂) =
      bind-ok
        (var_meta_copies 56 (56 + 4 * n) (56 + 12 * n) (56 + basic_size n) (suc idx)
          (add64 name_offset (length name)) rest)
        _ e₁ in
    subst (AllInside (meta_end n names)) (ok-injective e₂) (
      omega (arith, length-bytes_of 4 (code_of type)),
      (
        word_at-IsInside (meta_end n names) (56 + 12 * n + 8 * idx) name_offset (omega arith),
        (
          omega arith,
          (
            word_at-IsInside (meta_end n names) (56 + 4 * n + 8 * idx) size (omega arith),
            var_meta_copies-AllInside n names (suc idx) (add64 name_offset (length name)) rest below
                small (omega arith) (omega arith) found,
          ),
        ),
      ),
    )

-- The text bytes of a row.
abbrev pub row_text : List (ColumnType × ℕ) → List Value → ℕ
row_text [] values = 0
row_text (c ∷ columns) [] = 0
row_text ((type, offset) ∷ columns) (v ∷ values) = text_length type v + row_text columns values

abbrev pub table_text : Layout → List Row → ℕ
table_text l [] = 0
table_text l (r ∷ rows) = row_text l.columns r.values + table_text l rows

value_copies-AllInside :
    (limit var_data_size place text_place : ℕ) (type : ColumnType) (v : Value) (copies : List Copy)
    → place + width type ≤ limit
    → text_place + text_length type v ≤ limit
    → value_copies var_data_size place text_place type v ≡ ok copies
    → AllInside limit copies
unfolding value_copies text_length
value_copies-AllInside limit d place text_place string_type (string s) copies h k e =
    subst (AllInside limit) (ok-injective e) (
      omega (
        arith,
        length-append (bytes_of 8 d) (bytes_of 8 (length s)),
        length-bytes_of 8 d,
        length-bytes_of 8 (length s),
      ),
      (k, tt),
    )
value_copies-AllInside limit d place text_place string_type (int64 n) copies h k e =
    absurd (thrown-ne-ok e)
value_copies-AllInside limit d place text_place string_type (uint64 n) copies h k e =
    absurd (thrown-ne-ok e)
value_copies-AllInside limit d place text_place string_type (double n) copies h k e =
    absurd (thrown-ne-ok e)
value_copies-AllInside limit d place text_place int64_type (int64 n) copies h k e =
    subst (AllInside limit) (ok-injective e) (word_at-IsInside limit place n h, tt)
value_copies-AllInside limit d place text_place int64_type (uint64 n) copies h k e =
    absurd (thrown-ne-ok e)
value_copies-AllInside limit d place text_place int64_type (double n) copies h k e =
    absurd (thrown-ne-ok e)
value_copies-AllInside limit d place text_place int64_type (string s) copies h k e =
    absurd (thrown-ne-ok e)
value_copies-AllInside limit d place text_place uint64_type (uint64 n) copies h k e =
    subst (AllInside limit) (ok-injective e) (word_at-IsInside limit place n h, tt)
value_copies-AllInside limit d place text_place uint64_type (int64 n) copies h k e =
    absurd (thrown-ne-ok e)
value_copies-AllInside limit d place text_place uint64_type (double n) copies h k e =
    absurd (thrown-ne-ok e)
value_copies-AllInside limit d place text_place uint64_type (string s) copies h k e =
    absurd (thrown-ne-ok e)
value_copies-AllInside limit d place text_place double_type (double n) copies h k e =
    subst (AllInside limit) (ok-injective e) (word_at-IsInside limit place n h, tt)
value_copies-AllInside limit d place text_place double_type (int64 n) copies h k e =
    absurd (thrown-ne-ok e)
value_copies-AllInside limit d place text_place double_type (uint64 n) copies h k e =
    absurd (thrown-ne-ok e)
value_copies-AllInside limit d place text_place double_type (string s) copies h k e =
    absurd (thrown-ne-ok e)
value_copies-AllInside limit d place text_place (unknown_type c) v copies h k e =
    absurd (thrown-ne-ok e)

pub row_split : (a b k : ℕ) → a * (b + suc k) ≡ a * b + a + a * k
row_split a b k = omega (arith, mul-add a b (suc k), mul-suc a k)

module _ (limit var_data_size var_place : ℕ) (small : limit < 2 ^ 64) where
  row_copies-AllInside :
      (row_size row_place var_offset : ℕ) (columns : List (ColumnType × ℕ)) (values : List Value)
      (out : List Copy × ℕ)
      → Fits row_size columns
      → row_place + row_size ≤ limit
      → var_place + (var_offset + row_text columns values) ≤ limit
      → row_copies var_data_size var_place row_place var_offset columns values ≡ ok out
      → AllInside limit out.0 × (out.1 ≡ var_offset + row_text columns values)
  unfolding row_copies
  row_copies-AllInside row_size row_place var_offset [] values out fits row_room text_room e =
      subst (λ o. AllInside limit o.0 × (o.1 ≡ var_offset + 0)) (ok-injective e) (tt, omega arith)
  row_copies-AllInside row_size row_place var_offset (c ∷ columns) [] out fits row_room text_room
        e =
      absurd (thrown-ne-ok e)
  row_copies-AllInside row_size row_place var_offset ((type, offset) ∷ columns) (v ∷ values) out
        fits row_room text_room e =
      let (copies, copied, e₁) =
        bind-ok (value_copies var_data_size (row_place + offset) (var_place + var_offset) type v) _
          e in
      let (rest, found, e₂) =
        bind-ok
          (row_copies var_data_size var_place row_place (add64 var_offset (text_length type v))
            columns values)
          _ e₁ in
      let inside : AllInside limit copies =
        value_copies-AllInside limit var_data_size (row_place + offset) (var_place + var_offset)
          type v copies (omega (arith, fits.0)) (omega arith) copied in
      let (others, last) =
        row_copies-AllInside row_size row_place (add64 var_offset (text_length type v)) columns
          values rest fits.1 row_room (omega arith) found in
      subst
        (λ o.
          AllInside limit o.0 × (o.1 ≡ var_offset + (text_length type v + row_text columns values)))
        (ok-injective e₂) (AllInside-append limit copies rest.0 inside others, omega arith)

  pub table_copies-AllInside :
      (l : Layout) (fixed_place row_id var_offset : ℕ) (rows : List Row) (copies : List Copy)
      → Fits l.row_size l.columns
      → fixed_place + l.row_size * (row_id + length rows) ≤ limit
      → var_place + (var_offset + table_text l rows) ≤ limit
      → table_copies var_data_size var_place l fixed_place row_id var_offset rows ≡ ok copies
      → AllInside limit copies
  unfolding table_copies
  table_copies-AllInside l fixed_place row_id var_offset [] copies fits row_room text_room e =
      subst (AllInside limit) (ok-injective e) tt
  table_copies-AllInside l fixed_place row_id var_offset (r ∷ rows) copies fits row_room text_room
        e =
      let (row, found, e₁) =
        bind-ok
          (row_copies var_data_size var_place (fixed_place + u64 (l.row_size * row_id)) var_offset
            l.columns r.values)
          _ e in
      let (rest, below, e₂) =
        bind-ok (table_copies var_data_size var_place l fixed_place (suc row_id) row.1 rows) _ e₁ in
      let this_row : fixed_place + (l.row_size * row_id + l.row_size) ≤ limit =
        omega (arith, row_split l.row_size row_id (length rows)) in
      let (inside, last) =
        row_copies-AllInside l.row_size (fixed_place + u64 (l.row_size * row_id)) var_offset
          l.columns r.values row fits (omega arith) (omega arith) found in
      subst (AllInside limit) (ok-injective e₂) (
        AllInside-append limit row.0 rest inside (
          table_copies-AllInside l fixed_place (suc row_id) row.1 rows rest fits
            (omega (
              arith,
              ap (λ (t : ℕ). l.row_size * t) {x = suc row_id + length rows}
                  {y = row_id + suc (length rows)} (omega arith),
            ))
            (omega (arith, last)) below))
