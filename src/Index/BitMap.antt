-- ===== src/Index/BitMap.antt =====
-- src-old/lib/bitMap.hpp: a table of bits, eight columns to a byte.
pub mod Bits
use di_traffic_database.Common.{
  ℕ, zero, suc, ◌*◌, ◌/◌, ◌%◌, Bool, true, false, not, ◌&&◌, ◌||◌, ◌==◌, leb, ltb, if◌then◌else◌,
  u64, add64, max64,
}
use di_traffic_database.DataNode.Exceptions.{Try, ok, thrown, runtime_error}

-- `bits i b` is bit `b` of `bitmap[i]`.
pub record BitMap : Type 0 where
  pub bits : ℕ → ℕ → Bool
  pub row_count : ℕ
  pub col_count : ℕ
  pub backup_col_count : ℕ
  pub size : ℕ

unfoldable pub create : ℕ → ℕ → ℕ → Try BitMap
create row_count logic_col_count backup_col_count =
    if not (add64 logic_col_count backup_col_count % 8 == 0)
    then thrown runtime_error
    else if ltb (add64 logic_col_count backup_col_count) (u64 (backup_col_count * 8))
    then thrown runtime_error
    else ok (record {
      bits = λ i b. false;
      row_count = row_count;
      col_count = add64 logic_col_count backup_col_count;
      backup_col_count = backup_col_count;
      size = u64 (row_count * add64 logic_col_count backup_col_count) / 8;
    })

-- The largest number of 64 bits stands for an error.
unfoldable pub get_byte_index : BitMap → ℕ → ℕ → ℕ
get_byte_index m row col =
    if leb m.row_count row || leb m.col_count col
    then max64
    else add64 (u64 (row * (m.col_count / 8))) (col % (m.col_count / 8))

-- The largest number of 8 bits stands for an error.
unfoldable pub get_bit_index : BitMap → ℕ → ℕ
get_bit_index m col = if leb m.col_count col then 255 else col / (m.col_count / 8) % 256

unfoldable pub get : BitMap → ℕ → ℕ → Bool
get m row col =
    if get_byte_index m row col == max64
    then false
    else if get_bit_index m col == 255
    then false
    else m.bits (get_byte_index m row col) (get_bit_index m col)

-- Bit `b` of byte `i` becomes `v`.
abbrev pub write_bit : BitMap → ℕ → ℕ → Bool → BitMap
write_bit m i b v = record m { bits = λ j c. if j == i && c == b then v else m.bits j c }

unfoldable pub set : BitMap → ℕ → ℕ → BitMap × Bool
set m row col =
    if get_byte_index m row col == max64
    then (m, false)
    else if get_bit_index m col == 255
    then (m, false)
    else (write_bit m (get_byte_index m row col) (get_bit_index m col) true, true)

-- The loop of `clearCol` over the rows below `rows`.
unfoldable pub clear_rows : BitMap → ℕ → ℕ → BitMap
clear_rows m zero col = m
clear_rows m (suc row) col =
    write_bit (clear_rows m row col) (get_byte_index m row col) (get_bit_index m col) false

unfoldable pub clear_col : BitMap → ℕ → BitMap
clear_col m col = if get_bit_index m col == 255 then m else clear_rows m m.row_count col
