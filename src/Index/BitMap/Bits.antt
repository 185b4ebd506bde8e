-- ===== src/Index/BitMap/Bits.antt =====
-- Each row and column has a bit of its own.
use native.Mathlib.Nat.{mod-lt, div-lt_iff_lt-mul, div-add-mod, mul-add-div_right}
use di_traffic_database.Common.{
  ℕ, zero, suc, ◌+◌, ◌*◌, ◌/◌, ◌%◌, ◌<◌, ◌≤◌, ◌^◌, Bool, true, false, ◌&&◌, ◌≡◌, refl, arith, ◌==◌,
  if◌then◌else◌, ltb, u64, add64, max64, ap, subst, ◌∙◌, Bool-cases, inl, inr,
}
use di_traffic_database.DataNode.Exceptions.{ok, ok-injective, thrown-ne-ok}
use di_traffic_database.Index.BitMap.{
  BitMap, create, get_byte_index, get_bit_index, get, set, write_bit, clear_rows, clear_col,
}

-- `width` is the number of bytes in a row.
pub record IsValid (width : ℕ) (m : BitMap) : Type 0 where
  pub some_columns : 0 < width
  pub columns : m.col_count ≡ 8 * width
  pub fits : m.row_count * width < 2 ^ 60
  pub sized : m.size ≡ m.row_count * width

byte_bound : (rows width row r : ℕ) → row < rows → r < width → row * width + r < rows * width
byte_bound rows width row r p q = grind arith

byte_injective :
    (width row r row' r' : ℕ)
    → r < width
    → r' < width
    → row * width + r ≡ row' * width + r'
    → (row ≡ row') × (r ≡ r')
byte_injective width row r row' r' p q e =
    let rows : row ≡ row' = omega (arith, quotient row r p, quotient row' r' q, same) in
    (rows, omega (arith, ap (λ (t : ℕ). t * width) rows))
  where
    quotient : (i s : ℕ) → s < width → (i * width + s) / width ≡ i
    quotient i s h = omega (
      arith,
      mul-add-div_right {m = width} (omega arith) i s,
      (div-lt_iff_lt-mul {k = width} {x = s} {y = 1} (omega arith)).1 (omega arith),
    )

    same : (row * width + r) / width ≡ (row' * width + r') / width
    same = ap (λ (t : ℕ). t / width) e

module _ {width : ℕ} {m : BitMap} (v : IsValid width m) where
  eighth : m.col_count / 8 ≡ width
  eighth = omega (arith, v.columns)

  module _ (row col : ℕ) (in_rows : row < m.row_count) (in_columns : col < m.col_count) where
    get_byte_index_lem : get_byte_index m row col ≡ row * width + col % width
    unfolding get_byte_index
    get_byte_index_lem =
        rw (eighth, get_byte_index)
          (ground (
            arith,
            byte_bound m.row_count width row (col % width) in_rows (mod-lt col v.some_columns),
            v.fits,
          ))

    get_bit_index_lem : get_bit_index m col ≡ col / width
    unfolding get_bit_index
    get_bit_index_lem =
        rw (eighth, get_bit_index)
          (ground (
            arith,
            (div-lt_iff_lt-mul {x = col} {y = 8} v.some_columns).1 (omega (arith, v.columns)),
          ))

    -- A bit of a valid table has a place inside the array of bytes and inside its byte.
    pub access-lt : (get_byte_index m row col < m.size) × (get_bit_index m col < 8)
    access-lt = omega (
      arith,
      get_byte_index_lem,
      get_bit_index_lem,
      v.sized,
      byte_bound m.row_count width row (col % width) in_rows (mod-lt col v.some_columns),
      (div-lt_iff_lt-mul {x = col} {y = 8} v.some_columns).1 (omega (arith, v.columns)),
    )

    get_lem : get m row col ≡ m.bits (row * width + col % width) (col / width)
    unfolding get
    get_lem = ground (arith, get_byte_index_lem, get_bit_index_lem, access-lt, v.fits, v.sized)

    set_lem : set m row col ≡ (write_bit m (row * width + col % width) (col / width) true, true)
    unfolding set
    set_lem =
        let no_error : (get_byte_index m row col == max64) ≡ false =
          ground (arith, access-lt, v.fits, v.sized) in
        let in_byte : (get_bit_index m col == 255) ≡ false = ground (arith, access-lt) in
        rw (set, no_error, in_byte, get_byte_index_lem, get_bit_index_lem)

  same_place :
      (row col row' col' : ℕ)
      → row * width + col % width ≡ row' * width + col' % width
      → col / width ≡ col' / width
      → (row ≡ row') × (col ≡ col')
  same_place row col row' col' e f =
      let (rows, columns) =
        byte_injective width row (col % width) row' (col' % width) (mod-lt col v.some_columns)
          (mod-lt col' v.some_columns) e in
      (
        rows,
        omega (
          arith,
          columns,
          div-add-mod col width,
          div-add-mod col' width,
          ap (λ (t : ℕ). width * t) f,
        ),
      )

  -- Two places are the same exactly if row and column are.
  places :
      (row col row' col' : ℕ)
      → (row' * width + col' % width == row * width + col % width && col' / width == col / width)
        ≡ (row' == row && col' == col)
  places row col row' col' = elim (Bool-cases (row' == row && col' == col)) [
    | inl same ↦
        let rows : row' ≡ row = ground arith in
        let columns : col' ≡ col = ground arith in
        ground (
          arith,
          ap (λ (t : ℕ). t * width) rows,
          ap (λ (t : ℕ). t % width) columns,
          ap (λ (t : ℕ). t / width) columns,
        )
    | inr other ↦ ground (arith, same_place row' col' row col)
  ]

  write_bit-IsValid : (i b : ℕ) (value : Bool) → IsValid width (write_bit m i b value)
  write_bit-IsValid i b value = record {
    some_columns = v.some_columns;
    columns = v.columns;
    fits = v.fits;
    sized = v.sized;
  }

-- The table after a write at the place of `row` and `col`, read at that of `row'` and `col'`.
get-write_bit :
    {width : ℕ} {m : BitMap} (v : IsValid width m) (row col row' col' : ℕ) (value : Bool)
    → row' < m.row_count
    → col' < m.col_count
    → get (write_bit m (row * width + col % width) (col / width) value) row' col'
      ≡ (if row' == row && col' == col then value else get m row' col')
get-write_bit {width} {m} v row col row' col' value p q = rw (
  get_lem (write_bit-IsValid v (row * width + col % width) (col / width) value) row' col' p q,
  get_lem v row' col' p q,
  places v row col row' col',
)

-- `set` inside a valid table succeeds, sets the bit of its row and column, and changes no other.
pub get-set :
    {width : ℕ} {m : BitMap} (v : IsValid width m) (row col row' col' : ℕ)
    → row < m.row_count
    → col < m.col_count
    → row' < m.row_count
    → col' < m.col_count
    → ((set m row col).1 ≡ true)
      × (get (set m row col).0 row' col'
          ≡ (if row' == row && col' == col then true else get m row' col'))
get-set {width} {m} v row col row' col' p q p' q' =
    rw (set_lem v row col p q) (refl, get-write_bit v row col row' col' true p' q')

-- The table while `clearCol` is at work.
clear_rows-IsValid :
    {width : ℕ} {m : BitMap}
    → IsValid width m
    → (rows col : ℕ) → IsValid width (clear_rows m rows col)
unfolding clear_rows
clear_rows-IsValid v zero col = v
clear_rows-IsValid {m = m} v (suc row) col =
    write_bit-IsValid (clear_rows-IsValid v row col) _ _ false

clear_rows-shape :
    (m : BitMap) (rows col : ℕ)
    → ((clear_rows m rows col).row_count ≡ m.row_count)
      × ((clear_rows m rows col).col_count ≡ m.col_count)
unfolding clear_rows
clear_rows-shape m zero col = (refl, refl)
clear_rows-shape m (suc row) col = clear_rows-shape m row col

clear_rows_lem :
    {width : ℕ} {m : BitMap} (v : IsValid width m) (rows col row' col' : ℕ)
    → rows ≤ m.row_count
    → col < m.col_count
    → row' < m.row_count
    → col' < m.col_count
    → get (clear_rows m rows col) row' col'
      ≡ (if ltb row' rows && col' == col then false else get m row' col')
unfolding clear_rows
clear_rows_lem v zero col row' col' h q p' q' = ground arith
clear_rows_lem {width} {m} v (suc row) col row' col' h q p' q' =
    rw (get_byte_index_lem v row col (omega arith) q, get_bit_index_lem v row col (omega arith) q)
      (ground (
        arith,
        get-write_bit (clear_rows-IsValid v row col) row col row' col' false
            (omega (arith, clear_rows-shape m row col)) (omega (arith, clear_rows-shape m row col)),
        clear_rows_lem v row col row' col' (omega arith) q p' q',
      ))

-- `clearCol` inside a valid table clears the bits of its column, and changes no other column.
pub get-clear_col :
    {width : ℕ} {m : BitMap} (v : IsValid width m) (col row' col' : ℕ)
    → col < m.col_count
    → row' < m.row_count
    → col' < m.col_count
    → get (clear_col m col) row' col' ≡ (if col' == col then false else get m row' col')
unfolding clear_col
get-clear_col {width} {m} v col row' col' q p' q' =
    let in_byte : (get_bit_index m col == 255) ≡ false =
      ground (arith, access-lt v row' col p' q) in
    rw (clear_col, in_byte) (ground (arith, clear_rows_lem v m.row_count col row' col'))

-- A table that the constructor makes is valid, with a byte for eight columns, if it has columns and fewer
-- than 2 ^ 60 bytes.
pub create-IsValid :
    (row_count logic_col_count backup_col_count : ℕ) {m : BitMap}
    → 0 < logic_col_count + backup_col_count
    → logic_col_count + backup_col_count < 2 ^ 64
    → row_count * ((logic_col_count + backup_col_count) / 8) < 2 ^ 60
    → create row_count logic_col_count backup_col_count ≡ ok m
    → IsValid ((logic_col_count + backup_col_count) / 8) m
unfolding create
create-IsValid row_count logic_col_count backup_col_count {m} some_columns small fits e =
    let columns : add64 logic_col_count backup_col_count ≡ logic_col_count + backup_col_count =
      omega arith in
    let w : ℕ = (logic_col_count + backup_col_count) / 8 in
    elim (Bool-cases (add64 logic_col_count backup_col_count % 8 == 0)) [
      | inr odd ↦ absurd (thrown-ne-ok (rw (odd, create) at e))
      | inl even ↦
          elim (Bool-cases
            (ltb (add64 logic_col_count backup_col_count) (u64 (backup_col_count * 8)))) [
              | inl large ↦ absurd (thrown-ne-ok (rw (even, large, create) at e))
              | inr allowed ↦
                  let eighths : logic_col_count + backup_col_count ≡ 8 * w =
                    ground (arith, columns) in
                  let bytes : row_count * add64 logic_col_count backup_col_count
                      ≡ 8 * (row_count * w) =
                    ap (λ (t : ℕ). row_count * t) (columns ∙ eighths) ∙ grind arith in
                  subst (IsValid w) (ok-injective (rw (even, allowed, create) at e)) (record {
                    some_columns = omega (arith, eighths);
                    columns = omega (arith, eighths);
                    fits = fits;
                    sized = omega (arith, bytes, fits);
                  })
            ]
    ]
