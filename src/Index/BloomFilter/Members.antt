-- ===== src/Index/BloomFilter/Members.antt =====
-- No false negatives: what has been inserted is found, whatever is inserted later.
use di_traffic_database.Common.{
  ℕ, ◌<◌, true, false, ◌==◌, max64, ◌≢◌, List, [], ◌∷◌, ◌≡◌, refl, arith, Bool-cases, inl, inr,
  subst, ap, sym, ◌∙◌,
}
use di_traffic_database.Index.BitMap
use di_traffic_database.Index.BitMap.{BitMap, get_byte_index, get_bit_index}
use di_traffic_database.Index.BitMap.Bits.{IsValid, get-set}
use di_traffic_database.Index.BloomFilter.{set_rows, get_rows}

-- A set bit is inside the table.
get-inside :
    (m : BitMap) (row col : ℕ)
    → BitMap.get m row col ≡ true
    → (row < m.row_count) × (col < m.col_count)
unfolding BitMap.get get_byte_index
get-inside m row col h = ground arith

-- A successful `set` is inside the table.
set-inside :
    (m : BitMap) (row col : ℕ)
    → (BitMap.set m row col).1 ≡ true
    → (row < m.row_count) × (col < m.col_count)
unfolding BitMap.set get_byte_index
set-inside m row col h = ground arith

-- `set` changes nothing but bits.
set-IsValid :
    {width : ℕ} {m : BitMap} (row col : ℕ)
    → IsValid width m
    → IsValid width (BitMap.set m row col).0
unfolding BitMap.set
set-IsValid {m = m} row col v = elim (Bool-cases (get_byte_index m row col == max64)) [
  | inl outside ↦ rw (BitMap.set, outside) v
  | inr inside ↦ elim (Bool-cases (get_bit_index m col == 255)) [
    | inl outside ↦ rw (BitMap.set, inside, outside) v
    | inr in_byte ↦
        rw (BitMap.set, inside, in_byte)
          (record {
            some_columns = v.some_columns;
            columns = v.columns;
            fits = v.fits;
            sized = v.sized;
          })
  ]
]

set-failed :
    (m : BitMap) (row col : ℕ) → (BitMap.set m row col).1 ≡ false → (BitMap.set m row col).0 ≡ m
unfolding BitMap.set
set-failed m row col e = elim (Bool-cases (get_byte_index m row col == max64)) [
  | inl outside ↦ rw (BitMap.set, outside)
  | inr inside ↦ elim (Bool-cases (get_bit_index m col == 255)) [
    | inl outside ↦ rw (BitMap.set, inside, outside)
    | inr in_byte ↦ absurd (true-ne-false (rw (BitMap.set, inside, in_byte) at e))
  ]
]
  where
    true-ne-false : true ≢ false
    true-ne-false h = cc

set-keeps :
    {width : ℕ} {m : BitMap} (v : IsValid width m) (row col row' col' : ℕ)
    → BitMap.get m row' col' ≡ true
    → BitMap.get (BitMap.set m row col).0 row' col' ≡ true
set-keeps {m = m} v row col row' col' h = elim (Bool-cases (BitMap.set m row col).1) [
  | inl done ↦
      let (rows, columns) = set-inside m row col done in
      let (rows', columns') = get-inside m row' col' h in
      ground (arith, get-set v row col row' col' rows columns rows' columns')
  | inr failed ↦ rw (set-failed m row col failed) h
]

set-hits :
    {width : ℕ} {m : BitMap} (v : IsValid width m) (row col : ℕ)
    → (BitMap.set m row col).1 ≡ true
    → BitMap.get (BitMap.set m row col).0 row col ≡ true
set-hits {m = m} v row col done =
    let (rows, columns) = set-inside m row col done in
    ground (arith, get-set v row col row col rows columns rows columns)

-- The rows are all set in the column.
abbrev pub Seen : BitMap → ℕ → List ℕ → Type 0
Seen m col [] = Unit {0}
Seen m col (row ∷ rows) = (BitMap.get m row col ≡ true) × Seen m col rows

-- Chains of sets keep all bits.
pub record Grown (width : ℕ) (m m' : BitMap) : Type 0 where
  pub valid : IsValid width m'
  pub kept : (row col : ℕ) → BitMap.get m row col ≡ true → BitMap.get m' row col ≡ true

set-Grown :
    {width : ℕ} {m : BitMap} (row col : ℕ)
    → IsValid width m
    → Grown width m (BitMap.set m row col).0
set-Grown row col v = record {
  valid = set-IsValid row col v;
  kept = λ row' col' h. set-keeps v row col row' col' h;
}

pub Grown-trans :
    {width : ℕ} {m m' m'' : BitMap} → Grown width m m' → Grown width m' m'' → Grown width m m''
Grown-trans g h = record { valid = h.valid; kept = λ row col e. h.kept row col (g.kept row col e) }

pub Seen-Grown :
    {width : ℕ} {m m' : BitMap} (col : ℕ) (rows : List ℕ)
    → Grown width m m'
    → Seen m col rows
    → Seen m' col rows
Seen-Grown col [] g h = tt
Seen-Grown col (row ∷ rows) g h = (g.kept row col h.0, Seen-Grown col rows g h.1)

pub set_rows-Grown :
    {width : ℕ} (col : ℕ) (rows : List ℕ) {m : BitMap}
    → IsValid width m
    → Grown width m (set_rows m col rows).0
unfolding set_rows
set_rows-Grown col [] v = record { valid = v; kept = λ row col' h. h }
set_rows-Grown col (row ∷ rows) {m = m} v = elim (Bool-cases (BitMap.set m row col).1) [
  | inl done ↦
      rw (set_rows, done)
        (Grown-trans (set-Grown row col v) (set_rows-Grown col rows (set-IsValid row col v)))
  | inr failed ↦ rw (set_rows, failed) (set-Grown row col v)
]

-- A chain goes on after a successful `set`.
set_rows-next :
    (m : BitMap) (col row : ℕ) (rows : List ℕ)
    → (BitMap.set m row col).1 ≡ true
    → set_rows m col (row ∷ rows) ≡ set_rows (BitMap.set m row col).0 col rows
unfolding set_rows
set_rows-next m col row rows done = rw (set_rows, done)

pub set_rows-Seen :
    {width : ℕ} (col : ℕ) (rows : List ℕ) {m : BitMap}
    → IsValid width m
    → (set_rows m col rows).1 ≡ true
    → Seen (set_rows m col rows).0 col rows
unfolding set_rows
set_rows-Seen col [] v e = tt
set_rows-Seen col (row ∷ rows) {m = m} v e = elim (Bool-cases (BitMap.set m row col).1) [
  | inl done ↦
      let next : set_rows m col (row ∷ rows) ≡ set_rows (BitMap.set m row col).0 col rows =
        set_rows-next m col row rows done in
      let finished : (set_rows (BitMap.set m row col).0 col rows).1 ≡ true =
        ap (λ out. out.1) (sym next) ∙ e in
      subst (λ out. Seen out.0 col (row ∷ rows)) (sym next)
        (
          (set_rows-Grown col rows (set-IsValid row col v)).kept row col (set-hits v row col done),
          set_rows-Seen col rows (set-IsValid row col v) finished,
        )
  | inr failed ↦ absurd (false-ne-true (rw (failed, set_rows) at e))
]
  where
    false-ne-true : false ≢ true
    false-ne-true h = cc

pub Seen-get_rows :
    (m : BitMap) (col : ℕ) (rows : List ℕ) → Seen m col rows → get_rows m col rows ≡ true
unfolding get_rows
Seen-get_rows m col [] h = refl
Seen-get_rows m col (row ∷ rows) h = rw (get_rows, h.0) (Seen-get_rows m col rows h.1)
