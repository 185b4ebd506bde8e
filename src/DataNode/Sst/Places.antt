-- ===== src/DataNode/Sst/Places.antt =====
-- Copies inside a buffer, and the places of the columns in a row.
use di_traffic_database.Common.{
  ℕ, zero, suc, ◌+◌, ◌<◌, ◌≤◌, ◌^◌, List, [], ◌∷◌, ◌++◌, ◌≡◌, refl, arith, length, add64, ap, sym,
  subst,
}
use di_traffic_database.DataNode.Exceptions.{Try, ok, thrown, ok-injective, thrown-ne-ok, ◌>>=◌}
use di_traffic_database.DataNode.Maps.{Dict}
use di_traffic_database.DataNode.Values.{
  ColumnType, int64_type, uint64_type, double_type, string_type, unknown_type,
}
use di_traffic_database.DataNode.Sst.{Copy, bytes_of, word_at, column_bytes, Layout, layout_from}

abbrev pub IsInside : ℕ → Copy → Type 0
IsInside limit c = c.offset + length c.bytes ≤ limit

abbrev pub AllInside : ℕ → List Copy → Type 0
AllInside limit [] = Unit {0}
AllInside limit (c ∷ copies) = IsInside limit c × AllInside limit copies

pub AllInside-append :
    (limit : ℕ) (xs ys : List Copy)
    → AllInside limit xs
    → AllInside limit ys
    → AllInside limit (xs ++ ys)
AllInside-append limit [] ys h k = k
AllInside-append limit (x ∷ xs) ys h k = (h.0, AllInside-append limit xs ys h.1 k)

pub AllInside-widen :
    (small limit : ℕ) (xs : List Copy) → small ≤ limit → AllInside small xs → AllInside limit xs
AllInside-widen small limit [] p h = tt
AllInside-widen small limit (x ∷ xs) p h = (omega arith, AllInside-widen small limit xs p h.1)

pub length-bytes_of : (k n : ℕ) → length (bytes_of k n) ≡ k
unfolding bytes_of
length-bytes_of zero n = refl
length-bytes_of (suc k) n = ap suc (length-bytes_of k _)

pub word_at-IsInside : (limit offset n : ℕ) → offset + 8 ≤ limit → IsInside limit (word_at offset n)
unfolding word_at
word_at-IsInside limit offset n h = omega (arith, length-bytes_of 8 n)

-- The bytes of a column in a row.
abbrev pub width : ColumnType → ℕ
width string_type = 16
width int64_type = 8
width uint64_type = 8
width double_type = 8
width (unknown_type n) = 8

abbrev pub row_width : Dict ColumnType → ℕ
row_width [] = 0
row_width ((name, type) ∷ rest) = width type + row_width rest

abbrev pub Fits : ℕ → List (ColumnType × ℕ) → Type 0
Fits row_size [] = Unit {0}
Fits row_size ((type, offset) ∷ columns) = (offset + width type ≤ row_size) × Fits row_size columns

pub column_bytes_lem :
    (type : ColumnType) (size : ℕ) → column_bytes type ≡ ok size → size ≡ width type
unfolding column_bytes
column_bytes_lem string_type size e = sym (ok-injective e)
column_bytes_lem int64_type size e = sym (ok-injective e)
column_bytes_lem uint64_type size e = sym (ok-injective e)
column_bytes_lem double_type size e = sym (ok-injective e)
column_bytes_lem (unknown_type n) size e = absurd (thrown-ne-ok e)

-- A chain of two steps that returns.
pub bind-ok :
    {A B : Type 0} (t : Try A) (f : A → Try B) {b : B}
    → (t >>= f) ≡ ok b
    → (a : A) × (t ≡ ok a) × (f a ≡ ok b)
bind-ok (ok a) f e = (a, refl, e)
bind-ok (thrown x) f e = absurd (thrown-ne-ok e)

pub layout_from-Fits :
    (offset : ℕ) (columns : Dict ColumnType) (l : Layout)
    → offset + row_width columns < 2 ^ 64
    → layout_from offset columns ≡ ok l
    → (l.row_size ≡ offset + row_width columns) × Fits l.row_size l.columns
unfolding layout_from
layout_from-Fits offset [] l small e =
    subst (λ u. (u.row_size ≡ offset + 0) × Fits u.row_size u.columns) (ok-injective e)
      (omega arith, tt)
layout_from-Fits offset ((name, type) ∷ rest) l small e =
    let (size, sized, e₁) = bind-ok (column_bytes type) _ e in
    let (below, found, e₂) = bind-ok (layout_from (add64 offset size) rest) _ e₁ in
    let known : size ≡ width type = column_bytes_lem type size sized in
    let (row, fits) = layout_from-Fits (add64 offset size) rest below (omega arith) found in
    subst (λ u. (u.row_size ≡ offset + (width type + row_width rest)) × Fits u.row_size u.columns)
      (ok-injective e₂) (omega arith, (omega arith, fits))
