-- ===== src/Index/SkipList/Tests.antt =====
-- A list of ports, with three flows of two ports.
use di_traffic_database.Common.{
  ℕ, ◌%◌, ◌^◌, ◌/◌, Bool, true, ◌&&◌, Option, none, some, List, [], ◌∷◌, ◌≡◌, ◌↔◌, refl, arith,
}
use di_traffic_database.DataNode.Text.{Str}
use di_traffic_database.Index.SkipList.{
  SkipList, create, insert, insert_at, find_by_key, find_by_range, search_from, output_to_char,
  climb, random_level, new_node, get_next, put_next, link, link_levels, compare_node_key, is_less,
  is_greater, advance, descend, collect,
}
use di_traffic_database.Index.SkipList.Valid.{Represents, create-Represents, insert_entry}
use di_traffic_database.Index.SkipList.Insert.{insert_refines, insert-Represents}
use di_traffic_database.Index.SkipList.Collected.{positions}
use di_traffic_database.Index.SkipList.Find.{find_by_key-positions, find_by_range-positions}
use di_traffic_database.Index.SkipList.Output.{serialized, output_to_char-serialized}
use di_traffic_database.Index.Keys.{QuarTurpleIpv6}
use di_traffic_database.Index.SkipList.KeyTypes.{number_of, u16, ipv4_flow, key_type, class_of}
use di_traffic_database.Index.SkipList.KeyTypes.Laws.{
  key_type-IsTotalOrder, length-bytes_of, class_of-size,
}

abbrev no_gap : QuarTurpleIpv6 → Str
no_gap k = 0 ∷ 0 ∷ 0 ∷ 0 ∷ []

abbrev list_or : Option (SkipList ℕ × Bool) → SkipList ℕ
list_or none = create (key_type no_gap u16) 4 8
list_or (some (s, done)) = s

abbrev rand : ℕ → ℕ → ℕ
rand seed i = (seed / 2 ^ i) % 2

abbrev http : Str
http = 80 ∷ 0 ∷ []

abbrev https : Str
https = 187 ∷ 1 ∷ []

abbrev empty : SkipList ℕ
empty = create (key_type no_gap u16) 4 8

abbrev one : SkipList ℕ
one = list_or (insert (key_type no_gap u16) (rand 12) empty https 700 1000)

abbrev two : SkipList ℕ
two = list_or (insert (key_type no_gap u16) (rand 1) one http 4294967303 1000)

one_runs : insert (key_type no_gap u16) (rand 12) empty https 700 1000 ≡ some (one, true)
unfolding insert insert_at create climb random_level new_node get_next put_next link link_levels
    compare_node_key is_less is_greater advance descend number_of
one_runs = refl

two_runs : insert (key_type no_gap u16) (rand 1) one http 4294967303 1000 ≡ some (two, true)
unfolding insert insert_at create climb random_level new_node get_next put_next link link_levels
    compare_node_key is_less is_greater advance descend number_of
two_runs = refl

found : find_by_key (key_type no_gap u16) two http ≡ some (7 ∷ [])
unfolding insert insert_at create climb random_level new_node get_next put_next link link_levels
    compare_node_key is_less is_greater advance descend number_of find_by_key search_from collect
found = refl

abbrev stored : List (ℕ × ℕ)
stored = (80, 4294967303) ∷ (443, 700) ∷ []

one-Represents : Represents (key_type no_gap u16) one ((443, 700) ∷ [])
unfolding create number_of
one-Represents =
    insert-Represents (key_type no_gap u16) (rand 12) empty one https 700 1000 []
      (key_type-IsTotalOrder no_gap u16) (create-Represents (key_type no_gap u16) 4 8 (omega arith))
      refl (omega arith) one_runs

two-Represents : Represents (key_type no_gap u16) two stored
unfolding create number_of insert descend random_level climb advance get_next new_node insert_at
    link_levels link put_next
two-Represents =
    insert-Represents (key_type no_gap u16) (rand 1) one two http 4294967303 1000 ((443, 700) ∷ [])
      (key_type-IsTotalOrder no_gap u16) one-Represents refl (omega arith) two_runs

two_sizes : (two.node_num ≡ 2) × (two.value_len ≡ 8)
unfolding insert insert_at create climb random_level new_node get_next put_next link link_levels
    compare_node_key is_less is_greater advance descend number_of
two_sizes = (refl, refl)

insert_refines_example :
    (s' : SkipList ℕ) × (insert (key_type no_gap u16) (rand 6) two https 900 1000 ≡ some (s', true))
    × Represents
        (key_type no_gap u16)
        s'
        (insert_entry (key_type no_gap u16) (number_of https) 900 stored)
insert_refines_example =
    insert_refines (key_type no_gap u16) (rand 6) two https 900 1000 stored
      (key_type-IsTotalOrder no_gap u16) two-Represents refl (omega (arith, two_sizes))

find_by_key-positions_example :
    find_by_key (key_type no_gap u16) two http
    ≡ some (positions (λ k. (key_type no_gap u16).order.eq k (number_of http)) stored)
find_by_key-positions_example =
    find_by_key-positions (key_type no_gap u16) two http stored (key_type-IsTotalOrder no_gap u16)
      two-Represents refl

find_by_range-positions_example :
    find_by_range (key_type no_gap u16) two http https
    ≡ some (
        positions
          (λ k.
            (key_type no_gap u16).order.ge k (number_of http)
            && (key_type no_gap u16).order.lt k (number_of https))
          stored)
find_by_range-positions_example =
    find_by_range-positions (key_type no_gap u16) two http https stored
      (key_type-IsTotalOrder no_gap u16) two-Represents refl refl

output_to_char-serialized_example :
    output_to_char (key_type no_gap u16) two
    ≡ some (serialized (key_type no_gap u16) two.value_len stored)
output_to_char-serialized_example =
    output_to_char-serialized (key_type no_gap u16) two stored (length-bytes_of 2) (omega arith)
      two-Represents (omega (arith, two_sizes)) (omega (arith, two_sizes))
      (omega (arith, two_sizes))

abbrev flow : Str
flow = 187 ∷ 1 ∷ 64 ∷ 31 ∷ 1 ∷ 0 ∷ 168 ∷ 192 ∷ 2 ∷ 0 ∷ 168 ∷ 192 ∷ []

class_of-size_example : (class_of 12 ≡ some ipv4_flow) ↔ ((key_type no_gap ipv4_flow).size ≡ 12)
class_of-size_example = class_of-size no_gap 12 ipv4_flow
