-- ===== src/Index/SkipList.antt =====
-- src-old/lib/skipList.hpp: a skip list from keys to positions. Its nodes are in a store, by pointer:
-- the head is pointer 0, and `new` gives the next pointer that was not used. `none` as a result is a
-- fault, an access past the end of a node's `next`, or a loop that has visited more nodes than there
-- are.
pub mod KeyTypes
pub mod Towers
pub mod Chain
pub mod Order
pub mod Descent
pub mod Valid
pub mod Links
pub mod Placed
pub mod Insert
pub mod Collected
pub mod Find
pub mod Output
mod Tests
use mathlib.Core.Option
use di_traffic_database.Common.{
  ℕ, zero, suc, ◌+◌, ◌-◌, ◌*◌, ◌%◌, ◌^◌, Bool, true, false, not, ◌==◌, ltb, Option, none, some,
  List, [], ◌∷◌, ◌++◌, if◌then◌else◌, length, replicate, add64,
}
use di_traffic_database.DataNode.Text.{Str}
use di_traffic_database.DataNode.Sst.{bytes_of}
use di_traffic_database.Index.Keys.{Comparisons}

-- A class of keys: its size, the key that bytes stand for, the bytes of a key, and its operators.
pub record KeyType (K : Type 0) : Type 0 where
  pub size : ℕ
  pub read : Str → K
  pub bytes : K → Str
  pub order : Comparisons K

-- `SkipListNode`; `next` has `height` elements.
pub record Node (K : Type 0) : Type 0 where
  pub key : K
  pub value : ℕ
  pub height : ℕ
  pub next : ℕ → Option ℕ

pub record SkipList (K : Type 0) : Type 0 where
  pub max_level : ℕ
  pub level : ℕ
  pub node_num : ℕ
  pub value_len : ℕ
  pub nodes : ℕ → Node K
  pub size : ℕ

-- The result of `compareNodeKey`: -1, 0 or 1.
pub data Sign : Type 0 where
  less same greater : Sign

unfoldable pub is_less : Sign → Bool
is_less less = true
is_less other = false

unfoldable pub is_greater : Sign → Bool
is_greater greater = true
is_greater other = false

abbrev pub updated {ℓ} : {A : Type ℓ} → (ℕ → A) → ℕ → A → ℕ → A
updated f p v q = if q == p then v else f q

-- The loop of `randomLevel` with `left` levels to go; `rand i` is the result of its call `i` of rand.
unfoldable pub climb : (ℕ → ℕ) → ℕ → ℕ → ℕ → ℕ
climb rand i lvl zero = lvl
climb rand i lvl (suc left) =
    let higher = climb rand (i + 1) (lvl + 1) left in if rand i % 2 == 0 then higher else lvl

unfoldable pub random_level : (ℕ → ℕ) → ℕ → ℕ
random_level rand max_level = climb rand 0 1 (max_level - 1)

-- A memcpy into a buffer; past its end it is a fault.
unfoldable pub overwrite : Str → Str → Option Str
overwrite buffer [] = some buffer
overwrite [] (b ∷ bytes) = none
overwrite (x ∷ buffer) (b ∷ bytes) = Option.map (λ rest. b ∷ rest) (overwrite buffer bytes)

unfoldable pub write_at : Str → ℕ → Str → Option Str
write_at buffer zero bytes = overwrite buffer bytes
write_at [] (suc offset) bytes = none
write_at (x ∷ buffer) (suc offset) bytes =
    Option.map (λ rest. x ∷ rest) (write_at buffer offset bytes)

module _ {K : Type 0} where
  unfoldable pub new_node : K → ℕ → ℕ → Node K
  new_node key value level = record { key = key; value = value; height = level; next = λ i. none }

  abbrev pub get_value : (ℕ → Node K) → ℕ → ℕ
  get_value nodes p = (nodes p).value

  unfoldable pub get_next : (ℕ → Node K) → ℕ → ℕ → Option (Option ℕ)
  get_next nodes p level = if ltb level (nodes p).height then some ((nodes p).next level) else none

  unfoldable pub put_next : (ℕ → Node K) → ℕ → ℕ → Option ℕ → Option (ℕ → Node K)
  put_next nodes p level next =
      if ltb level (nodes p).height
      then some (updated nodes p (record (nodes p) { next = updated (nodes p).next level next }))
      else none

  -- `putNext(new, i, getNext(update[i], i))`, then `putNext(update[i], i, new)`.
  unfoldable pub link : (ℕ → Node K) → ℕ → ℕ → ℕ → Option (ℕ → Node K)
  link nodes i new pred = elim (get_next nodes pred i) [
    | none ↦ none
    | some after ↦ elim (put_next nodes new i after) [
      | none ↦ none
      | some nodes' ↦ put_next nodes' pred i (some new)
    ]
  ]

  -- The loop over the levels from `i` on; a null pointer in `update` is a fault.
  unfoldable pub link_levels : (ℕ → Node K) → ℕ → (ℕ → Option ℕ) → ℕ → ℕ → Option (ℕ → Node K)
  link_levels nodes new update i zero = some nodes
  link_levels nodes new update i (suc left) = elim (update i) [
    | none ↦ none
    | some pred ↦ elim (link nodes i new pred) [
      | none ↦ none
      | some nodes' ↦ link_levels nodes' new update (i + 1) left
    ]
  ]

  -- The loop over the lowest level from `node` on. Values become `u_int32_t` in the result.
  unfoldable pub collect : (ℕ → Node K) → (ℕ → Bool) → (ℕ → Bool) → ℕ → Option ℕ → Option (List ℕ)
  collect nodes skips stops fuel none = some []
  collect nodes skips stops zero (some p) = none
  collect nodes skips stops (suc fuel) (some p) =
      let rest : Option (List ℕ) = elim (get_next nodes p 0) [
        | none ↦ none
        | some next ↦ collect nodes skips stops fuel next
      ] in
      if skips p
      then rest
      else if stops p
      then some []
      else elim rest [ none ↦ none | some values ↦ some ((get_value nodes p % 2 ^ 32) ∷ values) ]

module _ {K : Type 0} (t : KeyType K) where
  unfoldable pub create : ℕ → ℕ → SkipList K
  create max_level value_len = record {
    max_level = max_level;
    level = 0;
    node_num = 0;
    value_len = value_len;
    nodes = λ p. new_node (t.read (replicate t.size 0)) 0 max_level;
    size = 1;
  }

  unfoldable pub compare_node_key : (ℕ → Node K) → ℕ → Str → Sign
  compare_node_key nodes p key =
      if t.order.lt (nodes p).key (t.read key)
      then less
      else if t.order.gt (nodes p).key (t.read key)
      then greater
      else same

  -- The inner loop: from `curr` to the last node of the level before `key`.
  unfoldable pub advance : (ℕ → Node K) → Str → ℕ → ℕ → ℕ → Option ℕ
  advance nodes key zero level curr = none
  advance nodes key (suc fuel) level curr = elim (get_next nodes curr level) [
    | none ↦ none
    | some none ↦ some curr
    | some (some p) ↦ elim (is_less (compare_node_key nodes p key)) [
      | true ↦ advance nodes key fuel level p
      | false ↦ some curr
    ]
  ]

  -- The outer loop over the levels below `left`: the last `curr`, and `update`.
  unfoldable pub descend :
      (ℕ → Node K) → Str → ℕ → ℕ → ℕ → (ℕ → Option ℕ) → Option (ℕ × (ℕ → Option ℕ))
  descend nodes key fuel zero curr update = some (curr, update)
  descend nodes key fuel (suc i) curr update = elim (advance nodes key fuel i curr) [
    | none ↦ none
    | some p ↦ descend nodes key fuel i p (updated update i (some p))
  ]

  -- The list once the loops of `insert` have found the places `update` for a new node.
  unfoldable pub insert_at :
      SkipList K → ℕ → (ℕ → Node K) → ℕ × (ℕ → Option ℕ) → Option (SkipList K × Bool)
  insert_at s new_level nodes (curr, update) = elim (link_levels nodes s.size update 0 new_level) [
    | none ↦ none
    | some nodes' ↦ some (
      record s {
        nodes = nodes';
        size = s.size + 1;
        node_num = add64 s.node_num 1;
        level = if ltb s.level new_level then new_level else s.level;
      },
      true,
    )
  ]

  unfoldable pub insert : (ℕ → ℕ) → SkipList K → Str → ℕ → ℕ → Option (SkipList K × Bool)
  insert rand s key value max_node =
      if not (length key == t.size)
      then some (s, true)
      else if ltb max_node s.node_num
      then some (s, false)
      else (let new_level = random_level rand s.max_level in
          let nodes = updated s.nodes s.size (new_node (t.read key) value new_level) in
          elim (descend nodes key s.size (if ltb new_level s.level then s.level else new_level) 0
            (λ i. none)) [ none ↦ none | some found ↦ insert_at s new_level nodes found ])

  -- What both searches do: find the place of `begin`, and collect up to the first node that stops.
  unfoldable pub search_from : SkipList K → Str → (ℕ → Bool) → Option (List ℕ)
  search_from s begin stops = elim (descend s.nodes begin s.size s.level 0 (λ i. none)) [
    | none ↦ none
    | some (curr, update) ↦ elim (get_next s.nodes curr 0) [
      | none ↦ none
      | some node ↦
          collect s.nodes (λ p. is_less (compare_node_key s.nodes p begin)) stops s.size node
    ]
  ]

  unfoldable pub find_by_key : SkipList K → Str → Option (List ℕ)
  find_by_key s key =
      if not (length key == t.size)
      then some []
      else search_from s key (λ p. is_greater (compare_node_key s.nodes p key))

  unfoldable pub find_by_range : SkipList K → Str → Str → Option (List ℕ)
  find_by_range s begin end =
      if not (length begin == t.size)
      then some []
      else if not (length end == t.size)
      then some []
      else search_from s begin (λ p. not (is_less (compare_node_key s.nodes p end)))

  -- The loop of `outputToChar` from `node` on. More than eight bytes of a value are not its own.
  unfoldable pub output_nodes : (ℕ → Node K) → ℕ → ℕ → Option ℕ → Str → ℕ → Option Str
  output_nodes nodes value_len fuel none buffer offset = some buffer
  output_nodes nodes value_len zero (some p) buffer offset = none
  output_nodes nodes value_len (suc fuel) (some p) buffer offset =
      elim (write_at buffer offset (t.bytes (nodes p).key)) [
        | none ↦ none
        | some buffer₁ ↦
            elim (write_at buffer₁ (add64 offset t.size) (bytes_of value_len (get_value nodes p))) [
              | none ↦ none
              | some buffer₂ ↦ elim (get_next nodes p 0) [
                | none ↦ none
                | some next ↦
                    output_nodes nodes value_len fuel next buffer₂
                      (add64 (add64 offset t.size) value_len)
              ]
            ]
      ]

  unfoldable pub output_to_char : SkipList K → Option Str
  output_to_char s =
      let buffer = replicate (s.node_num * ((t.size + s.value_len) % 2 ^ 32) % 2 ^ 64) 0 in
      if ltb 8 s.value_len then none else elim (get_next s.nodes 0 0) [
        | none ↦ none
        | some node ↦ output_nodes s.nodes s.value_len s.size node buffer 0
      ]
