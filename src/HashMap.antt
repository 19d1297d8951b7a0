-- ===== src/HashMap.antt =====
-- src/hashmap.c and src/hashmap.h: a table of 1024 slots that is searched from the first slot on.
pub mod Scan
pub mod Lookup
pub mod Insert
pub mod Ownership
pub mod ByKey
pub mod Fresh
pub mod Cleanup
pub mod Dense
pub mod Writing
pub mod Contents
pub mod Changes
pub mod Contract
use o_rss_nic.Prelude.{
  Array, Bool, Option, Run, exit_failure, false, fault, if◌then◌else◌, ltb, no_return, none, ok,
  out_of_bounds, read, some, suc, true, write, zero, ℕ, ◌&&◌, ◌+◌, ◌-◌, ◌>>=◌,
}
use o_rss_nic.FiveTuple.{FiveTuple, zero_tuple, five_tuple_equals}
use o_rss_nic.Heap.{Heap, null, ringbuffer_init, ringbuffer_destroy, load}

abbrev pub hashmap_size : ℕ
hashmap_size = 1024

-- `struct key_value_pair`; `value` is the address of a ring buffer.
pub record Slot : Type 0 where
  pub valid : Bool
  pub key : FiveTuple
  pub value : ℕ

pub record HashMap : Type 0 where
  pub map : Array Slot
  pub size : ℕ

abbrev pub empty_slot : Slot
empty_slot = record { valid = false; key = zero_tuple; value = null }

abbrev pub init : HashMap
init = record { map = λ _. empty_slot; size = 0 }

-- The `while` loop; `left` is the number of slots from `iterator` to the end of the array. `none`
-- is the result -1.
unfoldable pub contains_loop : HashMap → FiveTuple → (left iterator item_count : ℕ) → Run (Option ℕ)
contains_loop m key zero iterator item_count =
    if ltb item_count m.size then fault out_of_bounds else ok none
contains_loop m key (suc left) iterator item_count =
    let slot = m.map iterator in
    let rest =
      contains_loop m key left (iterator + 1) (if slot.valid then item_count + 1 else item_count) in
    if ltb item_count m.size
    then if slot.valid && five_tuple_equals slot.key key then ok (some iterator) else rest
    else ok none

unfoldable pub contains : HashMap → FiveTuple → Run (Option ℕ)
contains m key = contains_loop m key hashmap_size 0 0

unfoldable pub insert_at_index : HashMap → ℕ → ℕ → FiveTuple → Run HashMap
insert_at_index m index value key = do
  slots ← write hashmap_size m.map index (record { valid = true; key = key; value = value })
  ok (record m { map = slots })

-- `none` is the result -1.
unfoldable pub first_free_loop : Array Slot → (left i : ℕ) → Option ℕ
first_free_loop map zero i = none
first_free_loop map (suc left) i =
    let rest = first_free_loop map left (i + 1) in if (map i).valid then rest else some i

unfoldable pub first_free_slot : HashMap → Option ℕ
first_free_slot m = first_free_loop m.map hashmap_size 0

-- The second half of `hashmap_insert`, for a key that is not there.
unfoldable pub insert_new : HashMap → FiveTuple → ℕ → Run HashMap
unfolding insert_at_index
insert_new m key value = elim (first_free_slot m) [
  | some index ↦ do m' ← insert_at_index m index value key; ok (record m' { size = m'.size + 1 })
  | none ↦ exit_failure
]

unfoldable pub insert : HashMap → FiveTuple → ℕ → Run HashMap
unfolding insert_at_index
insert m key value = do
  found ← contains m key
  elim found [ some index ↦ insert_at_index m index value key | none ↦ insert_new m key value ]

-- `null` is the result for a key that is not there.
unfoldable pub get : HashMap → FiveTuple → Run ℕ
get m key = do
  found ← contains m key
  elim found [
    | none ↦ ok null
    | some index ↦ do slot ← read hashmap_size m.map index; ok slot.value
  ]

-- `valid = 0`, then `ringbuffer_destroy` and `size--`. Both callers find a valid slot first, so
-- the size is not 0 where it counts the valid slots.
unfoldable pub clear : HashMap → ℕ → Heap → Run (HashMap × Heap)
clear m index h = do
  slot ← read hashmap_size m.map index
  slots ← write hashmap_size m.map index (record slot { valid = false })
  h' ← ringbuffer_destroy slot.value h
  ok (record { map = slots; size = m.size - 1 }, h')

unfoldable pub remove : HashMap → FiveTuple → Heap → Run (HashMap × Heap)
remove m key h = do
  found ← contains m key
  elim found [ none ↦ ok (m, h) | some index ↦ clear m index h ]

unfoldable pub new : HashMap → FiveTuple → Heap → Run (ℕ × HashMap × Heap)
new m key h = do let (value, h') = ringbuffer_init h; m' ← insert m key value; ok (value, m', h')

-- What `hashmap_get_next` returns and writes through its two pointers.
pub data Next : Type 0 where
  next_entry : FiveTuple → ℕ → Next
  no_entry : Next

-- The body of the `for` loop returns in its first round on both branches, and with no round
-- control reaches the end of the function. `no_entry` stands for the result 0 with the zero
-- key and a null value.
unfoldable pub next_from : HashMap → ℕ → Run Next
next_from m i =
    if ltb i hashmap_size
    then if (m.map i).valid then ok (next_entry (m.map i).key (m.map i).value) else ok no_entry
    else fault no_return

unfoldable pub get_next : HashMap → FiveTuple → Run Next
unfolding next_from
get_next m current_key = do
  found ← contains m current_key
  elim found [ none ↦ next_from m 0 | some index ↦ next_from m (index + 1) ]

-- The `for` loop; `left` is `HASHMAP_SIZE - i`.
unfoldable pub cleanup_loop : (left i : ℕ) → HashMap → Heap → Run (HashMap × Heap)
cleanup_loop zero i m h = ok (m, h)
cleanup_loop (suc left) i m h =
    let rest = λ (m' : HashMap) (h' : Heap). cleanup_loop left (i + 1) m' h' in
    if (m.map i).valid
    then (do
      rb ← load (m.map i).value h
      if rb.is_active then rest m h else (do (m', h') ← clear m i h; rest m' h'))
    else rest m h

unfoldable pub cleanup_inactive_flows : HashMap → Heap → Run (HashMap × Heap)
cleanup_inactive_flows m h = cleanup_loop hashmap_size 0 m h

-- `hashmap_destroy` frees the values of the first `size` slots, used or not.
unfoldable pub destroy_loop : (left i : ℕ) → HashMap → Heap → Run Heap
destroy_loop zero i m h = ok h
destroy_loop (suc left) i m h =
    let rest = destroy_loop left (i + 1) m in
    do slot ← read hashmap_size m.map i; h' ← ringbuffer_destroy slot.value h; rest h'

unfoldable pub destroy : HashMap → Heap → Run Heap
unfolding destroy_loop
destroy m h = destroy_loop m.size 0 m h
