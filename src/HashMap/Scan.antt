-- ===== src/HashMap/Scan.antt =====
-- The searches of src/hashmap.c over a range of slots, with their bounds as variables.
use o_rss_nic.Prelude.{
  Array, Bool, Bool-cases, Option, ap, arith, false, if◌then◌else◌, inl, inr, none, ok, refl, some,
  suc, true, update, zero, ℕ, ℕ_discrete, ◌&&◌, ◌+◌, ◌<◌, ◌≡◌, ◌≤◌,
}
use o_rss_nic.FiveTuple.{FiveTuple, five_tuple_equals}
use o_rss_nic.HashMap.{HashMap, Slot, contains_loop, first_free_loop}

abbrev pub to_nat : Bool → ℕ
to_nat true = 1
to_nat false = 0

-- The slot `j` is in use and holds `key`.
abbrev pub matches : Array Slot → FiveTuple → ℕ → Bool
matches map key j = (map j).valid && five_tuple_equals (map j).key key

-- Of the `left` slots from `i` on: how many are in use, and the first that holds `key`.
unfoldable pub count_valid : Array Slot → (left i : ℕ) → ℕ
count_valid map zero i = 0
count_valid map (suc left) i = to_nat (map i).valid + count_valid map left (i + 1)

pub find_slot : Array Slot → FiveTuple → (left i : ℕ) → Option ℕ
find_slot map key zero i = none
find_slot map key (suc left) i =
    let rest = find_slot map key left (i + 1) in if matches map key i then some i else rest

module _ (map : Array Slot) where
  pub count_valid-le : (left i : ℕ) → count_valid map left i ≤ left
  unfolding count_valid
  count_valid-le zero i = omega arith
  count_valid-le (suc left) i = ground (arith, count_valid-le left (i + 1))

  pub find_slot-no_valid :
      (key : FiveTuple) (left i : ℕ) → count_valid map left i ≡ 0 → find_slot map key left i ≡ none
  unfolding count_valid find_slot
  find_slot-no_valid key zero i h = refl
  find_slot-no_valid key (suc left) i h = ground (arith, find_slot-no_valid key left (i + 1))

  -- A slot that is found is in range, in use and holds the key.
  pub find_slot-some :
      (key : FiveTuple) (left i j : ℕ)
      → find_slot map key left i ≡ some j
      → (i ≤ j) × (j < i + left) × (matches map key j ≡ true)
  unfolding find_slot
  find_slot-some key zero i j h = cc
  find_slot-some key (suc left) i j h = elim (Bool-cases (matches map key i)) [
    | inl here ↦ ground arith
    | inr elsewhere ↦ ground (arith, find_slot-some key left (i + 1) j)
  ]

  -- Where none is found, no slot of the range is in use and holds the key.
  pub find_slot-none :
      (key : FiveTuple) (left i j : ℕ)
      → find_slot map key left i ≡ none
      → i ≤ j
      → j < i + left
      → matches map key j ≡ false
  unfolding find_slot
  find_slot-none key zero i j h lo hi = absurd (omega arith)
  find_slot-none key (suc left) i j h lo hi = elim (ℕ_discrete i j) [
    | yes e ↦ rw (← e) (ground arith)
    | no ne ↦ find_slot-none key left (i + 1) j (ground arith) (omega arith) (omega arith)
  ]

  pub first_free_loop-some :
      (left i j : ℕ)
      → first_free_loop map left i ≡ some j
      → (i ≤ j)
        × (j < i + left)
        × ((map j).valid ≡ false)
        × ((k : ℕ) → i ≤ k → k < j → (map k).valid ≡ true)
  unfolding first_free_loop
  first_free_loop-some zero i j h = cc
  first_free_loop-some (suc left) i j h = elim (Bool-cases (map i).valid) [
    | inr free ↦
        let e : i ≡ j = ground arith in
        (omega arith, omega arith, rw (← e) free, λ k lo hi. absurd (omega arith))
    | inl used ↦
        let (lo, hi, free, before) = first_free_loop-some left (i + 1) j (ground arith) in
        (
          omega arith,
          omega arith,
          free,
          λ k from to. elim (ℕ_discrete i k) [
            | yes e ↦ rw (← e) used
            | no ne ↦ before k (omega arith) to
          ],
        )
  ]

  pub first_free_loop-none :
      (left i : ℕ) → first_free_loop map left i ≡ none → count_valid map left i ≡ left
  unfolding first_free_loop count_valid
  first_free_loop-none zero i h = refl
  first_free_loop-none (suc left) i h = ground (arith, first_free_loop-none left (i + 1))

-- The early stop of `hashmap_contains`, when it has seen as many slots as are in use, changes
-- nothing, and it does not leave the array.
pub contains_loop-find_slot :
    (m : HashMap) (key : FiveTuple) (left i c : ℕ)
    → c + count_valid m.map left i ≡ m.size
    → contains_loop m key left i c ≡ ok (find_slot m.map key left i)
unfolding contains_loop count_valid find_slot
contains_loop-find_slot m key zero i c h = ground arith
contains_loop-find_slot m key (suc left) i c h =
    let slot = m.map i in
    ground (
      arith,
      contains_loop-find_slot m key left (i + 1) (if slot.valid then c + 1 else c),
      find_slot-no_valid m.map key left (i + 1),
    )

-- The keys that two tables hold in the same slots are found in the same slots.
pub find_slot_congr :
    (map map' : Array Slot) (key : FiveTuple) (left i : ℕ)
    → ((j : ℕ) → matches map key j ≡ matches map' key j)
    → find_slot map key left i ≡ find_slot map' key left i
unfolding find_slot
find_slot_congr map map' key zero i h = refl
find_slot_congr map map' key (suc left) i h = rw (h i, find_slot_congr map map' key left (i + 1) h)

-- A slot that alone holds the key is the one that is found.
pub find_slot-only :
    (map : Array Slot) (key : FiveTuple) (left i j : ℕ)
    → i ≤ j
    → j < i + left
    → matches map key j ≡ true
    → ((k : ℕ) → k < i + left → matches map key k ≡ true → k ≡ j)
    → find_slot map key left i ≡ some j
unfolding find_slot
find_slot-only map key zero i j lo hi here only = absurd (omega arith)
find_slot-only map key (suc left) i j lo hi here only = elim (Bool-cases (matches map key i)) [
  | inl e ↦ rw e (ap some (only i (omega arith) e))
  | inr ne ↦ rw ne (
      find_slot-only map key left (i + 1) j (ground arith) (omega arith) here
        (λ k lt. only k (omega arith)))
]

count_valid-update_below :
    (map : Array Slot) (slot : Slot) (left i j : ℕ)
    → j < i
    → count_valid (update map j slot) left i ≡ count_valid map left i
unfolding count_valid
count_valid-update_below map slot zero i j h = refl
count_valid-update_below map slot (suc left) i j h =
    rw (count_valid-update_below map slot left (i + 1) j (omega arith)) (ground arith)

-- One slot is written: the count changes by what the slot was and is.
pub count_valid-update :
    (map : Array Slot) (slot : Slot) (left i j : ℕ)
    → i ≤ j
    → j < i + left
    → count_valid (update map j slot) left i + to_nat (map j).valid
      ≡ count_valid map left i + to_nat slot.valid
unfolding count_valid
count_valid-update map slot zero i j lo hi = absurd (omega arith)
count_valid-update map slot (suc left) i j lo hi = elim (ℕ_discrete i j) [
  | yes e ↦
      ground (arith, count_valid-update_below map slot left (i + 1) j, ap (λ k. (map k).valid) e)
  | no ne ↦ ground (arith, count_valid-update map slot left (i + 1) j)
]
