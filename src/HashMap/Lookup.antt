-- ===== src/HashMap/Lookup.antt =====
-- A table of src/hashmap.c as a function from keys to values.
use o_rss_nic.Prelude.{
  Array, Option, Option-cases, arith, inl, inr, none, ok, read-ok, some, sym, true, ℕ, ◌<◌, ◌∙◌,
  ◌≡◌, ◌≢◌,
}
use o_rss_nic.FiveTuple.{FiveTuple, five_tuple_equals_iff}
use o_rss_nic.HashMap.{HashMap, Slot, hashmap_size, contains, get}
use o_rss_nic.Heap.{null}
use o_rss_nic.HashMap.Scan.{
  matches, count_valid, find_slot, find_slot-some, find_slot-none, contains_loop-find_slot,
  find_slot_congr, find_slot-only,
}

-- The size counts the slots in use, and no two of them hold one key.
pub record IsValid (m : HashMap) : Type 0 where
  pub counted : count_valid m.map hashmap_size 0 ≡ m.size
  pub distinct :
      (i j : ℕ)
      → i < hashmap_size
      → j < hashmap_size
      → (m.map i).valid ≡ true
      → (m.map j).valid ≡ true
      → (m.map i).key ≡ (m.map j).key
      → i ≡ j

-- The slot of a key, and the value in it.
pub slot_of : HashMap → FiveTuple → Option ℕ
slot_of m key = find_slot m.map key hashmap_size 0

pub view : HashMap → FiveTuple → Option ℕ
view m key = elim (slot_of m key) [ none ↦ none | some i ↦ some (m.map i).value ]

-- `hashmap_contains` does not leave the array of a valid table, and finds the key's slot.
pub contains-slot_of :
    {m : HashMap} (key : FiveTuple) → IsValid m → contains m key ≡ ok (slot_of m key)
unfolding contains slot_of
contains-slot_of {m} key v =
    contains_loop-find_slot m key hashmap_size 0 0 (omega (arith, v.counted))

matches_split :
    (map : Array Slot) (key : FiveTuple) (j : ℕ)
    → matches map key j ≡ true
    → ((map j).valid ≡ true) × ((map j).key ≡ key)
matches_split map key j h = ground (arith, five_tuple_equals_iff (map j).key key)

matches_intro :
    (map : Array Slot) (key : FiveTuple) (j : ℕ)
    → (map j).valid ≡ true
    → (map j).key ≡ key
    → matches map key j ≡ true
matches_intro map key j h e = ground (arith, five_tuple_equals_iff (map j).key key)

pub slot_of-some :
    (m : HashMap) (key : FiveTuple) {i : ℕ}
    → slot_of m key ≡ some i
    → (i < hashmap_size) × ((m.map i).valid ≡ true) × ((m.map i).key ≡ key)
unfolding slot_of
slot_of-some m key {i} e =
    let (_, hi, here) = find_slot-some m.map key hashmap_size 0 i e in
    let (used, same) = matches_split m.map key i here in (omega arith, used, same)

-- The slot of a key is the one in use that holds it.
pub slot_of-eq :
    {m : HashMap} (key : FiveTuple) (i : ℕ)
    → IsValid m
    → i < hashmap_size
    → (m.map i).valid ≡ true
    → (m.map i).key ≡ key
    → slot_of m key ≡ some i
unfolding slot_of
slot_of-eq {m} key i v hi used same =
    find_slot-only m.map key hashmap_size 0 i (omega arith) (omega arith)
      (matches_intro m.map key i used same)
      (λ k hk here.
        let (used', same') = matches_split m.map key k here in
        v.distinct k i (omega arith) hi used' used (same' ∙ sym same))

pub slot_of-none :
    (m : HashMap) (key : FiveTuple) (j : ℕ)
    → slot_of m key ≡ none
    → j < hashmap_size
    → (m.map j).valid ≡ true
    → (m.map j).key ≢ key
unfolding slot_of
slot_of-none m key j e hj used same =
    let here = matches_intro m.map key j used same in
    let absent = find_slot-none m.map key hashmap_size 0 j e (omega arith) (omega arith) in cc

-- `hashmap_get` on a valid table gives the value of the key, and null for a key that is not
-- there.
pub get-view :
    {m : HashMap} (key : FiveTuple)
    → IsValid m
    → get m key ≡ ok (elim (view m key) [ none ↦ null | some value ↦ value ])
unfolding get view
get-view {m} key v = elim (Option-cases (slot_of m key)) [
  | inl e ↦ rw (contains-slot_of key v, e)
  | inr (i, e) ↦
      rw (contains-slot_of key v, e, read-ok hashmap_size m.map i (slot_of-some m key e).0)
]

-- What the view of a key shows, by the slots that hold it.
pub view-eq :
    {m : HashMap} (key : FiveTuple) (i : ℕ)
    → IsValid m
    → i < hashmap_size
    → (m.map i).valid ≡ true
    → (m.map i).key ≡ key
    → view m key ≡ some (m.map i).value
unfolding view
view-eq key i v hi used same = rw (view, slot_of-eq key i v hi used same)

pub view-some :
    (m : HashMap) (key : FiveTuple) {value : ℕ}
    → view m key ≡ some value
    → (i : ℕ) × (slot_of m key ≡ some i) × ((m.map i).value ≡ value)
unfolding view
view-some m key h = elim (Option-cases (slot_of m key)) [
  | inl e ↦ ground (arith, e)
  | inr (i, e) ↦ (i, e, ground (arith, e))
]

pub view-none : (m : HashMap) (key : FiveTuple) → slot_of m key ≡ none → view m key ≡ none
unfolding view
view-none m key e = rw (view, e)

pub slot_of-view : (m : HashMap) (key : FiveTuple) → view m key ≡ none → slot_of m key ≡ none
unfolding view
slot_of-view m key h = elim (Option-cases (slot_of m key)) [
  | inl e ↦ e
  | inr (i, e) ↦ ground (arith, e)
]

pub view-eq_none :
    (m : HashMap) (key : FiveTuple)
    → ((j : ℕ) → j < hashmap_size → (m.map j).valid ≡ true → (m.map j).key ≢ key)
    → view m key ≡ none
view-eq_none m key absent = elim (Option-cases (slot_of m key)) [
  | inl e ↦ view-none m key e
  | inr (i, e) ↦ let (hi, used, same) = slot_of-some m key e in absurd (absent i hi used same)
]

pub view_congr :
    (m m' : HashMap) (key : FiveTuple)
    → ((j : ℕ) → matches m'.map key j ≡ matches m.map key j)
    → ((j : ℕ) → matches m.map key j ≡ true → (m'.map j).value ≡ (m.map j).value)
    → view m' key ≡ view m key
unfolding view slot_of
view_congr m m' key same values =
    rw (view, slot_of, find_slot_congr m'.map m.map key hashmap_size 0 same)
      (elim (Option-cases (find_slot m.map key hashmap_size 0)) [
        | inl e ↦ rw (view, slot_of, e)
        | inr (i, e) ↦
            rw (view, slot_of, e, values i (find_slot-some m.map key hashmap_size 0 i e).2)
      ])
