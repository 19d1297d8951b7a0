-- ===== src/HashMap/Ownership.antt =====
-- The blocks that the slots of src/hashmap.c own, and `hashmap_remove`, which frees one of them.
use o_rss_nic.Prelude.{
  Bool-cases, Option-cases, Returns, ap, arith, false, if◌then◌else◌, inl, inr, none, ok, some, sym,
  true, update, ℕ, ◌-◌, ◌<◌, ◌==◌, ◌↔◌, ◌∙◌, ◌≡◌, ◌≤◌,
}
use o_rss_nic.FiveTuple.{FiveTuple, five_tuple_equals, five_tuple_equals_iff}
use o_rss_nic.RingBuffer.{RingBuffer}
use o_rss_nic.Heap.{Heap, null, ringbuffer_destroy}
use o_rss_nic.HashMap.{HashMap, hashmap_size, clear, remove, get}
use o_rss_nic.HashMap.Scan.{to_nat, count_valid-update}
use o_rss_nic.HashMap.Lookup.{
  IsValid, slot_of, view, slot_of-some, get-view, view-some, view-eq_none, view_congr,
  contains-slot_of, view-eq, view-none,
}

-- Every slot in use owns one live block, no two own the same, and every live block is owned.
pub record IsOwned (m : HashMap) (h : Heap) : Type 0 where
  pub live :
      (i : ℕ)
      → i < hashmap_size
      → (m.map i).valid ≡ true
      → (rb : RingBuffer) × (h.cell (m.map i).value ≡ some rb)
  pub apart :
      (i j : ℕ)
      → i < hashmap_size
      → j < hashmap_size
      → (m.map i).valid ≡ true
      → (m.map j).valid ≡ true
      → (m.map i).value ≡ (m.map j).value
      → i ≡ j
  pub held :
      (p : ℕ) (rb : RingBuffer)
      → h.cell p ≡ some rb
      → (i : ℕ) × (i < hashmap_size) × ((m.map i).valid ≡ true) × ((m.map i).value ≡ p)
  pub unused : (p : ℕ) → h.next ≤ p → h.cell p ≡ none
  pub no_null : h.cell null ≡ none
  pub started : 0 < h.next

-- `view` and ownership together: the block of a key.
pub view-live :
    {m : HashMap} {h : Heap} (key : FiveTuple) {p : ℕ}
    → IsOwned m h
    → view m key ≡ some p
    → (rb : RingBuffer) × (h.cell p ≡ some rb)
view-live {m} {h} key own e =
    let (i, slot, same) = view-some m key e in
    let (hi, used, _) = slot_of-some m key slot in
    let (rb, here) = own.live i hi used in (rb, ap h.cell (sym same) ∙ here)

-- `hashmap_get` on a valid table that owns its blocks gives null exactly for the keys that are not
-- there.
pub get-null_iff :
    {m : HashMap} {h : Heap} (key : FiveTuple)
    → IsValid m
    → IsOwned m h
    → (get m key ≡ ok null) ↔ (view m key ≡ none)
get-null_iff {m} {h} key v own = (
  λ e. elim (Option-cases (view m key)) [
    | inl none_there ↦ none_there
    | inr (p, there) ↦
        let (rb, here) = view-live key own there in
        let at_null : ok p ≡ ok null = rw there at (sym (get-view key v) ∙ e) in
        ground (arith, at_null, here, own.no_null)
  ],
  λ e. get-view key v ∙ rw e,
)

-- The table without the slot `i`, and the heap without its block.
abbrev pub cleared : HashMap → ℕ → HashMap
cleared m i = record {
  map = update m.map i (record (m.map i) { valid = false });
  size = m.size - 1;
}

abbrev pub freed : HashMap → ℕ → Heap → Heap
freed m i h = record h { cell = update h.cell (m.map i).value none }

module _ {m : HashMap} (v : IsValid m) (i : ℕ) (hi : i < hashmap_size)
    (used : (m.map i).valid ≡ true) where
  pub cleared-IsValid : IsValid (cleared m i)
  cleared-IsValid =
      let counts =
        count_valid-update m.map (record (m.map i) { valid = false }) hashmap_size 0 i (omega arith)
          hi in
      let one : to_nat (m.map i).valid ≡ 1 = rw used in
      record {
        counted = omega (arith, counts, one, v.counted);
        distinct = λ a b ha hb ua ub same. ground (arith, v.distinct a b);
      }

  pub view-cleared :
      (q : FiveTuple)
      → view (cleared m i) q ≡ (if five_tuple_equals (m.map i).key q then none else view m q)
  view-cleared q = elim (Bool-cases (five_tuple_equals (m.map i).key q)) [
    | inl same ↦ rw same (
        view-eq_none (cleared m i) q λ j hj uj e.
          ground (arith, v.distinct i j, (five_tuple_equals_iff (m.map i).key q).0 same))
    | inr other ↦
        rw other (view_congr m (cleared m i) q (λ j. ground arith) (λ j here. ground arith))
  ]

module _ {m : HashMap} {h : Heap} (own : IsOwned m h) (i : ℕ) (hi : i < hashmap_size)
    (used : (m.map i).valid ≡ true) where
  pub clear-cleared : clear m i h ≡ ok (cleared m i, freed m i h)
  unfolding clear ringbuffer_destroy
  clear-cleared = let (rb, here) = own.live i hi used in ground (arith, here, own.no_null)

  pub freed-IsOwned : IsOwned (cleared m i) (freed m i h)
  freed-IsOwned = record {
    live = λ j hj uj.
        let (rb, here) = own.live j hj (ground arith) in (rb, ground (arith, own.apart i j));
    apart = λ a b ha hb ua ub same. ground (arith, own.apart a b);
    held = λ p rb e.
        let (j, hj, uj, same) = own.held p rb (ground arith) in (j, hj, ground arith, ground arith);
    unused = λ p le. ground (arith, own.unused p);
    no_null = ground (arith, own.no_null);
    started = own.started;
  }

pub remove-present :
    {m : HashMap} {h : Heap} (key : FiveTuple) {i : ℕ}
    → IsValid m
    → IsOwned m h
    → slot_of m key ≡ some i
    → remove m key h ≡ ok (cleared m i, freed m i h)
unfolding remove
remove-present {m} key v own e =
    let (hi, used, _) = slot_of-some m key e in
    rw (contains-slot_of key v, e) (clear-cleared own _ hi used)

-- What `hashmap_remove` does: the key is gone and its block freed, and all else is as before.
pub record Removes (m : HashMap) (h : Heap) (key : FiveTuple) (r : HashMap × Heap) : Type 0 where
  pub valid : IsValid r.0
  pub owned : IsOwned r.0 r.1
  pub reads : (q : FiveTuple) → view r.0 q ≡ (if five_tuple_equals key q then none else view m q)
  pub cells :
      (p : ℕ)
      → r.1.cell p
        ≡ elim (view m key) [ none ↦ h.cell p | some gone ↦ if gone == p then none else h.cell p ]
  pub size : r.0.size ≡ elim (view m key) [ none ↦ m.size | some gone ↦ m.size - 1 ]

-- `hashmap_remove` on a valid table that owns its blocks ends normally, in a valid table that
-- owns its blocks. The key is gone, every other key is as before, the size is one less if the key
-- was there, and exactly the key's block is freed.
pub remove-Removes :
    {m : HashMap} {h : Heap} (key : FiveTuple)
    → IsValid m
    → IsOwned m h
    → Returns (remove m key h) (Removes m h key)
unfolding remove
remove-Removes {m} {h} key v own = elim (Option-cases (slot_of m key)) [
  | inl e ↦
      let absent = view-none m key e in
      (
        (m, h),
        rw (contains-slot_of key v, e),
        record {
          valid = v;
          owned = own;
          reads = λ q.
              ground (arith, absent, ap (view m) {x = key} {y = q}, five_tuple_equals_iff key q);
          cells = λ p. rw absent;
          size = rw absent;
        },
      )
  | inr (i, e) ↦
      let (hi, used, same) = slot_of-some m key e in
      let there = view-eq key i v hi used same in
      (
        (cleared m i, freed m i h),
        remove-present key v own e,
        record {
          valid = cleared-IsValid v i hi used;
          owned = freed-IsOwned own i hi used;
          reads = λ q. rw (← same) (view-cleared v i hi used q);
          cells = λ p. rw there;
          size = rw there;
        },
      )
]
