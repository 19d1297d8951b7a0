-- ===== src/HashMap/Insert.antt =====
-- `hashmap_insert` of src/hashmap.c on a valid table.
use o_rss_nic.Prelude.{
  Bool-cases, Option-cases, Returns, ap, arith, exit_failure, false, if◌then◌else◌, inl, inr, none,
  ok, some, sym, true, update, write-ok, ℕ, ℕ_discrete, ◌+◌, ◌<◌, ◌∙◌, ◌≡◌, ◌≢◌, ◌⊎◌,
}
use o_rss_nic.FiveTuple.{FiveTuple, five_tuple_equals, five_tuple_equals_iff}
use o_rss_nic.HashMap.{
  HashMap, Slot, hashmap_size, first_free_slot, insert_new, insert, first_free_loop,
}
use o_rss_nic.HashMap.Scan.{
  to_nat, matches, count_valid-le, first_free_loop-some, first_free_loop-none, count_valid-update,
}
use o_rss_nic.HashMap.Lookup.{
  IsValid, slot_of, view, contains-slot_of, slot_of-some, slot_of-none, view-eq, slot_of-view,
  view_congr, view-none,
}

abbrev pub slot_for : FiveTuple → ℕ → Slot
slot_for key value = record { valid = true; key = key; value = value }

-- The table in which the slot `i` is written with `key`, where no other slot holds that key.
module _ {m : HashMap} (v : IsValid m) (i : ℕ) (key : FiveTuple) (value size : ℕ)
    (hi : i < hashmap_size) (counts : size + to_nat (m.map i).valid ≡ m.size + 1)
    (only : (j : ℕ) → j < hashmap_size → (m.map j).valid ≡ true → (m.map j).key ≡ key → j ≡ i)
    (before : (m.map i).valid ≡ true → (m.map i).key ≡ key) where
  abbrev pub stored : HashMap
  stored = record { map = update m.map i (slot_for key value); size = size }

  pub stored-IsValid : IsValid stored
  stored-IsValid = record {
    counted = omega (
      arith,
      count_valid-update m.map (slot_for key value) hashmap_size 0 i (omega arith) (omega arith),
      v.counted,
    );
    distinct = λ a b ha hb ua ub same. ground (arith, only a, only b, v.distinct a b);
  }

  matches-stored_ne :
      (q : FiveTuple)
      → five_tuple_equals key q ≡ false
      → (j : ℕ) → matches stored.map q j ≡ matches m.map q j
  matches-stored_ne q ne j = elim (ℕ_discrete i j) [
    | no apart ↦ ground arith
    | yes e ↦
        rw (← e)
          (ground (arith, before, ap (λ k. five_tuple_equals k q) {x = (m.map i).key} {y = key}))
  ]

  -- Only the key's own view changes.
  pub view-stored :
      (q : FiveTuple) → view stored q ≡ (if five_tuple_equals key q then some value else view m q)
  view-stored q = elim (Bool-cases (five_tuple_equals key q)) [
    | inl same ↦ rw same (
        view-eq {m = stored} q i stored-IsValid hi (ground arith)
          (ground (arith, (five_tuple_equals_iff key q).0 same))
        ∙ ground arith)
    | inr other ↦ rw other (
        view_congr m stored q (matches-stored_ne q other)
          λ j here. ground (arith, matches-stored_ne q other j))
  ]

-- What `hashmap_insert` does to the table: the key has the value, every other key is as before,
-- and the size grows by one for a new key.
pub record Inserts (m : HashMap) (key : FiveTuple) (value : ℕ) (m' : HashMap) : Type 0 where
  pub valid : IsValid m'
  pub reads :
      (q : FiveTuple) → view m' q ≡ (if five_tuple_equals key q then some value else view m q)
  pub size : m'.size ≡ elim (view m key) [ none ↦ m.size + 1 | some old ↦ m.size ]

module _ {m : HashMap} (key : FiveTuple) (value : ℕ) (v : IsValid m) where
  present-Inserts :
      {i : ℕ}
      → slot_of m key ≡ some i
      → Inserts m key value (record m { map = update m.map i (slot_for key value) })
  present-Inserts {i} e =
      let (hi, used, same) = slot_of-some m key e in
      let only =
        λ (j : ℕ) (hj : j < hashmap_size) (uj : (m.map j).valid ≡ true) (kj : (m.map j).key ≡ key).
          v.distinct j i hj hi uj used (kj ∙ sym same) in
      let counts : m.size + to_nat (m.map i).valid ≡ m.size + 1 = rw used in
      record {
        valid = stored-IsValid v i key value m.size hi counts only (λ _. same);
        reads = view-stored v i key value m.size hi counts only (λ _. same);
        size = rw (view-eq key i v hi used same);
      }

  absent-Inserts :
      {i : ℕ}
      → slot_of m key ≡ none
      → first_free_loop m.map hashmap_size 0 ≡ some i
      → Inserts m key value
          (record { map = update m.map i (slot_for key value); size = m.size + 1 })
  absent-Inserts {i} absent e =
      let (_, hi, free, _) = first_free_loop-some m.map hashmap_size 0 i e in
      let only =
        λ (j : ℕ) (hj : j < hashmap_size) (uj : (m.map j).valid ≡ true) (kj : (m.map j).key ≡ key).
          absurd {A = j ≡ i} (slot_of-none m key j absent hj uj kj) in
      let counts : m.size + 1 + to_nat (m.map i).valid ≡ m.size + 1 = rw free (omega arith) in
      let unused : (m.map i).valid ≡ true → (m.map i).key ≡ key = λ u. cc in
      record {
        valid = stored-IsValid v i key value (m.size + 1) (omega arith) counts only unused;
        reads = view-stored v i key value (m.size + 1) (omega arith) counts only unused;
        size = rw (view-none m key absent);
      }

  free_room : m.size < hashmap_size → (i : ℕ) × (first_free_loop m.map hashmap_size 0 ≡ some i)
  free_room room = elim (Option-cases (first_free_loop m.map hashmap_size 0)) [
    | inl e ↦ absurd (omega (arith, first_free_loop-none m.map hashmap_size 0 e, v.counted))
    | inr found ↦ found
  ]

  pub insert-present :
      {i : ℕ}
      → slot_of m key ≡ some i
      → insert m key value ≡ ok (record m { map = update m.map i (slot_for key value) })
  unfolding insert
  insert-present {i} e = rw (
    contains-slot_of key v,
    e,
    write-ok hashmap_size m.map i (slot_for key value) (slot_of-some m key e).0,
  )

  pub insert-absent :
      {i : ℕ}
      → slot_of m key ≡ none
      → first_free_loop m.map hashmap_size 0 ≡ some i
      → insert m key value
        ≡ ok (record { map = update m.map i (slot_for key value); size = m.size + 1 })
  unfolding insert insert_new first_free_slot
  insert-absent {i} e free = rw (
    contains-slot_of key v,
    e,
    insert_new,
    first_free_slot,
    free,
    write-ok hashmap_size m.map i (slot_for key value)
        (first_free_loop-some m.map hashmap_size 0 i free).1,
  )

  -- `hashmap_insert` on a valid table, for a key that is there or a table that is not full: it
  -- ends normally, with a valid table in which the key, and no other, has changed its value, and
  -- whose size has grown by one if the key was new.
  pub insert-Inserts :
      (view m key ≢ none) ⊎ (m.size < hashmap_size)
      → Returns (insert m key value) (Inserts m key value)
  insert-Inserts room = elim (Option-cases (slot_of m key)) [
    | inr (i, e) ↦ (
      record m { map = update m.map i (slot_for key value) },
      insert-present e,
      present-Inserts e,
    )
    | inl e ↦
        let (i, free) = free_room (ground (arith, view-none m key e)) in
        (
          record { map = update m.map i (slot_for key value); size = m.size + 1 },
          insert-absent e free,
          absent-Inserts e free,
        )
  ]

  -- On a full valid table a new key is refused: the program exits.
  pub insert-full : view m key ≡ none → m.size ≡ hashmap_size → insert m key value ≡ exit_failure
  unfolding insert insert_new first_free_slot
  insert-full absent full = elim (Option-cases (first_free_loop m.map hashmap_size 0)) [
    | inl e ↦ rw (contains-slot_of key v, slot_of-view m key absent, insert_new, first_free_slot, e)
    | inr (j, e) ↦
        let (_, hj, free, _) = first_free_loop-some m.map hashmap_size 0 j e in
        let grown =
          count_valid-update m.map (slot_for key value) hashmap_size 0 j (omega arith) hj in
        let room = count_valid-le (update m.map j (slot_for key value)) hashmap_size 0 in
        let unused : to_nat (m.map j).valid ≡ 0 = rw free in
        absurd (omega (arith, grown, room, unused, v.counted))
  ]
