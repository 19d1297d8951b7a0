-- ===== src/HashMap/Dense.antt =====
-- Tables of src/hashmap.c whose slots in use are the first `size` ones, which is what a table
-- looks like while nothing is removed. On them `hashmap_get_next` and `hashmap_destroy` reach
-- every entry.
use o_rss_nic.Prelude.{
  Option-cases, Returns, ap, arith, bad_pointer, dec_lt, exit_failure, fault, if◌then◌else◌, inl,
  inr, ltb, no_return, none, ok, ok-injective, refl, some, suc, sym, true, zero, ℕ, ◌+◌, ◌-◌, ◌<◌,
  ◌>>=◌, ◌∙◌, ◌≡◌, ◌≤◌,
}
use o_rss_nic.FiveTuple.{FiveTuple}
use o_rss_nic.HashMap.{
  HashMap, hashmap_size, init, next_from, get_next, next_entry, no_entry, destroy, destroy_loop,
  remove, insert, first_free_loop,
}
use o_rss_nic.HashMap.Lookup.{
  IsValid, slot_of, contains-slot_of, slot_of-some, slot_of-eq, view-none,
}
use o_rss_nic.RingBuffer.{RingBuffer}
use o_rss_nic.Heap.{Heap, null, ringbuffer_destroy}
use o_rss_nic.HashMap.Insert.{insert-present, insert-absent, insert-full}
use o_rss_nic.HashMap.Ownership.{IsOwned, freed, cleared, remove-present}

exit-ne-ok : {A : Type 0} {a : A} → exit_failure ≡ ok a → ⊥
exit-ne-ok h = cc

abbrev pub IsDense : HashMap → Type 0
IsDense m = (m.size ≤ hashmap_size) × ((i : ℕ) → i < hashmap_size → (m.map i).valid ≡ ltb i m.size)

-- After the key of a slot in use, and from the start for a key that is not there,
-- `hashmap_get_next` looks at one slot alone.
pub get_next-slot :
    {m : HashMap} (key : FiveTuple)
    → IsValid m
    → get_next m key ≡ next_from m (elim (slot_of m key) [ none ↦ 0 | some i ↦ i + 1 ])
unfolding get_next
get_next-slot {m} key v = elim (Option-cases (slot_of m key)) [
  | inl e ↦ rw (contains-slot_of key v, e)
  | inr (i, e) ↦ rw (contains-slot_of key v, e)
]

-- `hashmap_get_next` after the key of a slot `i` in use of a valid table looks at the slot `i + 1`
-- alone. It gives the entry of that slot, and if the slot is free it says that there is no next
-- entry, whatever later slots hold. After the last slot it runs off the end of the function.
pub get_next-neighbour :
    {m : HashMap} (i : ℕ)
    → IsValid m
    → i < hashmap_size
    → (m.map i).valid ≡ true
    → get_next m (m.map i).key ≡ (
        if ltb (i + 1) hashmap_size
        then ok (
            if (m.map (i + 1)).valid
            then next_entry (m.map (i + 1)).key (m.map (i + 1)).value
            else no_entry)
        else fault no_return)
unfolding next_from
get_next-neighbour {m} i v hi used =
    get_next-slot (m.map i).key v ∙ rw (slot_of-eq (m.map i).key i v hi used refl) (ground arith)

pub init-IsDense : IsDense init
init-IsDense = (omega arith, λ i hi. ground arith)

-- On a dense table the next entry after slot `i` is that of slot `i + 1`, up to the size.
pub next_from-dense :
    (m : HashMap) (i : ℕ)
    → IsDense m
    → m.size < hashmap_size
    → i ≤ m.size
    → next_from m i
      ≡ ok (if ltb i m.size then next_entry (m.map i).key (m.map i).value else no_entry)
unfolding next_from
next_from-dense m i d room hi = ground (arith, d.1 i)

first_free_loop-dense :
    (m : HashMap) (left i : ℕ)
    → IsDense m
    → i + left ≡ hashmap_size
    → i ≤ m.size
    → m.size < hashmap_size
    → first_free_loop m.map left i ≡ some m.size
unfolding first_free_loop
first_free_loop-dense m zero i d e lo room = absurd (omega arith)
first_free_loop-dense m (suc left) i d e lo room = elim (dec_lt i m.size) [
  | yes more ↦ ground (arith, d.1 i, first_free_loop-dense m left (i + 1) d)
  | no here ↦ ground (arith, d.1 i)
]

-- `hashmap_insert` on a valid dense table, where it ends normally, leaves a dense table: a new
-- key goes right behind the others.
pub insert-IsDense :
    {m m' : HashMap} (key : FiveTuple) (value : ℕ)
    → IsValid m
    → IsDense m
    → insert m key value ≡ ok m'
    → IsDense m'
insert-IsDense {m} {m'} key value v d run = elim (Option-cases (slot_of m key)) [
  | inr (i, e) ↦
      let (hi, used, _) = slot_of-some m key e in
      rw (ok-injective (sym run ∙ insert-present key value v e))
        (d.0, λ j hj. ground (arith, d.1 j, used))
  | inl e ↦ elim (dec_lt m.size hashmap_size) [
    | yes room ↦
        let free = first_free_loop-dense m hashmap_size 0 d (omega arith) (omega arith) room in
        rw (ok-injective (sym run ∙ insert-absent key value v e free))
          (omega arith, λ j hj. ground (arith, d.1 j))
    | no full ↦
        let refused = insert-full key value v (view-none m key e) (omega (arith, d.0)) in
        absurd (exit-ne-ok (sym refused ∙ run))
  ]
]

pub in_use : (m : HashMap) → IsDense m → (j : ℕ) → j < m.size → (m.map j).valid ≡ true
in_use m d j hj = ground (arith, d.0, d.1 j)

destroy_loop-step :
    (left i : ℕ) (m : HashMap) (h : Heap) (rb : RingBuffer)
    → i < hashmap_size
    → h.cell null ≡ none
    → h.cell (m.map i).value ≡ some rb
    → destroy_loop (suc left) i m h ≡ destroy_loop left (i + 1) m (freed m i h)
unfolding destroy_loop ringbuffer_destroy
destroy_loop-step left i m h rb hi no_null here = ground (arith, no_null, here)

destroy_loop-dense :
    (left i : ℕ) (m : HashMap) (h : Heap)
    → i + left ≡ m.size
    → m.size ≤ hashmap_size
    → h.cell null ≡ none
    → ((j : ℕ) → i ≤ j → j < m.size → (rb : RingBuffer) × (h.cell (m.map j).value ≡ some rb))
    → ((j k : ℕ) → j < m.size → k < m.size → (m.map j).value ≡ (m.map k).value → j ≡ k)
    → ((p : ℕ) (rb : RingBuffer)
        → h.cell p ≡ some rb
        → (j : ℕ) × (i ≤ j) × (j < m.size) × ((m.map j).value ≡ p))
    → Returns (destroy_loop left i m h) λ h'. (p : ℕ) → h'.cell p ≡ none
unfolding destroy_loop ringbuffer_destroy
destroy_loop-dense zero i m h e small no_null live apart held = (
  h,
  refl,
  λ p. elim (Option-cases (h.cell p)) [
    | inl gone ↦ gone
    | inr (rb, here) ↦ let (j, lo, hi, _) = held p rb here in absurd (omega arith)
  ],
)
destroy_loop-dense (suc left) i m h e small no_null live apart held =
    let (rb, here) = live i (omega arith) (omega arith) in
    let (h', run, gone) =
      destroy_loop-dense left (i + 1) m (freed m i h) (omega arith) small (ground (arith, no_null))
        (λ j lo hi. let (rb', there) = live j (omega arith) hi in (rb', ground (arith, apart i j)))
        apart
        (λ p rb' there.
          let (j, lo, hi, same) = held p rb' (ground arith) in (j, ground arith, hi, same)) in
    (h', destroy_loop-step left i m h rb (omega arith) no_null here ∙ run, gone)

-- `hashmap_destroy` on a dense table that owns its blocks ends normally, and frees every block.
pub destroy-dense :
    {m : HashMap} {h : Heap}
    → IsDense m
    → IsOwned m h
    → Returns (destroy m h) λ h'. (p : ℕ) → h'.cell p ≡ none
unfolding destroy
destroy-dense {m} {h} d own =
    destroy_loop-dense m.size 0 m h (omega arith) d.0 own.no_null
      (λ j lo hj. own.live j (omega (arith, d.0)) (in_use m d j hj))
      (λ j k hj hk.
        own.apart j k (omega (arith, d.0)) (omega (arith, d.0)) (in_use m d j hj) (in_use m d k hk))
      (λ p rb here.
        let (j, hj, used, same) = own.held p rb here in
        (j, omega arith, ground (arith, d.1 j), same))

-- The first round of the loop, at a slot whose block was freed.
stale :
    (left : ℕ) (m : HashMap) (h : Heap) (rb : RingBuffer)
    → h.cell (m.map 0).value ≡ some rb
    → h.cell null ≡ none
    → destroy_loop (suc left) 0 (cleared m 0) (freed m 0 h) ≡ fault bad_pointer
unfolding destroy_loop ringbuffer_destroy
stale left m h rb here no_null = ground (arith, here, no_null)

-- `hashmap_destroy` after `hashmap_remove` of the key in the first slot of a valid dense table
-- that owns its blocks and holds another key: the slot's old block is freed a second time.
pub destroy-remove_first :
    {m : HashMap} {h : Heap}
    → IsValid m
    → IsDense m
    → IsOwned m h
    → 1 < m.size
    → (remove m (m.map 0).key h >>= λ r. destroy r.0 r.1) ≡ fault bad_pointer
unfolding destroy
destroy-remove_first {m} {h} v d own more =
    let used = in_use m d 0 (omega arith) in
    let first = slot_of-eq (m.map 0).key 0 v (omega arith) used refl in
    let (rb, here) = own.live 0 (omega arith) used in
    let rest : m.size - 1 ≡ suc (m.size - 2) = omega arith in
    rw (remove-present (m.map 0).key v own first) (
      ap (λ n. destroy_loop n 0 (cleared m 0) (freed m 0 h)) rest
      ∙ stale (m.size - 2) m h rb here own.no_null)
