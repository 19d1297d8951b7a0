-- ===== src/HashMap/Fresh.antt =====
-- `hashmap_new` of src/hashmap.c, which makes a block for a new key.
use o_rss_nic.Prelude.{
  Bool-cases, Returns, ap, arith, if◌then◌else◌, inl, inr, none, refl, some, ℕ, ℕ_discrete, ◌+◌,
  ◌<◌, ◌==◌, ◌∙◌, ◌≡◌, ◌≢◌,
}
use o_rss_nic.FiveTuple.{
  FiveTuple, five_tuple_equals, five_tuple_equals_iff, five_tuple_equals_refl,
}
use o_rss_nic.RingBuffer.{init as fresh_ring}
use o_rss_nic.Heap.{Heap, ringbuffer_init}
use o_rss_nic.HashMap.{HashMap, hashmap_size, new}
use o_rss_nic.HashMap.Lookup.{IsValid, view}
use o_rss_nic.HashMap.Insert.{insert-Inserts}
use o_rss_nic.HashMap.Ownership.{IsOwned}
use o_rss_nic.HashMap.ByKey.{OwnsByKey, IsOwned-OwnsByKey, OwnsByKey-IsOwned}

value-ne-next : {m : HashMap} {h : Heap} → OwnsByKey m h → (q : FiveTuple) → view m q ≢ some h.next
value-ne-next {m} {h} own q e =
    let (rb, here) = own.live q h.next e in ground (arith, own.unused h.next)

-- A fresh block under a key that was not there.
alloc-OwnsByKey :
    {m m' : HashMap} {h : Heap} (key : FiveTuple)
    → OwnsByKey m h
    → view m key ≡ none
    → ((q : FiveTuple) → view m' q ≡ (if five_tuple_equals key q then some h.next else view m q))
    → OwnsByKey m' (ringbuffer_init h).1
unfolding ringbuffer_init
alloc-OwnsByKey {m} {m'} {h} key own absent reads = record {
  live = λ q p e. elim (Bool-cases (five_tuple_equals key q)) [
    | inl same ↦ (fresh_ring, ground (arith, reads q))
    | inr other ↦
        let (rb, here) = own.live q p (ground (arith, reads q)) in
        (rb, ground (arith, own.unused h.next))
  ];
  apart = λ q q' p e e'. ground (
    arith,
    reads q,
    reads q',
    five_tuple_equals_iff key q,
    five_tuple_equals_iff key q',
    value-ne-next own q,
    value-ne-next own q',
    own.apart q q' p,
  );
  held = λ p rb e. elim (ℕ_discrete h.next p) [
    | yes same ↦ (key, ground (arith, reads key, five_tuple_equals_refl key))
    | no other ↦
        let (q, there) = own.held p rb (ground arith) in
        (q, ground (arith, reads q, five_tuple_equals_iff key q, ap (view m) {x = key} {y = q}))
  ];
  unused = λ p le. ground (arith, own.unused p);
  no_null = ground (arith, own.no_null, own.started);
  started = omega arith;
}

-- `hashmap_new` for a key that is not there, on a valid table that owns its blocks and is not
-- full: it ends normally, in a valid table that owns its blocks. The key has the fresh ring buffer
-- that is returned, every other key is as before, and so is every block that there was.
pub new-fresh :
    {m : HashMap} {h : Heap} (key : FiveTuple)
    → IsValid m
    → IsOwned m h
    → view m key ≡ none
    → m.size < hashmap_size
    → Returns (new m key h) λ r.
      IsValid r.1
      × IsOwned r.1 r.2
      × ((q : FiveTuple) → view r.1 q ≡ (if five_tuple_equals key q then some r.0 else view m q))
      × ((p : ℕ) → r.2.cell p ≡ (if r.0 == p then some fresh_ring else h.cell p))
      × (h.cell r.0 ≡ none)
      × (r.1.size ≡ m.size + 1)
unfolding new ringbuffer_init
new-fresh {m} {h} key v own absent room =
    let (m', run, w) = insert-Inserts key h.next v (inr room) in
    (
      (h.next, m', (ringbuffer_init h).1),
      rw (ringbuffer_init, run),
      (
        w.valid,
        OwnsByKey-IsOwned w.valid (alloc-OwnsByKey key (IsOwned-OwnsByKey v own) absent w.reads),
        w.reads,
        λ p. refl,
        own.unused h.next (omega arith),
        w.size ∙ rw absent,
      ),
    )
