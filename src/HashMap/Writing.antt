-- ===== src/HashMap/Writing.antt =====
-- A write through a pointer that src/hashmap.c gives to one ring buffer of the table.
use o_rss_nic.Prelude.{ap, arith, ok, some, subst, true, update, ℕ, ℕ_discrete, ◌<◌, ◌≡◌}
use o_rss_nic.RingBuffer.{RingBuffer}
use o_rss_nic.Heap.{Heap, null, load, store}
use o_rss_nic.HashMap.{HashMap, hashmap_size}
use o_rss_nic.HashMap.Ownership.{IsOwned}

-- The heap with another ring at an address.
abbrev pub stored : Heap → ℕ → RingBuffer → Heap
stored h p rb = record h { cell = update h.cell p (some rb) }

module _ (h : Heap) (p : ℕ) {old : RingBuffer} (here : h.cell p ≡ some old) where
  pub load-ok : load p h ≡ ok old
  unfolding load
  load-ok = ground (arith, here)

  pub store-ok : (rb : RingBuffer) → store p rb h ≡ ok (stored h p rb)
  unfolding store
  store-ok rb = ground (arith, here)

  pub stored-IsOwned : {m : HashMap} (rb : RingBuffer) → IsOwned m h → IsOwned m (stored h p rb)
  stored-IsOwned {m} rb o = record {
    live = λ i hi vi.
        let (r, at_i) = o.live i hi vi in
        elim (ℕ_discrete p (m.map i).value) [
          | yes same ↦ (rb, ground arith)
          | no other ↦ (r, ground arith)
        ];
    apart = o.apart;
    held = λ q r there. elim (ℕ_discrete p q) [
      | yes same ↦
          subst
            (λ x. (i : ℕ) × (i < hashmap_size) × ((m.map i).valid ≡ true) × ((m.map i).value ≡ x))
            same (o.held p old here)
      | no other ↦ o.held q r (ground arith)
    ];
    unused = λ q hq. let gone = o.unused q hq in ground (arith, ap h.cell {x = p} {y = q});
    no_null = let gone = o.no_null in ground (arith, ap h.cell {x = p} {y = null});
    started = o.started;
  }
