-- ===== src/Monitor/Active.antt =====
-- The cleanup of src/hashmap.c in the rounds of src/main.c, where every ring buffer has seen a
-- count.
use o_rss_nic.Prelude.{Bool-cases, arith, inl, inr, ok, refl, suc, zero, ℕ, ◌+◌, ◌≡◌}
use o_rss_nic.Heap.{Heap, load}
use o_rss_nic.HashMap.{HashMap, hashmap_size, cleanup_loop, cleanup_inactive_flows}
use o_rss_nic.HashMap.Ownership.{IsOwned}
use o_rss_nic.Monitor.Record.{HasActive}

cleanup_loop-none :
    (left i : ℕ) {m : HashMap} {h : Heap}
    → i + left ≡ hashmap_size
    → IsOwned m h
    → HasActive h
    → cleanup_loop left i m h ≡ ok (m, h)
unfolding cleanup_loop load HasActive
cleanup_loop-none zero i e own active = refl
cleanup_loop-none (suc left) i {m} {h} e own active = elim (Bool-cases (m.map i).valid) [
  | inr free ↦ rw free (cleanup_loop-none left (i + 1) (omega arith) own active)
  | inl used ↦
      let (rb, here) = own.live i (omega arith) used in
      rw (used, load, here, active (m.map i).value rb here)
        (cleanup_loop-none left (i + 1) (omega arith) own active)
]

-- Where every ring buffer has seen a count, `hashmap_cleanup_inactive_flows` leaves everything as
-- it is.
pub cleanup_inactive_flows-none :
    {m : HashMap} {h : Heap} → IsOwned m h → HasActive h → cleanup_inactive_flows m h ≡ ok (m, h)
unfolding cleanup_inactive_flows
cleanup_inactive_flows-none own active = cleanup_loop-none hashmap_size 0 (omega arith) own active
