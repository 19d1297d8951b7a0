-- ===== src/Monitor/Store.antt =====
-- A write of src/main.c to one ring buffer that the table owns.
use o_rss_nic.Prelude.{arith, some, subst, ℕ, ℕ_discrete, ◌<◌, ◌≡◌}
use o_rss_nic.RingBuffer.{RingBuffer}
use o_rss_nic.RingBuffer.Bounds.{IsValid}
use o_rss_nic.Heap.{Heap}
use o_rss_nic.HashMap.{HashMap}
use o_rss_nic.Balancer.Repartition.{IsReady}
use o_rss_nic.HashMap.Writing.{stored, stored-IsOwned}

module _ (h : Heap) (p : ℕ) {old : RingBuffer} (here : h.cell p ≡ some old) where
  pub stored-IsReady :
      {n : ℕ} {m : HashMap} (rb : RingBuffer)
      → IsValid rb
      → rb.assigned_core < n
      → IsReady n m h
      → IsReady n m (stored h p rb)
  stored-IsReady {n} {m} rb v exists ready = record {
    valid = ready.valid;
    dense = ready.dense;
    owned = stored-IsOwned h p here rb ready.owned;
    rings = λ q r there. elim (ℕ_discrete p q) [
      | yes same ↦ let is_r : rb ≡ r = ground arith in subst IsValid is_r v
      | no other ↦ ready.rings q r (ground arith)
    ];
    room = ready.room;
    cores_exist = λ q r there. elim (ℕ_discrete p q) [
      | yes same ↦ let is_r : rb ≡ r = ground arith in rw (← is_r) exists
      | no other ↦ ready.cores_exist q r (ground arith)
    ];
  }
