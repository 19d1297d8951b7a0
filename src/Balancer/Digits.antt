-- ===== src/Balancer/Digits.antt =====
-- The flow and the numbers of a line that src/balancer.c prints, and what they stand for.
use o_rss_nic.Prelude.{List, [], arith, refl, some, ℕ, ◌%◌, ◌*◌, ◌+◌, ◌^◌, ◌∷◌, ◌≡◌}
use o_rss_nic.FiveTuple.{FiveTuple}
use o_rss_nic.Heap.{Heap}
use o_rss_nic.HashMap.{HashMap}
use o_rss_nic.HashMap.Lookup.{view}
use o_rss_nic.RingBuffer.{RingBuffer}
use o_rss_nic.Balancer.Printing.{PrintedFlow, printed_flow, low_octets}

-- The number that is written with these digits in base 256, the lowest first.
abbrev pub number_of : List ℕ → ℕ
number_of [] = 0
number_of (b ∷ bytes) = b + 256 * number_of bytes

-- The flow of a key in the table, as it is printed, with its ring buffer.
pub record Prints (m : HashMap) (h : Heap) (flow : PrintedFlow) (key : FiveTuple) (p : ℕ)
    (rb : RingBuffer) : Type 0 where
  pub src : number_of flow.src ≡ key.src_ip % 2 ^ 32
  pub src_port : flow.src_port ≡ key.src_port
  pub dst : number_of flow.dst ≡ key.dst_ip % 2 ^ 32
  pub dst_port : flow.dst_port ≡ key.dst_port
  pub in_table : view m key ≡ some p
  pub in_heap : h.cell p ≡ some rb

number_of-low_octets : (ip : ℕ) → number_of (low_octets ip) ≡ ip % 2 ^ 32
number_of-low_octets ip = omega arith

pub printed_flow-Prints :
    {m : HashMap} {h : Heap} (key : FiveTuple) {p : ℕ} {rb : RingBuffer}
    → view m key ≡ some p
    → h.cell p ≡ some rb
    → Prints m h (printed_flow key) key p rb
printed_flow-Prints key there here = record {
  src = number_of-low_octets key.src_ip;
  src_port = refl;
  dst = number_of-low_octets key.dst_ip;
  dst_port = refl;
  in_table = there;
  in_heap = here;
}
