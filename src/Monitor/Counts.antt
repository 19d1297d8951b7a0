-- ===== src/Monitor/Counts.antt =====
-- The loop of `get_migrations` of src/main.c that records the counts of a reply.
use o_rss_nic.Prelude.{
  Returns, ap, arith, false, read-ok, refl, suc, zero, ℕ, ◌+◌, ◌<◌, ◌∙◌, ◌≡◌, ◌≤◌,
}
use o_rss_nic.RingBuffer.{u64_mod}
use o_rss_nic.Heap.{Heap}
use o_rss_nic.HashMap.{HashMap, hashmap_size}
use o_rss_nic.Balancer.Repartition.{IsReady}
use o_rss_nic.FiveTuple.{FiveTuple, five_tuple_equals}
use o_rss_nic.HashMap.Lookup.{view}
use o_rss_nic.Openflow.Flows.{Flows, max_handled_flows}
use o_rss_nic.Monitor.{record_loop}
use o_rss_nic.Monitor.Record.{Records-HasActive, record_flow-Records, packets, key_of, HasActive}
use o_rss_nic.HashMap.Contents.{contents}
use o_rss_nic.Monitor.Recorded.{recorded, record-contents}
use o_rss_nic.Monitor.Belongs.{core_of, record-core_of}

-- The loop of `get_migrations`, for a reply whose flows fit into its arrays and into the table, and
-- whose counts are `uint64_t`: it ends normally, and leaves a table that is ready for the balancer,
-- with at most one more entry for each flow of the reply. What is not a flow of the reply is in the
-- table as before. Where every ring buffer has seen a count, this stays so. Every
-- flow keeps its core. The ring buffer of every key has the counts of the flows with that key added
-- to it, in the order of the reply.
pub record_loop-IsReady :
    {n : ℕ} (left i : ℕ) (flows : Flows) {m : HashMap} {h : Heap}
    → 0 < n
    → i + left ≡ flows.nb_flows
    → flows.nb_flows ≤ max_handled_flows
    → IsReady n m h
    → m.size + left < hashmap_size
    → ((j : ℕ) → j < flows.nb_flows → packets (flows.flow_stats j) < u64_mod)
    → Returns (record_loop left i flows m h) λ r.
      IsReady n r.0 r.1
      × (r.0.size ≤ m.size + left)
      × ((q : FiveTuple)
          → ((j : ℕ)
              → j < flows.nb_flows
              → five_tuple_equals (key_of (flows.flow_stats j)) q ≡ false)
          → view r.0 q ≡ view m q)
      × (HasActive h → HasActive r.1)
      × ((q : FiveTuple) → core_of r.0 r.1 q ≡ core_of m h q)
      × ((q : FiveTuple) → contents r.0 r.1 q ≡ recorded left i flows.flow_stats q (contents m h q))
unfolding record_loop recorded
record_loop-IsReady zero i flows {m} {h} cores e fits ready room small =
    ((m, h), refl, (ready, omega arith, λ q ne. refl, λ old. old, λ q. refl, λ q. refl))
record_loop-IsReady (suc left) i flows {m} {h} cores e fits ready room small =
    let (r, run, made) =
      record_flow-Records (flows.flow_stats i) cores ready (omega arith) (small i (omega arith)) in
    let grows = made.grows in
    let (r', run', (ready', size', same, active, kept, counts)) =
      record_loop-IsReady left (i + 1) flows cores (omega arith) fits made.ready (omega arith)
        small in
    (
      r',
      rw (read-ok max_handled_flows flows.flow_stats i (omega arith), run) run',
      (
        ready',
        omega arith,
        λ q ne. same q ne ∙ made.others q (ne i (omega arith)),
        λ old. active (Records-HasActive made old),
        λ q. kept q ∙ record-core_of q made,
        λ q. counts q ∙ ap (recorded left (i + 1) flows.flow_stats q) (record-contents q made),
      ),
    )
