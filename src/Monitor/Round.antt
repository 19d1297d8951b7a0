-- ===== src/Monitor/Round.antt =====
-- A whole `get_migrations` of src/main.c: the counts are recorded, then the flows are balanced, and
-- the next round can do the same.
use o_rss_nic.Prelude.{
  Option-cases, Returns, ap, arith, false, inl, inr, none, refl, subst, sym, ℕ, ◌+◌, ◌<◌, ◌∙◌, ◌≡◌,
  ◌≤◌,
}
use o_rss_nic.FiveTuple.{FiveTuple, five_tuple_equals}
use o_rss_nic.RingBuffer.{u64_mod}
use o_rss_nic.Heap.{Heap}
use o_rss_nic.HashMap.{HashMap, hashmap_size}
use o_rss_nic.HashMap.Lookup.{view}
use o_rss_nic.Balancer.{LongDouble, no_migrations}
use o_rss_nic.Balancer.Loads.{IsIeee}
use o_rss_nic.Balancer.Repartition.{IsReady}
use o_rss_nic.Balancer.Outcome.{Rebalances, balance-Rebalances, Recores}
use o_rss_nic.Openflow.Flows.{Flows, max_handled_flows}
use o_rss_nic.Monitor.{nb_cores, get_migrations}
use o_rss_nic.Monitor.Replay.{replay-IsReady, replay-core_of, moved, all_count}
use o_rss_nic.Monitor.Counts.{record_loop-IsReady}
use o_rss_nic.HashMap.Contents.{contents}
use o_rss_nic.Monitor.Recorded.{recorded, on_core, Recores-contents}
use o_rss_nic.Monitor.Belongs.{core_of}
use o_rss_nic.Monitor.Record.{packets, key_of, HasActive}

Recores-HasActive : {h h' : Heap} → Recores h h' → HasActive h → HasActive h'
unfolding HasActive
Recores-HasActive {h} {h'} changed old p rb there = elim (Option-cases (h.cell p)) [
  | inl e ↦ let gone = changed.gone p e in absurd (cc)
  | inr (before, e) ↦
      let (c, e') = changed.there p before e in
      let same : record before { assigned_core = c } ≡ rb = ground (arith, e', there) in
      rw (← same) (old p before e)
]

-- `get_migrations`, on a table and ring buffers that are ready, for a reply whose flows fit into
-- its arrays and into the table with a slot to spare and whose counts are `uint64_t`, with no
-- migration yet, an uninitialised key that is neither in the table nor a flow of the reply, and
-- a `long double` in which 0 / 0 is not above the threshold: it ends normally. Its migrations
-- and its cores are as `balancer_balance` promises them for the table that holds the counts: the
-- ring buffer of every key is the one that it had, or a fresh one where it had none, with the
-- packets of the flows of the reply that have the key added, in the order of the reply. At the end
-- the table and the ring buffers are ready for the next round. The table has grown by at most one
-- entry for each flow of the reply, and what is not a flow of the reply is in it as before. Where
-- every ring buffer has seen a count, this stays so. Each flow has the core of the last migration
-- that names it, and keeps its core where none does, and its ring buffer is the one with the counts,
-- on that core.
pub get_migrations-Rebalances :
    (floats : LongDouble) (uninitialised : FiveTuple) (flows : Flows) {m : HashMap} {h : Heap}
    → IsIeee floats
    → IsReady nb_cores m h
    → flows.nb_flows ≤ max_handled_flows
    → m.size + flows.nb_flows < hashmap_size
    → ((j : ℕ) → j < flows.nb_flows → packets (flows.flow_stats j) < u64_mod)
    → view m uninitialised ≡ none
    → ((j : ℕ)
        → j < flows.nb_flows
        → five_tuple_equals (key_of (flows.flow_stats j)) uninitialised ≡ false)
    → Returns (get_migrations floats uninitialised flows m h no_migrations) λ r.
      ((counted : HashMap × Heap) × (counted.0 ≡ r.1)
        × ((q : FiveTuple)
            → contents counted.0 counted.1 q
              ≡ recorded flows.nb_flows 0 flows.flow_stats q (contents m h q))
        × Rebalances floats nb_cores counted.0 counted.1 (r.0, r.2))
      × IsReady nb_cores r.1 r.2
      × (r.1.size ≤ m.size + flows.nb_flows)
      × ((q : FiveTuple)
          → ((j : ℕ)
              → j < flows.nb_flows
              → five_tuple_equals (key_of (flows.flow_stats j)) q ≡ false)
          → view r.1 q ≡ view m q)
      × (HasActive h → HasActive r.2)
      × ((q : FiveTuple)
          → core_of r.1 r.2 q
            ≡ moved all_count r.0.nb_migrations 0 r.0.migrations q (core_of m h q))
      × ((q : FiveTuple)
          → contents r.1 r.2 q
            ≡ on_core
                (core_of r.1 r.2 q)
                (recorded flows.nb_flows 0 flows.flow_stats q (contents m h q)))
unfolding get_migrations
get_migrations-Rebalances floats uninitialised flows {m} {h} nan ready fits room small absent
      other =
    let (counted, run, (ready', size, same, active, kept, counts)) =
      record_loop-IsReady flows.nb_flows 0 flows (omega arith) (omega arith) fits ready room
        small in
    let still = same uninitialised other ∙ absent in
    let (r, run', b) =
      balance-Rebalances floats nb_cores uninitialised nan (omega arith) (omega arith) ready'
        still in
    let next =
      replay-IsReady r.0.nb_migrations 0 r.0.migrations (λ k hk. (b.sensible k (omega arith)).0)
        ready' in
    (
      (r.0, counted.0, r.1),
      rw (run, run') refl,
      (
        (counted, refl, counts, b),
        subst (λ x. IsReady nb_cores counted.0 x) (sym b.heap) next,
        size,
        same,
        λ old. Recores-HasActive b.cores_only (active old),
        λ q.
            ap (λ x. core_of counted.0 x q) b.heap
            ∙ replay-core_of r.0.nb_migrations 0 r.0.migrations q
                (λ k hk. b.sensible k (omega arith)) ready'
            ∙ ap (moved all_count r.0.nb_migrations 0 r.0.migrations q) (kept q),
        λ q.
            Recores-contents counted.0 counted.1 r.1 q b.cores_only
            ∙ ap (on_core (core_of counted.0 r.1 q)) (counts q),
      ),
    )
