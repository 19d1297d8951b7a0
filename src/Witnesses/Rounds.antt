-- ===== src/Witnesses/Rounds.antt =====
-- Runs of src/balancer.c on two cores and two flows that are both on the first.
use o_rss_nic.Prelude.{
  Array, List, Returns, ap, arith, false, if◌then◌else◌, ltb, refl, some, suc, true, zero, ℕ, ◌*◌,
  ◌++◌, ◌+◌, ◌<◌, ◌==◌, ◌∙◌, ◌≡◌, ◌≤◌,
}
use o_rss_nic.FiveTuple.{FiveTuple, zero_tuple, five_tuple_equals}
use o_rss_nic.Balancer.{
  CoreLoad, LongDouble, no_flows, no_migrations, Migrations, compute_repartition, migrate, balance,
}
use o_rss_nic.Balancer.Printing.{print_migrations, PrintedLine}
use o_rss_nic.Balancer.Told.{Each, TellsMigration, TellsCores, print_migrations-tells, TellsTotal}
use o_rss_nic.HashMap.Ownership.{view-live}
use o_rss_nic.Balancer.Info.{IsInformed, sum_below}
use o_rss_nic.Balancer.Migrate.{Migrates, migrate-Migrates}
use o_rss_nic.Balancer.Split.{IsSplit, all_flows}
use o_rss_nic.Balancer.Cores.{IsStocked}
use o_rss_nic.Balancer.Repartition.{IsReady, compute_repartition-IsSplit}
use o_rss_nic.Balancer.Outcome.{Rebalances, balance-Rebalances}
use o_rss_nic.RingBuffer.{u64_mod}
use o_rss_nic.Openflow.Convert.{FlowStats, openflow_ovsbe64_to_uint64-halves}
use o_rss_nic.Openflow.FlowMod.{flow_of}
use o_rss_nic.Openflow.Flows.{Flows, Content}
use o_rss_nic.Monitor.{nb_cores, record_flow, get_migrations}
use o_rss_nic.HashMap.Contents.{contents}
use o_rss_nic.Monitor.Recorded.{recorded, on_core}
use o_rss_nic.Monitor.Belongs.{core_of}
use o_rss_nic.Monitor.Replay.{moved, all_count}
use o_rss_nic.Monitor.Record.{Records, packets, key_of, record_flow-Records, HasActive}
use o_rss_nic.Monitor.Round.{get_migrations-Rebalances}
use o_rss_nic.Witnesses.Samples.{
  ring, table, heap, table-IsReady, heap-HasRings, table-absent, flow_key, table-IsValid,
  table-IsOwned,
}
use o_rss_nic.HashMap.Lookup.{get-view, view-eq, view}
use o_rss_nic.Heap.{Heap}
use o_rss_nic.HashMap.{HashMap}

-- Fractions, where 1 / 0 is above all others and 0 / 0 is not ordered.
pub record Fraction : Type 0 where
  above : ℕ
  below : ℕ

abbrev pub fractions : LongDouble
fractions = record {
  Carrier = Fraction;
  of_uint64 = λ x. record { above = x; below = 1 };
  divide = λ x y. record { above = x.above * y.below; below = x.below * y.above };
  less = λ x y. ltb (x.above * y.below) (y.above * x.below);
  one_plus_threshold = record { above = 11; below = 10 };
  one_minus_threshold = record { above = 9; below = 10 };
}

balance_example :
    Returns
      (balance fractions 2 zero_tuple (table 2) (heap 2) no_migrations)
      (Rebalances fractions 2 (table 2) (heap 2))
balance_example =
    balance-Rebalances fractions 2 zero_tuple refl (omega arith) (omega arith)
      (table-IsReady 2 2 (omega arith) (omega arith)) (table-absent 2)

repartition_example : Returns (compute_repartition 2 zero_tuple (table 2) (heap 2)) λ cores.
    IsSplit 2 (table 2) (heap 2) cores
    × ((i : ℕ) → i < 2 → IsInformed (heap 2) (cores i))
    × (all_flows 2 cores ≡ (table 2).size)
repartition_example =
    compute_repartition-IsSplit (table-IsReady 2 2 (omega arith) (omega arith)) zero_tuple
      (table-absent 2)

-- Both flows on the first of two cores.
abbrev lopsided : Array CoreLoad
lopsided i =
    if i == 0
    then record no_flows { nb_flows = 2; flows = λ j. j + 1; flow_keys = flow_key }
    else record no_flows { core_idx = i }

lopsided-IsStocked : (i : ℕ) → i < 2 → IsStocked (table 2) (heap 2) i (lopsided i)
lopsided-IsStocked zero hi = record {
  named = refl;
  assigned = λ j hj. (ring, ground arith, refl);
  keyed = λ j hj.
      let here : ((table 2).map j).valid ≡ true = ground arith in
      let key : ((table 2).map j).key ≡ flow_key j = ground arith in
      let value : ((table 2).map j).value ≡ j + 1 = ground arith in
      view-eq (flow_key j) j (table-IsValid 2 (omega arith)) (omega arith) here key ∙ ap some value;
  apart = λ j k hj hk e. omega arith;
}
lopsided-IsStocked (suc i) hi =
    let other : lopsided (suc i) ≡ record no_flows { core_idx = suc i } = ground arith in
    rw other (record {
      named = refl;
      assigned = λ j hj. absurd (omega arith);
      keyed = λ j hj. absurd (omega arith);
      apart = λ j k hj hk e. absurd (omega arith);
    })

lopsided-IsSplit : IsSplit 2 (table 2) (heap 2) lopsided
unfolding sum_below
lopsided-IsSplit = record {
  rings = heap-HasRings 2;
  few = omega arith;
  stocked = lopsided-IsStocked;
}

migrate_example :
    Returns
      (migrate 2 0 1 lopsided (heap 2))
      (Migrates lopsided-IsSplit 0 1 (omega arith) (omega arith) (omega arith) ring refl)
migrate_example =
    migrate-Migrates lopsided-IsSplit 0 1 (omega arith) (omega arith) (omega arith) ring refl

-- The first flow goes to the second core.
abbrev one_migration : Migrations
one_migration = record {
  nb_migrations = 1;
  migrations = λ _. record { key = flow_key 0; destination_core = 1 };
}

print_example : Returns (print_migrations 2 one_migration lopsided (table 2) (heap 2)) λ lines.
    (first : List PrintedLine) × (second : List PrintedLine) × (third : List PrintedLine) × (lines
      ≡ first ++ (second ++ third))
    × Each (λ k. TellsMigration (table 2) (heap 2) (one_migration.migrations k)) 1 0 first
    × Each (TellsTotal 2 (table 2) (heap 2) lopsided) 2 0 second
    × TellsCores (table 2) (heap 2) 2 0 lopsided third
print_example =
    print_migrations-tells 2 (table 2) (heap 2) lopsided one_migration lopsided-IsSplit
      (omega arith)
      (λ key p e. (
        get-view key (table-IsValid 2 (omega arith)) ∙ rw e refl,
        view-live key (table-IsOwned 2 (omega arith)) e,
      ))
      (λ k hk. (omega arith, (1, (lopsided-IsStocked 0 (omega arith)).keyed 0 (omega arith))))

-- The switch has counted 12 packets of a flow.
abbrev twelve : FlowStats
twelve = record {
  length = 96;
  duration_sec = 1;
  duration_nsec = 0;
  priority = 0;
  idle_timeout = 0;
  hard_timeout = 0;
  cookie = record { hi = 0; lo = 0 };
  packet_count = record { hi = 0; lo = 12 };
  byte_count = record { hi = 0; lo = 900 };
  match_ = record {
    wildcards = 0;
    in_port = 1;
    dl_src = 0;
    dl_dst = 0;
    dl_vlan = 0;
    dl_vlan_pcp = 0;
    dl_type = 2048;
    nw_tos = 0;
    nw_proto = 6;
    nw_src = 10;
    nw_dst = 20;
    tp_src = 7;
    tp_dst = 80;
  };
}

packets-twelve : packets twelve < u64_mod
packets-twelve =
    let parts = openflow_ovsbe64_to_uint64-halves twelve.packet_count (omega arith) (omega arith) in
    omega (arith, parts.0, parts.1)

record_example :
    Returns (record_flow twelve (table 2) (heap 2)) (Records 2 (table 2) (heap 2) twelve)
record_example =
    record_flow-Records twelve (omega arith) (table-IsReady 2 2 (omega arith) (omega arith))
      (omega arith) packets-twelve

-- A reply with that flow alone.
abbrev reply : Flows
reply = record {
  nb_flows = 1;
  flow_stats = λ _. twelve;
  nb_actions = λ i. if i == 0 then 2 else 0;
  actions = λ i j. record { type = j; body = 100 + j; content = Content.no_content };
}

reply_not_zero :
    (j : ℕ) → j < 1 → five_tuple_equals (key_of (reply.flow_stats j)) zero_tuple ≡ false
unfolding five_tuple_equals flow_of
reply_not_zero j hj = refl

round_example :
    Returns (get_migrations fractions zero_tuple reply (table 2) (heap 2) no_migrations) λ r.
      ((counted : HashMap × Heap) × (counted.0 ≡ r.1)
        × ((q : FiveTuple)
            → contents counted.0 counted.1 q
              ≡ recorded 1 0 reply.flow_stats q (contents (table 2) (heap 2) q))
        × Rebalances fractions nb_cores counted.0 counted.1 (r.0, r.2))
      × IsReady nb_cores r.1 r.2
      × (r.1.size ≤ (table 2).size + 1)
      × ((q : FiveTuple)
          → ((j : ℕ) → j < 1 → five_tuple_equals (key_of (reply.flow_stats j)) q ≡ false)
          → view r.1 q ≡ view (table 2) q)
      × (HasActive (heap 2) → HasActive r.2)
      × ((q : FiveTuple)
          → core_of r.1 r.2 q
            ≡ moved all_count r.0.nb_migrations 0 r.0.migrations q (core_of (table 2) (heap 2) q))
      × ((q : FiveTuple)
          → contents r.1 r.2 q
            ≡ on_core
                (core_of r.1 r.2 q)
                (recorded 1 0 reply.flow_stats q (contents (table 2) (heap 2) q)))
round_example =
    get_migrations-Rebalances fractions zero_tuple reply refl
      (table-IsReady nb_cores 2 (omega arith) (omega arith)) (omega arith) (omega arith)
      (λ j hj. packets-twelve) (table-absent 2) reply_not_zero
