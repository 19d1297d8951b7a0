-- ===== src/Monitor/Queries.antt =====
-- What `main` of src/main.c asks a switch that keeps to the protocol in one round.
use o_rss_nic.Prelude.{
  All, Bool, List, Option, Returns, [], ap, arith, false, length, none, ok, refl, some, subst, sym,
  true, ℕ, ◌%◌, ◌++◌, ◌+◌, ◌<◌, ◌^◌, ◌∙◌, ◌∷◌, ◌≡◌, ◌≤◌,
}
use mathlib.Core.List.{map}
use o_rss_nic.FiveTuple.{FiveTuple, five_tuple_equals}
use o_rss_nic.RingBuffer.{u64_mod}
use o_rss_nic.HashMap.Lookup.{view}
use o_rss_nic.Balancer.Repartition.{IsReady}
use o_rss_nic.Words.{ByteOrder, Memory}
use o_rss_nic.Openflow.{World, Message, msg_buffer_size, Connection}
use o_rss_nic.Openflow.Buffer.{length-queued}
use o_rss_nic.Openflow.Control.{openflow_control-answers, openflow_control}
use o_rss_nic.Openflow.Convert.{FlowStats}
use o_rss_nic.Openflow.Replies.{openflow_get_flows}
use o_rss_nic.Openflow.Ovs.{Layout, StatsRequest}
use o_rss_nic.Openflow.Flows.{Flows, max_handled_flows, max_actions}
use o_rss_nic.Openflow.Entries.{Entry, Report, reports, stats_of}
use o_rss_nic.Openflow.Exchange.{others_of, reads_of}
use o_rss_nic.Openflow.Report.{Answer, IsAnswer, entries_of}
use o_rss_nic.Openflow.Tally.{count_at, count_actions}
use o_rss_nic.Openflow.Calls.{openflow_get_flows-IsCalled, Lists, known, replies_to}
use o_rss_nic.Monitor.{nb_cores}
use o_rss_nic.Monitor.Main.{Program, Input, zero_flows, query}
use o_rss_nic.Monitor.Orders.{HasKeys, vlan_after}
use o_rss_nic.Monitor.Belongs.{core_of}
use o_rss_nic.Openflow.Selects.{Frame, arrives}
use o_rss_nic.Openflow.FlowMod.{IsFiveTuple}
use o_rss_nic.Monitor.Record.{HasActive, packets, key_of}

-- What the switch sends in one round: some messages, and after a `read` that finds nothing the
-- answers to the two requests, to each of them only if it is written.
pub record Traffic : Type 0 where
  pub messages : List Message
  pub first : Answer
  pub second : Answer

abbrev pub traffic_reads : Input → Traffic → (later : List (Option Message)) → List (Option Message)
traffic_reads input t later =
    map some t.messages
    ++ (none
        ∷ reads_of (replies_to input.first_written t.first)
            (reads_of (replies_to input.second_written t.second) later))

-- The flows that the round goes on with: those of the last request that is written.
abbrev pub known_in : Input → Traffic → List Entry
known_in input t = known input.second_written t.second (known input.first_written t.first [])

abbrev pub flows_in : Input → Traffic → ℕ
flows_in input t = length (known_in input t)

module _ (order : ByteOrder) (Unused : FiveTuple → Type 0) where
  -- What holds of the program between two rounds; no key that is `Unused` is in the table. The
  -- orders that were written leave every frame of the network at the switch on the VLAN of a core
  -- that exists, and on that of the core of its flow as long as no order was lost.
  pub record IsRunning (lossless : Bool) (p : Program) : Type 0 where
    pub tables : IsReady nb_cores p.map p.heap
    pub active : HasActive p.heap
    pub keys : HasKeys p.map
    pub fits : p.conn.nb_msg_buffered ≤ msg_buffer_size
    pub absent : (q : FiveTuple) → Unused q → view p.map q ≡ none
    pub vlans : (f : Frame) → arrives f ≡ true → vlan_after order p.orders f < nb_cores
    pub agrees :
        lossless ≡ true
        → (f : Frame) → arrives f ≡ true
        → vlan_after order p.orders f ≡ core_of p.map p.heap f.flow

module _ (Unused : FiveTuple → Type 0) where
  -- A flow whose count is a `uint64_t` and whose key has its widths and is not an unused one.
  pub record IsSensible (stats : FlowStats) : Type 0 where
    pub small : packets stats < u64_mod
    pub wide : IsFiveTuple (key_of stats)
    pub in_use : (q : FiveTuple) → Unused q → five_tuple_equals (key_of stats) q ≡ false

module _ (order : ByteOrder) (memory : Memory) (layout : Layout) where
  -- The answers to the requests that are written, from the number `id` on: no flow has more than
  -- two actions, and the other messages that come in between can be put aside.
  pub record IsTraffic (Unused : FiveTuple → Type 0) (input : Input) (id : ℕ) (t : Traffic)
      : Type 0 where
    pub answered : input.first_written ≡ true → IsAnswer order memory layout id t.first
    pub answered_again :
        input.second_written ≡ true → IsAnswer order memory layout ((id + 1) % 2 ^ 32) t.second
    pub room :
        length (others_of order memory (replies_to input.first_written t.first))
          + length (others_of order memory (replies_to input.second_written t.second))
        ≤ msg_buffer_size
    pub first_short :
        All (λ e. length e.actions ≤ 2) (entries_of (replies_to input.first_written t.first))
    pub second_short :
        All (λ e. length e.actions ≤ 2) (entries_of (replies_to input.second_written t.second))
    pub sensible : All (λ e. IsSensible Unused (stats_of order memory layout e)) (known_in input t)

  -- The flows that the round goes on with.
  -- `fresh` is the first address that `malloc` gives.
  pub record IsAsked (Unused : FiveTuple → Type 0) (input : Input) (id fresh : ℕ) (t : Traffic)
      (later : List (Option Message)) (r : Flows × Connection × ℕ × World) : Type 0 where
    pub number : r.0.nb_flows ≡ flows_in input t
    pub in_reply : r.0.nb_flows ≤ max_handled_flows
    pub told :
        map (λ (p : Report). p.stats) (reports r.0)
        ≡ map (stats_of order memory layout) (known_in input t)
    pub few_actions : (k : ℕ) → r.0.nb_actions k ≤ max_actions
    pub counts :
        (k : ℕ)
        → r.0.nb_actions k
          ≡ count_at (entries_of (replies_to input.first_written t.first)) k
            + count_at (entries_of (replies_to input.second_written t.second)) k
    pub allocated :
        r.2
        ≡ fresh
          + count_actions (entries_of (replies_to input.first_written t.first))
          + count_actions (entries_of (replies_to input.second_written t.second))
    pub sensible : (k : ℕ) → k < r.0.nb_flows → IsSensible Unused (r.0.flow_stats k)
    pub waiting : r.1.nb_msg_buffered ≤ msg_buffer_size
    pub left_alone : r.3.incoming ≡ later
    pub next_id : r.3.transaction_id ≡ (id + 2) % 2 ^ 32

  query-run :
      (input : Input) (p : Program) {r₁ : Connection × World}
      {g₁ g₂ : StatsRequest × Flows × Connection × ℕ × World}
      → openflow_control order p.conn p.world ≡ ok r₁
      → openflow_get_flows order memory layout input.first_written r₁.0 zero_flows p.fresh r₁.1
        ≡ ok g₁
      → openflow_get_flows order memory layout input.second_written g₁.2 g₁.1 g₁.3 g₁.4 ≡ ok g₂
      → query order memory layout input p ≡ ok (g₂.1, g₂.2, g₂.3, g₂.4)
  unfolding query
  query-run input p run₁ run₂ run₃ = rw (run₁, run₂, run₃) refl

  no_flows :
      (Unused : FiveTuple → Type 0) → Lists order memory layout (IsSensible Unused) zero_flows []
  unfolding reports
  no_flows Unused = record {
    number = refl;
    in_bounds = omega arith;
    told = refl;
    stats = λ all k hk. absurd (omega arith);
  }

  pub query-IsAsked :
      (Unused : FiveTuple → Type 0) (input : Input) (p : Program) (t : Traffic)
      (later : List (Option Message))
      → 0 < layout.sizeof_flow_stats
      → p.conn.nb_msg_buffered ≤ msg_buffer_size
      → IsTraffic Unused input p.world.transaction_id t
      → p.world.incoming ≡ traffic_reads input t later
      → Returns
          (query order memory layout input p)
          (IsAsked Unused input p.world.transaction_id p.fresh t later)
  query-IsAsked Unused input p t later some_size fits traffic coming =
      let a₁ = replies_to input.first_written t.first in
      let a₂ = replies_to input.second_written t.second in
      let room = traffic.room in
      let (r, run₁, (empty, _, incoming, id)) =
        openflow_control-answers order p.conn t.messages (reads_of a₁ (reads_of a₂ later)) p.world
          fits coming in
      let none_waiting : r.0.nb_msg_buffered ≡ 0 = sym (length-queued r.0) ∙ ap length empty in
      let (g₁, run₂, called₁) =
        openflow_get_flows-IsCalled order memory layout (IsSensible Unused) input.first_written 0 2
          t.first [] (reads_of a₂ later) r.0 zero_flows p.fresh r.1 (omega arith) some_size incoming
          (λ sent.
            subst (λ (x : ℕ). IsAnswer order memory layout x t.first) (sym id)
              (traffic.answered sent))
          (omega arith) (λ k. omega arith) traffic.first_short (no_flows Unused) in
      let counted = called₁.next_id ∙ ap (λ (x : ℕ). (x + 1) % 2 ^ 32) id in
      let waiting₁ = called₁.waiting in
      let (g₂, run₃, called₂) =
        openflow_get_flows-IsCalled order memory layout (IsSensible Unused) input.second_written 2 2
          t.second (known input.first_written t.first []) later g₁.2 g₁.1 g₁.3 g₁.4 (omega arith)
          some_size called₁.left_alone
          (λ sent.
            subst (λ (x : ℕ). IsAnswer order memory layout x t.second) (sym counted)
              (traffic.answered_again sent))
          (omega arith) called₁.few traffic.second_short called₁.lists in
      let waiting₂ = called₂.waiting in
      let id₁ = called₁.next_id in
      let id₂ = called₂.next_id in
      let lists = called₂.lists in
      (
        (g₂.1, g₂.2, g₂.3, g₂.4),
        query-run input p run₁ run₂ run₃,
        record {
          number = lists.number;
          in_reply = lists.in_bounds;
          told = lists.told;
          few_actions = called₂.few;
          counts = λ k. omega (arith, called₁.counts k, called₂.counts k);
          allocated = omega (arith, called₁.allocated, called₂.allocated);
          sensible = lists.stats traffic.sensible;
          waiting = omega arith;
          left_alone = called₂.left_alone;
          next_id = omega arith;
        },
      )
