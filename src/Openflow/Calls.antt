-- ===== src/Openflow/Calls.antt =====
-- One call of `openflow_get_flows` of src/openflow.c among others on the same structure.
use o_rss_nic.Prelude.{
  All, Bool, List, Option, Returns, [], ap, arith, false, length, length-append, refl, sym, true, ℕ,
  ◌%◌, ◌+◌, ◌<◌, ◌^◌, ◌∙◌, ◌≡◌, ◌≤◌,
}
use mathlib.Core.List.{map}
use o_rss_nic.Words.{ByteOrder, Memory}
use o_rss_nic.Openflow.{Connection, World, msg_buffer_size, Message}
use o_rss_nic.Openflow.Flows.{Flows, max_actions, max_handled_flows}
use o_rss_nic.Openflow.Buffer.{queued, length-queued}
use o_rss_nic.Openflow.Replies.{openflow_get_flows}
use o_rss_nic.Openflow.Ovs.{Layout, StatsRequest}
use o_rss_nic.Openflow.Convert.{FlowStats}
use o_rss_nic.Openflow.Entries.{Entry, stats_of, Report, reports}
use o_rss_nic.Openflow.Exchange.{Exchange, others_of, reads_of}
use o_rss_nic.Openflow.Report.{Answer, IsAnswer, replies_in, entries_of, openflow_get_flows-reports}
use o_rss_nic.Openflow.Tally.{count_at, count_actions, fresh_after-count, Reads-count}
use o_rss_nic.Openflow.Counts.{Reads, Reads-stats, HasRoom-few, Reads-few, Reads-told}

-- The replies to a request, if it is written.
abbrev pub replies_to : (written : Bool) → Answer → List Exchange
replies_to true a = replies_in a
replies_to false a = []

-- The flows of the switch that the structure has after a request, of those that it had before.
abbrev pub known : (written : Bool) → Answer → List Entry → List Entry
known true a before = entries_of (replies_in a)
known false a before = before

module _ (order : ByteOrder) (memory : Memory) (layout : Layout) (Fits : FlowStats → Type 0) where
  -- The structure has these flows.
  pub record Lists (flows : Flows) (entries : List Entry) : Type 0 where
    pub number : flows.nb_flows ≡ length entries
    pub in_bounds : flows.nb_flows ≤ max_handled_flows
    pub told :
        map (λ (p : Report). p.stats) (reports flows) ≡ map (stats_of order memory layout) entries
    pub stats :
        All (λ e. Fits (stats_of order memory layout e)) entries
        → (k : ℕ) → k < flows.nb_flows
        → Fits (flows.flow_stats k)

  -- What a call leaves; no place has more than `limit` actions.
  pub record IsCalled (written : Bool) (limit : ℕ) (a : Answer) (before : List Entry)
      (later : List (Option Message)) (conn : Connection) (flows : Flows) (fresh : ℕ) (w : World)
      (r : StatsRequest × Flows × Connection × ℕ × World) : Type 0 where
    pub lists : Lists r.1 (known written a before)
    pub few : (k : ℕ) → r.1.nb_actions k ≤ limit
    pub counts :
        (k : ℕ)
        → r.1.nb_actions k ≡ flows.nb_actions k + count_at (entries_of (replies_to written a)) k
    pub allocated : r.3 ≡ fresh + count_actions (entries_of (replies_to written a))
    pub waiting :
        r.2.nb_msg_buffered
        ≡ conn.nb_msg_buffered + length (others_of order memory (replies_to written a))
    pub next_id : r.4.transaction_id ≡ (w.transaction_id + 1) % 2 ^ 32
    pub left_alone : r.4.incoming ≡ later

  pub openflow_get_flows-IsCalled :
      (written : Bool) (bound more : ℕ) (a : Answer) (before : List Entry)
      (later : List (Option Message)) (conn : Connection) (flows : Flows) (fresh : ℕ) (w : World)
      → bound + more ≤ max_actions
      → 0 < layout.sizeof_flow_stats
      → w.incoming ≡ reads_of (replies_to written a) later
      → (written ≡ true → IsAnswer order memory layout w.transaction_id a)
      → conn.nb_msg_buffered + length (others_of order memory (replies_to written a))
        ≤ msg_buffer_size
      → ((k : ℕ) → flows.nb_actions k ≤ bound)
      → All (λ e. length e.actions ≤ more) (entries_of (replies_to written a))
      → Lists flows before
      → Returns
          (openflow_get_flows order memory layout written conn flows fresh w)
          (IsCalled written (bound + more) a before later conn flows fresh w)
  unfolding openflow_get_flows
  openflow_get_flows-IsCalled false bound more a before later conn flows fresh w fits some_size
        coming answer room few short lists =
      (
        _,
        refl,
        record {
          lists = lists;
          few = λ k. let old = few k in omega arith;
          counts = λ k. omega arith;
          allocated = omega arith;
          waiting = omega arith;
          next_id = refl;
          left_alone = coming;
        },
      )
  openflow_get_flows-IsCalled true bound more a before later conn flows fresh w fits some_size
        coming answer room few short lists =
      let entries = entries_of (replies_in a) in
      let others = others_of order memory (replies_in a) in
      let in_time = answer refl in
      let (r, run, (_, listed, number, kept, next, queue, world)) =
        openflow_get_flows-reports order memory layout a later conn flows fresh w some_size coming
          in_time room
          (HasRoom-few order memory layout bound more 0 flows entries few short fits) in
      let reads : Reads order memory layout flows fresh entries r.1 = record {
        listed = listed;
        number = number;
        kept = kept;
      } in
      let few_flows = in_time.few in
      (
        r,
        run,
        record {
          lists = record {
            number = number;
            in_bounds = omega arith;
            told = Reads-told order memory layout fresh flows r.1 entries reads;
            stats = Reads-stats order memory layout Fits fresh flows r.1 entries reads;
          };
          few = Reads-few order memory layout bound more fresh flows r.1 entries reads few short;
          counts = Reads-count order memory layout fresh flows r.1 entries reads;
          allocated = next ∙ fresh_after-count fresh entries;
          waiting =
              sym (length-queued r.2)
              ∙ ap length queue
              ∙ length-append (queued conn) others
              ∙ ap (λ (n : ℕ). n + length others) (length-queued conn);
          next_id = ap (λ (x : World). x.transaction_id) world;
          left_alone = ap (λ (x : World). x.incoming) world;
        },
      )
