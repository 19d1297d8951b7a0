-- ===== src/Openflow/Entries.antt =====
-- The flows of one reply, and what is reported of them, where `openflow_get_flows` of
-- src/openflow.c reads them.
use o_rss_nic.Prelude.{
  All, Array, List, [], ap, arith, concat, false, length, refl, suc, true, update, zero, ℕ, ◌%◌,
  ◌*◌, ◌++◌, ◌+◌, ◌<◌, ◌==◌, ◌∙◌, ◌∷◌, ◌≡◌, ◌≤◌,
}
use o_rss_nic.Words.{ByteOrder, Memory}
use o_rss_nic.Openflow.Convert.{FlowStats, ntoh_openflow_flow_stats, ntoh_openflow_match}
use o_rss_nic.Openflow.Flows.{Action, Flows, max_actions}
use o_rss_nic.Openflow.Buffer.{slice, slice-add, slice_congr}
use o_rss_nic.Openflow.Ovs.{Layout, sizeof_action}
use o_rss_nic.Openflow.Actions.{IsAction, actions_of}

-- The bytes of one flow: what is counted of it, and its actions.
pub record Entry : Type 0 where
  pub stats : List ℕ
  pub actions : List (List ℕ)

abbrev pub bytes_of : Entry → List ℕ
bytes_of e = e.stats ++ concat e.actions

abbrev pub all_bytes_of : List Entry → List ℕ
all_bytes_of [] = []
all_bytes_of (e ∷ entries) = bytes_of e ++ all_bytes_of entries

-- What is known of one flow.
pub record Report : Type 0 where
  pub stats : FlowStats
  pub actions : List Action

abbrev pub report_at : Flows → ℕ → Report
report_at flows i = record {
  stats = flows.flow_stats i;
  actions = slice (flows.nb_actions i) 0 (flows.actions i);
}

abbrev pub reports_from : (left i : ℕ) → Flows → List Report
reports_from zero i flows = []
reports_from (suc left) i flows = report_at flows i ∷ reports_from left (i + 1) flows

-- The flows of the structure, in their order.
unfoldable pub reports : Flows → List Report
reports flows = reports_from flows.nb_flows 0 flows

-- The places from `i` on have the same actions.
unfoldable pub SameFrom : (i : ℕ) → (flows' flows : Flows) → Type 0
SameFrom i flows' flows =
    (k : ℕ)
    → i ≤ k
    → (flows'.nb_actions k ≡ flows.nb_actions k) × (flows'.actions k ≡ flows.actions k)

-- The entries find room for their actions, beside those that their places have already.
abbrev pub HasRoom : (i : ℕ) → Flows → List Entry → Type 0
HasRoom i flows [] = Unit
HasRoom i flows (e ∷ entries) =
    (flows.nb_actions i + length e.actions ≤ max_actions) × HasRoom (i + 1) flows entries

-- `flows'` has the flows of `flows`, unchanged, in front of its own.
unfoldable pub Extends : (flows' flows : Flows) → Type 0
Extends flows' flows = (k : ℕ) → k < flows.nb_flows → report_at flows' k ≡ report_at flows k

-- The address after those of the actions.
abbrev pub fresh_after : (fresh : ℕ) → List Entry → ℕ
fresh_after fresh [] = fresh
fresh_after fresh (e ∷ entries) = fresh_after (fresh + length e.actions) entries

pub HasRoom-SameFrom :
    (i : ℕ) (flows' flows : Flows) (entries : List Entry)
    → SameFrom i flows' flows
    → HasRoom i flows entries
    → HasRoom i flows' entries
unfolding SameFrom
HasRoom-SameFrom i flows' flows [] same fits = tt
HasRoom-SameFrom i flows' flows (e ∷ entries) same (few, fits) = (
  omega (arith, (same i (omega arith)).0),
  HasRoom-SameFrom (i + 1) flows' flows entries (λ k hk. same k (omega arith)) fits,
)

module _ (order : ByteOrder) (memory : Memory) (layout : Layout) where
  open layout use {sizeof_flow_stats}

  -- The structure of the network with every word of 16 bits turned by `ntohs`, and every word of 32
  -- bits by `ntohl`, the halves of the counters included, but for the two durations: of these
  -- words of 32 bits only the low half is left, turned as a word of 16 bits.
  abbrev pub told_stats : FlowStats → FlowStats
  told_stats wire =
      let short = order.ntohs in
      let long = order.ntohl in
      record {
        length = short wire.length;
        duration_sec = short (wire.duration_sec % 65536);
        duration_nsec = short (wire.duration_nsec % 65536);
        priority = short wire.priority;
        idle_timeout = short wire.idle_timeout;
        hard_timeout = short wire.hard_timeout;
        cookie = record { hi = long wire.cookie.hi; lo = long wire.cookie.lo };
        packet_count = record { hi = long wire.packet_count.hi; lo = long wire.packet_count.lo };
        byte_count = record { hi = long wire.byte_count.hi; lo = long wire.byte_count.lo };
        match_ = record {
          wildcards = long wire.match_.wildcards;
          in_port = short wire.match_.in_port;
          dl_src = wire.match_.dl_src;
          dl_dst = wire.match_.dl_dst;
          dl_vlan = short wire.match_.dl_vlan;
          dl_vlan_pcp = wire.match_.dl_vlan_pcp;
          dl_type = short wire.match_.dl_type;
          nw_tos = wire.match_.nw_tos;
          nw_proto = wire.match_.nw_proto;
          nw_src = long wire.match_.nw_src;
          nw_dst = long wire.match_.nw_dst;
          tp_src = short wire.match_.tp_src;
          tp_dst = short wire.match_.tp_dst;
        };
      }

  abbrev pub stats_of : Entry → FlowStats
  stats_of e = told_stats (layout.flow_stats e.stats)

  -- `ntoh_openflow_flow_stats` turns exactly these words.
  pub ntoh_openflow_flow_stats-eq-stats_of :
      (e : Entry) → ntoh_openflow_flow_stats order (layout.flow_stats e.stats) ≡ stats_of e
  unfolding ntoh_openflow_flow_stats ntoh_openflow_match
  ntoh_openflow_flow_stats-eq-stats_of e = refl

  -- An entry that says its own length.
  pub record IsEntry (e : Entry) : Type 0 where
    pub stats_size : length e.stats ≡ sizeof_flow_stats
    pub known : All (IsAction order memory) e.actions
    pub total : (stats_of e).length ≡ sizeof_flow_stats + sizeof_action * length e.actions

  -- What is reported where the entries are read into the places from `i` on of `flows`: their
  -- counts, and their actions behind those that the places have already.
  abbrev pub reports_after : (i : ℕ) → Flows → (fresh : ℕ) → List Entry → List Report
  reports_after i flows fresh [] = []
  reports_after i flows fresh (e ∷ entries) =
      record {
        stats = stats_of e;
        actions = (report_at flows i).actions ++ actions_of order memory fresh e.actions;
      }
      ∷ reports_after (i + 1) flows (fresh + length e.actions) entries

  pub reports_after_congr :
      (i fresh : ℕ) (flows' flows : Flows) (entries : List Entry)
      → SameFrom i flows' flows
      → reports_after i flows' fresh entries ≡ reports_after i flows fresh entries
  unfolding SameFrom
  reports_after_congr i fresh flows' flows [] same = refl
  reports_after_congr i fresh flows' flows (e ∷ entries) same =
      rw
        (
          (same i (omega arith)).0,
          (same i (omega arith)).1,
          reports_after_congr (i + 1) (fresh + length e.actions) flows' flows entries
              (λ k hk. same k (omega arith)),
        )
        refl

  -- One flow more, at the next place.
  abbrev pub with_entry : Flows → FlowStats → ℕ → Array Action → Flows
  with_entry flows stats count row = record {
    nb_flows = flows.nb_flows + 1;
    flow_stats = update flows.flow_stats flows.nb_flows stats;
    nb_actions = update flows.nb_actions flows.nb_flows count;
    actions = update flows.actions flows.nb_flows row;
  }

  pub with_entry-Extends :
      (flows : Flows) (stats : FlowStats) (count : ℕ) (row : Array Action)
      → Extends (with_entry flows stats count row) flows
  unfolding Extends
  with_entry-Extends flows stats count row k hk =
      let other : (flows.nb_flows == k) ≡ false = ground arith in rw other refl

  pub with_entry-SameFrom :
      (flows : Flows) (stats : FlowStats) (count : ℕ) (row : Array Action)
      → SameFrom (flows.nb_flows + 1) (with_entry flows stats count row) flows
  unfolding SameFrom
  with_entry-SameFrom flows stats count row k hk =
      let other : (flows.nb_flows == k) ≡ false = ground arith in rw other (refl, refl)

  pub report_at-with_entry :
      (flows : Flows) (stats : FlowStats) (count n : ℕ) (row : Array Action) (actions : List Action)
      → count ≡ flows.nb_actions flows.nb_flows + n
      → ((j : ℕ) → j < flows.nb_actions flows.nb_flows → row j ≡ flows.actions flows.nb_flows j)
      → slice n (flows.nb_actions flows.nb_flows) row ≡ actions
      → report_at (with_entry flows stats count row) flows.nb_flows
        ≡ record { stats = stats; actions = (report_at flows flows.nb_flows).actions ++ actions }
  report_at-with_entry flows stats count n row actions e kept listed =
      let here : (flows.nb_flows == flows.nb_flows) ≡ true = ground arith in
      let old = flows.nb_actions flows.nb_flows in
      let split : slice (old + n) 0 row ≡ slice old 0 (flows.actions flows.nb_flows) ++ actions =
        slice-add old n 0 row
        ∙ ap (λ (l : List Action). l ++ slice n (0 + old) row)
            (slice_congr old 0 row (flows.actions flows.nb_flows) (λ j hj. kept j (omega arith)))
        ∙ ap (λ (m : ℕ). slice old 0 (flows.actions flows.nb_flows) ++ slice n m row) {x = 0 + old}
            {y = old} (omega arith)
        ∙ ap (λ (l : List Action). slice old 0 (flows.actions flows.nb_flows) ++ l) listed in
      rw (here, e, split) refl
