-- ===== src/Openflow/Counts.antt =====
-- How many actions each place has after `openflow_get_flows` of src/openflow.c, and what the flows
-- in the structure are.
use mathlib.Core.List.{map}
use o_rss_nic.Prelude.{
  All, List, [], ap, arith, dec_lt, length, length-append, refl, subst, suc, sym, zero, ℕ,
  ℕ_discrete, ◌+◌, ◌<◌, ◌∙◌, ◌∷◌, ◌≡◌, ◌≤◌,
}
use o_rss_nic.Words.{ByteOrder, Memory}
use o_rss_nic.Openflow.Convert.{FlowStats}
use o_rss_nic.Openflow.Flows.{Flows, max_actions}
use o_rss_nic.Openflow.Buffer.{length-slice}
use o_rss_nic.Openflow.Ovs.{Layout}
use o_rss_nic.Openflow.Actions.{actions_of}
use o_rss_nic.Openflow.Entries.{
  Entry, Report, stats_of, report_at, reports_from, reports, reports_after, SameFrom, HasRoom,
}

reports_from-All :
    (P : Report → Type 0) (n i : ℕ) (flows : Flows)
    → All P (reports_from n i flows)
    → (k : ℕ) → i ≤ k
    → k < i + n
    → P (report_at flows k)
reports_from-All P zero i flows all k lo hi = absurd (omega arith)
reports_from-All P (suc n) i flows (here, all) k lo hi = elim (ℕ_discrete i k) [
  | yes same ↦ subst (λ (j : ℕ). P (report_at flows j)) same here
  | no other ↦ reports_from-All P n (i + 1) flows all k (omega arith) (omega arith)
]

module _ (order : ByteOrder) (memory : Memory) (layout : Layout) where
  pub length-actions_of :
      (fresh : ℕ) (actions : List (List ℕ))
      → length (actions_of order memory fresh actions) ≡ length actions
  length-actions_of fresh [] = refl
  length-actions_of fresh (a ∷ actions) = omega (arith, length-actions_of (fresh + 1) actions)

  -- What a call of `openflow_get_flows` has done to the structure.
  pub record Reads (flows : Flows) (fresh : ℕ) (entries : List Entry) (r : Flows) : Type 0 where
    pub listed : reports r ≡ reports_after order memory layout 0 flows fresh entries
    pub number : r.nb_flows ≡ length entries
    pub kept : SameFrom r.nb_flows r flows

  -- No place has more than so many actions.
  pub HasRoom-few :
      (bound more i : ℕ) (flows : Flows) (entries : List Entry)
      → ((k : ℕ) → flows.nb_actions k ≤ bound)
      → All (λ e. length e.actions ≤ more) entries
      → bound + more ≤ max_actions
      → HasRoom i flows entries
  HasRoom-few bound more i flows [] few all fits = tt
  HasRoom-few bound more i flows (e ∷ entries) few (here, all) fits =
      let old = few i in (omega arith, HasRoom-few bound more (i + 1) flows entries few all fits)

  after_few :
      (bound more i fresh : ℕ) (flows : Flows) (entries : List Entry)
      → ((k : ℕ) → flows.nb_actions k ≤ bound)
      → All (λ e. length e.actions ≤ more) entries
      → All
          (λ r. length r.actions ≤ bound + more)
          (reports_after order memory layout i flows fresh entries)
  after_few bound more i fresh flows [] few all = tt
  after_few bound more i fresh flows (e ∷ entries) few (here, all) =
      let old = few i in
      (
        omega (
          arith,
          length-append (report_at flows i).actions (actions_of order memory fresh e.actions),
          length-slice (flows.nb_actions i) 0 (flows.actions i),
          length-actions_of fresh e.actions,
        ),
        after_few bound more (i + 1) (fresh + length e.actions) flows entries few all,
      )

  after_stats :
      (P : FlowStats → Type 0) (i fresh : ℕ) (flows : Flows) (entries : List Entry)
      → All (λ e. P (stats_of order memory layout e)) entries
      → All (λ r. P r.stats) (reports_after order memory layout i flows fresh entries)
  after_stats P i fresh flows [] all = tt
  after_stats P i fresh flows (e ∷ entries) (here, all) =
      (here, after_stats P (i + 1) (fresh + length e.actions) flows entries all)

  stats_after :
      (i fresh : ℕ) (flows : Flows) (entries : List Entry)
      → map (λ (p : Report). p.stats) (reports_after order memory layout i flows fresh entries)
        ≡ map (stats_of order memory layout) entries
  stats_after i fresh flows [] = refl
  stats_after i fresh flows (e ∷ entries) =
      ap (λ l. stats_of order memory layout e ∷ l)
        (stats_after (i + 1) (fresh + length e.actions) flows entries)

  pub Reads-told :
      (fresh : ℕ) (flows r : Flows) (entries : List Entry)
      → Reads flows fresh entries r
      → map (λ (p : Report). p.stats) (reports r) ≡ map (stats_of order memory layout) entries
  unfolding reports
  Reads-told fresh flows r entries reads =
      ap (map (λ (p : Report). p.stats)) reads.listed ∙ stats_after 0 fresh flows entries

  pub Reads-few :
      (bound more fresh : ℕ) (flows r : Flows) (entries : List Entry)
      → Reads flows fresh entries r
      → ((k : ℕ) → flows.nb_actions k ≤ bound)
      → All (λ e. length e.actions ≤ more) entries
      → (k : ℕ) → r.nb_actions k ≤ bound + more
  unfolding reports SameFrom
  Reads-few bound more fresh flows r entries reads few all k = elim (dec_lt k r.nb_flows) [
    | yes here ↦
        let count =
          reports_from-All (λ p. length p.actions ≤ bound + more) r.nb_flows 0 r
            (subst (λ (l : List Report). All (λ p. length p.actions ≤ bound + more) l)
              (sym reads.listed) (after_few bound more 0 fresh flows entries few all))
            k (omega arith) (omega arith) in
        omega (arith, count, length-slice (r.nb_actions k) 0 (r.actions k))
    | no behind ↦ let same = (reads.kept k (omega arith)).0 in let old = few k in omega arith
  ]

  pub Reads-stats :
      (P : FlowStats → Type 0) (fresh : ℕ) (flows r : Flows) (entries : List Entry)
      → Reads flows fresh entries r
      → All (λ e. P (stats_of order memory layout e)) entries
      → (k : ℕ) → k < r.nb_flows
      → P (r.flow_stats k)
  unfolding reports
  Reads-stats P fresh flows r entries reads all k hk =
      reports_from-All (λ p. P p.stats) r.nb_flows 0 r
        (subst (λ (l : List Report). All (λ p. P p.stats) l) (sym reads.listed)
          (after_stats P 0 fresh flows entries all))
        k (omega arith) (omega arith)
