-- ===== src/Openflow/Release.antt =====
-- `openflow_get_flows` and then `openflow_free_flows` of src/openflow.c.
use o_rss_nic.Prelude.{
  All, Array, List, Option, Returns, [], ap, arith, length, refl, suc, sym, true, zero, ℕ, ◌+◌, ◌<◌,
  ◌∙◌, ◌∷◌, ◌≡◌, ◌≤◌,
}
use o_rss_nic.Words.{ByteOrder, Memory}
use o_rss_nic.Openflow.{Connection, World, msg_buffer_size, Message}
use o_rss_nic.Openflow.Flows.{
  Action, Flows, max_actions, openflow_free_flows, row_bodies, all_bodies,
  openflow_free_flows-frees,
}
use o_rss_nic.Openflow.Buffer.{slice}
use o_rss_nic.Openflow.Replies.{openflow_get_flows}
use o_rss_nic.Openflow.Ovs.{Layout}
use o_rss_nic.Openflow.Actions.{actions_of}
use o_rss_nic.Openflow.Entries.{Entry, Report, report_at, reports_from, reports, reports_after}
use o_rss_nic.Openflow.Exchange.{others_of, reads_of}
use o_rss_nic.Openflow.Report.{Answer, IsAnswer, replies_in, entries_of, openflow_get_flows-reports}
use o_rss_nic.Openflow.Tally.{count_actions, fresh_after-count}
use o_rss_nic.Openflow.Counts.{Reads, HasRoom-few, Reads-few}

-- The addresses of some actions in front of others, the last one first.
abbrev pub bodies_before : List Action → List ℕ → List ℕ
bodies_before [] freed = freed
bodies_before (a ∷ actions) freed = bodies_before actions (a.body ∷ freed)

abbrev pub all_before : List Report → List ℕ → List ℕ
all_before [] freed = freed
all_before (r ∷ reports) freed = all_before reports (bodies_before r.actions freed)

-- So many numbers from `fresh` on, the last one first.
abbrev pub numbers_before : (n fresh : ℕ) → List ℕ → List ℕ
numbers_before zero fresh freed = freed
numbers_before (suc n) fresh freed = numbers_before n (fresh + 1) (fresh ∷ freed)

row_bodies-slice :
    (left j : ℕ) (row : Array Action) (freed : List ℕ)
    → row_bodies left j row freed ≡ bodies_before (slice left j row) freed
unfolding row_bodies slice
row_bodies-slice zero j row freed = refl
row_bodies-slice (suc left) j row freed = row_bodies-slice left (j + 1) row ((row j).body ∷ freed)

all_bodies-reports :
    (left i : ℕ) (flows : Flows) (freed : List ℕ)
    → all_bodies left i flows freed ≡ all_before (reports_from left i flows) freed
unfolding all_bodies
all_bodies-reports zero i flows freed = refl
all_bodies-reports (suc left) i flows freed =
    ap (λ (f : List ℕ). all_bodies left (i + 1) flows f)
      (row_bodies-slice (flows.nb_actions i) 0 (flows.actions i) freed)
    ∙ all_bodies-reports left (i + 1) flows (bodies_before (report_at flows i).actions freed)

numbers-add :
    (n k fresh : ℕ) (freed : List ℕ)
    → numbers_before (n + k) fresh freed
      ≡ numbers_before k (fresh + n) (numbers_before n fresh freed)
numbers-add zero k fresh freed =
    ap (λ (m : ℕ). numbers_before m fresh freed) {x = zero + k} {y = k} (omega arith)
    ∙ ap (λ (m : ℕ). numbers_before k m freed) {x = fresh} {y = fresh + zero} (omega arith)
numbers-add (suc n) k fresh freed =
    ap (λ (m : ℕ). numbers_before m fresh freed) {x = suc n + k} {y = suc (n + k)} (omega arith)
    ∙ numbers-add n k (fresh + 1) (fresh ∷ freed)
    ∙ ap (λ (m : ℕ). numbers_before k m (numbers_before n (fresh + 1) (fresh ∷ freed)))
        {x = fresh + 1 + n} {y = fresh + suc n} (omega arith)

module _ (order : ByteOrder) (memory : Memory) (layout : Layout) where
  actions_of-numbers :
      (fresh : ℕ) (actions : List (List ℕ)) (freed : List ℕ)
      → bodies_before (actions_of order memory fresh actions) freed
        ≡ numbers_before (length actions) fresh freed
  actions_of-numbers fresh [] freed = refl
  actions_of-numbers fresh (a ∷ actions) freed =
      actions_of-numbers (fresh + 1) actions (fresh ∷ freed)

  reports_after-numbers :
      (i fresh : ℕ) (flows : Flows) (entries : List Entry) (freed : List ℕ)
      → ((k : ℕ) → flows.nb_actions k ≡ 0)
      → all_before (reports_after order memory layout i flows fresh entries) freed
        ≡ numbers_before (count_actions entries) fresh freed
  unfolding slice
  reports_after-numbers i fresh flows [] freed blank = refl
  reports_after-numbers i fresh flows (e ∷ entries) freed blank =
      rw (blank i, actions_of-numbers fresh e.actions freed)
        (reports_after-numbers (i + 1) (fresh + length e.actions) flows entries
            (numbers_before (length e.actions) fresh freed) blank
          ∙ sym (numbers-add (length e.actions) (count_actions entries) fresh freed))

  -- `openflow_get_flows` on a structure that has no actions, where the request is written and the
  -- switch answers as it should, with at most 4 actions of each flow, and then
  -- `openflow_free_flows`: they end normally. Of the blocks that `malloc` gave for the actions each
  -- one is freed, once, and nothing else is, and the structure has no flow.
  pub openflow_get_flows-freed :
      (a : Answer) (later : List (Option Message)) (conn : Connection) (flows : Flows) (fresh : ℕ)
      (w : World)
      → 0 < layout.sizeof_flow_stats
      → w.incoming ≡ reads_of (replies_in a) later
      → IsAnswer order memory layout w.transaction_id a
      → conn.nb_msg_buffered + length (others_of order memory (replies_in a)) ≤ msg_buffer_size
      → All (λ e. length e.actions ≤ max_actions) (entries_of (replies_in a))
      → ((k : ℕ) → flows.nb_actions k ≡ 0)
      → Returns (openflow_get_flows order memory layout true conn flows fresh w) λ r.
        Returns (openflow_free_flows r.1 []) λ f.
          (f.1 ≡ numbers_before (count_actions (entries_of (replies_in a))) fresh [])
          × (r.3 ≡ fresh + count_actions (entries_of (replies_in a)))
          × (f.0.nb_flows ≡ 0)
  unfolding reports
  openflow_get_flows-freed a later conn flows fresh w some_size coming answer room few blank =
      let entries = entries_of (replies_in a) in
      let few_flows = answer.few in
      let none_yet : (k : ℕ) → flows.nb_actions k ≤ 0 = λ k. omega (arith, blank k) in
      let (r, run, (_, listed, number, kept, next, _, _)) =
        openflow_get_flows-reports order memory layout a later conn flows fresh w some_size coming
          answer room
          (HasRoom-few order memory layout 0 max_actions 0 flows entries none_yet few
            (omega arith)) in
      let reads : Reads order memory layout flows fresh entries r.1 = record {
        listed = listed;
        number = number;
        kept = kept;
      } in
      let counts =
        Reads-few order memory layout 0 max_actions fresh flows r.1 entries reads none_yet few in
      let (f, run', (no_flow, _, freed)) =
        openflow_free_flows-frees r.1 [] (omega arith) (λ k hk. counts k) in
      (
        r,
        run,
        (
          f,
          run',
          (
            freed
                ∙ all_bodies-reports r.1.nb_flows 0 r.1 []
                ∙ ap (λ (l : List Report). all_before l []) listed
                ∙ reports_after-numbers 0 fresh flows entries [] blank,
            next ∙ fresh_after-count fresh entries,
            no_flow,
          ),
        ),
      )
