-- ===== src/Openflow/Parsing.antt =====
-- The loop of `openflow_get_flows` in src/openflow.c that reads the flows of one reply.
use o_rss_nic.Prelude.{
  All, Array, List, Returns, [], ap, arith, concat, length, length-append, ltb, ok, refl, suc, sym,
  true, zero, ℕ, ◌*◌, ◌++◌, ◌+◌, ◌-◌, ◌<◌, ◌∙◌, ◌∷◌, ◌≡◌, ◌≤◌,
}
use mathlib.Core.List.{append_assoc}
use o_rss_nic.Words.{ByteOrder, Memory, slice_at, slice_at-append}
use o_rss_nic.Openflow.Flows.{Action, Flows, max_actions}
use o_rss_nic.Openflow.Buffer.{slice}
use o_rss_nic.Openflow.Replies.{actions_loop, entries_loop}
use o_rss_nic.Openflow.Ovs.{Layout, sizeof_action}
use o_rss_nic.Openflow.Actions.{IsAction, actions_of, actions_loop-reads}
use o_rss_nic.Openflow.Entries.{
  Entry, IsEntry, stats_of, with_entry, reports_after, Extends, SameFrom, HasRoom, HasRoom-SameFrom,
  bytes_of, all_bytes_of, reports_from, fresh_after, reports_after_congr, with_entry-Extends,
  with_entry-SameFrom, report_at-with_entry,
}

module _ (order : ByteOrder) (memory : Memory) (layout : Layout) where
  open layout use {sizeof_flow_stats}

  length-concat :
      (actions : List (List ℕ))
      → All (IsAction order memory) actions
      → length (concat actions) ≡ sizeof_action * length actions
  length-concat [] known = omega arith
  length-concat (a ∷ actions) (here, known) =
      let size = here.size in
      omega (arith, length-append a (concat actions), length-concat actions known)

  -- One entry.
  entry-read :
      (left : ℕ) (before after : List ℕ) (e : Entry) (head response_end : ℕ) (flows : Flows)
      (fresh : ℕ)
      → head ≡ length before
      → head < response_end
      → IsEntry order memory layout e
      → flows.nb_actions flows.nb_flows + length e.actions ≤ max_actions
      → (row : Array Action) × (count : ℕ) × (count
          ≡ flows.nb_actions flows.nb_flows + length e.actions)
        × ((j : ℕ) → j < flows.nb_actions flows.nb_flows → row j ≡ flows.actions flows.nb_flows j)
        × (slice (length e.actions) (flows.nb_actions flows.nb_flows) row
            ≡ actions_of order memory fresh e.actions)
        × (entries_loop order memory layout
              (suc left)
              (before ++ (bytes_of e ++ after))
              head
              response_end
              flows
              fresh
            ≡ entries_loop order memory layout left
                ((before ++ bytes_of e) ++ after)
                (head + length (bytes_of e))
                response_end
                (with_entry order memory layout flows (stats_of order memory layout e) count row)
                (fresh + length e.actions))
  unfolding entries_loop o_rss_nic.Openflow.Convert.ntoh_openflow_flow_stats
  entry-read left before after e head response_end flows fresh at more entry few =
      let bytes = before ++ (bytes_of e ++ after) in
      let i = flows.nb_flows in
      let size = entry.stats_size in
      let total = entry.total in
      let grouped : bytes ≡ before ++ (e.stats ++ (concat e.actions ++ after)) =
        ap (λ (b : List ℕ). before ++ b) (append_assoc e.stats (concat e.actions) after) in
      let regrouped : bytes ≡ (before ++ e.stats) ++ (concat e.actions ++ after) =
        grouped ∙ sym (append_assoc before e.stats (concat e.actions ++ after)) in
      let test : ltb head response_end ≡ true = ground arith in
      let found : slice_at bytes head sizeof_flow_stats ≡ ok e.stats =
        ap (λ (b : List ℕ). slice_at b head sizeof_flow_stats) grouped
        ∙ slice_at-append before e.stats (concat e.actions ++ after) head sizeof_flow_stats at
            (sym size) in
      let actions_end = head + (stats_of order memory layout e).length in
      let (r, run, (listed, kept, number, next)) =
        actions_loop-reads order memory (max_actions - flows.nb_actions i) (before ++ e.stats) after
          e.actions (head + sizeof_flow_stats) actions_end (flows.nb_actions i) fresh
          (flows.actions i) (omega (arith, length-append before e.stats)) (omega arith)
          (omega arith) (omega arith) entry.known in
      let all : head + (stats_of order memory layout e).length ≡ head + length (bytes_of e) =
        omega
          (arith, length-append e.stats (concat e.actions), length-concat e.actions entry.known) in
      let run' =
        ap
          (λ (b : List ℕ).
            actions_loop order memory (max_actions - flows.nb_actions i) b
              (head + sizeof_flow_stats) actions_end (flows.nb_actions i) fresh (flows.actions i))
          regrouped
        ∙ run in
      (
        r.0,
        r.1,
        number,
        kept,
        listed,
        rw (test, found, run', next, all, sym (append_assoc before (bytes_of e) after)) refl,
      )

  pub entries_loop-reads :
      (left : ℕ) (before after : List ℕ) (entries : List Entry) (head response_end : ℕ)
      (flows : Flows) (fresh : ℕ)
      → 0 < sizeof_flow_stats
      → head ≡ length before
      → response_end ≡ head + length (all_bytes_of entries)
      → length entries ≤ left
      → All (IsEntry order memory layout) entries
      → HasRoom flows.nb_flows flows entries
      → Returns
          (entries_loop order memory layout left
            (before ++ (all_bytes_of entries ++ after))
            head
            response_end
            flows
            fresh)
          λ r.
            (reports_from (length entries) flows.nb_flows r.0
              ≡ reports_after order memory layout flows.nb_flows flows fresh entries)
            × Extends r.0 flows
            × SameFrom r.0.nb_flows r.0 flows
            × (r.0.nb_flows ≡ flows.nb_flows + length entries)
            × (r.1 ≡ fresh_after fresh entries)
  unfolding entries_loop Extends SameFrom
  entries_loop-reads zero before after [] head response_end flows fresh some_size at end room
        entries fits =
      ((flows, fresh), ground arith, (refl, λ k hk. refl, λ k hk. (refl, refl), omega arith, refl))
  entries_loop-reads (suc left) before after [] head response_end flows fresh some_size at end room
        entries fits =
      ((flows, fresh), ground arith, (refl, λ k hk. refl, λ k hk. (refl, refl), omega arith, refl))
  entries_loop-reads zero before after (e ∷ es) head response_end flows fresh some_size at end room
        entries fits =
      absurd (omega arith)
  entries_loop-reads (suc left) before after (e ∷ es) head response_end flows fresh some_size at end
        room (entry, entries) (few, fits) =
      let size = entry.stats_size in
      let sizes = length-append e.stats (concat e.actions) in
      let rest_size = length-append (bytes_of e) (all_bytes_of es) in
      let tail = all_bytes_of es ++ after in
      let (row, count, number, kept, listed, step) =
        entry-read left before tail e head response_end flows fresh at (omega arith) entry few in
      let flows' =
        with_entry order memory layout flows (stats_of order memory layout e) count row in
      let only_here =
        with_entry-SameFrom order memory layout flows (stats_of order memory layout e) count row in
      let (r, run, (reported, extends, same, total, next)) =
        entries_loop-reads left (before ++ bytes_of e) after es (head + length (bytes_of e))
          response_end flows' (fresh + length e.actions) some_size
          (omega (arith, length-append before (bytes_of e))) (omega arith) (omega arith) entries
          (HasRoom-SameFrom (flows.nb_flows + 1) flows' flows es only_here fits) in
      let here =
        extends flows.nb_flows (omega arith)
        ∙ report_at-with_entry order memory layout flows (stats_of order memory layout e) count
            (length e.actions) row (actions_of order memory fresh e.actions) number kept listed in
      (
        r,
        rw (append_assoc (bytes_of e) (all_bytes_of es) after) (step ∙ run),
        (
          rw
              (
                here,
                reported,
                reports_after_congr order memory layout (flows.nb_flows + 1)
                    (fresh + length e.actions) flows' flows es only_here,
              )
              refl,
          λ k hk.
              extends k (omega arith)
              ∙ with_entry-Extends order memory layout flows (stats_of order memory layout e) count
                  row k hk,
          λ k hk.
              let (counts, rows) = same k hk in
              let (counts', rows') = only_here k (omega arith) in (counts ∙ counts', rows ∙ rows'),
          omega arith,
          next,
        ),
      )
