-- ===== src/Openflow/Overrun.antt =====
-- Replies that `openflow_get_flows` of src/openflow.c reads into more places than it has.
use o_rss_nic.Prelude.{
  All, Array, List, ap, arith, concat, fault, length, length-append, ltb, ok, out_of_bounds, refl,
  suc, sym, true, zero, ℕ, ◌*◌, ◌++◌, ◌+◌, ◌-◌, ◌<◌, ◌∙◌, ◌≡◌, ◌≤◌,
}
use mathlib.Core.List.{append_assoc}
use o_rss_nic.Words.{ByteOrder, Memory, slice_at, slice_at-append}
use o_rss_nic.Openflow.Convert.{ntoh_openflow_flow_stats}
use o_rss_nic.Openflow.Flows.{Action, Flows, max_actions}
use o_rss_nic.Openflow.Replies.{actions_loop, entries_loop}
use o_rss_nic.Openflow.Ovs.{Layout, sizeof_action}
use o_rss_nic.Openflow.Actions.{IsAction, actions_loop-overflows}
use o_rss_nic.Openflow.Entries.{Entry, bytes_of, stats_of}

module _ (order : ByteOrder) (memory : Memory) where
  pub actions_loop-none :
      (left : ℕ) (bytes : List ℕ) (head actions_end count fresh : ℕ) (row : Array Action)
      → actions_end ≤ head
      → actions_loop order memory left bytes head actions_end count fresh row
        ≡ ok (row, count, fresh)
  unfolding actions_loop
  actions_loop-none zero bytes head actions_end count fresh row empty = ground arith
  actions_loop-none (suc left) bytes head actions_end count fresh row empty = ground arith

module _ (order : ByteOrder) (memory : Memory) (layout : Layout) where
  open layout use {sizeof_flow_stats}

  -- The loop over the entries of a reply in `openflow_get_flows`, at an entry that gives 0 as its
  -- own length: it never goes on to the next entry, and in the end writes behind the last place for
  -- a flow, whatever the reply holds.
  pub entries_loop-stuck :
      (left : ℕ) (bytes b : List ℕ) (head response_end : ℕ) (flows : Flows) (fresh : ℕ)
      → head < response_end
      → slice_at bytes head sizeof_flow_stats ≡ ok b
      → (ntoh_openflow_flow_stats order (layout.flow_stats b)).length ≡ 0
      → entries_loop order memory layout left bytes head response_end flows fresh
        ≡ fault out_of_bounds
  unfolding entries_loop
  entries_loop-stuck zero bytes b head response_end flows fresh more found zero_length =
      ground arith
  entries_loop-stuck (suc left) bytes b head response_end flows fresh more found zero_length =
      let i = flows.nb_flows in
      let test : ltb head response_end ≡ true = ground arith in
      let stats = ntoh_openflow_flow_stats order (layout.flow_stats b) in
      let same : head + stats.length ≡ head = omega arith in
      let nothing =
        actions_loop-none order memory (max_actions - flows.nb_actions i) bytes
          (head + sizeof_flow_stats) (head + stats.length) (flows.nb_actions i) fresh
          (flows.actions i) (omega arith) in
      rw (test, found, nothing, same)
        (entries_loop-stuck left bytes b head response_end _ fresh more found zero_length)

  -- The loop over the entries of a reply in `openflow_get_flows`, at an entry of a flow that has
  -- actions already, as after an earlier call on the same structure, where its places for actions
  -- are too few for the old ones and those of the entry: it writes behind the last place.
  pub entries_loop-overflows :
      (left : ℕ) (before after : List ℕ) (e : Entry) (head response_end : ℕ) (flows : Flows)
      (fresh : ℕ)
      → head ≡ length before
      → head < response_end
      → length e.stats ≡ sizeof_flow_stats
      → All (IsAction order memory) e.actions
      → (stats_of order memory layout e).length
        ≡ sizeof_flow_stats + sizeof_action * length e.actions
      → flows.nb_actions flows.nb_flows ≤ max_actions
      → max_actions < flows.nb_actions flows.nb_flows + length e.actions
      → entries_loop order memory layout left
          (before ++ (bytes_of e ++ after))
          head
          response_end
          flows
          fresh
        ≡ fault out_of_bounds
  unfolding entries_loop ntoh_openflow_flow_stats
  entries_loop-overflows zero before after e head response_end flows fresh at more size known total
        old many =
      ground arith
  entries_loop-overflows (suc left) before after e head response_end flows fresh at more size known
        total old many =
      let bytes = before ++ (bytes_of e ++ after) in
      let i = flows.nb_flows in
      let grouped : bytes ≡ before ++ (e.stats ++ (concat e.actions ++ after)) =
        ap (λ (b : List ℕ). before ++ b) (append_assoc e.stats (concat e.actions) after) in
      let regrouped : bytes ≡ (before ++ e.stats) ++ (concat e.actions ++ after) =
        grouped ∙ sym (append_assoc before e.stats (concat e.actions ++ after)) in
      let test : ltb head response_end ≡ true = ground arith in
      let found : slice_at bytes head sizeof_flow_stats ≡ ok e.stats =
        ap (λ (b : List ℕ). slice_at b head sizeof_flow_stats) grouped
        ∙ slice_at-append before e.stats (concat e.actions ++ after) head sizeof_flow_stats at
            (sym size) in
      let actions_end = head + (stats_of order memory layout e).length in
      let places = max_actions - flows.nb_actions i in
      let run =
        ap
          (λ (b : List ℕ).
            actions_loop order memory places b (head + sizeof_flow_stats) actions_end
              (flows.nb_actions i) fresh (flows.actions i))
          regrouped
        ∙ actions_loop-overflows order memory places (before ++ e.stats) after e.actions
            (head + sizeof_flow_stats) actions_end (flows.nb_actions i) fresh (flows.actions i)
            (omega (arith, length-append before e.stats)) (omega arith) (omega arith) known in
      rw (test, found, run) refl
