-- ===== src/Openflow/Kept.antt =====
-- What the functions of src/openflow.c leave alone in a connection until it is closed.
use o_rss_nic.Prelude.{
  >>=-eq-ok, Bool, Bool-cases, List, Option, Run, [], ap, arith, false, if◌then◌else◌, inl, inr, ok,
  ok-injective, read, refl, subst, suc, sym, true, zero, ℕ, ◌%◌, ◌+◌, ◌-◌, ◌==◌, ◌>>=◌, ◌^◌, ◌∙◌,
  ◌∷◌, ◌≡◌,
}
use Prim.Native.Nat.{bit_and}
use o_rss_nic.Words.{ByteOrder, Memory, slice_at}
use o_rss_nic.Openflow.{
  Connection, World, Message, openflow_wait_for_message, free_openflow_message_body, ofp_header_len,
}
use o_rss_nic.Openflow.Flows.{Flows, max_handled_flows}
use o_rss_nic.Openflow.Replies.{
  openflow_get_flows, collect_loop, replies_loop, entries_loop, flow_request,
}
use o_rss_nic.Openflow.Ovs.{
  Layout, StatsRequest, ofp_stats_reply, sizeof_reply_header, max_stats_reply,
}
use o_rss_nic.Openflow.Ends.{
  SameEnds, SameEnds-refl, SameEnds-trans, Keeps, openflow_wait_for_message-SameEnds,
}

abbrev Collected : Type 0
Collected = List Message × Connection × List (Option Message)

module _ (order : ByteOrder) (memory : Memory) (layout : Layout) where
  -- What follows once the flags of a reply are read.
  abbrev after_flags :
      (rest : Connection → List (Option Message) → Run (Collected))
      (found : Message × Connection × List (Option Message)) (flags : List ℕ)
      → Run (Collected)
  after_flags rest found flags =
      if bit_and (order.ntohs (memory.word16 flags)) layout.ofpsf_reply_more == 0
      then ok (found.0 ∷ [], found.1, found.2)
      else rest found.1 found.2 >>= λ r. ok (found.0 ∷ r.0, r.1, r.2)

  after_flags-SameEnds :
      (rest : Connection → List (Option Message) → Run (Collected))
      (found : Message × Connection × List (Option Message)) (flags : List ℕ) {r : Collected}
      → ((s : Collected) → rest found.1 found.2 ≡ ok s → SameEnds s.1 found.1)
      → after_flags rest found flags ≡ ok r
      → SameEnds r.1 found.1
  after_flags-SameEnds rest found flags same run =
      let more = bit_and (order.ntohs (memory.word16 flags)) layout.ofpsf_reply_more == 0 in
      elim (Bool-cases more) [
        | inl last ↦
            let e : ok (found.0 ∷ [], found.1, found.2) ≡ ok _ = rw last at run in
            subst (λ s. SameEnds s.1 found.1) (ok-injective e) (SameEnds-refl found.1)
        | inr other ↦
            let (s, run₁, e) =
              >>=-eq-ok (rest found.1 found.2) (λ s. ok (found.0 ∷ s.0, s.1, s.2))
                (rw other at run) in
            subst (λ s. SameEnds s.1 found.1) (ok-injective e) (same s run₁)
      ]

  collect_loop-SameEnds :
      (left xid : ℕ) (conn : Connection) (reads : List (Option Message)) {r : Collected}
      → collect_loop order memory layout left xid conn reads ≡ ok r
      → SameEnds r.1 conn
  unfolding collect_loop
  collect_loop-SameEnds zero xid conn reads run = cc
  collect_loop-SameEnds (suc left) xid conn reads run =
      let rest = collect_loop order memory layout left xid in
      let (found, run₁, later) =
        >>=-eq-ok (openflow_wait_for_message order ofp_stats_reply xid reads conn)
          (λ f. slice_at f.0.bytes 2 2 >>= λ flags. after_flags rest f flags) run in
      let (flags, _, run₂) =
        >>=-eq-ok (slice_at found.0.bytes 2 2) (λ flags. after_flags rest found flags) later in
      SameEnds-trans
        (after_flags-SameEnds rest found flags (λ s. collect_loop-SameEnds left xid found.1 found.2)
          run₂)
        (openflow_wait_for_message-SameEnds order ofp_stats_reply xid reads conn run₁)

  free_body-closing :
      (m : Message) (w : World) → (free_openflow_message_body m w).closing ≡ w.closing
  unfolding free_openflow_message_body
  free_body-closing m w = ground arith

  replies_loop-closing :
      (messages : List Message) (flows : Flows) (fresh : ℕ) (w : World) {r : Flows × ℕ × World}
      → replies_loop order memory layout messages flows fresh w ≡ ok r
      → r.2.closing ≡ w.closing
  unfolding replies_loop
  replies_loop-closing [] flows fresh w run =
      ap (λ (x : Flows × ℕ × World). x.2.closing) (sym (ok-injective run))
  replies_loop-closing (m ∷ messages) flows fresh w run =
      let next = free_openflow_message_body m w in
      let (read, _, run') =
        >>=-eq-ok
          (entries_loop order memory layout (max_handled_flows - flows.nb_flows) m.bytes
            sizeof_reply_header (m.header.length - ofp_header_len) flows fresh)
          (λ e. replies_loop order memory layout messages e.0 e.1 next) run in
      replies_loop-closing messages read.0 read.1 next run' ∙ free_body-closing m w

  pub openflow_get_flows-Keeps :
      (written : Bool) (conn : Connection) (flows : Flows) (fresh : ℕ) (w : World)
      {r : StatsRequest × Flows × Connection × ℕ × World}
      → openflow_get_flows order memory layout written conn flows fresh w ≡ ok r
      → Keeps r.2 r.4 conn w
  unfolding openflow_get_flows
  openflow_get_flows-Keeps false conn flows fresh w run =
      subst (λ r. Keeps r.2 r.4 conn w) (ok-injective run)
        (record { same = SameEnds-refl conn; none_closed = refl })
  openflow_get_flows-Keeps true conn flows fresh w run =
      let request = flow_request order memory layout w.transaction_id in
      let counted = record w { transaction_id = (w.transaction_id + 1) % 2 ^ 32 } in
      let emptied = record flows { nb_flows = 0 } in
      let (got, run₁, later) =
        >>=-eq-ok
          (collect_loop order memory layout max_stats_reply w.transaction_id conn w.incoming)
          (λ c.
            replies_loop order memory layout c.0 emptied fresh (record counted { incoming = c.2 })
            >>= λ p. ok (request, p.0, c.1, p.1, p.2))
          run in
      let (parsed, run₂, ends) =
        >>=-eq-ok
          (replies_loop order memory layout got.0 emptied fresh
            (record counted { incoming = got.2 }))
          (λ p. ok (request, p.0, got.1, p.1, p.2)) later in
      subst (λ r. Keeps r.2 r.4 conn w) (ok-injective ends)
        (record {
          same = collect_loop-SameEnds max_stats_reply w.transaction_id conn w.incoming run₁;
          none_closed =
              replies_loop-closing got.0 emptied fresh (record counted { incoming = got.2 }) run₂;
        })
