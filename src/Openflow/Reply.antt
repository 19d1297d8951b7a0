-- ===== src/Openflow/Reply.antt =====
-- One reply of the switch, as `openflow_get_flows` of src/openflow.c reads it behind others.
use o_rss_nic.Prelude.{
  List, Returns, [], ap, arith, length, refl, subst, suc, sym, zero, ℕ, ◌++◌, ◌+◌, ◌-◌, ◌<◌, ◌∙◌,
  ◌∷◌, ◌≡◌, ◌≤◌,
}
use mathlib.Core.List.{append-nil}
use o_rss_nic.Words.{ByteOrder, Memory}
use o_rss_nic.Openflow.{received, ofp_header_len}
use o_rss_nic.Openflow.Flows.{Flows, max_handled_flows}
use o_rss_nic.Openflow.Replies.{entries_loop}
use o_rss_nic.Openflow.Ovs.{Layout, sizeof_reply_header}
use o_rss_nic.Openflow.Entries.{
  Entry, stats_of, Report, reports_from, report_at, reports, reports_after, fresh_after,
  all_bytes_of, SameFrom, HasRoom, Extends,
}
use o_rss_nic.Openflow.Actions.{actions_of}
use o_rss_nic.Openflow.Parsing.{entries_loop-reads}
use o_rss_nic.Openflow.Exchange.{Exchange, IsExchange}

reports_from-add :
    (n k i : ℕ) (flows : Flows)
    → reports_from (n + k) i flows ≡ reports_from n i flows ++ reports_from k (i + n) flows
reports_from-add zero k i flows =
    ap (λ (m : ℕ). reports_from m i flows) {x = zero + k} {y = k} (omega arith)
    ∙ ap (λ (m : ℕ). reports_from k m flows) {x = i} {y = i + zero} (omega arith)
reports_from-add (suc n) k i flows =
    ap (λ (m : ℕ). reports_from m i flows) {x = suc n + k} {y = suc (n + k)} (omega arith)
    ∙ ap (λ (l : List Report). report_at flows i ∷ l) (reports_from-add n k (i + 1) flows)
    ∙ ap (λ (m : ℕ). report_at flows i ∷ (reports_from n (i + 1) flows ++ reports_from k m flows))
        {x = i + 1 + n} {y = i + suc n} (omega arith)

reports_from_congr :
    (n i : ℕ) (flows' flows : Flows)
    → ((k : ℕ) → k < i + n → report_at flows' k ≡ report_at flows k)
    → reports_from n i flows' ≡ reports_from n i flows
reports_from_congr zero i flows' flows same = refl
reports_from_congr (suc n) i flows' flows same =
    rw
      (
        same i (omega arith),
        reports_from_congr n (i + 1) flows' flows (λ k hk. same k (omega arith)),
      )
      refl

-- The flows that were there, and then the new ones.
reports-Extends :
    (n : ℕ) (flows' flows : Flows) (new : List Report)
    → Extends flows' flows
    → flows'.nb_flows ≡ flows.nb_flows + n
    → reports_from n flows.nb_flows flows' ≡ new
    → reports flows' ≡ reports flows ++ new
unfolding reports Extends
reports-Extends n flows' flows new extends total listed =
    ap (λ (m : ℕ). reports_from m 0 flows') total
    ∙ reports_from-add flows.nb_flows n 0 flows'
    ∙ ap (λ (l : List Report). l ++ reports_from n (0 + flows.nb_flows) flows')
        (reports_from_congr flows.nb_flows 0 flows' flows (λ k hk. extends k (omega arith)))
    ∙ ap (λ (m : ℕ). reports flows ++ reports_from n m flows') {x = 0 + flows.nb_flows}
        {y = flows.nb_flows} (omega arith)
    ∙ ap (λ (l : List Report). reports flows ++ l) listed

pub HasRoom-append :
    (i : ℕ) (flows : Flows) (entries later : List Entry)
    → HasRoom i flows (entries ++ later)
    → HasRoom i flows entries × HasRoom (i + length entries) flows later
HasRoom-append i flows [] later fits =
    (tt, subst (λ (k : ℕ). HasRoom k flows later) {x = i} {y = i + 0} (omega arith) fits)
HasRoom-append i flows (e ∷ entries) later (few, fits) =
    let (here, there) = HasRoom-append (i + 1) flows entries later fits in
    (
      (few, here),
      subst (λ (k : ℕ). HasRoom k flows later) {x = i + 1 + length entries}
          {y = i + suc (length entries)} (omega arith) there,
    )

pub fresh_after-append :
    (fresh : ℕ) (entries later : List Entry)
    → fresh_after fresh (entries ++ later) ≡ fresh_after (fresh_after fresh entries) later
fresh_after-append fresh [] later = refl
fresh_after-append fresh (e ∷ entries) later =
    fresh_after-append (fresh + length e.actions) entries later

module _ (order : ByteOrder) (memory : Memory) (layout : Layout) where
  pub reports_after-append :
      (i fresh : ℕ) (flows : Flows) (entries later : List Entry)
      → reports_after order memory layout i flows fresh (entries ++ later)
        ≡ reports_after order memory layout i flows fresh entries
          ++ reports_after order memory layout
              (i + length entries)
              flows
              (fresh_after fresh entries)
              later
  reports_after-append i fresh flows [] later =
      ap (λ (k : ℕ). reports_after order memory layout k flows fresh later) {x = i} {y = i + 0}
        (omega arith)
  reports_after-append i fresh flows (e ∷ entries) later =
      ap
        (λ (l : List Report).
          record {
            stats = stats_of order memory layout e;
            actions = (report_at flows i).actions ++ actions_of order memory fresh e.actions;
          }
          ∷ l)
        (reports_after-append (i + 1) (fresh + length e.actions) flows entries later
          ∙ ap
              (λ (k : ℕ).
                reports_after order memory layout (i + 1) flows (fresh + length e.actions) entries
                ++ reports_after order memory layout k flows
                    (fresh_after (fresh + length e.actions) entries) later)
              {x = i + 1 + length entries} {y = i + suc (length entries)} (omega arith))

  pub reply-read :
      (xid : ℕ) (e : Exchange) (flows : Flows) (fresh : ℕ)
      → 0 < layout.sizeof_flow_stats
      → IsExchange order memory layout xid e
      → flows.nb_flows + length e.entries ≤ max_handled_flows
      → HasRoom flows.nb_flows flows e.entries
      → Returns
          (entries_loop order memory layout
            (max_handled_flows - flows.nb_flows)
            (received order e.reply).bytes
            sizeof_reply_header
            ((received order e.reply).header.length - ofp_header_len)
            flows
            fresh)
          λ r.
            (reports r.0
              ≡ reports flows
                ++ reports_after order memory layout flows.nb_flows flows fresh e.entries)
            × SameFrom r.0.nb_flows r.0 flows
            × (r.0.nb_flows ≡ flows.nb_flows + length e.entries)
            × (r.1 ≡ fresh_after fresh e.entries)
  unfolding received
  reply-read xid e flows fresh some_size exchange room fits =
      let size = exchange.header_size in
      let total = exchange.total in
      let left = max_handled_flows - flows.nb_flows in
      let response_end = (received order e.reply).header.length - ofp_header_len in
      let padded : e.reply.bytes ≡ e.header ++ (all_bytes_of e.entries ++ []) =
        exchange.body
        ∙ ap (λ (b : List ℕ). e.header ++ b) (sym (append-nil (all_bytes_of e.entries))) in
      let (r, run, (listed, extends, same, number, next)) =
        entries_loop-reads order memory layout left e.header [] e.entries sizeof_reply_header
          response_end flows fresh some_size (omega arith) (omega arith) (omega arith)
          exchange.entries fits in
      (
        r,
        ap
              (λ (b : List ℕ).
                entries_loop order memory layout left b sizeof_reply_header response_end flows
                  fresh)
              padded
            ∙ run,
        (
          reports-Extends (length e.entries) r.0 flows
              (reports_after order memory layout flows.nb_flows flows fresh e.entries) extends
              number listed,
          same,
          number,
          next,
        ),
      )
