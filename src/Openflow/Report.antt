-- ===== src/Openflow/Report.antt =====
-- `openflow_get_flows` of src/openflow.c as a whole: what the switch says is what is reported.
use o_rss_nic.Prelude.{
  All, List, Option, Returns, [], ap, arith, false, length, length-append, ltb, refl, subst, sym,
  true, ℕ, ◌%◌, ◌++◌, ◌+◌, ◌-◌, ◌<◌, ◌^◌, ◌∙◌, ◌∷◌, ◌≡◌, ◌≤◌,
}
use mathlib.Core.List.{append_assoc, append-nil}
use Prim.Native.Nat.{bit_and}
use o_rss_nic.Words.{ByteOrder, Memory}
use o_rss_nic.Openflow.{
  Message, Connection, World, received, ofp_header_len, msg_buffer_size, free_openflow_message_body,
}
use o_rss_nic.Openflow.Flows.{Flows, max_handled_flows}
use o_rss_nic.Openflow.Buffer.{queued}
use o_rss_nic.Openflow.Replies.{replies_loop, flow_request, openflow_get_flows}
use o_rss_nic.Openflow.Ovs.{Layout, max_stats_reply}
use o_rss_nic.Openflow.Entries.{
  Entry, Report, reports, reports_after, reports_after_congr, fresh_after, SameFrom, HasRoom,
  HasRoom-SameFrom,
}
use o_rss_nic.Openflow.Reply.{HasRoom-append, reports_after-append, reply-read, fresh_after-append}
use o_rss_nic.Openflow.Exchange.{
  Exchange, IsExchange, says_more, replies_of, others_of, reads_of, collect_loop-collects,
}

-- The flows of all replies, and the addresses of their bodies, the last one first.
abbrev pub entries_of : List Exchange → List Entry
entries_of [] = []
entries_of (e ∷ exchanges) = e.entries ++ entries_of exchanges

abbrev pub bodies_of : List Exchange → List ℕ → List ℕ
bodies_of [] freed = freed
bodies_of (e ∷ exchanges) freed = bodies_of exchanges (e.reply.body ∷ freed)

-- A whole answer: some replies, and the last one.
pub record Answer : Type 0 where
  pub first : List Exchange
  pub last : Exchange

abbrev pub replies_in : Answer → List Exchange
replies_in a = a.first ++ (a.last ∷ [])

module _ (order : ByteOrder) (memory : Memory) (layout : Layout) where
  free_body-freed :
      (xid : ℕ) (e : Exchange) (w : World)
      → IsExchange order memory layout xid e
      → free_openflow_message_body (received order e.reply) w
        ≡ record w { freed = e.reply.body ∷ w.freed }
  unfolding free_openflow_message_body received
  free_body-freed xid e w exchange =
      let total = exchange.total in
      let has_body : ltb ofp_header_len (order.ntohs e.reply.header.length) ≡ true = ground arith in
      rw has_body refl

  replies_loop-reads :
      (xid : ℕ) (exchanges : List Exchange) (flows : Flows) (fresh : ℕ) (w : World)
      → 0 < layout.sizeof_flow_stats
      → All (IsExchange order memory layout xid) exchanges
      → flows.nb_flows + length (entries_of exchanges) ≤ max_handled_flows
      → HasRoom flows.nb_flows flows (entries_of exchanges)
      → Returns
          (replies_loop order memory layout (replies_of order memory exchanges) flows fresh w)
          λ r.
            (reports r.0
              ≡ reports flows
                ++ reports_after order memory layout flows.nb_flows flows fresh
                    (entries_of exchanges))
            × (r.2 ≡ record w { freed = bodies_of exchanges w.freed })
            × (r.0.nb_flows ≡ flows.nb_flows + length (entries_of exchanges))
            × SameFrom r.0.nb_flows r.0 flows
            × (r.1 ≡ fresh_after fresh (entries_of exchanges))
  unfolding replies_loop SameFrom
  replies_loop-reads xid [] flows fresh w some_size exchanges room fits = (
    (flows, fresh, w),
    refl,
    (sym (append-nil (reports flows)), refl, omega arith, λ k hk. (refl, refl), refl),
  )
  replies_loop-reads xid (e ∷ later) flows fresh w some_size (exchange, exchanges) room fits =
      let sizes = length-append e.entries (entries_of later) in
      let n = flows.nb_flows in
      let (here, there) = HasRoom-append n flows e.entries (entries_of later) fits in
      let (r, run, (listed, same, number, next)) =
        reply-read order memory layout xid e flows fresh some_size exchange (omega arith) here in
      let there' =
        HasRoom-SameFrom r.0.nb_flows r.0 flows (entries_of later) same
          (subst (λ (k : ℕ). HasRoom k flows (entries_of later)) (sym number) there) in
      let w' = record w { freed = e.reply.body ∷ w.freed } in
      let (r', run', (listed', freed, number', same', next')) =
        replies_loop-reads xid later r.0 r.1 w' some_size exchanges (omega arith) there' in
      let first = reports_after order memory layout n flows fresh e.entries in
      let then_rest = reports_after order memory layout r.0.nb_flows r.0 r.1 (entries_of later) in
      let rest =
        reports_after_congr order memory layout r.0.nb_flows r.1 r.0 flows (entries_of later) same
        ∙ ap (λ (k : ℕ). reports_after order memory layout k flows r.1 (entries_of later)) number
        ∙ ap
            (λ (a : ℕ).
              reports_after order memory layout (n + length e.entries) flows a (entries_of later))
            next in
      (
        r',
        rw (run, free_body-freed xid e w exchange) run',
        (
          listed'
              ∙ ap (λ (l : List Report). l ++ then_rest) listed
              ∙ append_assoc (reports flows) first then_rest
              ∙ ap (λ (l : List Report). reports flows ++ (first ++ l)) rest
              ∙ ap (λ (l : List Report). reports flows ++ l)
                  (sym (
                    reports_after-append order memory layout n fresh flows e.entries
                      (entries_of later))),
          freed,
          omega arith,
          λ k hk.
              let (counts', rows') = same' k hk in
              let (counts, rows) = same k (omega arith) in (counts' ∙ counts, rows' ∙ rows),
          next'
              ∙ ap (λ (x : ℕ). fresh_after x (entries_of later)) next
              ∙ sym (fresh_after-append fresh e.entries (entries_of later)),
        ),
      )

  -- The replies are the first ones to the request, at most 32, all but the last one say that
  -- another one follows, and they tell of at most 1024 flows in all.
  pub record IsAnswer (xid : ℕ) (a : Answer) : Type 0 where
    pub count : length a.first < max_stats_reply
    pub exchanges : All (IsExchange order memory layout xid) (replies_in a)
    pub more : All (λ e. says_more order memory layout e ≡ true) a.first
    pub ends : says_more order memory layout a.last ≡ false
    pub few : length (entries_of (replies_in a)) ≤ max_handled_flows

  -- `openflow_get_flows`, where the request is written and the switch answers with replies one
  -- after the other, at most 32 of them, all but the last one saying that another one follows, of
  -- at most 1024 flows in all, each with its own length and with actions of the two known types,
  -- which find room beside the actions that the structure has at the place of the flow, and where
  -- the other messages that come in between fit beside those that are put aside: it ends normally.
  -- The request asks, with the number of the transaction, for the flows of every table from the
  -- port of the network, whatever port they are sent to. The structure then holds exactly the flows
  -- of the replies in their order, each with the actions that its place had before and, behind
  -- them, those of the reply; the places behind the last flow keep their actions. The numbers are
  -- in host order, but for the two durations of a flow, of which only the low half is left, turned
  -- as a word of 16 bits. Each action has an address of its own. The other
  -- messages are put aside, the bodies of the replies are freed once each, the transaction is
  -- counted, and what comes later is left alone.
  pub openflow_get_flows-reports :
      (a : Answer) (later : List (Option Message)) (conn : Connection) (flows : Flows) (fresh : ℕ)
      (w : World)
      → 0 < layout.sizeof_flow_stats
      → w.incoming ≡ reads_of (replies_in a) later
      → IsAnswer w.transaction_id a
      → conn.nb_msg_buffered + length (others_of order memory (replies_in a)) ≤ msg_buffer_size
      → HasRoom 0 flows (entries_of (replies_in a))
      → Returns (openflow_get_flows order memory layout true conn flows fresh w) λ r.
        (r.0 ≡ record {
          header = record {
            version = 1;
            type = 16;
            length = order.htons layout.request_size;
            xid = order.htonl w.transaction_id;
          };
          type = order.htons 1;
          flags = 0;
          wildcards =
              order.htonl (bit_and layout.ofpfw10_all (4294967295 - layout.ofpfw10_in_port));
          in_port = order.htons 1;
          table_id = 255;
          out_port = layout.ofpp_none;
        })
        × (reports r.1
            ≡ reports_after order memory layout 0 flows fresh (entries_of (replies_in a)))
        × (r.1.nb_flows ≡ length (entries_of (replies_in a)))
        × SameFrom r.1.nb_flows r.1 flows
        × (r.3 ≡ fresh_after fresh (entries_of (replies_in a)))
        × (queued r.2 ≡ queued conn ++ others_of order memory (replies_in a))
        × (r.4 ≡ record w {
          transaction_id = (w.transaction_id + 1) % 2 ^ 32;
          freed = bodies_of (replies_in a) w.freed;
          incoming = later;
        })
  unfolding openflow_get_flows reports SameFrom flow_request
  openflow_get_flows-reports a later conn flows fresh w some_size coming answer room fits =
      let all = replies_in a in
      let xid = w.transaction_id in
      let restarted = record flows { nb_flows = 0 } in
      let same : SameFrom 0 restarted flows = λ k hk. (refl, refl) in
      let few = answer.few in
      let (r, run, (found, queue, after)) =
        collect_loop-collects order memory layout max_stats_reply xid a.first a.last later conn
          answer.count answer.exchanges answer.more answer.ends room in
      let w₁ = record w { transaction_id = (w.transaction_id + 1) % 2 ^ 32; incoming = later } in
      let (r', run', (listed, world, number, kept, next)) =
        replies_loop-reads xid all restarted fresh w₁ some_size answer.exchanges (omega arith)
          (HasRoom-SameFrom 0 restarted flows (entries_of all) same fits) in
      (
        (flow_request order memory layout xid, r'.0, r.1, r'.1, r'.2),
        rw (coming, run, found, after, run') refl,
        (
          refl,
          listed
              ∙ reports_after_congr order memory layout 0 fresh restarted flows (entries_of all)
                  same,
          omega arith,
          kept,
          next,
          queue,
          world,
        ),
      )
