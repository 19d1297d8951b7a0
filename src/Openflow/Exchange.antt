-- ===== src/Openflow/Exchange.antt =====
-- The replies of the switch to one request for its flows, as `openflow_get_flows` of
-- src/openflow.c collects them.
use o_rss_nic.Prelude.{
  All, Bool, List, Option, Returns, [], ap, arith, drop, false, length, length-append, length-drop,
  length-take, not, ok, refl, some, suc, sym, take, take-drop, true, zero, ℕ, ◌++◌, ◌+◌, ◌<◌, ◌==◌,
  ◌∙◌, ◌∷◌, ◌≡◌, ◌≤◌,
}
use Prim.Native.Nat.{bit_and}
use mathlib.Core.List.{append_assoc, append-nil}
use o_rss_nic.Words.{ByteOrder, Memory, slice_at, slice_at-append}
use o_rss_nic.Openflow.{Message, Connection, received, ofp_header_len, msg_buffer_size}
use o_rss_nic.Openflow.Buffer.{queued, arrivals, length-queued}
use o_rss_nic.Openflow.Awaited.{IsAwaited, openflow_wait_for_message-first}
use o_rss_nic.Openflow.Replies.{collect_loop}
use o_rss_nic.Openflow.Ovs.{Layout, sizeof_reply_header, ofp_stats_reply}
use o_rss_nic.Openflow.Entries.{Entry, all_bytes_of, IsEntry}

-- Other messages, and then a reply, whose body is a header and the flows.
pub record Exchange : Type 0 where
  pub before : List (Option Message)
  pub reply : Message
  pub header : List ℕ
  pub entries : List Entry

-- The reads that they come in, with later ones behind them.
abbrev pub reads_of : List Exchange → (later : List (Option Message)) → List (Option Message)
reads_of [] later = later
reads_of (e ∷ exchanges) later = e.before ++ (some e.reply ∷ reads_of exchanges later)

module _ (order : ByteOrder) (memory : Memory) where
  module _ (layout : Layout) where
    abbrev pub says_more : Exchange → Bool
    says_more e =
        not (bit_and (order.ntohs (memory.word16 (drop 2 e.header))) layout.ofpsf_reply_more == 0)

    -- The reply is the first one to the request, and has the length of the flows that it tells of.
    pub record IsExchange (xid : ℕ) (e : Exchange) : Type 0 where
      pub others : All (λ m. IsAwaited ofp_stats_reply xid m → ⊥) (arrivals order e.before)
      pub awaited : IsAwaited ofp_stats_reply xid (received order e.reply)
      pub body : e.reply.bytes ≡ e.header ++ all_bytes_of e.entries
      pub header_size : length e.header ≡ sizeof_reply_header
      pub total :
          (received order e.reply).header.length
          ≡ ofp_header_len + sizeof_reply_header + length (all_bytes_of e.entries)
      pub entries : All (IsEntry order memory layout) e.entries

  -- The replies in host order, and the other messages.
  abbrev pub replies_of : List Exchange → List Message
  replies_of [] = []
  replies_of (e ∷ exchanges) = received order e.reply ∷ replies_of exchanges

  abbrev pub others_of : List Exchange → List Message
  others_of [] = []
  others_of (e ∷ exchanges) = arrivals order e.before ++ others_of exchanges

  module _ (layout : Layout) where
    flags-read :
        (xid : ℕ) (e : Exchange)
        → IsExchange layout xid e
        → slice_at (received order e.reply).bytes 2 2 ≡ ok (drop 2 e.header)
    unfolding received
    flags-read xid e exchange =
        let size = exchange.header_size in
        let split : e.reply.bytes ≡ take 2 e.header ++ (drop 2 e.header ++ all_bytes_of e.entries) =
          exchange.body
          ∙ ap (λ (b : List ℕ). b ++ all_bytes_of e.entries) (sym (take-drop 2 e.header))
          ∙ append_assoc (take 2 e.header) (drop 2 e.header) (all_bytes_of e.entries) in
        ap (λ (b : List ℕ). slice_at b 2 2) split
        ∙ slice_at-append (take 2 e.header) (drop 2 e.header) (all_bytes_of e.entries) 2 2
            (sym (length-take 2 e.header (omega arith))) (omega (arith, length-drop 2 e.header))

    -- The loop of `openflow_get_flows` that waits, where the replies come one after the other, no
    -- more than there are places for, all but the last one saying that another one follows, and
    -- where the other messages between them fit beside those that are put aside: it ends with
    -- exactly the replies, puts the others aside, and leaves what comes later.
    pub collect_loop-collects :
        (left xid : ℕ) (first : List Exchange) (last : Exchange) (later : List (Option Message))
        (conn : Connection)
        → length first < left
        → All (IsExchange layout xid) (first ++ (last ∷ []))
        → All (λ e. says_more layout e ≡ true) first
        → says_more layout last ≡ false
        → conn.nb_msg_buffered + length (others_of (first ++ (last ∷ []))) ≤ msg_buffer_size
        → Returns
            (collect_loop order memory layout left xid conn (reads_of (first ++ (last ∷ [])) later))
            λ r.
              (r.0 ≡ replies_of (first ++ (last ∷ [])))
              × (queued r.1 ≡ queued conn ++ others_of (first ++ (last ∷ [])))
              × (r.2 ≡ later)
    unfolding collect_loop
    collect_loop-collects zero xid first last later conn room exchanges more ends fits =
        absurd (omega arith)
    collect_loop-collects (suc left) xid [] last later conn room (exchange, _) more ends fits =
        let (r, run, (found, queue, after)) =
          openflow_wait_for_message-first order ofp_stats_reply xid last.before last.reply later
            conn exchange.others exchange.awaited
            (omega (arith, length-append (arrivals order last.before) [])) in
        let flags =
          ap (λ (m : Message). slice_at m.bytes 2 2) found ∙ flags-read xid last exchange in
        let over : (bit_and (order.ntohs (memory.word16 (drop 2 last.header)))
                layout.ofpsf_reply_more
              == 0)
            ≡ true =
          ground arith in
        (
          (r.0 ∷ [], r.1, r.2),
          rw (run, flags, over) refl,
          (
            rw found refl,
            queue
                ∙ ap (λ (q : List Message). queued conn ++ q)
                    (sym (append-nil (arrivals order last.before))),
            after,
          ),
        )
    collect_loop-collects (suc left) xid (e ∷ first) last later conn room (exchange, exchanges)
          (here, more) ends fits =
        let after_e = reads_of (first ++ (last ∷ [])) later in
        let rest = others_of (first ++ (last ∷ [])) in
        let (r, run, (found, queue, after)) =
          openflow_wait_for_message-first order ofp_stats_reply xid e.before e.reply after_e conn
            exchange.others exchange.awaited
            (omega (arith, length-append (arrivals order e.before) rest)) in
        let flags = ap (λ (m : Message). slice_at m.bytes 2 2) found ∙ flags-read xid e exchange in
        let goes_on : (bit_and (order.ntohs (memory.word16 (drop 2 e.header)))
                layout.ofpsf_reply_more
              == 0)
            ≡ false =
          ground arith in
        let count : r.1.nb_msg_buffered ≡ conn.nb_msg_buffered + length (arrivals order e.before) =
          sym (length-queued r.1)
          ∙ ap (λ (q : List Message). length q) queue
          ∙ length-append (queued conn) (arrivals order e.before)
          ∙ ap (λ (n : ℕ). n + length (arrivals order e.before)) (length-queued conn) in
        let (r', run', (found', queue', after')) =
          collect_loop-collects left xid first last later r.1 (omega arith) exchanges more ends
            (omega (arith, length-append (arrivals order e.before) rest)) in
        let resumed =
          ap (λ (l : List (Option Message)). collect_loop order memory layout left xid r.1 l) after
          ∙ run' in
        (
          (r.0 ∷ r'.0, r'.1, r'.2),
          rw (run, flags, goes_on, resumed) refl,
          (
            rw (found, found') refl,
            queue'
                ∙ ap (λ (q : List Message). q ++ rest) queue
                ∙ append_assoc (queued conn) (arrivals order e.before) rest,
            after',
          ),
        )
