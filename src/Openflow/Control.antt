-- ===== src/Openflow/Control.antt =====
-- `openflow_control` of src/openflow.c: the switch's echo requests are answered.
use o_rss_nic.Prelude.{
  Array, List, Option, Returns, Run, [], ap, arith, fault, if◌then◌else◌, none, ok, out_of_fuel,
  read, read-ok, refl, some, suc, sym, zero, ℕ, ◌++◌, ◌+◌, ◌==◌, ◌>>=◌, ◌∙◌, ◌∷◌, ◌≡◌, ◌≤◌,
}
use mathlib.Core.List.{map}
use o_rss_nic.Words.{ByteOrder}
use o_rss_nic.Openflow.{
  Message, Header, World, Connection, msg_buffer_size, received, send_openflow_echo_reply, send,
  free_openflow_message_body, ofp_version, ofp_header_len, ofp_echo_request, ofp_echo_reply,
  next_message,
}
use o_rss_nic.Openflow.Buffer.{slice, queued, arrivals}

-- How many of the messages are echo requests.
unfoldable pub echo_requests : List Message → ℕ
echo_requests [] = 0
echo_requests (message ∷ later) =
    (if message.header.type == ofp_echo_request then 1 else 0) + echo_requests later

module _ (order : ByteOrder) where
  unfoldable pub control_logic : Message → World → World
  unfolding send_openflow_echo_reply
  control_logic message w =
      if message.header.type == ofp_echo_request then send_openflow_echo_reply order w else w

  -- The `for` loop; `left` is `nb_msg_buffered - i`.
  unfoldable pub buffered_loop : (left i : ℕ) → Array Message → World → Run World
  unfolding control_logic free_openflow_message_body
  buffered_loop zero i messages w = ok w
  buffered_loop (suc left) i messages w =
      let rest = buffered_loop left (i + 1) messages in
      do
        message ← read msg_buffer_size messages i
        rest (free_openflow_message_body message (control_logic message w))

  -- The `while` loop, which ends with the first `read` that finds nothing.
  unfoldable pub socket_loop : List (Option Message) → World → Run World
  unfolding control_logic free_openflow_message_body next_message
  socket_loop [] w = fault out_of_fuel
  socket_loop (arrival ∷ later) w =
      let rest = socket_loop later in
      elim (next_message order arrival) [
        | none ↦ ok (record w { incoming = later })
        | some message ↦ rest (free_openflow_message_body message (control_logic message w))
      ]

  unfoldable pub openflow_control : Connection → World → Run (Connection × World)
  unfolding buffered_loop socket_loop
  openflow_control conn w = do
    w' ← buffered_loop conn.nb_msg_buffered 0 conn.msg_buffer w
    w'' ← socket_loop w'.incoming w'
    ok (record conn { nb_msg_buffered = 0 }, w'')

module _ (order : ByteOrder) where
  abbrev pub echo_reply : Header
  echo_reply = record {
    version = ofp_version;
    type = ofp_echo_reply;
    length = order.htons ofp_header_len;
    xid = 0;
  }

  -- So many echo replies, after the calls of `write` before.
  unfoldable pub pongs : ℕ → List Header → List Header
  pongs zero sent = sent
  pongs (suc n) sent = pongs n (echo_reply ∷ sent)

  pongs-add : (n k : ℕ) (sent : List Header) → pongs (n + k) sent ≡ pongs k (pongs n sent)
  unfolding pongs
  pongs-add zero k sent = ap (λ x. pongs x sent) {x = 0 + k} {y = k} (omega arith)
  pongs-add (suc n) k sent =
      ap (λ x. pongs x sent) {x = suc n + k} {y = suc (n + k)} (omega arith)
      ∙ pongs-add n k (echo_reply ∷ sent)

  handle-sent :
      (message : Message) (w : World)
      → ((free_openflow_message_body message (control_logic order message w)).write_calls
          ≡ pongs (if message.header.type == ofp_echo_request then 1 else 0) w.write_calls)
        × ((free_openflow_message_body message (control_logic order message w)).incoming
            ≡ w.incoming)
        × ((free_openflow_message_body message (control_logic order message w)).transaction_id
            ≡ w.transaction_id)
  unfolding free_openflow_message_body control_logic send_openflow_echo_reply send pongs
  handle-sent message w = ground arith

  buffered_loop-answers :
      (left i : ℕ) (messages : Array Message) (w : World)
      → i + left ≤ msg_buffer_size
      → Returns (buffered_loop order left i messages w) (λ w'.
        (w'.write_calls ≡ pongs (echo_requests (slice left i messages)) w.write_calls)
        × (w'.incoming ≡ w.incoming)
        × (w'.transaction_id ≡ w.transaction_id))
  unfolding buffered_loop slice echo_requests pongs
  buffered_loop-answers zero i messages w fits = (w, refl, (refl, refl, refl))
  buffered_loop-answers (suc left) i messages w fits =
      let message = messages i in
      let next = free_openflow_message_body message (control_logic order message w) in
      let (sent, incoming, id) = handle-sent message w in
      let (w', run, (sent', incoming', id')) =
        buffered_loop-answers left (i + 1) messages next (omega arith) in
      (
        w',
        rw (read-ok msg_buffer_size messages i (omega arith)) run,
        (
          sent'
              ∙ ap (pongs (echo_requests (slice left (i + 1) messages))) sent
              ∙ sym (
                  pongs-add (if message.header.type == ofp_echo_request then 1 else 0)
                    (echo_requests (slice left (i + 1) messages)) w.write_calls),
          incoming' ∙ incoming,
          id' ∙ id,
        ),
      )

  socket_loop-answers :
      (messages : List Message) (later : List (Option Message)) (w : World)
      → Returns (socket_loop order (map some messages ++ (none ∷ later)) w) (λ w'.
        (w'.write_calls ≡ pongs (echo_requests (arrivals order (map some messages))) w.write_calls)
        × (w'.incoming ≡ later)
        × (w'.transaction_id ≡ w.transaction_id))
  unfolding socket_loop next_message echo_requests arrivals pongs
  socket_loop-answers [] later w = (record w { incoming = later }, refl, (refl, refl, refl))
  socket_loop-answers (m ∷ messages) later w =
      let message = received order m in
      let next = free_openflow_message_body message (control_logic order message w) in
      let (sent, _, id) = handle-sent message w in
      let (w', run, (sent', incoming', id')) = socket_loop-answers messages later next in
      (
        w',
        run,
        (
          sent'
              ∙ ap (pongs (echo_requests (arrivals order (map some messages)))) sent
              ∙ sym (
                  pongs-add (if message.header.type == ofp_echo_request then 1 else 0)
                    (echo_requests (arrivals order (map some messages))) w.write_calls),
          incoming',
          id' ∙ id,
        ),
      )

  -- `openflow_control`, with at most 16 messages put aside before it, where some messages come
  -- and then a `read` finds none: it ends normally. It takes every message that was put aside
  -- and every message up to that `read`, calls `write` with one echo reply for each echo request
  -- among them and with nothing else, whether the calls fail or not, leaves no message aside, and
  -- counts no transaction.
  pub openflow_control-answers :
      (conn : Connection) (messages : List Message) (later : List (Option Message)) (w : World)
      → conn.nb_msg_buffered ≤ msg_buffer_size
      → w.incoming ≡ map some messages ++ (none ∷ later)
      → Returns (openflow_control order conn w) (λ r.
        (queued r.0 ≡ [])
        × (r.1.write_calls
            ≡ pongs
                (echo_requests (queued conn) + echo_requests (arrivals order (map some messages)))
                w.write_calls)
        × (r.1.incoming ≡ later)
        × (r.1.transaction_id ≡ w.transaction_id))
  unfolding openflow_control queued slice
  openflow_control-answers conn messages later w fits coming =
      let (w', run, (sent, incoming, id)) =
        buffered_loop-answers conn.nb_msg_buffered 0 conn.msg_buffer w (omega arith) in
      let (w'', run', (sent', incoming', id')) = socket_loop-answers messages later w' in
      (
        (record conn { nb_msg_buffered = 0 }, w''),
        rw (run, incoming ∙ coming, run') refl,
        (
          refl,
          sent'
              ∙ ap (pongs (echo_requests (arrivals order (map some messages)))) sent
              ∙ sym (
                  pongs-add (echo_requests (slice conn.nb_msg_buffered 0 conn.msg_buffer))
                    (echo_requests (arrivals order (map some messages))) w.write_calls),
          incoming',
          id' ∙ id,
        ),
      )
