-- ===== src/Openflow/Greeting.antt =====
-- The making of a connection in src/openflow.c, with a switch that introduces itself.
use o_rss_nic.Prelude.{
  All, List, Option, Returns, [], ap, arith, concat, length, ok, refl, some, subst, sym, ℕ, ◌%◌,
  ◌*◌, ◌++◌, ◌+◌, ◌-◌, ◌<◌, ◌^◌, ◌∙◌, ◌∷◌, ◌≡◌, ◌≤◌,
}
use o_rss_nic.Words.{ByteOrder, Memory}
use o_rss_nic.Openflow.{
  Header, Message, Connection, World, ofp_hello, ofp_header_len, ofp_version, ofp_features_request,
  msg_buffer_size, openflow_wait_for_message, send, send_openflow_hello,
  send_openflow_features_request, free_openflow_message_body, received,
}
use o_rss_nic.Openflow.Awaited.{IsAwaited, openflow_wait_for_message-first}
use o_rss_nic.Openflow.Ends.{openflow_wait_for_message-SameEnds}
use o_rss_nic.Openflow.Told.{TellsFeatures, TellsPorts, features_at-tells, ports_at-tells}
use o_rss_nic.Openflow.Ports.{
  sizeof_features, sizeof_port_data, parse_features_reply, parse_features_reply-reads, ports_block,
}
use o_rss_nic.Openflow.Buffer.{queued, arrivals, length-queued, queued-empty, queued_congr}
use o_rss_nic.Openflow.Handshake.{
  SocketCalls, get_socket, openflow_create_connection, ofp_features_reply,
}

-- What the switch sends while the connection is made: other messages, its greeting, other messages,
-- what it tells of itself, and whatever comes later.
pub record Script : Type 0 where
  pub before : List (Option Message)
  pub hello : Message
  pub between : List (Option Message)
  pub reply : Message
  pub later : List (Option Message)

abbrev pub reads_of : Script → List (Option Message)
reads_of s = s.before ++ (some s.hello ∷ (s.between ++ (some s.reply ∷ s.later)))

-- The number of the request for the features.
abbrev pub next_id : ℕ → ℕ
next_id random = (random + 1) % 2 ^ 32

module _ (order : ByteOrder) (memory : Memory) where
  -- A script as a switch keeps to it: the greeting is the first one, the reply is the first one to
  -- the request, and no more messages come besides these than there is room for.
  pub record IsScript (random : ℕ) (s : Script) : Type 0 where
    pub greets : IsAwaited ofp_hello 0 (received order s.hello)
    pub first : All (λ m. IsAwaited ofp_hello 0 m → ⊥) (arrivals order s.before)
    pub replies : IsAwaited ofp_features_reply (next_id random) (received order s.reply)
    pub answers :
        All (λ m. IsAwaited ofp_features_reply (next_id random) m → ⊥) (arrivals order s.between)
    pub room :
        length (arrivals order s.before) + length (arrivals order s.between) ≤ msg_buffer_size

  -- What the body of the reply holds.
  pub record Describes (reply : Message) (fixed : List ℕ) (ports : List (List ℕ)) : Type 0 where
    pub body : reply.bytes ≡ fixed ++ concat ports
    pub fixed_size : length fixed ≡ sizeof_features
    pub port_sizes : All (λ p. length p ≡ sizeof_port_data) ports
    pub total :
        reply.header.length ≡ ofp_header_len + sizeof_features + sizeof_port_data * length ports
    pub few : length ports < 2 ^ 16

  -- What `write` is called with: the greeting and the request.
  abbrev pub introductions : (random : ℕ) → List Header → List Header
  introductions random sent =
      record {
        version = ofp_version;
        type = ofp_features_request;
        length = order.htons ofp_header_len;
        xid = order.htonl (next_id random);
      }
      ∷ record {
        version = ofp_version;
        type = ofp_hello;
        length = order.htons ofp_header_len;
        xid = order.htonl random;
      }
      ∷ sent

  free_body_keeps :
      (message : Message) (w : World)
      → ((free_openflow_message_body message w).write_calls ≡ w.write_calls)
        × ((free_openflow_message_body message w).incoming ≡ w.incoming)
        × ((free_openflow_message_body message w).transaction_id ≡ w.transaction_id)
        × ((free_openflow_message_body message w).closing ≡ w.closing)
  unfolding free_openflow_message_body
  free_body_keeps message w = ground arith

  ports_block_congr :
      (address : ℕ) (conn' conn : Connection) (ports : List (List ℕ))
      → conn'.ports_body ≡ conn.ports_body
      → ports_block address conn' ports ≡ ports_block address conn ports
  ports_block_congr address conn' conn [] same = same
  ports_block_congr address conn' conn (p ∷ ports) same = refl

  create_connection-run :
      (calls : SocketCalls) (random address : ℕ) (conn : Connection) (w : World) {d : ℕ × ℕ}
      {r₁ r₂ : Message × Connection × List (Option Message)} {conn₃ : Connection}
      → random < 2 ^ 32
      → get_socket calls ≡ ok d
      → openflow_wait_for_message order ofp_hello 0 w.incoming
          (record conn { server_fd = d.0; fd = d.1 })
        ≡ ok r₁
      → openflow_wait_for_message order ofp_features_reply (next_id random) r₁.2 r₁.1 ≡ ok r₂
      → parse_features_reply order memory address r₂.0 r₂.1 ≡ ok conn₃
      → openflow_create_connection order memory calls random address conn w
        ≡ ok (
          conn₃,
          free_openflow_message_body r₂.0 (record w {
            transaction_id = (next_id random + 1) % 2 ^ 32;
            write_calls = introductions random w.write_calls;
            incoming = r₂.2;
          }),
        )
  unfolding openflow_create_connection send_openflow_hello send_openflow_features_request send
  create_connection-run calls random address conn w small connected run₁ run₂ parsed =
      let drawn : random % 2 ^ 32 ≡ random = omega arith in
      let requested : ((next_id random + 1) % 2 ^ 32 + 2 ^ 32 - 1) % 2 ^ 32 ≡ next_id random =
        omega arith in
      rw (connected, drawn, run₁, requested, run₂, parsed) refl

  -- `openflow_create_connection`, where the calls of the operating system succeed, where no message
  -- is put aside yet and the switch keeps to the script, ends normally. It calls `write` with a
  -- greeting and then with a request for the features, with the number that it drew and with the
  -- next one. The connection has the features of the switch, each from the bytes at its offset in
  -- the reply. The number of its ports is that of the switch modulo 256, and it has so many of them
  -- from the first one on, each field from the bytes at its offset: all of them where there are at
  -- most 255, and of 256 or more only these, the others being left out. The connection has put
  -- aside the messages that came before the greeting and before the reply, in the order of their
  -- arrival. What comes later is not read, and the two numbers are counted. The descriptors of the
  -- operating system are kept, and nothing is closed. The pointer to the ports is what `malloc`
  -- gives if there are any, and has no value of its own if there are none.
  pub openflow_create_connection-greets :
      (calls : SocketCalls) (random address server_fd fd : ℕ) (conn : Connection) (w : World)
      (s : Script) (fixed : List ℕ) (ports : List (List ℕ))
      → get_socket calls ≡ ok (server_fd, fd)
      → random < 2 ^ 32
      → conn.nb_msg_buffered ≡ 0
      → w.incoming ≡ reads_of s
      → IsScript random s
      → Describes (received order s.reply) fixed ports
      → Returns (openflow_create_connection order memory calls random address conn w) λ r.
        TellsFeatures order memory fixed r.0.features
        × (r.0.nb_ports ≡ length ports % 2 ^ 8)
        × (0 < length ports → TellsPorts order memory (length ports % 2 ^ 8) ports r.0.ports)
        × (queued r.0 ≡ arrivals order s.before ++ arrivals order s.between)
        × (r.1.write_calls ≡ introductions random w.write_calls)
        × (r.1.incoming ≡ s.later)
        × (r.1.transaction_id ≡ (next_id random + 1) % 2 ^ 32)
        × (r.0.fd ≡ fd)
        × (r.0.server_fd ≡ server_fd)
        × (r.0.ports_body ≡ ports_block address conn ports)
        × (r.1.closing ≡ w.closing)
  openflow_create_connection-greets calls random address server_fd fd conn w s fixed ports connected
        small empty coming script describes =
      let conn₀ = record conn { server_fd = server_fd; fd = fd } in
      let (r₁, run₁, (is_hello, queue₁, left₁)) =
        openflow_wait_for_message-first order ofp_hello 0 s.before s.hello
          (s.between ++ (some s.reply ∷ s.later)) conn₀ script.first script.greets
          (omega (arith, script.room)) in
      let before_queue : queued r₁.1 ≡ arrivals order s.before =
        queue₁
        ∙ ap (λ (q : List Message). q ++ arrivals order s.before) (queued-empty conn₀ empty) in
      let waiting : r₁.1.nb_msg_buffered ≡ length (arrivals order s.before) =
        sym (length-queued r₁.1) ∙ ap length before_queue in
      let (r₂, run₂, (is_reply, queue₂, left₂)) =
        openflow_wait_for_message-first order ofp_features_reply (next_id random) s.between s.reply
          s.later r₁.1 script.answers script.replies (omega (arith, script.room, waiting)) in
      let (conn₃, parsed, (features, number, names, slots, count, same_fd, same_server, block)) =
        parse_features_reply-reads order memory address (received order s.reply) r₂.1 fixed ports
          describes.body describes.fixed_size describes.port_sizes describes.total describes.few in
      let start =
        ap (λ (l : List (Option Message)). openflow_wait_for_message order ofp_hello 0 l conn₀)
          coming
        ∙ run₁ in
      let kept₁ = openflow_wait_for_message-SameEnds order ofp_hello 0 _ conn₀ start in
      let kept₂ =
        openflow_wait_for_message-SameEnds order ofp_features_reply (next_id random) _ r₁.1 run₂ in
      (
        _,
        create_connection-run calls random address conn w small connected start
            (ap
                (λ (l : List (Option Message)).
                  openflow_wait_for_message order ofp_features_reply (next_id random) l r₁.1)
                left₁
              ∙ run₂)
            (ap (λ (m : Message). parse_features_reply order memory address m r₂.1) is_reply
              ∙ parsed),
        (
          subst (TellsFeatures order memory fixed) (sym features)
              (features_at-tells order memory fixed describes.fixed_size),
          number,
          λ more. subst (TellsPorts order memory (length ports % 2 ^ 8) ports) (sym (names more)) (
              ports_at-tells order memory (length ports % 2 ^ 8) ports (omega arith)
                describes.port_sizes),
          queued_congr conn₃ r₂.1 slots count
              ∙ queue₂
              ∙ ap (λ (q : List Message). q ++ arrivals order s.between) before_queue,
          (free_body_keeps r₂.0 _).0,
          (free_body_keeps r₂.0 _).1 ∙ left₂,
          (free_body_keeps r₂.0 _).2,
          same_fd ∙ kept₂.same_fd ∙ kept₁.same_fd,
          same_server ∙ kept₂.same_server_fd ∙ kept₁.same_server_fd,
          block
              ∙ ports_block_congr address r₂.1 conn ports
                  (kept₂.same_ports_body ∙ kept₁.same_ports_body),
          (free_body_keeps r₂.0 _).3,
        ),
      )
