-- ===== src/Openflow/Ends.antt =====
-- The ends of a connection of src/openflow.c, which waiting and answering leave alone.
use o_rss_nic.Prelude.{
  >>=-eq-ok, Array, Bool-cases, List, Option, [], ap, arith, inl, inr, none, ok, ok-injective, read,
  refl, some, subst, suc, sym, zero, ℕ, ◌+◌, ◌>>=◌, ◌∙◌, ◌∷◌, ◌≡◌,
}
use o_rss_nic.Words.{ByteOrder}
use o_rss_nic.Openflow.{
  Connection, World, Message, openflow_wait_for_message, is_awaited, buffer_message, next_message,
  free_openflow_message_body, received, send_openflow_echo_reply, send, msg_buffer_size,
}
use o_rss_nic.Openflow.Control.{openflow_control, socket_loop, buffered_loop, control_logic}

-- The descriptors and the block of the ports are the same.
pub record SameEnds (conn' conn : Connection) : Type 0 where
  pub same_fd : conn'.fd ≡ conn.fd
  pub same_server_fd : conn'.server_fd ≡ conn.server_fd
  pub same_ports_body : conn'.ports_body ≡ conn.ports_body

pub SameEnds-refl : (c : Connection) → SameEnds c c
SameEnds-refl c = record { same_fd = refl; same_server_fd = refl; same_ports_body = refl }

pub SameEnds-trans : {c₁ c₂ c₃ : Connection} → SameEnds c₁ c₂ → SameEnds c₂ c₃ → SameEnds c₁ c₃
SameEnds-trans h k = record {
  same_fd = h.same_fd ∙ k.same_fd;
  same_server_fd = h.same_server_fd ∙ k.same_server_fd;
  same_ports_body = h.same_ports_body ∙ k.same_ports_body;
}

-- The ends of the connection are the same, and nothing is closed.
pub record Keeps (conn' : Connection) (w' : World) (conn : Connection) (w : World) : Type 0 where
  pub same : SameEnds conn' conn
  pub none_closed : w'.closing ≡ w.closing

pub Keeps-trans :
    {c₁ c₂ c₃ : Connection} {w₁ w₂ w₃ : World}
    → Keeps c₁ w₁ c₂ w₂
    → Keeps c₂ w₂ c₃ w₃
    → Keeps c₁ w₁ c₃ w₃
Keeps-trans h k = record {
  same = SameEnds-trans h.same k.same;
  none_closed = h.none_closed ∙ k.none_closed;
}

module _ (order : ByteOrder) where
  buffer_message-SameEnds :
      (message : Message) (conn : Connection) {conn' : Connection}
      → buffer_message order message conn ≡ ok conn'
      → SameEnds conn' conn
  unfolding buffer_message
  buffer_message-SameEnds message conn run = ground arith

  pub openflow_wait_for_message-SameEnds :
      (type xid : ℕ) (reads : List (Option Message)) (conn : Connection)
      {r : Message × Connection × List (Option Message)}
      → openflow_wait_for_message order type xid reads conn ≡ ok r
      → SameEnds r.1 conn
  unfolding openflow_wait_for_message
  openflow_wait_for_message-SameEnds type xid [] conn run = cc
  openflow_wait_for_message-SameEnds type xid (none ∷ later) conn run =
      openflow_wait_for_message-SameEnds type xid later conn run
  openflow_wait_for_message-SameEnds type xid (some m ∷ later) conn run =
      let message = received order m in
      elim (Bool-cases (is_awaited order type xid message)) [
        | inl awaited ↦
            let same : ok (message, conn, later) ≡ ok _ = rw awaited at run in
            subst (λ r. SameEnds r.1 conn) (ok-injective same) (SameEnds-refl conn)
        | inr other ↦
            let (conn', run₁, run₂) =
              >>=-eq-ok (buffer_message order message conn)
                (openflow_wait_for_message order type xid later) (rw other at run) in
            SameEnds-trans (openflow_wait_for_message-SameEnds type xid later conn' run₂)
              (buffer_message-SameEnds message conn run₁)
      ]

  handled-closing :
      (message : Message) (w : World)
      → (free_openflow_message_body message (control_logic order message w)).closing ≡ w.closing
  unfolding free_openflow_message_body control_logic send_openflow_echo_reply send
  handled-closing message w = ground arith

  buffered_loop-closing :
      (left i : ℕ) (messages : Array Message) (w : World) {w' : World}
      → buffered_loop order left i messages w ≡ ok w'
      → w'.closing ≡ w.closing
  unfolding buffered_loop
  buffered_loop-closing zero i messages w run = cc
  buffered_loop-closing (suc left) i messages w run =
      let (message, _, run') =
        >>=-eq-ok (read msg_buffer_size messages i)
          (λ m.
            buffered_loop order left (i + 1) messages
              (free_openflow_message_body m (control_logic order m w)))
          run in
      buffered_loop-closing left (i + 1) messages _ run' ∙ handled-closing message w

  socket_loop-closing :
      (reads : List (Option Message)) (w : World) {w' : World}
      → socket_loop order reads w ≡ ok w'
      → w'.closing ≡ w.closing
  unfolding socket_loop next_message
  socket_loop-closing [] w run = cc
  socket_loop-closing (none ∷ later) w run = ap (λ (x : World). x.closing) (sym (ok-injective run))
  socket_loop-closing (some m ∷ later) w run =
      socket_loop-closing later _ run ∙ handled-closing (received order m) w

  -- What the connection and the world are after an operation: the same ends, and nothing closed.
  pub openflow_control-Keeps :
      (conn : Connection) (w : World) {r : Connection × World}
      → openflow_control order conn w ≡ ok r
      → Keeps r.0 r.1 conn w
  unfolding openflow_control
  openflow_control-Keeps conn w run =
      let (w₁, run₁, later) =
        >>=-eq-ok (buffered_loop order conn.nb_msg_buffered 0 conn.msg_buffer w)
          (λ w'. socket_loop order w'.incoming w' >>= λ w''.
            ok (record conn { nb_msg_buffered = 0 }, w''))
          run in
      let (w₂, run₂, ends) =
        >>=-eq-ok (socket_loop order w₁.incoming w₁)
          (λ w''. ok (record conn { nb_msg_buffered = 0 }, w'')) later in
      let closed =
        socket_loop-closing w₁.incoming w₁ run₂
        ∙ buffered_loop-closing conn.nb_msg_buffered 0 conn.msg_buffer w run₁ in
      subst (λ r. Keeps r.0 r.1 conn w) (ok-injective ends)
        (record {
          same = record { same_fd = refl; same_server_fd = refl; same_ports_body = refl };
          none_closed = closed;
        })
