-- ===== src/Openflow/Handshake.antt =====
-- `openflow_create_connection` of src/openflow.c: the switch connects, and both sides introduce
-- themselves.
use o_rss_nic.Prelude.{
  Option, Run, exit_failure, if◌then◌else◌, none, not, ok, some, ℕ, ◌%◌, ◌==◌, ◌>>=◌, ◌^◌,
}
use o_rss_nic.Words.{ByteOrder, Memory}
use o_rss_nic.Openflow.{
  Connection, World, ofp_hello, openflow_wait_for_message, send_openflow_hello,
  send_openflow_features_request, free_openflow_message_body,
}
use o_rss_nic.Openflow.Ports.{parse_features_reply}

abbrev pub ofp_features_reply : ℕ
ofp_features_reply = 6

-- What the calls of the operating system in `get_socket` give: `none` is a result below 0, and
-- `socket_options` is the result of `setsockopt`.
pub record SocketCalls : Type 0 where
  pub socket : Option ℕ
  pub socket_options : ℕ
  pub bind : Option ℕ
  pub listen : Option ℕ
  pub accept : Option ℕ

-- The descriptors of the server and of the connection.
unfoldable pub get_socket : SocketCalls → Run (ℕ × ℕ)
get_socket calls = elim calls.socket [
  | none ↦ exit_failure
  | some server_fd ↦ if not (calls.socket_options == 0) then exit_failure else elim calls.bind [
    | none ↦ exit_failure
    | some _ ↦ elim calls.listen [
      | none ↦ exit_failure
      | some _ ↦ elim calls.accept [ none ↦ exit_failure | some fd ↦ ok (server_fd, fd) ]
    ]
  ]
]

module _ (order : ByteOrder) (memory : Memory) where
  -- `random` is what `rand` gives, and `address` what `malloc` gives for the ports. `conn` is the
  -- connection as `main` declares it, with no value in any of its fields.
  unfoldable pub openflow_create_connection :
      SocketCalls → (random address : ℕ) → Connection → World → Run (Connection × World)
  unfolding get_socket openflow_wait_for_message send_openflow_hello send_openflow_features_request
      parse_features_reply free_openflow_message_body
  openflow_create_connection calls random address conn w = do
    (server_fd, fd) ← get_socket calls
    let conn₀ = record conn { server_fd = server_fd; fd = fd }
    let w₀ = record w { transaction_id = random % 2 ^ 32 }
    (hello, conn₁, later₁) ← openflow_wait_for_message order ofp_hello 0 w₀.incoming conn₀
    let w₁ = send_openflow_hello order (record w₀ { incoming = later₁ })
    let (features_xid, w₂) = send_openflow_features_request order w₁
    (reply, conn₂, later₂) ←
        openflow_wait_for_message order ofp_features_reply features_xid w₂.incoming conn₁
    conn₃ ← parse_features_reply order memory address reply conn₂
    ok (conn₃, free_openflow_message_body reply (record w₂ { incoming = later₂ }))
