-- ===== src/Openflow/Closing.antt =====
-- `openflow_terminate_connection` of src/openflow.c, and what the operating system makes of it.
use o_rss_nic.Prelude.{
  Bool, List, [], arith, false, if◌then◌else◌, refl, true, ℕ, ◌==◌, ◌||◌, ◌∷◌, ◌≡◌, ◌≢◌,
}
use o_rss_nic.Openflow.{Connection, World, FinalCall, close_fd, shutdown_fd}

-- `close(fd)` and `shutdown(fd, SHUT_RDWR)`, whatever they give back.
unfoldable pub call : FinalCall → World → World
call c w = record w { closing = c ∷ w.closing }

unfoldable pub openflow_terminate_connection : Connection → World → World
unfolding call
openflow_terminate_connection conn w =
    let closed = call (close_fd conn.fd) w in
    let shut = call (shutdown_fd conn.fd) closed in
    let both = call (close_fd conn.server_fd) shut in
    record both { freed = conn.ports_body ∷ both.freed }

-- The descriptor of a call, and whether one of the calls closes a descriptor.
abbrev pub descriptor : FinalCall → ℕ
descriptor (close_fd d) = d
descriptor (shutdown_fd d) = d

abbrev pub closes : List FinalCall → ℕ → Bool
closes [] d = false
closes (close_fd e ∷ earlier) d = e == d || closes earlier d
closes (shutdown_fd e ∷ earlier) d = closes earlier d

-- The calls with a descriptor that an earlier call has closed, the last one first.
abbrev pub too_late : List FinalCall → List FinalCall
too_late [] = []
too_late (c ∷ earlier) =
    let before = too_late earlier in if closes earlier (descriptor c) then c ∷ before else before

-- `openflow_terminate_connection`, where neither of the two descriptors is closed yet and they are
-- not the same: it closes both and no other one, and frees the ports. One of its calls comes too
-- late: it shuts the connection down when it is closed already.
pub openflow_terminate_connection-late :
    (conn : Connection) (w : World)
    → conn.fd ≢ conn.server_fd
    → closes w.closing conn.fd ≡ false
    → closes w.closing conn.server_fd ≡ false
    → (closes (openflow_terminate_connection conn w).closing conn.fd ≡ true)
      × (closes (openflow_terminate_connection conn w).closing conn.server_fd ≡ true)
      × ((d : ℕ)
          → d ≢ conn.fd
          → d ≢ conn.server_fd
          → closes (openflow_terminate_connection conn w).closing d ≡ closes w.closing d)
      × ((openflow_terminate_connection conn w).freed ≡ conn.ports_body ∷ w.freed)
      × (too_late (openflow_terminate_connection conn w).closing
          ≡ shutdown_fd conn.fd ∷ too_late w.closing)
unfolding openflow_terminate_connection
openflow_terminate_connection-late conn w apart not_yet server_not_yet =
    (ground arith, ground arith, (λ d other other_server. ground arith), refl, ground arith)
