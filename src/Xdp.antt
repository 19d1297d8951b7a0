-- ===== src/Xdp.antt =====
-- src/bpf/xdp.bpf.c and src/bpf/xdp.bpf.h: the programs that see each packet and keep the state
-- of its connection.
pub mod Parse
pub mod State
pub mod Programs
pub mod Trace
pub mod Entries
use o_rss_nic.Prelude.{
  Array, Bool, Option, Run, false, fault, if◌then◌else◌, leb, ltb, none, not, ok, out_of_bounds,
  some, true, ℕ, ◌&&◌, ◌+◌, ◌==◌, ◌>>=◌,
}
use o_rss_nic.FiveTuple.{FiveTuple, zero_tuple}

pub data TcpFlags : Type 0 where
  error not_tcp syn synack ack fin no_flags udp : TcpFlags

-- The bytes from `ctx->data` to `ctx->data_end`, and the interface.
pub record Packet : Type 0 where
  pub size : ℕ
  pub byte : Array ℕ
  pub ingress_ifindex : ℕ

-- The headers of the kernel: their sizes, and their fields, read from the byte at an offset on.
pub record Kernel : Type 0 where
  pub sizeof_ethhdr : ℕ
  pub sizeof_iphdr : ℕ
  pub sizeof_tcphdr : ℕ
  pub sizeof_udphdr : ℕ
  pub h_proto : Array ℕ → ℕ → ℕ
  pub saddr : Array ℕ → ℕ → ℕ
  pub daddr : Array ℕ → ℕ → ℕ
  pub protocol : Array ℕ → ℕ → ℕ
  pub tcp_source : Array ℕ → ℕ → ℕ
  pub tcp_dest : Array ℕ → ℕ → ℕ
  pub tcp_fin : Array ℕ → ℕ → Bool
  pub tcp_syn : Array ℕ → ℕ → Bool
  pub tcp_ack : Array ℕ → ℕ → Bool
  pub udp_source : Array ℕ → ℕ → ℕ
  pub udp_dest : Array ℕ → ℕ → ℕ
  pub bpf_htons : ℕ → ℕ
  pub bpf_ntohs : ℕ → ℕ

abbrev pub eth_p_ip : ℕ
eth_p_ip = 0x0800

-- The constants of the kernel for the protocol of an IP header.
abbrev pub ipproto_tcp : ℕ
ipproto_tcp = 6

abbrev pub ipproto_udp : ℕ
ipproto_udp = 17

module _ (kernel : Kernel) where
  open kernel use {
    sizeof_ethhdr, sizeof_iphdr, sizeof_tcphdr, sizeof_udphdr, h_proto, saddr, daddr, protocol,
    tcp_source, tcp_dest, tcp_fin, tcp_syn, tcp_ack, udp_source, udp_dest, bpf_htons, bpf_ntohs,
  }

  -- A field of a header of `size` bytes at the offset `at`: the read is inside the packet or
  -- undefined behaviour.
  unfoldable pub field {ℓ} : {A : Type ℓ} → Packet → (size at : ℕ) → (Array ℕ → ℕ → A) → Run A
  field p size at get = if leb (at + size) p.size then ok (get p.byte at) else fault out_of_bounds

  -- The chain of tests on the flags of a TCP header.
  unfoldable pub classify_flags : (fin_bit syn_bit ack_bit : Bool) → TcpFlags
  classify_flags fin_bit syn_bit ack_bit =
      if fin_bit
      then fin
      else if syn_bit && not ack_bit
      then syn
      else if ack_bit && syn_bit
      then synack
      else if ack_bit && not syn_bit
      then ack
      else no_flags

  unfoldable pub parse_tcp : Packet → FiveTuple → Run (TcpFlags × FiveTuple)
  unfolding field
  parse_tcp p tuple =
      let at = sizeof_ethhdr + sizeof_iphdr in
      if ltb p.size (sizeof_iphdr + sizeof_ethhdr + sizeof_tcphdr) then ok (error, tuple) else do
        source ← field p sizeof_tcphdr at tcp_source
        dest ← field p sizeof_tcphdr at tcp_dest
        fin_bit ← field p sizeof_tcphdr at tcp_fin
        syn_bit ← field p sizeof_tcphdr at tcp_syn
        ack_bit ← field p sizeof_tcphdr at tcp_ack
        ok (
          classify_flags fin_bit syn_bit ack_bit,
          record tuple { src_port = bpf_ntohs source; dst_port = bpf_ntohs dest },
        )

  unfoldable pub parse_udp : Packet → FiveTuple → Run (TcpFlags × FiveTuple)
  unfolding field
  parse_udp p tuple =
      let at = sizeof_ethhdr + sizeof_iphdr in
      if ltb p.size (sizeof_iphdr + sizeof_ethhdr + sizeof_udphdr) then ok (error, tuple) else do
        source ← field p sizeof_udphdr at udp_source
        dest ← field p sizeof_udphdr at udp_dest
        ok (udp, record tuple { src_port = bpf_ntohs source; dst_port = bpf_ntohs dest })

  unfoldable pub parse_ip : Packet → FiveTuple → Run (TcpFlags × FiveTuple)
  unfolding field
  parse_ip p tuple = if ltb p.size (sizeof_iphdr + sizeof_ethhdr) then ok (error, tuple) else do
    src ← field p sizeof_iphdr sizeof_ethhdr saddr
    dst ← field p sizeof_iphdr sizeof_ethhdr daddr
    proto ← field p sizeof_iphdr sizeof_ethhdr protocol
    let tuple' = record tuple { src_ip = src; dst_ip = dst; proto = proto }
    if proto == ipproto_tcp
        then parse_tcp p tuple'
        else if proto == ipproto_udp
        then parse_udp p tuple'
        else ok (not_tcp, tuple')

  unfoldable pub parse_headers : Packet → FiveTuple → Run (TcpFlags × FiveTuple)
  unfolding field
  parse_headers p tuple = if ltb p.size sizeof_ethhdr then ok (error, tuple) else do
    ether_type ← field p sizeof_ethhdr 0 h_proto
    if ether_type == bpf_htons eth_p_ip then parse_ip p tuple else ok (not_tcp, tuple)

-- `struct ConnectionState`. The flags are bytes that are 0 or 1.
pub record ConnectionState : Type 0 where
  pub seen_syn : Bool
  pub seen_synack : Bool
  pub seen_ack : Bool
  pub seen_fin : Bool
  pub handled : Bool

abbrev pub no_state : ConnectionState
no_state = record {
  seen_syn = false;
  seen_synack = false;
  seen_ack = false;
  seen_fin = false;
  handled = false;
}

unfoldable pub swap_tuple : FiveTuple → FiveTuple
swap_tuple t = record t {
  src_ip = t.dst_ip;
  src_port = t.dst_port;
  dst_ip = t.src_ip;
  dst_port = t.src_port;
}

-- The map of the kernel: `assign` is a write through the pointer that a lookup gave, and
-- `update_elem` is `bpf_map_update_elem` with `BPF_ANY`, whose result the program ignores.
pub record BpfMap : Type 1 where
  pub Map : Type 0
  pub lookup_elem : Map → FiveTuple → Option ConnectionState
  pub assign : Map → FiveTuple → ConnectionState → Map
  pub update_elem : Map → FiveTuple → ConnectionState → Map

-- The four tests that copy the flags of the new state to the old one.
unfoldable pub merge : ConnectionState → ConnectionState → ConnectionState
merge state old = record old {
  seen_syn = if state.seen_syn then true else old.seen_syn;
  seen_synack = if state.seen_synack then true else old.seen_synack;
  seen_ack = if state.seen_ack then true else old.seen_ack;
  seen_fin = if state.seen_fin then true else old.seen_fin;
}

-- `flags == SYN` and so on.
abbrev pub is_syn : TcpFlags → Bool
is_syn syn = true
is_syn _ = false

abbrev pub is_synack : TcpFlags → Bool
is_synack synack = true
is_synack _ = false

abbrev pub is_ack : TcpFlags → Bool
is_ack ack = true
is_ack _ = false

abbrev pub is_udp : TcpFlags → Bool
is_udp udp = true
is_udp _ = false

-- The test at the start of both programs, under which a packet is passed on at once.
unfoldable pub ignored : TcpFlags → FiveTuple → Bool
ignored error tuple = true
ignored no_flags tuple = true
ignored not_tcp tuple = not (tuple.proto == ipproto_udp)
ignored _ tuple = false

-- `state.SYN = 1` and so on, for the flag of a TCP packet.
unfoldable pub tcp_state : TcpFlags → ConnectionState
tcp_state flags = record {
  seen_syn = is_syn flags;
  seen_synack = is_synack flags;
  seen_ack = is_ack flags;
  seen_fin = false;
  handled = false;
}

abbrev pub udp_state : ConnectionState
udp_state = record {
  seen_syn = true;
  seen_synack = true;
  seen_ack = true;
  seen_fin = false;
  handled = false;
}

module _ (maps : BpfMap) where
  open maps use {Map, lookup_elem, assign, update_elem}

  unfoldable pub update_connection_state : FiveTuple → ConnectionState → Map → Map
  update_connection_state tuple state conns = elim (lookup_elem conns tuple) [
    | some old ↦ let new = merge state old in update_elem (assign conns tuple new) tuple new
    | none ↦ update_elem conns tuple state
  ]

  -- `redirect` and `pass` are `bpf_redirect_map` on the map `map_redir` and the result `XDP_PASS`.
  module _ (kernel : Kernel) {Action : Type 0} (redirect : ℕ → Action) (pass : Action) where
    abbrev pub xdp_forwarding : Bool
    xdp_forwarding = false

    unfoldable pub forward : ℕ → Action
    forward key = if xdp_forwarding then redirect key else pass

    unfoldable pub xdp_rx : Packet → Map → Run (Action × Map)
    unfolding forward ignored tcp_state
    xdp_rx p conns = do
      (flags, tuple) ← parse_headers kernel p zero_tuple
      if ignored flags tuple
          then ok (forward p.ingress_ifindex, conns)
          else (let state = if is_udp flags then udp_state else tcp_state flags in
              ok (forward p.ingress_ifindex, update_connection_state tuple state conns))

    -- The update stands in the `else` branch, so that it is not reached for UDP.
    unfoldable pub xdp_tx : Packet → Map → Run (Action × Map)
    unfolding forward ignored tcp_state swap_tuple
    xdp_tx p conns = do
      (flags, tuple) ← parse_headers kernel p zero_tuple
      if ignored flags tuple
          then ok (forward p.ingress_ifindex, conns)
          else (let swapped = swap_tuple tuple in
              if is_udp flags
              then ok (forward p.ingress_ifindex, conns)
              else ok (
                forward p.ingress_ifindex,
                update_connection_state swapped (tcp_state flags) conns,
              ))
