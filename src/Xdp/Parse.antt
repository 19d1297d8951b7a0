-- ===== src/Xdp/Parse.antt =====
-- `parse_headers` and `swap_tuple` of src/bpf/xdp.bpf.c: no read outside the packet, and what the
-- key of a packet is made of.
use o_rss_nic.Prelude.{
  Bool, Returns, ap, arith, false, if◌then◌else◌, leb, ok, sym, true, ℕ, ◌&&◌, ◌+◌, ◌==◌, ◌||◌, ◌∙◌,
  ◌≡◌,
}
use o_rss_nic.FiveTuple.{FiveTuple, zero_tuple}
use o_rss_nic.Xdp.{
  TcpFlags, error, not_tcp, udp, Packet, Kernel, parse_headers, swap_tuple, field, classify_flags,
  parse_tcp, parse_udp, parse_ip, eth_p_ip, ipproto_tcp, ipproto_udp,
}

module _ (kernel : Kernel) where
  open kernel use {
    sizeof_ethhdr, sizeof_iphdr, sizeof_tcphdr, sizeof_udphdr, h_proto, saddr, daddr, protocol,
    tcp_source, tcp_dest, tcp_fin, tcp_syn, tcp_ack, udp_source, udp_dest, bpf_htons, bpf_ntohs,
  }

  abbrev pub network : ℕ
  network = sizeof_ethhdr

  abbrev pub transport : ℕ
  transport = sizeof_ethhdr + sizeof_iphdr

  -- The packet holds a whole TCP or UDP header over IPv4.
  abbrev pub is_flow : Packet → Bool
  is_flow p =
      h_proto p.byte 0 == bpf_htons eth_p_ip
      && (protocol p.byte network == ipproto_tcp && leb (transport + sizeof_tcphdr) p.size
          || protocol p.byte network == ipproto_udp && leb (transport + sizeof_udphdr) p.size)

  -- The addresses, the ports and the protocol of such a packet.
  abbrev pub flow_key : Packet → FiveTuple
  flow_key p =
      let tcp = protocol p.byte network == ipproto_tcp in
      record {
        src_ip = saddr p.byte network;
        dst_ip = daddr p.byte network;
        src_port =
            bpf_ntohs (if tcp then tcp_source p.byte transport else udp_source p.byte transport);
        dst_port = bpf_ntohs (if tcp then tcp_dest p.byte transport else udp_dest p.byte transport);
        proto = protocol p.byte network;
      }

  -- The results other than `ERROR` and `NOT_TCP`.
  abbrev pub names_flow : TcpFlags → Bool
  names_flow error = false
  names_flow not_tcp = false
  names_flow _ = true

  pub record Parses (p : Packet) (r : TcpFlags × FiveTuple) : Type 0 where
    pub names : names_flow r.0 ≡ is_flow p
    pub key : is_flow p ≡ true → r.1 ≡ flow_key p

  -- What each layer gives, with no read in it.
  abbrev pub tcp_result : Packet → FiveTuple → TcpFlags × FiveTuple
  tcp_result p tuple =
      let b = p.byte in
      if leb (transport + sizeof_tcphdr) p.size
      then (
        classify_flags kernel (tcp_fin b transport) (tcp_syn b transport) (tcp_ack b transport),
        record tuple {
          src_port = bpf_ntohs (tcp_source b transport);
          dst_port = bpf_ntohs (tcp_dest b transport);
        },
      )
      else (error, tuple)

  abbrev pub udp_result : Packet → FiveTuple → TcpFlags × FiveTuple
  udp_result p tuple =
      let b = p.byte in
      if leb (transport + sizeof_udphdr) p.size
      then (
        udp,
        record tuple {
          src_port = bpf_ntohs (udp_source b transport);
          dst_port = bpf_ntohs (udp_dest b transport);
        },
      )
      else (error, tuple)

  abbrev pub addressed : Packet → FiveTuple → FiveTuple
  addressed p tuple = record tuple {
    src_ip = saddr p.byte network;
    dst_ip = daddr p.byte network;
    proto = protocol p.byte network;
  }

  abbrev pub ip_result : Packet → FiveTuple → TcpFlags × FiveTuple
  ip_result p tuple =
      if leb transport p.size
      then if protocol p.byte network == ipproto_tcp
        then tcp_result p (addressed p tuple)
        else if protocol p.byte network == ipproto_udp
        then udp_result p (addressed p tuple)
        else (not_tcp, addressed p tuple)
      else (error, tuple)

  parse_tcp-result :
      (p : Packet) (tuple : FiveTuple) → parse_tcp kernel p tuple ≡ ok (tcp_result p tuple)
  unfolding parse_tcp
  parse_tcp-result p tuple = ground arith

  parse_udp-result :
      (p : Packet) (tuple : FiveTuple) → parse_udp kernel p tuple ≡ ok (udp_result p tuple)
  unfolding parse_udp
  parse_udp-result p tuple = ground arith

  parse_ip-result :
      (p : Packet) (tuple : FiveTuple) → parse_ip kernel p tuple ≡ ok (ip_result p tuple)
  unfolding parse_ip field
  parse_ip-result p tuple =
      ground (arith, parse_tcp-result p (addressed p tuple), parse_udp-result p (addressed p tuple))

  names_flow-classify_flags : (f s a : Bool) → names_flow (classify_flags kernel f s a) ≡ true
  unfolding classify_flags
  names_flow-classify_flags f s a = ground arith

  abbrev pub result : Packet → TcpFlags × FiveTuple
  result p =
      if leb sizeof_ethhdr p.size
      then if h_proto p.byte 0 == bpf_htons eth_p_ip
        then ip_result p zero_tuple
        else (not_tcp, zero_tuple)
      else (error, zero_tuple)

  pub parse_headers-result : (p : Packet) → parse_headers kernel p zero_tuple ≡ ok (result p)
  unfolding parse_headers field
  parse_headers-result p = ground (arith, parse_ip-result p zero_tuple)

  pub result-Parses : (p : Packet) → Parses p (result p)
  result-Parses p = record {
    names = ground (
      arith,
      names_flow-classify_flags (tcp_fin p.byte transport) (tcp_syn p.byte transport)
          (tcp_ack p.byte transport),
    );
    key = λ e. ground arith;
  }

  -- For every packet, whatever the sizes and the fields of the headers are, `parse_headers` reads
  -- inside the packet alone. It names a flow exactly for a packet with a whole TCP or UDP header
  -- over IPv4, and then the key is the addresses, the ports and the protocol of the packet.
  pub parse_headers-Parses : (p : Packet) → Returns (parse_headers kernel p zero_tuple) (Parses p)
  parse_headers-Parses p = (result p, parse_headers-result p, result-Parses p)

  pub key-result : (p : Packet) → is_flow p ≡ true → (result p).1 ≡ flow_key p
  key-result p e = (result-Parses p).key e

  -- The packet `q` goes back from where `p` came from.
  pub record IsReply (p q : Packet) : Type 0 where
    pub asked : is_flow p ≡ true
    pub answered : is_flow q ≡ true
    pub src : (flow_key q).src_ip ≡ (flow_key p).dst_ip
    pub dst : (flow_key q).dst_ip ≡ (flow_key p).src_ip
    pub src_port : (flow_key q).src_port ≡ (flow_key p).dst_port
    pub dst_port : (flow_key q).dst_port ≡ (flow_key p).src_port
    pub proto : (flow_key q).proto ≡ (flow_key p).proto

  -- For a packet and a reply to it, both of which hold a whole TCP or UDP header over IPv4:
  -- `parse_headers` gives a key for each, and `swap_tuple` takes that of the reply to the other.
  pub swap_tuple-reply :
      (p q : Packet)
      → IsReply p q
      → (f : TcpFlags × FiveTuple) × (g : TcpFlags × FiveTuple) × (parse_headers kernel p zero_tuple
          ≡ ok f)
        × (parse_headers kernel q zero_tuple ≡ ok g)
        × (swap_tuple g.1 ≡ f.1)
  unfolding swap_tuple
  swap_tuple-reply p q r =
      let swapped : swap_tuple (flow_key q) ≡ flow_key p = λ i. record {
        src_ip = r.dst i;
        dst_ip = r.src i;
        src_port = r.dst_port i;
        dst_port = r.src_port i;
        proto = r.proto i;
      } in
      (
        result p,
        result q,
        parse_headers-result p,
        parse_headers-result q,
        ap swap_tuple (key-result q r.answered) ∙ swapped ∙ sym (key-result p r.asked),
      )
