-- ===== src/Xdp/Programs.antt =====
-- The two programs `xdp_rx` and `xdp_tx` of src/bpf/xdp.bpf.c as a whole.
use o_rss_nic.Prelude.{Bool, false, not, true, ◌&&◌, ◌+◌, ◌==◌, ◌||◌}
use o_rss_nic.FiveTuple.{FiveTuple}
use o_rss_nic.Xdp.{TcpFlags, no_flags, Packet, Kernel, ConnectionState, ipproto_tcp}
use o_rss_nic.Xdp.Parse.{result, is_flow}

-- Which packets the programs count: those with a whole TCP or UDP header over IPv4, save TCP
-- packets with none of the flags.
abbrev pub is_no_flags : TcpFlags → Bool
is_no_flags no_flags = true
is_no_flags _ = false

abbrev pub is_tcp : Kernel → Packet → Bool
is_tcp kernel p = kernel.protocol p.byte kernel.sizeof_ethhdr == ipproto_tcp

-- The bits of the TCP header behind an IP header without options.
abbrev pub fin_bit : Kernel → Packet → Bool
fin_bit kernel p = kernel.tcp_fin p.byte (kernel.sizeof_ethhdr + kernel.sizeof_iphdr)

abbrev pub syn_bit : Kernel → Packet → Bool
syn_bit kernel p = kernel.tcp_syn p.byte (kernel.sizeof_ethhdr + kernel.sizeof_iphdr)

abbrev pub ack_bit : Kernel → Packet → Bool
ack_bit kernel p = kernel.tcp_ack p.byte (kernel.sizeof_ethhdr + kernel.sizeof_iphdr)

abbrev pub counts : Kernel → Packet → Bool
counts kernel p =
    is_flow kernel p
    && (not (is_tcp kernel p) || fin_bit kernel p || syn_bit kernel p || ack_bit kernel p)

-- What a packet shows: of TCP without FIN whether it is a SYN, a SYN with an ACK, or an ACK alone,
-- of TCP with FIN nothing, and of UDP all three at once.
abbrev pub shows : Kernel → Packet → ConnectionState
shows kernel p = record {
  seen_syn =
      not (is_tcp kernel p) || not (fin_bit kernel p) && syn_bit kernel p && not (ack_bit kernel p);
  seen_synack =
      not (is_tcp kernel p) || not (fin_bit kernel p) && syn_bit kernel p && ack_bit kernel p;
  seen_ack =
      not (is_tcp kernel p) || not (fin_bit kernel p) && not (syn_bit kernel p) && ack_bit kernel p;
  seen_fin = false;
  handled = false;
}

-- The key of a flow with its ends exchanged.
abbrev pub reversed : FiveTuple → FiveTuple
reversed t = record {
  src_ip = t.dst_ip;
  dst_ip = t.src_ip;
  src_port = t.dst_port;
  dst_port = t.src_port;
  proto = t.proto;
}

abbrev handled_packets : Kernel → Packet → Bool
handled_packets kernel p = is_flow kernel p && not (is_no_flags (result kernel p).0)
