-- ===== src/Witnesses/Packets.antt =====
-- Packets that src/bpf/xdp.bpf.c sees: a TCP packet, the answer to it, and the table of the
-- connections as a function.
use o_rss_nic.Prelude.{
  Array, Bool, List, Option, Returns, [], if◌then◌else◌, none, ok, refl, some, true, ℕ, ◌%◌, ◌*◌,
  ◌+◌, ◌-◌, ◌/◌, ◌==◌, ◌>>=◌, ◌∷◌, ◌≡◌,
}
use o_rss_nic.FiveTuple.{FiveTuple, zero_tuple, five_tuple_equals}
use o_rss_nic.Xdp.{Packet, Kernel, BpfMap, ConnectionState, no_state, parse_headers}
use o_rss_nic.Xdp.Parse.{Parses, flow_key, parse_headers-Parses}
use o_rss_nic.Xdp.Trace.{Event, received, sent, handle_all}

-- Headers without options, in the order of the network.
abbrev word16 : Array ℕ → ℕ → ℕ
word16 b at = b at * 256 + b (at + 1)

abbrev word32 : Array ℕ → ℕ → ℕ
word32 b at = word16 b at * 65536 + word16 b (at + 2)

-- A bit of the byte of flags.
abbrev flag : ℕ → Array ℕ → ℕ → Bool
flag weight b at = b (at + 13) / weight % 2 == 1

abbrev kernel : Kernel
kernel = record {
  sizeof_ethhdr = 14;
  sizeof_iphdr = 20;
  sizeof_tcphdr = 20;
  sizeof_udphdr = 8;
  h_proto = λ b at. word16 b (at + 12);
  saddr = λ b at. word32 b (at + 12);
  daddr = λ b at. word32 b (at + 16);
  protocol = λ b at. b (at + 9);
  tcp_source = word16;
  tcp_dest = λ b at. word16 b (at + 2);
  tcp_fin = flag 1;
  tcp_syn = flag 2;
  tcp_ack = flag 16;
  udp_source = word16;
  udp_dest = λ b at. word16 b (at + 2);
  bpf_htons = λ x. x;
  bpf_ntohs = λ x. x;
}

abbrev byte_of : List ℕ → Array ℕ
byte_of [] i = 0
byte_of (x ∷ xs) i = if i == 0 then x else byte_of xs (i - 1)

-- From 10.0.0.1, port 4660, to 10.0.0.2, port 80: a SYN.
abbrev asking : Packet
asking = record {
  size = 54;
  byte = byte_of (
      0 ∷ 0 ∷ 0 ∷ 0 ∷ 0 ∷ 0 ∷ 0 ∷ 0 ∷ 0 ∷ 0 ∷ 0 ∷ 0 ∷ 8 ∷ 0 ∷ 69 ∷ 0 ∷ 0 ∷ 40 ∷ 0 ∷ 0 ∷ 0 ∷ 0 ∷ 64
      ∷ 6 ∷ 0 ∷ 0 ∷ 10 ∷ 0 ∷ 0 ∷ 1 ∷ 10 ∷ 0 ∷ 0 ∷ 2 ∷ 18 ∷ 52 ∷ 0 ∷ 80 ∷ 0 ∷ 0 ∷ 0 ∷ 0 ∷ 0 ∷ 0 ∷ 0
      ∷ 0 ∷ 80 ∷ 2 ∷ []);
  ingress_ifindex = 1;
}

abbrev redirect_to : ℕ → ℕ
redirect_to key = 4

abbrev xdp_pass : ℕ
xdp_pass = 2

-- The SYN and ACK that come back.
abbrev answering : Packet
answering = record {
  size = 54;
  byte = byte_of (
      0 ∷ 0 ∷ 0 ∷ 0 ∷ 0 ∷ 0 ∷ 0 ∷ 0 ∷ 0 ∷ 0 ∷ 0 ∷ 0 ∷ 8 ∷ 0 ∷ 69 ∷ 0 ∷ 0 ∷ 40 ∷ 0 ∷ 0 ∷ 0 ∷ 0 ∷ 64
      ∷ 6 ∷ 0 ∷ 0 ∷ 10 ∷ 0 ∷ 0 ∷ 2 ∷ 10 ∷ 0 ∷ 0 ∷ 1 ∷ 0 ∷ 80 ∷ 18 ∷ 52 ∷ 0 ∷ 0 ∷ 0 ∷ 0 ∷ 0 ∷ 0 ∷ 0
      ∷ 0 ∷ 80 ∷ 18 ∷ []);
  ingress_ifindex = 2;
}

parse_example : Returns (parse_headers kernel asking zero_tuple) (Parses kernel asking)
parse_example = parse_headers-Parses kernel asking

abbrev put :
    (FiveTuple → Option ConnectionState)
    → FiveTuple
    → ConnectionState
    → FiveTuple
    → Option ConnectionState
put c k s q = if five_tuple_equals k q then some s else c q

abbrev table : BpfMap
table = record {
  Map = FiveTuple → Option ConnectionState;
  lookup_elem = λ c q. c q;
  assign = put;
  update_elem = put;
}

abbrev known : FiveTuple → Option ConnectionState
known q = some no_state

abbrev unknown : FiveTuple → Option ConnectionState
unknown q = none

-- The SYN comes in, and the answer goes out.
abbrev packets : List Event
packets = received asking ∷ sent answering ∷ []

-- After both packets the entry has their two flags.
after_packets :
    (handle_all table kernel redirect_to xdp_pass packets unknown >>= λ c.
    ok (c (flow_key kernel asking)))
    ≡ ok (some (record no_state { seen_syn = true; seen_synack = true }))
unfolding handle_all parse_headers o_rss_nic.Xdp.parse_ip o_rss_nic.Xdp.parse_tcp
    o_rss_nic.Xdp.classify_flags o_rss_nic.Xdp.update_connection_state five_tuple_equals
    o_rss_nic.Xdp.merge
after_packets = refl
