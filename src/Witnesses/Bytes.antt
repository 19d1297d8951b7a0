-- ===== src/Witnesses/Bytes.antt =====
-- Bytes in the memory of a little-endian machine, for src/openflow.c.
use o_rss_nic.Prelude.{List, [], drop, suc, take, zero, ℕ, ◌*◌, ◌+◌, ◌∷◌}
use o_rss_nic.Words.{Memory}
use o_rss_nic.Openflow.Convert.{FlowStats, OpenflowMatch, Be64}
use o_rss_nic.Openflow.Ovs.{Layout}

abbrev pub zeros : ℕ → List ℕ
zeros zero = []
zeros (suc n) = 0 ∷ zeros n

-- The number whose lowest digit comes first.
abbrev pub little : List ℕ → ℕ
little [] = 0
little (b ∷ bytes) = b + 256 * little bytes

abbrev pub little_memory : Memory
little_memory = record { word16 = little; word32 = little; word64 = little }

abbrev pub field : (at n : ℕ) → List ℕ → ℕ
field at n b = little (take n (drop at b))

-- `ofp10_match` and `ofp10_flow_stats` as OVS lays them out.
abbrev match_at : List ℕ → OpenflowMatch
match_at b = record {
  wildcards = field 0 4 b;
  in_port = field 4 2 b;
  dl_src = field 6 6 b;
  dl_dst = field 12 6 b;
  dl_vlan = field 18 2 b;
  dl_vlan_pcp = field 20 1 b;
  dl_type = field 22 2 b;
  nw_tos = field 24 1 b;
  nw_proto = field 25 1 b;
  nw_src = field 28 4 b;
  nw_dst = field 32 4 b;
  tp_src = field 36 2 b;
  tp_dst = field 38 2 b;
}

abbrev be64_at : List ℕ → Be64
be64_at b = record { hi = field 0 4 b; lo = field 4 4 b }

abbrev flow_stats_at : List ℕ → FlowStats
flow_stats_at b = record {
  length = field 0 2 b;
  duration_sec = field 44 4 b;
  duration_nsec = field 48 4 b;
  priority = field 52 2 b;
  idle_timeout = field 54 2 b;
  hard_timeout = field 56 2 b;
  cookie = be64_at (drop 64 b);
  packet_count = be64_at (drop 72 b);
  byte_count = be64_at (drop 80 b);
  match_ = match_at (drop 4 b);
}

abbrev pub layout : Layout
layout = record {
  ofpp_none = 65535;
  ofpfw10_all = 4194303;
  ofpfw10_in_port = 1;
  ofpsf_reply_more = 1;
  request_size = 56;
  sizeof_flow_stats = 88;
  flow_stats = flow_stats_at;
}
