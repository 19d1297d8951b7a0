-- ===== src/Openflow/Convert.antt =====
-- The structures of src/openflow.h and their conversions between the byte orders of the network
-- and of the host, in src/openflow.c.
use o_rss_nic.Prelude.{arith, refl, ℕ, ◌%◌, ◌*◌, ◌/◌, ◌<◌, ◌^◌, ◌≡◌}
use o_rss_nic.Words.{ByteOrder, IsByteOrder, bit_or-join}
use Prim.Native.Nat.{bit_or}

-- OVS's `ofp10_match`, without its padding; the addresses of Ethernet are words of 48 bits.
pub record OpenflowMatch : Type 0 where
  pub wildcards : ℕ
  pub in_port : ℕ
  pub dl_src : ℕ
  pub dl_dst : ℕ
  pub dl_vlan : ℕ
  pub dl_vlan_pcp : ℕ
  pub dl_type : ℕ
  pub nw_tos : ℕ
  pub nw_proto : ℕ
  pub nw_src : ℕ
  pub nw_dst : ℕ
  pub tp_src : ℕ
  pub tp_dst : ℕ

-- `ovs_32aligned_be64`
pub record Be64 : Type 0 where
  pub hi : ℕ
  pub lo : ℕ

-- OVS's `ofp10_flow_stats`.
pub record FlowStats : Type 0 where
  pub length : ℕ
  pub duration_sec : ℕ
  pub duration_nsec : ℕ
  pub priority : ℕ
  pub idle_timeout : ℕ
  pub hard_timeout : ℕ
  pub cookie : Be64
  pub packet_count : Be64
  pub byte_count : Be64
  pub match_ : OpenflowMatch

pub record ActionOutput : Type 0 where
  pub type : ℕ
  pub len : ℕ
  pub port : ℕ
  pub max_len : ℕ

pub record ActionVlanVid : Type 0 where
  pub type : ℕ
  pub len : ℕ
  pub vlan_vid : ℕ

-- The fields have their widths.
pub record IsMatch (m : OpenflowMatch) : Type 0 where
  pub wildcards_lt : m.wildcards < 2 ^ 32
  pub in_port_lt : m.in_port < 2 ^ 16
  pub dl_vlan_lt : m.dl_vlan < 2 ^ 16
  pub dl_type_lt : m.dl_type < 2 ^ 16
  pub nw_src_lt : m.nw_src < 2 ^ 32
  pub nw_dst_lt : m.nw_dst < 2 ^ 32
  pub tp_src_lt : m.tp_src < 2 ^ 16
  pub tp_dst_lt : m.tp_dst < 2 ^ 16

module _ (order : ByteOrder) where
  open order use {htons, ntohs, htonl, ntohl}

  unfoldable pub ntoh_openflow_match : OpenflowMatch → OpenflowMatch
  ntoh_openflow_match m = record m {
    wildcards = ntohl m.wildcards;
    in_port = ntohs m.in_port;
    dl_vlan = ntohs m.dl_vlan;
    dl_type = ntohs m.dl_type;
    nw_src = ntohl m.nw_src;
    nw_dst = ntohl m.nw_dst;
    tp_src = ntohs m.tp_src;
    tp_dst = ntohs m.tp_dst;
  }

  unfoldable pub hton_openflow_match : OpenflowMatch → OpenflowMatch
  hton_openflow_match m = record m {
    wildcards = htonl m.wildcards;
    in_port = htons m.in_port;
    dl_vlan = htons m.dl_vlan;
    dl_type = htons m.dl_type;
    nw_src = htonl m.nw_src;
    nw_dst = htonl m.nw_dst;
    tp_src = htons m.tp_src;
    tp_dst = htons m.tp_dst;
  }

  -- `ntohs` takes a `uint16_t`: of a wider field it sees the low half.
  unfoldable pub ntoh_openflow_flow_stats : FlowStats → FlowStats
  unfolding ntoh_openflow_match
  ntoh_openflow_flow_stats s = record {
    length = ntohs s.length;
    duration_sec = ntohs (s.duration_sec % 2 ^ 16);
    duration_nsec = ntohs (s.duration_nsec % 2 ^ 16);
    priority = ntohs s.priority;
    idle_timeout = ntohs s.idle_timeout;
    hard_timeout = ntohs s.hard_timeout;
    cookie = record { hi = ntohl s.cookie.hi; lo = ntohl s.cookie.lo };
    packet_count = record { hi = ntohl s.packet_count.hi; lo = ntohl s.packet_count.lo };
    byte_count = record { hi = ntohl s.byte_count.hi; lo = ntohl s.byte_count.lo };
    match_ = ntoh_openflow_match s.match_;
  }

  unfoldable pub ntoh_openflow_action_output : ActionOutput → ActionOutput
  ntoh_openflow_action_output a = record {
    type = ntohs a.type;
    len = ntohs a.len;
    port = ntohs a.port;
    max_len = ntohs a.max_len;
  }

  unfoldable pub ntoh_openflow_action_vlan_vid : ActionVlanVid → ActionVlanVid
  ntoh_openflow_action_vlan_vid a = record {
    type = ntohs a.type;
    len = ntohs a.len;
    vlan_vid = ntohs a.vlan_vid;
  }

unfoldable pub openflow_ovsbe64_to_uint64 : Be64 → ℕ
openflow_ovsbe64_to_uint64 v = bit_or (v.hi * 2 ^ 32 % 2 ^ 64) v.lo

-- Where the conversions of words undo one another, `ntoh_openflow_match` undoes
-- `hton_openflow_match` on a match whose fields have their widths.
pub ntoh_openflow_match-hton_openflow_match :
    (order : ByteOrder) (m : OpenflowMatch)
    → IsByteOrder order
    → IsMatch m
    → ntoh_openflow_match order (hton_openflow_match order m) ≡ m
unfolding ntoh_openflow_match hton_openflow_match
ntoh_openflow_match-hton_openflow_match order m laws fits =
    rw
      (
        laws.ntohl-htonl m.wildcards fits.wildcards_lt,
        laws.ntohs-htons m.in_port fits.in_port_lt,
        laws.ntohs-htons m.dl_vlan fits.dl_vlan_lt,
        laws.ntohs-htons m.dl_type fits.dl_type_lt,
        laws.ntohl-htonl m.nw_src fits.nw_src_lt,
        laws.ntohl-htonl m.nw_dst fits.nw_dst_lt,
        laws.ntohs-htons m.tp_src fits.tp_src_lt,
        laws.ntohs-htons m.tp_dst fits.tp_dst_lt,
      )
      refl

-- The number that `openflow_ovsbe64_to_uint64` joins has the two halves that it was given, where
-- they are words of 32 bits.
pub openflow_ovsbe64_to_uint64-halves :
    (v : Be64)
    → v.hi < 2 ^ 32
    → v.lo < 2 ^ 32
    → (openflow_ovsbe64_to_uint64 v / 2 ^ 32 ≡ v.hi)
      × (openflow_ovsbe64_to_uint64 v % 2 ^ 32 ≡ v.lo)
unfolding openflow_ovsbe64_to_uint64
openflow_ovsbe64_to_uint64-halves v high low =
    let same : v.hi * 2 ^ 32 % 2 ^ 64 ≡ v.hi * 2 ^ 32 = omega arith in
    rw (same, bit_or-join v.hi v.lo low) (omega arith, omega arith)
