-- ===== src/Openflow/FlowMod.antt =====
-- `openflow_mod_vlan` of src/openflow.c: the order to the switch to give a flow another VLAN.
use o_rss_nic.Prelude.{Bool, List, arith, if◌then◌else◌, refl, ℕ, ◌%◌, ◌+◌, ◌-◌, ◌<◌, ◌^◌, ◌∷◌, ◌≡◌}
use o_rss_nic.FiveTuple.{FiveTuple}
use o_rss_nic.Words.{ByteOrder, IsByteOrder}
use o_rss_nic.Openflow.{Header, ofp_version}
use o_rss_nic.Openflow.Ovs.{ovs_network_ifindex, ofpat_output, ofpat_set_vlan_vid, sizeof_action}
use o_rss_nic.Openflow.Convert.{
  OpenflowMatch, ActionOutput, ActionVlanVid, ntoh_openflow_action_output,
  ntoh_openflow_action_vlan_vid,
}

abbrev pub ofp_flow_mod : ℕ
ofp_flow_mod = 0x0e

-- The wildcards of a match on the five fields of a flow.
abbrev pub ofpw_match_five_tuple : ℕ
ofpw_match_five_tuple = 0x0030000e

abbrev pub ipv4_eth_type : ℕ
ipv4_eth_type = 0x0800

abbrev pub ovs_host_ifindex : ℕ
ovs_host_ifindex = 2

abbrev pub ovs_output_action_max_len : ℕ
ovs_output_action_max_len = 65535

-- The fields of OVS's `ofp10_flow_mod` that the source names.
pub record FlowMod : Type 0 where
  pub header : Header
  pub command : ℕ
  pub idle_timeout : ℕ
  pub hard_timeout : ℕ
  pub buffer_id : ℕ
  pub out_port : ℕ
  pub flags : ℕ
  pub match_ : OpenflowMatch
  pub vlan_vid : ActionVlanVid
  pub output : ActionOutput

-- The constants of OVS and the size of the whole message, which the headers of OVS define.
pub record Constants : Type 0 where
  pub ofpfc_modify : ℕ
  pub ofpp_none : ℕ
  pub message_size : ℕ

-- The fields of a flow have their widths.
pub record IsFiveTuple (key : FiveTuple) : Type 0 where
  pub src_ip_lt : key.src_ip < 2 ^ 32
  pub dst_ip_lt : key.dst_ip < 2 ^ 32
  pub src_port_lt : key.src_port < 2 ^ 16
  pub dst_port_lt : key.dst_port < 2 ^ 16

-- The five fields of a match that name a flow.
unfoldable pub flow_of : OpenflowMatch → FiveTuple
flow_of m = record {
  src_ip = m.nw_src;
  dst_ip = m.nw_dst;
  src_port = m.tp_src;
  dst_port = m.tp_dst;
  proto = m.nw_proto;
}

module _ (order : ByteOrder) (constants : Constants) where
  open order use {htons, ntohs, htonl, ntohl}
  open constants use {ofpfc_modify, ofpp_none, message_size}

  -- The message that is written.
  unfoldable pub flow_mod_message :
      (transaction_id : ℕ) (five_tuple : FiveTuple) (new_vlan : ℕ) → FlowMod
  flow_mod_message transaction_id five_tuple new_vlan = record {
    header = record {
      version = ofp_version;
      type = ofp_flow_mod;
      length = htons message_size;
      xid = ntohl transaction_id;
    };
    command = htons ofpfc_modify;
    idle_timeout = htons 0;
    hard_timeout = htons 0;
    buffer_id = htonl (2 ^ 32 - 1);
    out_port = htons ofpp_none;
    flags = htons 0;
    match_ = record {
      wildcards = htonl ofpw_match_five_tuple;
      in_port = htons ovs_network_ifindex;
      dl_src = 0;
      dl_dst = 0;
      dl_vlan = 0;
      dl_vlan_pcp = 0;
      dl_type = htons ipv4_eth_type;
      nw_tos = 0;
      nw_proto = five_tuple.proto;
      nw_src = htonl five_tuple.src_ip;
      nw_dst = htonl five_tuple.dst_ip;
      tp_src = htons five_tuple.src_port;
      tp_dst = htons five_tuple.dst_port;
    };
    vlan_vid = record {
      type = htons ofpat_set_vlan_vid;
      len = htons sizeof_action;
      vlan_vid = htons new_vlan;
    };
    output = record {
      type = htons ofpat_output;
      len = htons sizeof_action;
      port = htons ovs_host_ifindex;
      max_len = htons ovs_output_action_max_len;
    };
  }

  -- The orders that the switch is given, the last one first, and the next transaction. `written`
  -- says whether `write` takes the message; a failure is only reported.
  unfoldable pub openflow_mod_vlan :
      (written : Bool) (transaction_id : ℕ) (five_tuple : FiveTuple) (new_vlan : ℕ)
      → List FlowMod
      → List FlowMod × ℕ
  unfolding flow_mod_message
  openflow_mod_vlan written transaction_id five_tuple new_vlan orders = (
    if written then flow_mod_message transaction_id five_tuple new_vlan ∷ orders else orders,
    (transaction_id + 1) % 2 ^ 32,
  )

  -- Where the conversions of byte order undo one another and the VLAN is a word of 16 bits: the
  -- switch that turns the actions of the message into host order reads one that sets the VLAN that
  -- was asked for, and one that outputs to the host's port.
  pub flow_mod_message-actions :
      (transaction_id new_vlan : ℕ) (key : FiveTuple)
      → IsByteOrder order
      → new_vlan < 2 ^ 16
      → (ntoh_openflow_action_vlan_vid order (flow_mod_message transaction_id key new_vlan).vlan_vid
          ≡ record { type = 1; len = 8; vlan_vid = new_vlan })
        × (ntoh_openflow_action_output order (flow_mod_message transaction_id key new_vlan).output
            ≡ record { type = 0; len = 8; port = 2; max_len = 65535 })
  unfolding flow_mod_message ntoh_openflow_action_vlan_vid ntoh_openflow_action_output
  flow_mod_message-actions transaction_id new_vlan key laws vlan_lt = (
    rw
        (
          laws.ntohs-htons 1 (omega arith),
          laws.ntohs-htons 8 (omega arith),
          laws.ntohs-htons new_vlan vlan_lt,
        )
        refl,
    rw
        (
          laws.ntohs-htons 0 (omega arith),
          laws.ntohs-htons 8 (omega arith),
          laws.ntohs-htons 2 (omega arith),
          laws.ntohs-htons 65535 (omega arith),
        )
        refl,
  )
