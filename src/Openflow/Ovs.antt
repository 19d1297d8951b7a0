-- ===== src/Openflow/Ovs.antt =====
-- The structures and constants with which src/openflow.c asks for the flows and reads them: those
-- of src/openflow.h, and in `Layout` those of OVS.
use o_rss_nic.Prelude.{List, ℕ}
use o_rss_nic.Openflow.{Header}
use o_rss_nic.Openflow.Convert.{FlowStats}

-- The constants and structures of OVS: the sizes of its structures, how they lie in memory, and
-- the flag that says that another reply follows.
pub record Layout : Type 0 where
  pub ofpp_none : ℕ
  pub ofpfw10_all : ℕ
  pub ofpfw10_in_port : ℕ
  pub ofpsf_reply_more : ℕ
  pub request_size : ℕ
  pub sizeof_flow_stats : ℕ
  pub flow_stats : List ℕ → FlowStats

-- `openflow_stats_request_message`, the fields that are set.
pub record StatsRequest : Type 0 where
  pub header : Header
  pub type : ℕ
  pub flags : ℕ
  pub wildcards : ℕ
  pub in_port : ℕ
  pub table_id : ℕ
  pub out_port : ℕ

abbrev pub ofp_stats_request : ℕ
ofp_stats_request = 16

abbrev pub ofp_stats_reply : ℕ
ofp_stats_reply = 17

abbrev pub ofpst_flow : ℕ
ofpst_flow = 1

-- The port of the network.
abbrev pub ovs_network_ifindex : ℕ
ovs_network_ifindex = 1

-- The length of `messages`.
abbrev pub max_stats_reply : ℕ
max_stats_reply = 32

-- `sizeof(openflow_flow_stats_reply_header)`
abbrev pub sizeof_reply_header : ℕ
sizeof_reply_header = 4

-- `sizeof(openflow_action_output)` and `sizeof(openflow_action_vlan_vid)`
abbrev pub sizeof_action : ℕ
sizeof_action = 8

abbrev pub ofpat_output : ℕ
ofpat_output = 0

abbrev pub ofpat_set_vlan_vid : ℕ
ofpat_set_vlan_vid = 1
