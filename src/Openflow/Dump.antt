-- ===== src/Openflow/Dump.antt =====
-- `openflow_dump_flows` of src/openflow.c: the flows as they are printed, one line for each.
use o_rss_nic.Prelude.{
  Array, List, Run, [], bad_pointer, fault, if◌then◌else◌, ok, read, suc, zero, ℕ, ◌%◌, ◌+◌, ◌/◌,
  ◌==◌, ◌>>=◌, ◌^◌, ◌∷◌,
}
use o_rss_nic.Openflow.Flows.{Action, Content, Flows, max_actions, max_handled_flows}
use o_rss_nic.Openflow.Ovs.{ofpat_output, ofpat_set_vlan_vid}

pub data Protocol : Type 0 where
  tcp udp ukn : Protocol

-- `OUTPUT(port)`, `SET_VLAN_VID(vlan_vid)`, and nothing for another action.
pub data Shown : Type 0 where
  shown_output : ℕ → Shown
  shown_vlan_vid : ℕ → Shown
  shown_nothing : Shown

-- A line, with the four numbers of each address.
pub record Line : Type 0 where
  pub number : ℕ
  pub protocol : Protocol
  pub src : List ℕ
  pub src_port : ℕ
  pub dst : List ℕ
  pub dst_port : ℕ
  pub actions : List Shown

abbrev pub octets : ℕ → List ℕ
octets address =
    (address / 2 ^ 24) % 256
    ∷ (address / 2 ^ 16) % 256
    ∷ (address / 2 ^ 8) % 256
    ∷ address % 256
    ∷ []

abbrev pub protocol_of : ℕ → Protocol
protocol_of proto =
    if proto == 6 then Protocol.tcp else if proto == 17 then Protocol.udp else Protocol.ukn

-- The structure that `data` points to is read as the type of the action says.
unfoldable pub dump_action : Action → Run Shown
dump_action action =
    if action.type == ofpat_output
    then elim action.content [
      | Content.output a ↦ ok (Shown.shown_output a.port)
      | _ ↦ fault bad_pointer
    ]
    else if action.type == ofpat_set_vlan_vid
    then elim action.content [
      | Content.vlan_vid a ↦ ok (Shown.shown_vlan_vid a.vlan_vid)
      | _ ↦ fault bad_pointer
    ]
    else ok Shown.shown_nothing

-- The inner loop; `left` is `nb_actions[i] - j`.
unfoldable pub dump_actions_loop : (left j : ℕ) → Array Action → Run (List Shown)
unfolding dump_action
dump_actions_loop zero j row = ok []
dump_actions_loop (suc left) j row =
    let rest = dump_actions_loop left (j + 1) row in
    do action ← read max_actions row j; shown ← dump_action action; later ← rest; ok (shown ∷ later)

-- The outer loop; `left` is `nb_flows - i`.
unfoldable pub dump_loop : (left i : ℕ) → Flows → Run (List Line)
unfolding dump_actions_loop
dump_loop zero i flows = ok []
dump_loop (suc left) i flows =
    let rest = dump_loop left (i + 1) flows in
    do
      stats ← read max_handled_flows flows.flow_stats i
      count ← read max_handled_flows flows.nb_actions i
      actions ← dump_actions_loop count 0 (flows.actions i)
      later ← rest
      ok (
          record {
            number = i;
            protocol = protocol_of stats.match_.nw_proto;
            src = octets stats.match_.nw_src;
            src_port = stats.match_.tp_src;
            dst = octets stats.match_.nw_dst;
            dst_port = stats.match_.tp_dst;
            actions = actions;
          }
          ∷ later)

unfoldable pub openflow_dump_flows : Flows → Run (List Line)
unfolding dump_loop
openflow_dump_flows flows = dump_loop flows.nb_flows 0 flows
