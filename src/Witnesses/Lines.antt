-- ===== src/Witnesses/Lines.antt =====
-- A flow with two actions as src/openflow.c prints it.
use o_rss_nic.Prelude.{Array, Returns, arith, length, suc, zero, ℕ, ◌≡◌}
use o_rss_nic.Openflow.Flows.{Action, Content, Flows}
use o_rss_nic.Openflow.Dump.{openflow_dump_flows}
use o_rss_nic.Openflow.Lines.{
  IsKnown, known_output, known_vlan_vid, Shows, openflow_dump_flows-Shows,
}
use o_rss_nic.Monitor.Main.{zero_stats}
use o_rss_nic.Witnesses.Messages.{web}

abbrev two_actions : Array Action
two_actions zero = record {
  type = 1;
  body = 1000;
  content = Content.vlan_vid (record { type = 1; len = 8; vlan_vid = 3 });
}
two_actions (suc j) = record {
  type = 0;
  body = 1001;
  content = Content.output (record { type = 0; len = 8; port = 2; max_len = 65535 });
}

two_actions-IsKnown : (j : ℕ) → IsKnown (two_actions j)
two_actions-IsKnown zero = known_vlan_vid _ 1000
two_actions-IsKnown (suc j) = known_output _ 1001

abbrev one_flow : Flows
one_flow = record {
  nb_flows = 1;
  flow_stats = λ _. record zero_stats { match_ = web };
  nb_actions = λ _. 2;
  actions = λ _. two_actions;
}

dump_example :
    Returns (openflow_dump_flows one_flow) λ lines. (length lines ≡ 1) × Shows 0 one_flow lines
dump_example =
    openflow_dump_flows-Shows one_flow (omega arith) (λ k hk. omega arith)
      (λ k j hk hj. two_actions-IsKnown j) (λ k hk. (omega arith, omega arith))
