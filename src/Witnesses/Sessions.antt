-- ===== src/Witnesses/Sessions.antt =====
-- A run of `main` in src/main.c: the connection, a round with three flows, a round in which neither
-- request is written, and an interrupt.
use o_rss_nic.Prelude.{List, Option, [], arith, false, ok, refl, some, true, ◌++◌, ◌∷◌, ◌≡◌}
use o_rss_nic.FiveTuple.{FiveTuple, five_tuple_equals}
use o_rss_nic.Openflow.{Message, Connection, World}
use o_rss_nic.Openflow.Convert.{
  FlowStats, ntoh_openflow_flow_stats, openflow_ovsbe64_to_uint64, ntoh_openflow_match,
}
use o_rss_nic.Openflow.FlowMod.{flow_of, FlowMod}
use o_rss_nic.Openflow.Entries.{stats_of}
use o_rss_nic.Openflow.Exchange.{Exchange}
use o_rss_nic.Openflow.Report.{Answer}
use o_rss_nic.Monitor.Main.{Program, Input, round}
use o_rss_nic.Monitor.Queries.{Traffic, IsSensible, traffic_reads}
use o_rss_nic.Monitor.Begin.{begin}
use o_rss_nic.Witnesses.Bytes.{little_memory, layout}
use o_rss_nic.Witnesses.Messages.{little_endian, echo, world, constants}
use o_rss_nic.Witnesses.Replies.{answer, last_reply, to_vlan}
use o_rss_nic.Witnesses.Rounds.{fractions}
use o_rss_nic.Witnesses.Samples.{flow_key}
use o_rss_nic.Witnesses.Switch.{script}

-- The answer to the request with the number 6.
abbrev one_flow : Exchange
one_flow = record last_reply {
  reply = record last_reply.reply { header = record last_reply.reply.header { xid = 100663296 } };
}

abbrev first_answer : Answer
first_answer = record { first = []; last = one_flow }

abbrev traffic : Traffic
traffic = record { messages = echo 7 ∷ []; first = first_answer; second = answer }

-- No flow has this key.
abbrev pub Strange : FiveTuple → Type 0
Strange q = q ≡ flow_key 7

abbrev pub input : Input
input = record {
  first_written = true;
  second_written = true;
  order_written = λ k. true;
  uninitialised = flow_key 7;
  interrupts = 0;
}

abbrev silent : Input
silent = record {
  first_written = false;
  second_written = false;
  order_written = λ k. true;
  uninitialised = flow_key 7;
  interrupts = 1;
}

abbrev three_flows : FlowStats
three_flows = stats_of little_endian little_memory layout to_vlan

pub sensible : IsSensible Strange three_flows
unfolding ntoh_openflow_flow_stats ntoh_openflow_match openflow_ovsbe64_to_uint64 flow_of
    five_tuple_equals
sensible = record {
  small = omega arith;
  wide = record {
    src_ip_lt = omega arith;
    dst_ip_lt = omega arith;
    src_port_lt = omega arith;
    dst_port_lt = omega arith;
  };
  in_use = λ q e. rw e refl;
}

-- Nothing is asked, and one message comes.
abbrev quiet : Traffic
quiet = record { messages = echo 8 ∷ []; first = first_answer; second = answer }

-- What comes in the two rounds.
abbrev in_rounds : List (Option Message)
in_rounds = traffic_reads input traffic (traffic_reads silent quiet [])

abbrev waiting : World
waiting = record world {
  incoming =
      script.before ++ (some script.hello ∷ (script.between ++ (some script.reply ∷ in_rounds)));
}

abbrev starting : World
starting = record world { transaction_id = 6; incoming = in_rounds }

abbrev Begun : Connection → World → Program → Type 0
Begun conn' w' p' =
    round little_endian constants little_memory layout fractions input (begin conn' w') ≡ ok p'
