-- ===== src/Witnesses/Replies.antt =====
-- Two replies of a switch to one request for its flows, for src/openflow.c.
use Prim.Native.Nat.{bit_and}
use o_rss_nic.Prelude.{
  All, Returns, [], arith, fault, inl, inr, none, out_of_bounds, refl, some, true, ◌++◌, ◌-◌, ◌∷◌,
  ◌≡◌,
}
use o_rss_nic.Words.{slice_at}
use o_rss_nic.Openflow.{World, received, is_awaited}
use o_rss_nic.Openflow.Buffer.{queued, arrivals, any_awaited}
use o_rss_nic.Openflow.Convert.{ntoh_openflow_flow_stats}
use o_rss_nic.Openflow.Actions.{IsAction}
use o_rss_nic.Openflow.Flows.{Content, Flows, openflow_free_flows}
use o_rss_nic.Openflow.Replies.{entries_loop, openflow_get_flows}
use o_rss_nic.Openflow.Entries.{
  SameFrom, Entry, bytes_of, all_bytes_of, reports, reports_after, IsEntry,
}
use o_rss_nic.Openflow.Overrun.{entries_loop-stuck, entries_loop-overflows}
use o_rss_nic.Openflow.Exchange.{Exchange, reads_of, others_of}
use o_rss_nic.Witnesses.Bytes.{zeros, little_memory, layout}
use o_rss_nic.Witnesses.Messages.{little_endian, nothing_buffered, echo, world}
use o_rss_nic.Openflow.Release.{openflow_get_flows-freed}
use o_rss_nic.Openflow.Report.{Answer, IsAnswer, openflow_get_flows-reports}

-- A flow of 104 bytes: its packets get VLAN 3 and leave through port 2.
abbrev pub to_vlan : Entry
to_vlan = record {
  stats = 0 ∷ 104 ∷ zeros 86;
  actions = (0 ∷ 1 ∷ 0 ∷ 8 ∷ 0 ∷ 3 ∷ 0 ∷ 0 ∷ []) ∷ (0 ∷ 0 ∷ 0 ∷ 8 ∷ 0 ∷ 2 ∷ 255 ∷ 255 ∷ []) ∷ [];
}

-- Replies in network order, of two flows and of one.
abbrev first_reply : Exchange
first_reply = record {
  before = some (echo 1) ∷ none ∷ [];
  reply = record {
    header = record { version = 1; type = 17; length = 56320; xid = 117440512 };
    body = 50;
    bytes = (0 ∷ 1 ∷ 0 ∷ 1 ∷ []) ++ all_bytes_of (to_vlan ∷ to_vlan ∷ []);
  };
  header = 0 ∷ 1 ∷ 0 ∷ 1 ∷ [];
  entries = to_vlan ∷ to_vlan ∷ [];
}

abbrev pub last_reply : Exchange
last_reply = record {
  before = [];
  reply = record {
    header = record { version = 1; type = 17; length = 29696; xid = 117440512 };
    body = 51;
    bytes = (0 ∷ 1 ∷ 0 ∷ 0 ∷ []) ++ all_bytes_of (to_vlan ∷ []);
  };
  header = 0 ∷ 1 ∷ 0 ∷ 0 ∷ [];
  entries = to_vlan ∷ [];
}

abbrev no_flows : Flows
no_flows = record {
  nb_flows = 0;
  flow_stats = λ _. ntoh_openflow_flow_stats little_endian (layout.flow_stats []);
  nb_actions = λ _. 0;
  actions = λ _ _. record { type = 0; body = 0; content = Content.no_content };
}

abbrev asked : World
asked = record world { incoming = reads_of (first_reply ∷ last_reply ∷ []) (some (echo 9) ∷ []) }

stuck_example :
    entries_loop little_endian little_memory layout 1024 (zeros 100) 4 100 no_flows 1000
    ≡ fault out_of_bounds
unfolding ntoh_openflow_flow_stats slice_at
stuck_example =
    entries_loop-stuck little_endian little_memory layout 1024 (zeros 100) (zeros 88) 4 100 no_flows
      1000 (omega arith) refl refl

vlan_actions : All (IsAction little_endian little_memory) to_vlan.actions
vlan_actions =
    (record { size = refl; kind = inr refl }, (record { size = refl; kind = inl refl }, tt))

-- The structure holds three actions of each flow.
abbrev three_actions : Flows
three_actions = record no_flows { nb_actions = λ _. 3 }

accumulate_example :
    entries_loop little_endian little_memory layout 1024
      ((0 ∷ 1 ∷ 0 ∷ 0 ∷ []) ++ (bytes_of to_vlan ++ []))
      4
      108
      three_actions
      1000
    ≡ fault out_of_bounds
unfolding ntoh_openflow_flow_stats
accumulate_example =
    entries_loop-overflows little_endian little_memory layout 1024 (0 ∷ 1 ∷ 0 ∷ 0 ∷ []) [] to_vlan 4
      108 three_actions 1000 refl (omega arith) refl vlan_actions refl (omega arith) (omega arith)

pub to_vlan-IsEntry : IsEntry little_endian little_memory layout to_vlan
unfolding ntoh_openflow_flow_stats
to_vlan-IsEntry = record { stats_size = refl; known = vlan_actions; total = refl }

abbrev pub answer : Answer
answer = record { first = first_reply ∷ []; last = last_reply }

pub answer-IsAnswer : IsAnswer little_endian little_memory layout 7 answer
unfolding any_awaited arrivals is_awaited received
answer-IsAnswer = record {
  count = omega arith;
  exchanges = (
    record {
      others = ((λ e. absurd (omega (arith, e.0))), tt);
      awaited = (refl, inr refl);
      body = refl;
      header_size = refl;
      total = refl;
      entries = (to_vlan-IsEntry, (to_vlan-IsEntry, tt));
    },
    (
      record {
        others = tt;
        awaited = (refl, inr refl);
        body = refl;
        header_size = refl;
        total = refl;
        entries = (to_vlan-IsEntry, tt);
      },
      tt,
    ),
  );
  more = (refl, tt);
  ends = refl;
  few = omega arith;
}

report_example :
    Returns
      (openflow_get_flows little_endian little_memory layout true nothing_buffered no_flows 1000
        asked)
      λ r.
        (r.0 ≡ record {
          header = record {
            version = 1;
            type = 16;
            length = little_endian.htons layout.request_size;
            xid = little_endian.htonl 7;
          };
          type = little_endian.htons 1;
          flags = 0;
          wildcards =
              little_endian.htonl
                (bit_and layout.ofpfw10_all (4294967295 - layout.ofpfw10_in_port));
          in_port = little_endian.htons 1;
          table_id = 255;
          out_port = layout.ofpp_none;
        })
        × (reports r.1
            ≡ reports_after little_endian little_memory layout 0 no_flows 1000
                (to_vlan ∷ to_vlan ∷ to_vlan ∷ []))
        × (r.1.nb_flows ≡ 3)
        × SameFrom r.1.nb_flows r.1 no_flows
        × (r.3 ≡ 1006)
        × (queued r.2
            ≡ queued nothing_buffered
              ++ others_of little_endian little_memory (first_reply ∷ last_reply ∷ []))
        × (r.4 ≡ record world {
          transaction_id = 8;
          freed = 51 ∷ 50 ∷ [];
          incoming = some (echo 9) ∷ [];
        })
unfolding arrivals
report_example =
    openflow_get_flows-reports little_endian little_memory layout answer (some (echo 9) ∷ [])
      nothing_buffered no_flows 1000 asked (omega arith) refl answer-IsAnswer (omega arith)
      (omega arith, (omega arith, (omega arith, tt)))

freed_example :
    Returns
      (openflow_get_flows little_endian little_memory layout true nothing_buffered no_flows 1000
        asked)
      λ r. Returns (openflow_free_flows r.1 []) λ f.
        (f.1 ≡ 1005 ∷ 1004 ∷ 1003 ∷ 1002 ∷ 1001 ∷ 1000 ∷ []) × (r.3 ≡ 1006) × (f.0.nb_flows ≡ 0)
unfolding arrivals
freed_example =
    openflow_get_flows-freed little_endian little_memory layout answer (some (echo 9) ∷ [])
      nothing_buffered no_flows 1000 asked (omega arith) refl answer-IsAnswer (omega arith)
      (omega arith, (omega arith, (omega arith, tt))) (λ k. refl)
