-- ===== src/Monitor/Completes.antt =====
-- One round of `main` in src/main.c, with a switch that keeps to the protocol.
use o_rss_nic.Prelude.{Bool, List, suc, true, zero, ℕ, ◌&&◌, ◌≡◌}
use mathlib.Core.List.{map}
use o_rss_nic.Openflow.Entries.{stats_of}
use o_rss_nic.FiveTuple.{FiveTuple}
use o_rss_nic.HashMap.{HashMap}
use o_rss_nic.Heap.{Heap}
use o_rss_nic.Balancer.{max_rebalance_iterations}
use o_rss_nic.Words.{ByteOrder, Memory}
use o_rss_nic.Openflow.FlowMod.{FlowMod}
use o_rss_nic.Openflow.Ovs.{Layout}
use o_rss_nic.Openflow.Flows.{Flows}
use o_rss_nic.Monitor.Main.{Program, Input}
use o_rss_nic.HashMap.Contents.{contents}
use o_rss_nic.Monitor.Recorded.{on_core, added_up}
use o_rss_nic.Monitor.Belongs.{core_of}
use o_rss_nic.Monitor.Queries.{Traffic, known_in}

-- The loop over the migrations makes at most 10 orders; whether each of them would be written.
unfoldable pub all_below : ℕ → (ℕ → Bool) → Bool
all_below zero f = true
all_below (suc n) f = f n && all_below n f

abbrev pub all_written : Input → Bool
all_written input = all_below max_rebalance_iterations input.order_written

-- The ring buffers after a round: the flows of the last answer are counted in their order, and the
-- ring buffers are on their new cores.
unfoldable pub Counts : ByteOrder → Memory → Layout → Input → Traffic → (p p' : Program) → Type 0
Counts order memory layout input t p p' =
    (q : FiveTuple)
    → contents p'.map p'.heap q
      ≡ on_core (core_of p'.map p'.heap q) (
          added_up (map (stats_of order memory layout) (known_in input t)) q
            (contents p.map p.heap q))
