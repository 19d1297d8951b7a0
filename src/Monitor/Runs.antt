-- ===== src/Monitor/Runs.antt =====
-- `main` of src/main.c as a whole, from the first connection to the end after an interrupt.
use o_rss_nic.Prelude.{Bool, List, Option, [], ok, ◌&&◌, ◌+◌, ◌<◌, ◌∷◌, ◌≡◌}
use o_rss_nic.Openflow.{Message}
use o_rss_nic.Monitor.Completes.{Counts, all_written}
use o_rss_nic.Monitor.{nb_cores, handle_interrupt, Signals}
use o_rss_nic.Monitor.Main.{Program, Input, round}
use o_rss_nic.Monitor.Queries.{Traffic, IsTraffic, flows_in, traffic_reads}
use o_rss_nic.Openflow.FlowMod.{Constants}
use o_rss_nic.Monitor.{nb_cores, handle_interrupt, Signals}
use o_rss_nic.Words.{ByteOrder, Memory}
use o_rss_nic.Balancer.{LongDouble}
use o_rss_nic.Openflow.Ovs.{Layout}
use o_rss_nic.FiveTuple.{FiveTuple}
use o_rss_nic.HashMap.{hashmap_size}

-- Whether no order was lost before, and none is in the rounds.
unfoldable pub lossless_after : Bool → List Input → Bool
lossless_after lossless [] = lossless
lossless_after lossless (input ∷ later) = lossless_after (lossless && all_written input) later

module _ (order : ByteOrder) (memory : Memory) (layout : Layout) (constants : Constants)
    (floats : LongDouble) (Unused : FiveTuple → Type 0) where
  -- The switch keeps to the protocol in every round, whatever the program has done in the rounds
  -- before: it answers the requests that are written, and there is room in the table. There is no
  -- interrupt before the last round, and one in it.
  unfoldable pub IsServed : List Input → Program → Type 0
  IsServed [] p = ⊥
  IsServed (input ∷ later) p =
      (t : Traffic) × (rest : List (Option Message)) × IsTraffic order memory layout Unused input
        p.world.transaction_id t
      × (p.world.incoming ≡ traffic_reads input t rest)
      × (p.map.size + flows_in input t < hashmap_size)
      × Unused input.uninitialised
      × elim later [
        | [] ↦ input.interrupts ≡ 1
        | _ ∷ _ ↦
            (input.interrupts ≡ 0)
            × ((p' : Program)
                → round order constants memory layout floats input p ≡ ok p'
                → IsServed later p')
      ]

  -- The rounds from one program to another, in each of which what the switch gives is counted.
  unfoldable pub CountsAll : List Input → Program → Program → Type 0
  unfolding Counts
  CountsAll [] p q = p ≡ q
  CountsAll (input ∷ later) p q =
      (p' : Program) × (round order constants memory layout floats input p ≡ ok p')
      × (t : Traffic) × (rest : List (Option Message)) × (p.world.incoming
          ≡ traffic_reads input t rest)
      × Counts order memory layout input t p p'
      × CountsAll later p' q
