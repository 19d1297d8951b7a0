-- ===== src/Monitor.antt =====
-- src/main.c: the signal handler and the round that reads the flows and balances them.
pub mod Store
pub mod Record
pub mod Round
pub mod Main
pub mod Active
pub mod Orders
pub mod Queries
pub mod Completes
pub mod Begin
pub mod Runs
pub mod Ends
pub mod Belongs
pub mod Counts
pub mod Recorded
pub mod Replay
use o_rss_nic.Prelude.{
  Bool, List, Option, Run, false, if◌then◌else◌, none, not, ok, read, some, suc, true, zero, ℕ, ◌%◌,
  ◌+◌, ◌==◌, ◌>>=◌, ◌^◌,
}
use o_rss_nic.FiveTuple.{FiveTuple}
use o_rss_nic.RingBuffer.{add}
use o_rss_nic.Heap.{Heap, null, load, store}
use o_rss_nic.HashMap.{HashMap, get, new}
use o_rss_nic.Balancer.{Migration, Migrations, LongDouble, balance}
use o_rss_nic.Words.{ByteOrder}
use o_rss_nic.Openflow.Convert.{FlowStats, openflow_ovsbe64_to_uint64}
use o_rss_nic.Openflow.FlowMod.{Constants, FlowMod, openflow_mod_vlan, flow_of}
use o_rss_nic.Openflow.Flows.{Flows, max_handled_flows}

abbrev pub nb_cores : ℕ
nb_cores = 8

-- The two flags of the program.
pub record Signals : Type 0 where
  pub looping : Bool
  pub interrupted : Bool

-- `none` is `exit(0)`.
unfoldable pub handle_interrupt : Signals → Option Signals
handle_interrupt s =
    if not s.interrupted then some (record { looping = false; interrupted = true }) else none

-- The core is an int, and a `uint16_t` to `openflow_mod_vlan`.
unfoldable pub apply_migration :
    (order : ByteOrder) (constants : Constants) (written : Bool) (transaction_id : ℕ)
    → Migration
    → List FlowMod
    → List FlowMod × ℕ
apply_migration order constants written transaction_id migration orders =
    openflow_mod_vlan order constants written transaction_id migration.key
      (migration.destination_core % 2 ^ 16) orders

-- The ring buffer of a key, made where there is none.
unfoldable pub get_or_new : FiveTuple → HashMap → Heap → Run (ℕ × HashMap × Heap)
get_or_new key m h = do p ← get m key; if p == null then new m key h else ok (p, m, h)

-- The body of the `for` loop of `get_migrations`.
unfoldable pub record_flow : FlowStats → HashMap → Heap → Run (HashMap × Heap)
unfolding get_or_new
record_flow stats m h = do
  (p, m', h') ← get_or_new (flow_of stats.match_) m h
  rb ← load p h'
  rb' ← add rb (openflow_ovsbe64_to_uint64 stats.packet_count)
  h'' ← store p rb' h'
  ok (m', h'')

-- The `for` loop; `left` is `nb_flows - i`.
unfoldable pub record_loop : (left i : ℕ) → Flows → HashMap → Heap → Run (HashMap × Heap)
unfolding record_flow
record_loop zero i flows m h = ok (m, h)
record_loop (suc left) i flows m h =
    let rest = λ (m' : HashMap) (h' : Heap). record_loop left (i + 1) flows m' h' in
    do
      stats ← read max_handled_flows flows.flow_stats i
      (m', h') ← record_flow stats m h
      rest m' h'

unfoldable pub get_migrations :
    (floats : LongDouble) (uninitialised : FiveTuple)
    → Flows
    → HashMap
    → Heap
    → Migrations
    → Run (Migrations × HashMap × Heap)
unfolding record_loop
get_migrations floats uninitialised flows m h migs = do
  (m', h') ← record_loop flows.nb_flows 0 flows m h
  (migs', h'') ← balance floats nb_cores uninitialised m' h' migs
  ok (migs', m', h'')
