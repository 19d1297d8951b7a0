-- ===== src/Monitor/Main.antt =====
-- `main` of src/main.c: the connection, the rounds until an interrupt, and the end.
use o_rss_nic.Prelude.{
  Bool, List, Option, Run, [], false, fault, if◌then◌else◌, none, ok, out_of_fuel, read, some, suc,
  true, zero, ℕ, ◌+◌, ◌>>=◌, ◌∷◌,
}
use o_rss_nic.FiveTuple.{FiveTuple}
use o_rss_nic.Heap.{Heap, no_blocks}
use o_rss_nic.HashMap.{HashMap, cleanup_inactive_flows, destroy}
use o_rss_nic.HashMap as Table
use o_rss_nic.Balancer.{LongDouble, Migrations, no_migrations, max_rebalance_iterations}
use o_rss_nic.Words.{ByteOrder, Memory}
use o_rss_nic.Openflow.{Connection, World}
use o_rss_nic.Openflow.Closing.{openflow_terminate_connection}
use o_rss_nic.Openflow.Control.{openflow_control}
use o_rss_nic.Openflow.Convert.{FlowStats, Be64}
use o_rss_nic.Openflow.FlowMod.{Constants, FlowMod}
use o_rss_nic.Openflow.Flows.{Flows, Content, openflow_free_flows}
use o_rss_nic.Openflow.Handshake.{SocketCalls, openflow_create_connection}
use o_rss_nic.Openflow.Replies.{openflow_get_flows}
use o_rss_nic.Openflow.Ovs.{Layout}
use o_rss_nic.Monitor.{Signals, handle_interrupt, apply_migration, get_migrations}

-- What `main` keeps from round to round, the next address that `malloc` gives for an action, and
-- the orders that the switch was given, the last one first.
pub record Program : Type 0 where
  pub map : HashMap
  pub heap : Heap
  pub conn : Connection
  pub world : World
  pub fresh : ℕ
  pub orders : List FlowMod

-- What comes from outside in one round: whether the two requests and the order of each migration
-- are written, what the variable of the balancer happens to hold, and how many interrupts there
-- are.
pub record Input : Type 0 where
  pub first_written : Bool
  pub second_written : Bool
  pub order_written : ℕ → Bool
  pub uninitialised : FiveTuple
  pub interrupts : ℕ

abbrev pub zero64 : Be64
zero64 = record { hi = 0; lo = 0 }

abbrev pub zero_stats : FlowStats
zero_stats = record {
  length = 0;
  duration_sec = 0;
  duration_nsec = 0;
  priority = 0;
  idle_timeout = 0;
  hard_timeout = 0;
  cookie = zero64;
  packet_count = zero64;
  byte_count = zero64;
  match_ = record {
    wildcards = 0;
    in_port = 0;
    dl_src = 0;
    dl_dst = 0;
    dl_vlan = 0;
    dl_vlan_pcp = 0;
    dl_type = 0;
    nw_tos = 0;
    nw_proto = 0;
    nw_src = 0;
    nw_dst = 0;
    tp_src = 0;
    tp_dst = 0;
  };
}

-- `openflow_flows flows = {0}`
abbrev pub zero_flows : Flows
zero_flows = record {
  nb_flows = 0;
  flow_stats = λ _. zero_stats;
  nb_actions = λ _. 0;
  actions = λ _ _. record { type = 0; body = 0; content = Content.no_content };
}

abbrev pub started : Signals
started = record { looping = true; interrupted = false }

-- `none` is `exit(0)`.
unfoldable pub interrupt : (times : ℕ) → Signals → Option Signals
unfolding handle_interrupt
interrupt zero s = some s
interrupt (suc times) s = elim (handle_interrupt s) [ none ↦ none | some s' ↦ interrupt times s' ]

module _ (order : ByteOrder) (memory : Memory) (layout : Layout) where
  -- The first half of the body of the `while` loop: the messages of the switch, and its flows.
  unfoldable pub query : Input → Program → Run (Flows × Connection × ℕ × World)
  unfolding openflow_control openflow_get_flows
  query input p = do
    (conn₁, w₁) ← openflow_control order p.conn p.world
    (_, flows₁, conn₂, fresh₁, w₂) ←
        openflow_get_flows order memory layout input.first_written conn₁ zero_flows p.fresh w₁
    (_, flows₂, conn₃, fresh₂, w₃) ←
        openflow_get_flows order memory layout input.second_written conn₂ flows₁ fresh₁ w₂
    ok (flows₂, conn₃, fresh₂, w₃)

module _ (order : ByteOrder) (constants : Constants) where
  -- The `for` loop over the migrations; `left` is `nb_migrations - i`.
  unfoldable pub apply_loop :
      (written : ℕ → Bool) (left i : ℕ)
      → Migrations
      → (transaction_id : ℕ) → (orders : List FlowMod) → Run (ℕ × List FlowMod)
  unfolding apply_migration
  apply_loop written zero i migs transaction_id orders = ok (transaction_id, orders)
  apply_loop written (suc left) i migs transaction_id orders =
      let rest = λ (id : ℕ) (all : List FlowMod). apply_loop written left (i + 1) migs id all in
      do
        migration ← read max_rebalance_iterations migs.migrations i
        let (all, later_id) =
            apply_migration order constants (written i) transaction_id migration orders
        rest later_id all

  module _ (memory : Memory) (layout : Layout) (floats : LongDouble) where
    -- The body of the `while` loop.
    unfoldable pub round : Input → Program → Run Program
    unfolding apply_loop query get_migrations openflow_free_flows cleanup_inactive_flows
    round input p = do
      (flows, conn, fresh, w) ← query order memory layout input p
      (migs, m, h) ← get_migrations floats input.uninitialised flows p.map p.heap no_migrations
      (id, orders) ←
          apply_loop input.order_written migs.nb_migrations 0 migs w.transaction_id p.orders
      (_, freed) ← openflow_free_flows flows w.freed
      (m', h') ← cleanup_inactive_flows m h
      ok (record {
        map = m';
        heap = h';
        conn = conn;
        world = record w { transaction_id = id; freed = freed };
        fresh = fresh;
        orders = orders;
      })

    -- The `while` loop, over what comes in the rounds that are seen of it; `none` is `exit(0)`.
    unfoldable pub main_loop : List Input → Signals → Program → Run (Option Program)
    unfolding round interrupt
    main_loop [] s p = if s.looping then fault out_of_fuel else ok (some p)
    main_loop (input ∷ later) s p =
        let rest = main_loop later in
        if s.looping
        then (do
          p' ← round input p
          elim (interrupt input.interrupts s) [ none ↦ ok none | some s' ↦ rest s' p' ])
        else ok (some p)

    -- `conn` is the connection as it is declared, with no value in any of its fields, `address` is
    -- what `malloc` gives for the ports of the switch, and `early` is how many interrupts there are
    -- before the loop.
    unfoldable pub main :
        SocketCalls
        → (random address early : ℕ) → List Input
        → Connection
        → World
        → Run (Option Program)
    unfolding main_loop interrupt openflow_create_connection openflow_terminate_connection destroy
    main calls random address early inputs conn w = do
      (conn', w') ← openflow_create_connection order memory calls random address conn w
      ended ← elim (interrupt early started) [
        | none ↦ ok none
        | some s ↦ main_loop inputs s (record {
          map = Table.init;
          heap = no_blocks;
          conn = conn';
          world = w';
          fresh = 1;
          orders = [];
        })
      ]
      elim ended [
        | none ↦ ok none
        | some p ↦ (do
          let w'' = openflow_terminate_connection p.conn p.world
          h ← destroy p.map p.heap
          ok (some (record p { heap = h; world = w'' })))
      ]
