-- ===== src/Monitor/Ends.antt =====
-- What the rounds of `main` in src/main.c leave alone until the connection is closed.
use o_rss_nic.Prelude.{>>=-eq-ok, Run, arith, ok, ok-injective, subst, ℕ, ◌>>=◌, ◌≡◌}
use o_rss_nic.Words.{ByteOrder, Memory}
use o_rss_nic.Balancer.{LongDouble, no_migrations}
use o_rss_nic.HashMap.{cleanup_inactive_flows}
use o_rss_nic.Openflow.{World, Connection}
use o_rss_nic.Openflow.Control.{openflow_control}
use o_rss_nic.Openflow.FlowMod.{Constants}
use o_rss_nic.Openflow.Flows.{Flows, openflow_free_flows}
use o_rss_nic.Openflow.Kept.{openflow_get_flows-Keeps}
use o_rss_nic.Openflow.Ends.{Keeps, openflow_control-Keeps, Keeps-trans}
use o_rss_nic.Openflow.Replies.{openflow_get_flows}
use o_rss_nic.Openflow.Ovs.{Layout}
use o_rss_nic.Monitor.{get_migrations}
use o_rss_nic.Monitor.Main.{Program, Input, zero_flows, query, apply_loop, round}

module _ (order : ByteOrder) (memory : Memory) (layout : Layout) where
  query-Keeps :
      (input : Input) (p : Program) {r : Flows × Connection × ℕ × World}
      → query order memory layout input p ≡ ok r
      → Keeps r.1 r.3 p.conn p.world
  unfolding query
  query-Keeps input p run =
      let get = openflow_get_flows order memory layout in
      let (c, run₁, later₁) =
        >>=-eq-ok (openflow_control order p.conn p.world)
          (λ c. get input.first_written c.0 zero_flows p.fresh c.1 >>= λ g.
            get input.second_written g.2 g.1 g.3 g.4 >>= λ g'. ok (g'.1, g'.2, g'.3, g'.4))
          run in
      let (g, run₂, later₂) =
        >>=-eq-ok (get input.first_written c.0 zero_flows p.fresh c.1)
          (λ g. get input.second_written g.2 g.1 g.3 g.4 >>= λ g'. ok (g'.1, g'.2, g'.3, g'.4))
          later₁ in
      let (g', run₃, ends) =
        >>=-eq-ok (get input.second_written g.2 g.1 g.3 g.4) (λ g'. ok (g'.1, g'.2, g'.3, g'.4))
          later₂ in
      let kept₂ =
        openflow_get_flows-Keeps order memory layout input.first_written c.0 zero_flows p.fresh c.1
          run₂ in
      let kept₃ =
        openflow_get_flows-Keeps order memory layout input.second_written g.2 g.1 g.3 g.4 run₃ in
      subst (λ r. Keeps r.1 r.3 p.conn p.world) (ok-injective ends)
        (Keeps-trans kept₃ (Keeps-trans kept₂ (openflow_control-Keeps order p.conn p.world run₁)))

module _ (order : ByteOrder) (constants : Constants) (memory : Memory) (layout : Layout)
    (floats : LongDouble) where
  -- What follows the query in a round.
  abbrev after_query : Input → Program → Flows × Connection × ℕ × World → Run Program
  after_query input p g = do
    (migs, m, h) ← get_migrations floats input.uninitialised g.0 p.map p.heap no_migrations
    (id, orders) ←
        apply_loop order constants input.order_written migs.nb_migrations 0 migs g.3.transaction_id
          p.orders
    (_, freed) ← openflow_free_flows g.0 g.3.freed
    (m', h') ← cleanup_inactive_flows m h
    ok (record {
      map = m';
      heap = h';
      conn = g.1;
      world = record g.3 { transaction_id = id; freed = freed };
      fresh = g.2;
      orders = orders;
    })

  after_query-Keeps :
      (input : Input) (p : Program) (g : Flows × Connection × ℕ × World) {p' : Program}
      → after_query input p g ≡ ok p'
      → Keeps p'.conn p'.world g.1 g.3
  after_query-Keeps input p g run = ground arith

  pub round-Keeps :
      (input : Input) (p : Program) {p' : Program}
      → round order constants memory layout floats input p ≡ ok p'
      → Keeps p'.conn p'.world p.conn p.world
  unfolding round
  round-Keeps input p run =
      let (g, run₁, later) =
        >>=-eq-ok (query order memory layout input p) (after_query input p) run in
      Keeps-trans (after_query-Keeps input p g later) (query-Keeps order memory layout input p run₁)
