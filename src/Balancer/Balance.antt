-- ===== src/Balancer/Balance.antt =====
-- The rebalancing loop of `balancer_balance` of src/balancer.c, from a table that is split over
-- the cores.
use o_rss_nic.Prelude.{
  Array, Bool-cases, Returns, ap, arith, false, inl, inr, ok, refl, some, suc, sym, true, update,
  write-ok, zero, ℕ, ℕ_discrete, ◌%◌, ◌+◌, ◌/◌, ◌<◌, ◌==◌, ◌∙◌, ◌≡◌, ◌≢◌, ◌≤◌,
}
use o_rss_nic.Heap.{Heap}
use o_rss_nic.HashMap.{HashMap}
use o_rss_nic.HashMap.Lookup.{view}
use o_rss_nic.Balancer.{
  CoreLoad, Migration, Migrations, max_rebalance_iterations, migrate, stats_loop, no_stats, Stats,
  LongDouble, is_imbalanced, balance_loop,
}
use o_rss_nic.Balancer.Info.{IsInformed, sum_below, last_of}
use o_rss_nic.Balancer.Cores.{reassigned}
use o_rss_nic.Balancer.Migrate.{migrate-Migrates}
use o_rss_nic.Balancer.Split.{IsSplit}
use o_rss_nic.Balancer.Loads.{Measures, stats_loop-finds, IsIeee, is_imbalanced-biggest}
use o_rss_nic.RingBuffer.{RingBuffer, u64_mod}
use o_rss_nic.Balancer.Steps.{
  is_imbalanced-InBalance, apply_one, replay, MayUse, spent, even, Settles,
}

module _ (floats : LongDouble) (n : ℕ) (m : HashMap) where
  -- What the loop has done, from the heap `h` and the migrations `migs`.
  pub record Balances (h : Heap) (migs : Migrations) (r : Migrations × Array CoreLoad × Heap)
      : Type 0 where
    pub made : ℕ
    pub counted : r.0.nb_migrations ≡ migs.nb_migrations + made
    pub few : r.0.nb_migrations ≤ max_rebalance_iterations
    pub earlier : (k : ℕ) → k < migs.nb_migrations → r.0.migrations k ≡ migs.migrations k
    pub sensible :
        (k : ℕ) → migs.nb_migrations ≤ k → k < r.0.nb_migrations → MayUse n m (r.0.migrations k)
    pub heap : r.2 ≡ replay m made migs.nb_migrations r.0.migrations h
    pub split : IsSplit n m r.2 r.1
    pub informed : (k : ℕ) → k < n → IsInformed r.2 (r.1 k)
    pub settled : Settles floats n r.1 r.0.nb_migrations

  -- No migration.
  rest-Balances :
      {h : Heap} {cores : Array CoreLoad} (migs : Migrations)
      → migs.nb_migrations ≤ max_rebalance_iterations
      → IsSplit n m h cores
      → ((k : ℕ) → k < n → IsInformed h (cores k))
      → Settles floats n cores migs.nb_migrations
      → Balances h migs (migs, cores, h)
  unfolding replay
  rest-Balances migs few split informed settled = record {
    made = 0;
    counted = omega arith;
    few = few;
    earlier = λ k hk. refl;
    sensible = λ k lo hi. absurd (omega arith);
    heap = refl;
    split = split;
    informed = informed;
    settled = settled;
  }

  -- One migration more, before the others.
  more-Balances :
      {h h' : Heap} (migs : Migrations) (migration : Migration)
      {r : Migrations × Array CoreLoad × Heap}
      → MayUse n m migration
      → h' ≡ apply_one m migration h
      → Balances h'
          (record {
            nb_migrations = migs.nb_migrations + 1;
            migrations = update migs.migrations migs.nb_migrations migration;
          })
          r
      → Balances h migs r
  unfolding replay
  more-Balances {h} {h'} migs migration {r} use_ok e b =
      let this : r.0.migrations migs.nb_migrations ≡ migration =
        b.earlier migs.nb_migrations (omega arith) ∙ ground arith in
      record {
        made = suc b.made;
        counted = omega (arith, b.counted);
        few = b.few;
        earlier = λ k hk. b.earlier k (omega arith) ∙ ground arith;
        sensible = λ k lo hi. elim (ℕ_discrete migs.nb_migrations k) [
          | yes same ↦ rw (← same, this) use_ok
          | no other ↦ b.sensible k (omega arith) hi
        ];
        heap = rw (this, ← e) b.heap;
        split = b.split;
        informed = b.informed;
        settled = b.settled;
      }

  no_terms : (f : ℕ → ℕ) → sum_below f 0 % u64_mod ≡ 0
  unfolding sum_below
  no_terms f = refl

  no_load : {h : Heap} {core : CoreLoad} → IsInformed h core → core.total ≢ 0 → 0 < core.nb_flows
  no_load {h} {core} inf loaded = elim (ℕ_discrete core.nb_flows 0) [
    | yes e ↦
        let f = λ (k : ℕ). last_of h (core.flows k) in
        absurd (loaded (inf.sums ∙ ap (λ k. sum_below f k % u64_mod) e ∙ no_terms f))
    | no ne ↦ omega arith
  ]

  apply_one-reassigned :
      (migration : Migration) (h : Heap) {p : ℕ} {rb : RingBuffer}
      → view m migration.key ≡ some p
      → h.cell p ≡ some rb
      → apply_one m migration h ≡ reassigned h p rb migration.destination_core
  unfolding apply_one
  apply_one-reassigned migration h there here = rw (apply_one, there, here)

  -- One round that migrates.
  migrate-Balances :
      {h : Heap} {cores : Array CoreLoad} (migs : Migrations) (s : Stats)
      → IsSplit n m h cores
      → ((k : ℕ) → k < n → IsInformed h (cores k))
      → 0 < n
      → Measures (λ k. (cores k).total) n s
      → s.biggest_load ≢ 0
      → (r : Migration × Array CoreLoad × Heap) × (migrate n s.biggest_load_idx s.smallest_load_idx
            cores h
          ≡ ok r)
        × IsSplit n m r.2 r.1
        × ((k : ℕ) → k < n → IsInformed r.2 (r.1 k))
        × MayUse n m r.0
        × (r.2 ≡ apply_one m r.0 h)
  migrate-Balances {h} {cores} migs s split informed pos me loaded =
      let big = s.biggest_load_idx in
      let small = s.smallest_load_idx in
      let hb = me.big_place pos in
      let hs = me.small_place pos in
      let inf = informed big hb in
      let some_flow = inf.in_range (no_load inf (λ e. loaded (sym (me.big_reached loaded) ∙ e))) in
      let idx = (cores big).biggest_load_idx in
      let (rb, here, _) = (split.stocked big hb).assigned idx some_flow in
      let there = (split.stocked big hb).keyed idx some_flow in
      let (r, run, mg) = migrate-Migrates split big small hb hs some_flow rb here in
      let at_key : view m r.0.key ≡ some ((cores big).flows idx) = rw mg.key there in
      (
        r,
        run,
        mg.split,
        mg.informed informed,
        (rw mg.destination hs, ((cores big).flows idx, at_key)),
        mg.heap ∙ sym (apply_one-reassigned r.0 h at_key here ∙ rw mg.destination),
      )

  abbrev migrated : Migrations → Migration → Migrations
  migrated migs migration = record {
    nb_migrations = migs.nb_migrations + 1;
    migrations = update migs.migrations migs.nb_migrations migration;
  }

  balance_loop-step :
      (left : ℕ) (cores : Array CoreLoad) (h : Heap) (migs : Migrations) (s : Stats)
      (r : Migration × Array CoreLoad × Heap)
      → 0 < n
      → migs.nb_migrations < max_rebalance_iterations
      → stats_loop n n 0 cores no_stats ≡ ok s
      → is_imbalanced floats (s.average_load / n) s.biggest_load s.smallest_load ≡ true
      → migrate n s.biggest_load_idx s.smallest_load_idx cores h ≡ ok r
      → balance_loop floats n (suc left) cores h migs
        ≡ balance_loop floats n left r.1 r.2 (migrated migs r.0)
  unfolding balance_loop
  balance_loop-step left cores h migs s r pos room run uneven run' =
      let some_core : (n == 0) ≡ false = ground arith in
      rw (
        run,
        some_core,
        uneven,
        run',
        write-ok max_rebalance_iterations migs.migrations migs.nb_migrations r.0 room,
      )

  pub balance_loop-Balances :
      IsIeee floats
      → 0 < n
      → (left : ℕ) {cores : Array CoreLoad} {h : Heap} (migs : Migrations)
      → migs.nb_migrations + left ≡ max_rebalance_iterations
      → IsSplit n m h cores
      → ((k : ℕ) → k < n → IsInformed h (cores k))
      → Returns (balance_loop floats n left cores h migs) (Balances h migs)
  unfolding balance_loop
  balance_loop-Balances nan pos zero {cores} {h} migs e split informed = (
    (migs, cores, h),
    refl,
    rest-Balances migs (omega arith) split informed (spent (omega arith)),
  )
  balance_loop-Balances nan pos (suc left) {cores} {h} migs e split informed =
      let (s, run, me) = stats_loop-finds n cores in
      elim (Bool-cases (is_imbalanced floats (s.average_load / n) s.biggest_load s.smallest_load)) [
        | inr balanced ↦ (
          (migs, cores, h),
          rw (run, balanced) (ground arith),
          rest-Balances migs (omega arith) split informed (
              even (
                is_imbalanced-InBalance floats (λ k. (cores k).total) n s pos
                  (λ k hk. let total = (informed k hk).sums in omega arith) me balanced)),
        )
        | inl uneven ↦
            let loaded = is_imbalanced-biggest floats (λ k. (cores k).total) n s nan me uneven in
            let (r, run', split', informed', use_ok, e') =
              migrate-Balances migs s split informed pos me loaded in
            let (out, run'', b) =
              balance_loop-Balances nan pos left {cores = r.1} {h = r.2} (migrated migs r.0)
                (omega arith) split' informed' in
            (
              out,
              balance_loop-step left cores h migs s r pos (omega arith) run uneven run' ∙ run'',
              more-Balances migs r.0 use_ok e' b,
            )
      ]
