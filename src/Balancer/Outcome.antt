-- ===== src/Balancer/Outcome.antt =====
-- `balancer_balance` of src/balancer.c as a whole.
use o_rss_nic.Prelude.{
  Array, Option-cases, Returns, ap, arith, inl, inr, none, ok, refl, some, subst, suc, sym, zero, ℕ,
  ℕ_discrete, ◌%◌, ◌+◌, ◌<◌, ◌^◌, ◌∙◌, ◌≡◌, ◌≤◌,
}
use o_rss_nic.FiveTuple.{FiveTuple}
use o_rss_nic.RingBuffer.{RingBuffer}
use o_rss_nic.Heap.{Heap}
use o_rss_nic.HashMap.{HashMap}
use o_rss_nic.HashMap.Lookup.{view, get-view}
use o_rss_nic.Balancer.{
  CoreLoad, Migration, Migrations, no_migrations, max_rebalance_iterations, LongDouble, balance,
  compute_repartition,
}
use o_rss_nic.Balancer.Info.{IsInformed}
use o_rss_nic.Balancer.Balance.{balance_loop-Balances}
use o_rss_nic.Balancer.Steps.{apply_one, replay, MayUse, Settles}
use o_rss_nic.Balancer.Split.{IsSplit}
use o_rss_nic.Balancer.Loads.{IsIeee}
use o_rss_nic.Balancer.Told.{print_migrations-tells}
use o_rss_nic.Balancer.Repartition.{IsReady, compute_repartition-IsSplit}
use o_rss_nic.HashMap.Ownership.{view-live}

-- A change of cores: the same blocks, the same in all but their cores.
pub record Recores (h h' : Heap) : Type 0 where
  pub next_same : h'.next ≡ h.next
  pub there :
      (p : ℕ) (rb : RingBuffer)
      → h.cell p ≡ some rb
      → (c : ℕ) × (h'.cell p ≡ some (record rb { assigned_core = c }))
  pub gone : (p : ℕ) → h.cell p ≡ none → h'.cell p ≡ none

Recores-refl : (h : Heap) → Recores h h
Recores-refl h = record {
  next_same = refl;
  there = λ p rb e. (rb.assigned_core, e);
  gone = λ p e. e;
}

Recores-trans : {h h' h'' : Heap} → Recores h h' → Recores h' h'' → Recores h h''
Recores-trans {h} {h'} {h''} a b = record {
  next_same = b.next_same ∙ a.next_same;
  there = λ p rb e.
      let (c, e') = a.there p rb e in
      let (d, e'') = b.there p (record rb { assigned_core = c }) e' in (d, e'');
  gone = λ p e. b.gone p (a.gone p e);
}

apply_one-Recores :
    (m : HashMap) (migration : Migration) (h : Heap) → Recores h (apply_one m migration h)
unfolding apply_one
apply_one-Recores m migration h = elim (Option-cases (view m migration.key)) [
  | inl e ↦ rw (apply_one, e) (Recores-refl h)
  | inr (p, e) ↦ elim (Option-cases (h.cell p)) [
    | inl e' ↦ rw (apply_one, e, e') (Recores-refl h)
    | inr (rb, e') ↦
        rw (apply_one, e, e')
          (record {
            next_same = refl;
            there = λ q r here. elim (ℕ_discrete p q) [
              | yes same ↦
                  let is_r : rb ≡ r = ground (arith, ap h.cell same) in
                  (migration.destination_core, ground (arith, is_r))
              | no other ↦ (r.assigned_core, ground arith)
            ];
            gone = λ q lost. ground (arith, ap h.cell {x = p} {y = q});
          })
  ]
]

replay-Recores :
    (m : HashMap) (left i : ℕ) (migrations : Array Migration) (h : Heap)
    → Recores h (replay m left i migrations h)
unfolding replay
replay-Recores m zero i migrations h = Recores-refl h
replay-Recores m (suc left) i migrations h =
    Recores-trans (apply_one-Recores m (migrations i) h)
      (replay-Recores m left (i + 1) migrations (apply_one m (migrations i) h))

as_byte :
    (n : ℕ) (uninitialised : FiveTuple) (m : HashMap) (h : Heap) {cores : Array CoreLoad}
    → n < 2 ^ 8
    → compute_repartition n uninitialised m h ≡ ok cores
    → compute_repartition (n % 2 ^ 8) uninitialised m h ≡ ok cores
as_byte n uninitialised m h small run = let kept : n % 2 ^ 8 ≡ n = omega arith in rw kept run

-- What `balancer_balance` does to a table and its ring buffers.
pub record Rebalances (floats : LongDouble) (n : ℕ) (m : HashMap) (h : Heap) (r : Migrations × Heap)
    : Type 0 where
  pub few : r.0.nb_migrations ≤ max_rebalance_iterations
  pub sensible : (k : ℕ) → k < r.0.nb_migrations → MayUse n m (r.0.migrations k)
  pub heap : r.1 ≡ replay m r.0.nb_migrations 0 r.0.migrations h
  pub cores_only : Recores h r.1
  pub ends :
      (cores : Array CoreLoad) × IsSplit n m r.1 cores
      × ((k : ℕ) → k < n → IsInformed r.1 (cores k))
      × Settles floats n cores r.0.nb_migrations

-- `balancer_balance`, on a table and ring buffers that are ready for it, for 1 to 255 cores,
-- with no migration yet, an uninitialised key that is not in the table, and a `long double` in
-- which 0 / 0 is not above the threshold, ends normally. It makes at most 10 migrations, each of
-- a flow of the table to a core that exists. Replaying them in their order gives exactly the
-- change of the ring buffers, which keep all but their cores. At the end every flow is on the
-- core that its ring buffer names, and either the loads are in balance or 10 migrations were
-- made. In balance is: the greatest of the loads, divided by their average, is not above 1 and the
-- threshold, and the smallest one is not below 1 less the threshold, unless the average is 0.
pub balance-Rebalances :
    (floats : LongDouble) (n : ℕ) (uninitialised : FiveTuple) {m : HashMap} {h : Heap}
    → IsIeee floats
    → 0 < n
    → n < 2 ^ 8
    → IsReady n m h
    → view m uninitialised ≡ none
    → Returns (balance floats n uninitialised m h no_migrations) (Rebalances floats n m h)
unfolding balance
balance-Rebalances floats n uninitialised {m} {h} nan pos byte ready absent =
    let (cores, run, (split, informed, _)) =
      compute_repartition-IsSplit ready uninitialised absent in
    let (r, run', b) =
      balance_loop-Balances floats n m nan pos max_rebalance_iterations no_migrations (omega arith)
        split informed in
    let all : b.made ≡ r.0.nb_migrations = omega (arith, b.counted) in
    let replayed : r.2 ≡ replay m r.0.nb_migrations 0 r.0.migrations h =
      b.heap ∙ ap (λ k. replay m k 0 r.0.migrations h) all in
    let changed : Recores h r.2 =
      subst (λ x. Recores h x) (sym replayed)
        (replay-Recores m r.0.nb_migrations 0 r.0.migrations h) in
    let sensible = λ (k : ℕ) (hk : k < r.0.nb_migrations). b.sensible k (omega arith) hk in
    let (_, printed, _) =
      print_migrations-tells n m r.2 r.1 r.0 b.split b.few
        (λ key p e.
          let (rb, here) = view-live key ready.owned e in
          let (c, here') = changed.there p rb here in
          (get-view key ready.valid ∙ rw e, (record rb { assigned_core = c }, here')))
        sensible in
    (
      (r.0, r.2),
      rw (as_byte n uninitialised m h byte run, run', printed),
      record {
        few = b.few;
        sensible = sensible;
        heap = replayed;
        cores_only = changed;
        ends = (r.1, b.split, b.informed, b.settled);
      },
    )
