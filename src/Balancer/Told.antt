-- ===== src/Balancer/Told.antt =====
-- What `balancer_print_migrations` of src/balancer.c prints is true of the table and the cores.
use o_rss_nic.Prelude.{
  Array, List, Returns, [], arith, ok, read-ok, refl, some, suc, zero, ℕ, ◌++◌, ◌+◌, ◌<◌, ◌∷◌, ◌≡◌,
  ◌≤◌,
}
use o_rss_nic.FiveTuple.{FiveTuple}
use o_rss_nic.Heap.{Heap, load}
use o_rss_nic.HashMap.{HashMap, hashmap_size, get}
use o_rss_nic.HashMap.Lookup.{view}
use o_rss_nic.RingBuffer.{RingBuffer, get_last}
use o_rss_nic.Balancer.{max_rebalance_iterations, CoreLoad, Migration, Migrations}
use o_rss_nic.Balancer.Steps.{MayUse}
use o_rss_nic.Balancer.Cores.{IsStocked, term-le-sum_below}
use o_rss_nic.Balancer.Info.{HasRings, last_of}
use o_rss_nic.Balancer.Split.{IsSplit}
use o_rss_nic.Balancer.Printing.{
  PrintedFlow, PrintedLine, migrated, core_total, core_heading, core_flow, printed_flow, print_loop,
  core_flows_loop, totals_loop, cores_loop, print_migrations,
}
use o_rss_nic.Balancer.Digits.{Prints, printed_flow-Prints}

-- One line for each number from `i` on, and no other, in their order: the line of the number `k` is
-- one that `tells k` allows.
unfoldable pub Each : (tells : ℕ → PrintedLine → Type 0) (left i : ℕ) → List PrintedLine → Type 0
Each tells zero i [] = Unit
Each tells zero i (line ∷ lines) = ⊥
Each tells (suc left) i [] = ⊥
Each tells (suc left) i (line ∷ lines) = tells i line × Each tells left (i + 1) lines

module _ (m : HashMap) (h : Heap) where
  -- The line tells of this migration: of its flow, which is in the table, of the last load of the
  -- ring buffer of that flow, and of its destination.
  pub record TellsMigration (migration : Migration) (line : PrintedLine) : Type 0 where
    pub flow : PrintedFlow
    pub place : ℕ
    pub ring : RingBuffer
    pub says : line ≡ migrated flow (last_of h place) migration.destination_core
    pub prints : Prints m h flow migration.key place ring

  -- The line tells of the flow number `j` of the core `c`, which is in the table with a ring buffer
  -- that names this core.
  pub record TellsFlow (c : ℕ) (core : CoreLoad) (j : ℕ) (line : PrintedLine) : Type 0 where
    pub flow : PrintedFlow
    pub place : ℕ
    pub ring : RingBuffer
    pub says : line ≡ core_flow (core.flow_keys j).proto flow c
    pub prints : Prints m h flow (core.flow_keys j) place ring
    pub belongs : ring.assigned_core ≡ c

  -- For each core from `i` on a heading and a line for each of its flows.
  unfoldable pub TellsCores : (left i : ℕ) → Array CoreLoad → List PrintedLine → Type 0
  TellsCores zero i cores lines = lines ≡ []
  TellsCores (suc left) i cores lines =
      (flows : List PrintedLine) × (later : List PrintedLine) × (lines
        ≡ core_heading i ∷ (flows ++ later))
      × Each (TellsFlow i (cores i)) (cores i).nb_flows 0 flows
      × TellsCores left (i + 1) cores later

  load-found : {p : ℕ} {rb : RingBuffer} → h.cell p ≡ some rb → load p h ≡ ok rb
  unfolding load
  load-found here = ground (arith, here)

  get_last-last_of :
      {p : ℕ} {rb : RingBuffer} → HasRings h → h.cell p ≡ some rb → get_last rb ≡ ok (last_of h p)
  unfolding get_last
  get_last-last_of {p} {rb} rings here = let place = (rings p rb here).place in ground (arith, here)

  print_loop-tells :
      {n : ℕ} (left i : ℕ) (migs : Migrations)
      → i + left ≡ migs.nb_migrations
      → migs.nb_migrations ≤ max_rebalance_iterations
      → HasRings h
      → ((key : FiveTuple) (p : ℕ)
          → view m key ≡ some p
          → (get m key ≡ ok p) × ((rb : RingBuffer) × (h.cell p ≡ some rb)))
      → ((k : ℕ) → k < migs.nb_migrations → MayUse n m (migs.migrations k))
      → Returns (print_loop left i migs m h) (Each (λ k. TellsMigration (migs.migrations k)) left i)
  unfolding print_loop Each
  print_loop-tells zero i migs e few rings live sensible = ([], refl, tt)
  print_loop-tells (suc left) i migs e few rings live sensible =
      let migration = migs.migrations i in
      let (p, there) = (sensible i (omega arith)).1 in
      let (found, (rb, here)) = live migration.key p there in
      let (later, run, all) =
        print_loop-tells left (i + 1) migs (omega arith) few rings live sensible in
      (
        migrated (printed_flow migration.key) (last_of h p) migration.destination_core ∷ later,
        rw
            (
              read-ok max_rebalance_iterations migs.migrations i (omega arith),
              found,
              load-found here,
              get_last-last_of rings here,
              run,
            )
            refl,
        (
          record {
            flow = printed_flow migration.key;
            place = p;
            ring = rb;
            says = refl;
            prints = printed_flow-Prints migration.key there here;
          },
          all,
        ),
      )

  core_flows_loop-tells :
      (c left j : ℕ) (core : CoreLoad)
      → j + left ≡ core.nb_flows
      → core.nb_flows ≤ hashmap_size
      → IsStocked m h c core
      → Returns (core_flows_loop left j core) (Each (TellsFlow c core) left j)
  unfolding core_flows_loop Each
  core_flows_loop-tells c zero j core e fits stocked = ([], refl, tt)
  core_flows_loop-tells c (suc left) j core e fits stocked =
      let key = core.flow_keys j in
      let (later, run, all) =
        core_flows_loop-tells c left (j + 1) core (omega arith) fits stocked in
      let (rb, here, belongs) = stocked.assigned j (omega arith) in
      let named = stocked.named in
      (
        core_flow key.proto (printed_flow key) core.core_idx ∷ later,
        rw (read-ok hashmap_size core.flow_keys j (omega arith), run) refl,
        (
          record {
            flow = printed_flow key;
            place = _;
            ring = rb;
            says = rw named refl;
            prints = printed_flow-Prints key (stocked.keyed j (omega arith)) here;
            belongs = belongs;
          },
          all,
        ),
      )

module _ (n : ℕ) (m : HashMap) (h : Heap) (cores : Array CoreLoad) where
  -- The line tells of the number of flows of a core, and of its load.
  abbrev pub TellsTotal : ℕ → PrintedLine → Type 0
  TellsTotal c line = line ≡ core_total c (cores c).nb_flows (cores c).total

  totals_loop-tells :
      (left i : ℕ) → i + left ≡ n → Returns (totals_loop n left i cores) (Each TellsTotal left i)
  unfolding totals_loop Each
  totals_loop-tells zero i e = ([], refl, tt)
  totals_loop-tells (suc left) i e =
      let (later, run, all) = totals_loop-tells left (i + 1) (omega arith) in
      (
        core_total i (cores i).nb_flows (cores i).total ∷ later,
        rw (read-ok n cores i (omega arith), run) refl,
        (refl, all),
      )

  cores_loop-tells :
      (left i : ℕ)
      → i + left ≡ n
      → IsSplit n m h cores
      → Returns (cores_loop n left i cores) (TellsCores m h left i cores)
  unfolding cores_loop TellsCores
  cores_loop-tells zero i e split = ([], refl, refl)
  cores_loop-tells (suc left) i e split =
      let (later, run, all) = cores_loop-tells left (i + 1) (omega arith) split in
      let few = split.few in
      let (flows, run', told) =
        core_flows_loop-tells m h i (cores i).nb_flows 0 (cores i) (omega arith)
          (omega (arith, term-le-sum_below (λ k. (cores k).nb_flows) i n (omega arith)))
          (split.stocked i (omega arith)) in
      (
        core_heading i ∷ (flows ++ later),
        rw (read-ok n cores i (omega arith), run', run) refl,
        (flows, later, refl, told, all),
      )

  -- `balancer_print_migrations`, on the cores between which a table is split, with at most 10
  -- migrations, each of a flow of the table to a core that exists: it ends normally. It prints a
  -- line for each migration in their order, then a line for each core in their order, then for each
  -- core in their order a heading and a line for each flow of the core in their order, and nothing
  -- else. The line of a migration tells of its flow, of the last load of the ring buffer that the
  -- table has for this flow, and of its destination. The line of a core tells of its number of
  -- flows and of its load. The line of a flow tells of that flow of the core, of which the table
  -- has a ring buffer that names the core, and of its protocol and the core. The numbers of each
  -- address, with the lowest first, are the address.
  pub print_migrations-tells :
      (migs : Migrations)
      → IsSplit n m h cores
      → migs.nb_migrations ≤ max_rebalance_iterations
      → ((key : FiveTuple) (p : ℕ)
          → view m key ≡ some p
          → (get m key ≡ ok p) × ((rb : RingBuffer) × (h.cell p ≡ some rb)))
      → ((k : ℕ) → k < migs.nb_migrations → MayUse n m (migs.migrations k))
      → Returns (print_migrations n migs cores m h) λ lines.
        (first : List PrintedLine) × (second : List PrintedLine) × (third : List PrintedLine)
        × (lines ≡ first ++ (second ++ third))
        × Each (λ k. TellsMigration m h (migs.migrations k)) migs.nb_migrations 0 first
        × Each TellsTotal n 0 second
        × TellsCores m h n 0 cores third
  unfolding print_migrations
  print_migrations-tells migs split few live sensible =
      let (first, run₁, told₁) =
        print_loop-tells m h migs.nb_migrations 0 migs (omega arith) few split.rings live
          sensible in
      let (second, run₂, told₂) = totals_loop-tells n 0 (omega arith) in
      let (third, run₃, told₃) = cores_loop-tells n 0 (omega arith) split in
      (
        first ++ (second ++ third),
        rw (run₁, run₂, run₃) refl,
        (first, second, third, refl, told₁, told₂, told₃),
      )
