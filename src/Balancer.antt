-- ===== src/Balancer.antt =====
-- src/balancer.c and src/balancer.h: the load of each core, and the flows that change core.
mod Shapes
pub use Shapes.*
pub mod Printing
pub mod Digits
pub mod Told
pub mod Info
pub mod Cores
pub mod Split
pub mod Migrate
pub mod Loads
pub mod Steps
pub mod Balance
pub mod Repartition
pub mod Outcome
use o_rss_nic.Prelude.{
  Array, Bool, Run, division_by_zero, exit_failure, fault, if◌then◌else◌, ltb, ok, out_of_bounds,
  out_of_fuel, read, suc, write, zero, ℕ, ◌%◌, ◌&&◌, ◌+◌, ◌-◌, ◌/◌, ◌==◌, ◌>>=◌, ◌^◌, ◌||◌,
}
use o_rss_nic.FiveTuple.{FiveTuple}
use o_rss_nic.RingBuffer.{u64_mod, get_last}
use o_rss_nic.Heap.{Heap, load, store}
use o_rss_nic.Balancer.Printing.{print_migrations}
use o_rss_nic.HashMap.{HashMap, hashmap_size, next_entry, no_entry, get_next}

-- `ringbuffer_get_last(core->flows[j])`
unfoldable pub flow_load : CoreLoad → Heap → ℕ → Run ℕ
flow_load core h j = do p ← read hashmap_size core.flows j; rb ← load p h; get_last rb

-- The `for` loop; `left` is `nb_flows - j`. The three numbers are `core->load`,
-- `core->biggestLoad_idx` and `biggestLoad`.
unfoldable pub info_loop : CoreLoad → Heap → (left j total idx biggest : ℕ) → Run (ℕ × ℕ)
info_loop core h zero j total idx biggest = ok (total, idx)
info_loop core h (suc left) j total idx biggest =
    let rest = λ (current : ℕ).
      info_loop core h left (j + 1) ((total + current) % u64_mod)
        (if ltb biggest current then j else idx)
        (if ltb biggest current then current else biggest) in
    flow_load core h j >>= rest

unfoldable pub update_core_info : CoreLoad → Heap → Run CoreLoad
update_core_info core h = do
  (total, idx) ← info_loop core h core.nb_flows 0 0 0 0
  ok (record core { total = total; biggest_load_idx = idx })

-- A flow and its key behind the others of a core.
unfoldable pub append_flow : CoreLoad → ℕ → FiveTuple → Run CoreLoad
append_flow core flow key = do
  keys ← write hashmap_size core.flow_keys core.nb_flows key
  addresses ← write hashmap_size core.flows core.nb_flows flow
  ok (record core { flow_keys = keys; flows = addresses; nb_flows = core.nb_flows + 1 })

module _ (nb_cores : ℕ) where
  -- The body of the `while` loop of `balancer_compute_repartition`.
  unfoldable pub place : FiveTuple → ℕ → Array CoreLoad → Heap → Run (Array CoreLoad)
  place key value cores h = do
    rb ← load value h
    core ← read nb_cores cores rb.assigned_core
    if ltb hashmap_size core.nb_flows
        then exit_failure
        else (do core' ← append_flow core value key; write nb_cores cores rb.assigned_core core')

  -- The `while` loop. A round moves to a later slot, so that one round more than there are slots
  -- is enough fuel.
  unfoldable pub gather :
      (fuel : ℕ) → HashMap → FiveTuple → Array CoreLoad → Heap → Run (Array CoreLoad)
  gather zero m previous cores h = fault out_of_fuel
  gather (suc fuel) m previous cores h =
      let rest = λ (key : FiveTuple) (cores' : Array CoreLoad). gather fuel m key cores' h in
      do
        next ← get_next m previous
        elim next [
          | no_entry ↦ ok cores
          | next_entry key value ↦ do cores' ← place key value cores h; rest key cores'
        ]

  -- The `for` loop; `left` is `nbCores - i`.
  unfoldable pub loads_loop : (left i : ℕ) → Array CoreLoad → Heap → Run (Array CoreLoad)
  loads_loop zero i cores h = ok cores
  loads_loop (suc left) i cores h =
      let rest = λ (cores' : Array CoreLoad). loads_loop left (i + 1) cores' h in
      do
        core ← read nb_cores cores i
        core' ← update_core_info (record core { core_idx = i }) h
        cores' ← write nb_cores cores i core'
        rest cores'

  -- `uninitialised` is what `previous_key` holds at the start, which the source does not set.
  unfoldable pub compute_repartition : FiveTuple → HashMap → Heap → Run (Array CoreLoad)
  compute_repartition uninitialised m h = do
    cores ← gather (suc hashmap_size) m uninitialised (λ _. no_flows) h
    loads_loop nb_cores 0 cores h

  -- The last flow of a core takes the place of the one that leaves. On a core with no flow
  -- `nb_flows` becomes -1, which is then an index.
  unfoldable pub remove_flow : CoreLoad → Run CoreLoad
  remove_flow core = if core.nb_flows == 0 then fault out_of_bounds else do
    last ← read hashmap_size core.flows (core.nb_flows - 1)
    last_key ← read hashmap_size core.flow_keys (core.nb_flows - 1)
    addresses ← write hashmap_size core.flows core.biggest_load_idx last
    keys ← write hashmap_size core.flow_keys core.biggest_load_idx last_key
    ok (record core { nb_flows = core.nb_flows - 1; flows = addresses; flow_keys = keys })

  -- `balancer_update_core_info` on the core at an index.
  unfoldable pub refresh : ℕ → Array CoreLoad → Heap → Run (Array CoreLoad)
  refresh i cores h = do
    core ← read nb_cores cores i
    core' ← update_core_info core h
    write nb_cores cores i core'

  -- The two cores are pointers into one array, so each is read when it is used.
  unfoldable pub migrate :
      (big small : ℕ) → Array CoreLoad → Heap → Run (Migration × Array CoreLoad × Heap)
  migrate big small cores h = do
    big_core ← read nb_cores cores big
    flow ← read hashmap_size big_core.flows big_core.biggest_load_idx
    key ← read hashmap_size big_core.flow_keys big_core.biggest_load_idx
    less ← remove_flow big_core
    cores₁ ← write nb_cores cores big less
    small_core ← read nb_cores cores₁ small
    more ← append_flow small_core flow key
    cores₂ ← write nb_cores cores₁ small more
    rb ← load flow h
    h' ← store flow (record rb { assigned_core = more.core_idx }) h
    cores₃ ← refresh big cores₂ h'
    cores₄ ← refresh small cores₃ h'
    last ← read nb_cores cores₄ small
    ok (record { key = key; destination_core = last.core_idx }, cores₄, h')

-- The loads that one pass over the cores collects.
pub record Stats : Type 0 where
  pub average_load : ℕ
  pub biggest_load : ℕ
  pub smallest_load : ℕ
  pub biggest_load_idx : ℕ
  pub smallest_load_idx : ℕ

abbrev pub no_stats : Stats
no_stats = record {
  average_load = 0;
  biggest_load = 0;
  smallest_load = u64_mod - 1;
  biggest_load_idx = 0;
  smallest_load_idx = 0;
}

unfoldable pub stats_step : Stats → (i load : ℕ) → Stats
stats_step s i load = record {
  average_load = (s.average_load + load) % u64_mod;
  biggest_load = if ltb s.biggest_load load then load else s.biggest_load;
  smallest_load = if ltb load s.smallest_load then load else s.smallest_load;
  biggest_load_idx = if ltb s.biggest_load load then i else s.biggest_load_idx;
  smallest_load_idx = if ltb load s.smallest_load then i else s.smallest_load_idx;
}

-- The `for` loop; `left` is `nbCores - i`.
unfoldable pub stats_loop : (nb_cores left i : ℕ) → Array CoreLoad → Stats → Run Stats
stats_loop nb_cores zero i cores s = ok s
stats_loop nb_cores (suc left) i cores s =
    let rest = λ (s' : Stats). stats_loop nb_cores left (i + 1) cores s' in
    do core ← read nb_cores cores i; rest (stats_step s i core.total)

-- The numbers of type `long double`: the conversion, the division and the order of the machine,
-- and the two constants `1 + IMBALANCE_THRESHOLD` and `1 - IMBALANCE_THRESHOLD`.
pub record LongDouble : Type 1 where
  pub Carrier : Type 0
  pub of_uint64 : ℕ → Carrier
  pub divide : Carrier → Carrier → Carrier
  pub less : Carrier → Carrier → Bool
  pub one_plus_threshold : Carrier
  pub one_minus_threshold : Carrier

module _ (floats : LongDouble) where
  open floats use {of_uint64, divide, less, one_plus_threshold, one_minus_threshold}

  -- The condition of the `if`, at the average, the biggest and the smallest load.
  unfoldable pub is_imbalanced : (average biggest smallest : ℕ) → Bool
  is_imbalanced average biggest smallest =
      less one_plus_threshold (divide (of_uint64 biggest) (of_uint64 average))
      || less (divide (of_uint64 smallest) (of_uint64 average)) one_minus_threshold && ltb 0 average

  module _ (nb_cores : ℕ) where
    -- The `while` loop; `left` is `MAX_REBALANCE_ITERATIONS - migrations->nb_migrations`.
    unfoldable pub balance_loop :
        (left : ℕ) → Array CoreLoad → Heap → Migrations → Run (Migrations × Array CoreLoad × Heap)
    balance_loop zero cores h migs = ok (migs, cores, h)
    balance_loop (suc left) cores h migs =
        let rest = λ (cores' : Array CoreLoad) (h' : Heap) (migs' : Migrations).
          balance_loop left cores' h' migs' in
        do
          s ← stats_loop nb_cores nb_cores 0 cores no_stats
          if nb_cores == 0
              then fault division_by_zero
              else if is_imbalanced (s.average_load / nb_cores) s.biggest_load s.smallest_load
              then (do
                (migration, cores', h') ←
                    migrate nb_cores s.biggest_load_idx s.smallest_load_idx cores h
                slots ← write max_rebalance_iterations migs.migrations migs.nb_migrations migration
                rest cores' h'
                    (record { nb_migrations = migs.nb_migrations + 1; migrations = slots }))
              else ok (migs, cores, h)

    -- The number of cores is an int here, and a `uint8_t` to `balancer_compute_repartition`.
    -- What is printed is not part of the result.
    unfoldable pub balance : FiveTuple → HashMap → Heap → Migrations → Run (Migrations × Heap)
    balance uninitialised m h migs = do
      cores ← compute_repartition (nb_cores % 2 ^ 8) uninitialised m h
      (migs', cores', h') ←
          balance_loop (max_rebalance_iterations - migs.nb_migrations) cores h migs
      lines ← print_migrations nb_cores migs' cores' m h'
      ok (migs', h')
