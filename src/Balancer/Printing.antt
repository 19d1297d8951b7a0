-- ===== src/Balancer/Printing.antt =====
-- `balancer_print_migrations` of src/balancer.c: the migrations and the cores as they are printed.
use o_rss_nic.Prelude.{
  Array, List, Run, [], ok, read, suc, zero, ℕ, ◌%◌, ◌++◌, ◌+◌, ◌/◌, ◌>>=◌, ◌^◌, ◌∷◌,
}
use o_rss_nic.FiveTuple.{FiveTuple}
use o_rss_nic.Heap.{Heap, load}
use o_rss_nic.HashMap.{HashMap, hashmap_size, get}
use o_rss_nic.RingBuffer.{get_last}
use o_rss_nic.Balancer.Shapes.{max_rebalance_iterations, CoreLoad, Migrations}

-- The two ends of a flow, with the four numbers of each address.
pub record PrintedFlow : Type 0 where
  pub src : List ℕ
  pub src_port : ℕ
  pub dst : List ℕ
  pub dst_port : ℕ

-- The lines, without the text between their parts; `core_flow` starts with the protocol and ends
-- with the index that the core has.
pub data PrintedLine : Type 0 where
  migrated : PrintedFlow → (last destination_core : ℕ) → PrintedLine
  core_total : (core nb_flows total : ℕ) → PrintedLine
  core_heading : (core : ℕ) → PrintedLine
  core_flow : (proto : ℕ) → PrintedFlow → (core_idx : ℕ) → PrintedLine

-- The lowest byte of an address comes first.
abbrev pub low_octets : ℕ → List ℕ
low_octets ip = ip % 256 ∷ (ip / 2 ^ 8) % 256 ∷ (ip / 2 ^ 16) % 256 ∷ (ip / 2 ^ 24) % 256 ∷ []

abbrev pub printed_flow : FiveTuple → PrintedFlow
printed_flow key = record {
  src = low_octets key.src_ip;
  src_port = key.src_port;
  dst = low_octets key.dst_ip;
  dst_port = key.dst_port;
}

-- The migrations; `left` is `nb_migrations - i`.
unfoldable pub print_loop : (left i : ℕ) → Migrations → HashMap → Heap → Run (List PrintedLine)
print_loop zero i migs m h = ok []
print_loop (suc left) i migs m h =
    let rest = print_loop left (i + 1) migs m h in
    do
      migration ← read max_rebalance_iterations migs.migrations i
      p ← get m migration.key
      rb ← load p h
      last ← get_last rb
      later ← rest
      ok (migrated (printed_flow migration.key) last migration.destination_core ∷ later)

-- The flows of a core; `left` is `nb_flows - j`.
unfoldable pub core_flows_loop : (left j : ℕ) → CoreLoad → Run (List PrintedLine)
core_flows_loop zero j core = ok []
core_flows_loop (suc left) j core =
    let rest = core_flows_loop left (j + 1) core in
    do
      key ← read hashmap_size core.flow_keys j
      later ← rest
      ok (core_flow key.proto (printed_flow key) core.core_idx ∷ later)

module _ (nb_cores : ℕ) where
  -- The load of the cores; `left` is `nbCores - i`.
  unfoldable pub totals_loop : (left i : ℕ) → Array CoreLoad → Run (List PrintedLine)
  totals_loop zero i cores = ok []
  totals_loop (suc left) i cores =
      let rest = totals_loop left (i + 1) cores in
      do
        core ← read nb_cores cores i
        later ← rest
        ok (core_total i core.nb_flows core.total ∷ later)

  -- The flows of the cores; `left` is `nbCores - i`.
  unfoldable pub cores_loop : (left i : ℕ) → Array CoreLoad → Run (List PrintedLine)
  unfolding core_flows_loop
  cores_loop zero i cores = ok []
  cores_loop (suc left) i cores =
      let rest = cores_loop left (i + 1) cores in
      do
        core ← read nb_cores cores i
        flows ← core_flows_loop core.nb_flows 0 core
        later ← rest
        ok (core_heading i ∷ (flows ++ later))

  unfoldable pub print_migrations :
      Migrations → Array CoreLoad → HashMap → Heap → Run (List PrintedLine)
  unfolding print_loop totals_loop cores_loop
  print_migrations migs cores m h = do
    migrations ← print_loop migs.nb_migrations 0 migs m h
    totals ← totals_loop nb_cores 0 cores
    flows ← cores_loop nb_cores 0 cores
    ok (migrations ++ (totals ++ flows))
