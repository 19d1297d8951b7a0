-- ===== src/Balancer/Shapes.antt =====
-- The structures of src/balancer.h.
use o_rss_nic.Prelude.{Array, ℕ}
use o_rss_nic.FiveTuple.{FiveTuple, zero_tuple}
use o_rss_nic.Heap.{null}

abbrev pub max_rebalance_iterations : ℕ
max_rebalance_iterations = 10

-- `flows` holds the addresses of the ring buffers. `load` and `biggestLoad_idx` are set by
-- `update_core_info`.
pub record CoreLoad : Type 0 where
  pub core_idx : ℕ
  pub total : ℕ
  pub biggest_load_idx : ℕ
  pub nb_flows : ℕ
  pub flows : Array ℕ
  pub flow_keys : Array FiveTuple

-- The block that `calloc` returns.
abbrev pub no_flows : CoreLoad
no_flows = record {
  core_idx = 0;
  total = 0;
  biggest_load_idx = 0;
  nb_flows = 0;
  flows = λ _. null;
  flow_keys = λ _. zero_tuple;
}

pub record Migration : Type 0 where
  pub key : FiveTuple
  pub destination_core : ℕ

pub record Migrations : Type 0 where
  pub nb_migrations : ℕ
  pub migrations : Array Migration

abbrev pub no_migrations : Migrations
no_migrations = record {
  nb_migrations = 0;
  migrations = λ _. record { key = zero_tuple; destination_core = 0 };
}
