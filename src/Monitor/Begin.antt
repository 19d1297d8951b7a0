-- ===== src/Monitor/Begin.antt =====
-- The state of `main` in src/main.c before its first round.
use o_rss_nic.Prelude.{
  Option-cases, [], arith, inl, inr, none, refl, some, suc, sym, true, zero, ℕ, ◌+◌, ◌≡◌, ◌≤◌,
}
use o_rss_nic.HashMap as Table
use o_rss_nic.Openflow.{Connection, World, msg_buffer_size}
use o_rss_nic.HashMap.Lookup.{view, view-some, slot_of-some}
use o_rss_nic.Monitor.Record.{HasActive}
use o_rss_nic.HashMap.Dense.{init-IsDense}
use o_rss_nic.Monitor.Orders.{HasKeys, vlan_after}
use o_rss_nic.Monitor.Belongs.{core_of-none}
use o_rss_nic.Words.{ByteOrder}
use o_rss_nic.Monitor.Main.{Program}
use o_rss_nic.Monitor.Queries.{IsRunning}
use o_rss_nic.Monitor.{nb_cores}
use o_rss_nic.Heap.{no_blocks}
use o_rss_nic.Balancer.Repartition.{IsReady}
use o_rss_nic.HashMap.Scan.{count_valid}
use o_rss_nic.FiveTuple.{FiveTuple}
use o_rss_nic.HashMap.{hashmap_size}

empty-count : (left i : ℕ) → count_valid Table.init.map left i ≡ 0
unfolding count_valid
empty-count zero i = refl
empty-count (suc left) i = omega (arith, empty-count left (i + 1))

-- The table and the blocks of a program that has just started.
empty-IsReady : IsReady nb_cores Table.init no_blocks
empty-IsReady = record {
  valid = record {
    counted = empty-count hashmap_size 0;
    distinct = λ i j hi hj vi vj e. absurd (cc);
  };
  dense = init-IsDense;
  owned = record {
    live = λ i hi vi. absurd (cc);
    apart = λ i j hi hj vi vj e. absurd (cc);
    held = λ p rb there. absurd (cc);
    unused = λ q hq. refl;
    no_null = refl;
    started = omega arith;
  };
  rings = λ p rb there. absurd (cc);
  room = omega arith;
  cores_exist = λ p rb there. absurd (cc);
}

-- The program when the connection is made.
abbrev pub begin : Connection → World → Program
begin conn w = record {
  map = Table.init;
  heap = no_blocks;
  conn = conn;
  world = w;
  fresh = 1;
  orders = [];
}

empty_view : (q : FiveTuple) (p : ℕ) → view Table.init q ≡ some p → ⊥
empty_view q p e =
    let (i, slot, _) = view-some Table.init q e in
    let (_, used, _) = slot_of-some Table.init q slot in cc

empty_view-none : (q : FiveTuple) → view Table.init q ≡ none
empty_view-none q = elim (Option-cases (view Table.init q)) [
  | inl e ↦ e
  | inr (p, e) ↦ absurd (empty_view q p e)
]

pub begin-IsRunning :
    (order : ByteOrder) (Unused : FiveTuple → Type 0) (conn : Connection) (w : World)
    → conn.nb_msg_buffered ≤ msg_buffer_size
    → IsRunning order Unused true (begin conn w)
unfolding HasActive HasKeys vlan_after
begin-IsRunning order Unused conn w fits = record {
  tables = empty-IsReady;
  active = λ p rb there. absurd (cc);
  fits = fits;
  keys = λ q p e. absurd (empty_view q p e);
  absent = λ q hq. empty_view-none q;
  vlans = λ f comes. omega arith;
  agrees =
      λ none_lost f comes. sym (core_of-none Table.init no_blocks f.flow (empty_view-none f.flow));
}
