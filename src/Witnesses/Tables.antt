-- ===== src/Witnesses/Tables.antt =====
-- Runs of src/hashmap.c and src/balancer.c on tables that hold some flows.
use o_rss_nic.Prelude.{
  List, Returns, [], arith, bad_pointer, fault, if◌then◌else◌, inr, no_return, none, ok, refl, some,
  true, ℕ, ◌+◌, ◌==◌, ◌>>=◌, ◌↔◌, ◌∷◌, ◌≡◌,
}
use o_rss_nic.FiveTuple.{FiveTuple, zero_tuple, five_tuple_equals}
use o_rss_nic.HashMap.{
  get, hashmap_size, insert, remove, new, get_next, cleanup_inactive_flows, destroy,
}
use o_rss_nic.HashMap.Lookup.{IsValid, view}
use o_rss_nic.HashMap.Insert.{Inserts, insert-Inserts}
use o_rss_nic.HashMap.Ownership.{IsOwned, Removes, remove-Removes}
use o_rss_nic.HashMap.Fresh.{new-fresh}
use o_rss_nic.RingBuffer.{RingBuffer, init as fresh_ring}
use o_rss_nic.Heap.{null}
use o_rss_nic.HashMap.Contents.{
  contents, Operation, calls_new, calls_remove, calls_cleanup, writes, AllowsAll, Allows, change,
  perform_all, change_all,
}
use o_rss_nic.HashMap.Changes.{Holds, contents-none}
use o_rss_nic.HashMap.Contract.{perform_all-Holds}
use o_rss_nic.HashMap.Cleanup.{Cleans, cleanup_inactive_flows-Cleans}
use o_rss_nic.HashMap.Dense.{destroy-remove_first, get_next-neighbour}
use o_rss_nic.Witnesses.Samples.{
  flow_key, table, heap, table-IsValid, table-IsOwned, table-IsDense, table-absent,
}

insert_example : Returns (insert (table 3) zero_tuple 9) (Inserts (table 3) zero_tuple 9)
insert_example = insert-Inserts zero_tuple 9 (table-IsValid 3 (omega arith)) (inr (omega arith))

remove_example :
    Returns (remove (table 3) (flow_key 1) (heap 3)) (Removes (table 3) (heap 3) (flow_key 1))
remove_example =
    remove-Removes (flow_key 1) (table-IsValid 3 (omega arith)) (table-IsOwned 3 (omega arith))

new_example : Returns (new (table 3) zero_tuple (heap 3)) λ r.
    IsValid r.1
    × IsOwned r.1 r.2
    × ((q : FiveTuple)
        → view r.1 q ≡ (if five_tuple_equals zero_tuple q then some r.0 else view (table 3) q))
    × ((p : ℕ) → r.2.cell p ≡ (if r.0 == p then some fresh_ring else (heap 3).cell p))
    × ((heap 3).cell r.0 ≡ none)
    × (r.1.size ≡ (table 3).size + 1)
new_example =
    new-fresh zero_tuple (table-IsValid 3 (omega arith)) (table-IsOwned 3 (omega arith))
      (table-absent 3) (omega arith)

cleanup_example : Returns (cleanup_inactive_flows (table 3) (heap 3)) (Cleans (table 3) (heap 3))
cleanup_example =
    cleanup_inactive_flows-Cleans (table-IsValid 3 (omega arith)) (table-IsOwned 3 (omega arith))

-- A new flow, a count for it, its end, and a cleanup.
abbrev counted_ring : RingBuffer
counted_ring = record fresh_ring { is_active = true }

abbrev some_operations : List Operation
some_operations =
    calls_new zero_tuple
    ∷ (writes zero_tuple counted_ring ∷ (calls_remove zero_tuple ∷ (calls_cleanup ∷ [])))

some_operations-AllowsAll : AllowsAll (contents (table 3) (heap 3)) some_operations
unfolding AllowsAll Allows change five_tuple_equals
some_operations-AllowsAll = (
  contents-none (table 3) (heap 3) zero_tuple (table-absent 3),
  ((fresh_ring, refl), (tt, (tt, tt))),
)

contract_example : Returns (perform_all some_operations (table 3) (heap 3)) λ r.
    Holds (change_all some_operations (contents (table 3) (heap 3))) 7 r
    × ((q : FiveTuple)
        → (get r.0 q ≡ ok null)
          ↔ (change_all some_operations (contents (table 3) (heap 3)) q ≡ none))
contract_example =
    perform_all-Holds some_operations (table-IsValid 3 (omega arith))
      (table-IsOwned 3 (omega arith)) some_operations-AllowsAll (omega arith)

double_free_example :
    (remove (table 3) (flow_key 0) (heap 3) >>= λ r. destroy r.0 r.1) ≡ fault bad_pointer
double_free_example =
    destroy-remove_first (table-IsValid 3 (omega arith)) (table-IsDense 3 (omega arith))
      (table-IsOwned 3 (omega arith)) (omega arith)

-- After the last of 1024 flows.
next_example : get_next (table hashmap_size) ((table hashmap_size).map 1023).key ≡ fault no_return
next_example = get_next-neighbour 1023 (table-IsValid hashmap_size (omega arith)) (omega arith) refl
