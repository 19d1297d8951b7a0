-- ===== src/HashMap/Contract.antt =====
-- The table of src/hashmap.c keeps what `Contents` promises, over any calls in any order.
use o_rss_nic.Prelude.{
  List, Returns, Run, [], ap, arith, fun_ext, length, none, ok, refl, subst, sym, ℕ, ◌+◌, ◌<◌, ◌↔◌,
  ◌∙◌, ◌∷◌, ◌≡◌, ◌≤◌,
}
use o_rss_nic.FiveTuple.{FiveTuple}
use o_rss_nic.Heap.{Heap, null}
use o_rss_nic.HashMap.{HashMap, hashmap_size, get}
use o_rss_nic.HashMap.Lookup.{IsValid}
use o_rss_nic.HashMap.Ownership.{IsOwned, get-null_iff}
use o_rss_nic.HashMap.Contents.{
  contents, Contents, Operation, calls_new, calls_remove, calls_cleanup, writes, perform,
  perform_all, change, change_all, Allows, AllowsAll,
}
use o_rss_nic.HashMap.Changes.{
  Holds, new-Holds, remove-Holds, cleanup-Holds, write-Holds, contents-none, absent-view,
}

-- A looser bound.
more :
    {run : Run (HashMap × Heap)} {s : Contents} {n : ℕ}
    → Returns run (Holds s n)
    → Returns run (Holds s (n + 1))
more (r, run, held) = (
  r,
  run,
  record {
    valid = held.valid;
    owned = held.owned;
    holds = held.holds;
    size = omega (arith, held.size);
  },
)

module _ {m : HashMap} {h : Heap} (valid : IsValid m) (owned : IsOwned m h) where
  perform-Holds :
      (o : Operation)
      → Allows (contents m h) o
      → m.size < hashmap_size
      → Returns (perform o m h) (Holds (change o (contents m h)) (m.size + 1))
  unfolding Allows
  perform-Holds (calls_new key) allowed room = new-Holds valid owned key allowed room
  perform-Holds (calls_remove key) allowed room = more (remove-Holds valid owned key)
  perform-Holds calls_cleanup allowed room = more (cleanup-Holds valid owned)
  perform-Holds (writes key rb) (old, there) room = more (write-Holds valid owned key rb old there)

get-null-contents :
    {m : HashMap} {h : Heap} (q : FiveTuple)
    → IsValid m
    → IsOwned m h
    → (get m q ≡ ok null) ↔ (contents m h q ≡ none)
get-null-contents {m} {h} q valid owned = (
  λ e. contents-none m h q ((get-null_iff q valid owned).0 e),
  λ e. (get-null_iff q valid owned).1 (absent-view q owned e),
)

-- Calls of `hashmap_new`, `hashmap_remove` and `hashmap_cleanup_inactive_flows`, and writes through
-- the pointers that `hashmap_get` gives, any number of them in any order, on a valid table that
-- owns its blocks, where each new key is not there before, each write goes to a key that is there,
-- and there is a slot for each call: they end normally, in a valid table that owns its blocks. It
-- holds exactly what the same calls make of a finite map from keys to ring buffers, and
-- `hashmap_get` gives null exactly for the keys that this map does not have.
pub perform_all-Holds :
    (operations : List Operation) {m : HashMap} {h : Heap}
    → IsValid m
    → IsOwned m h
    → AllowsAll (contents m h) operations
    → m.size + length operations ≤ hashmap_size
    → Returns (perform_all operations m h) λ r.
      Holds (change_all operations (contents m h)) (m.size + length operations) r
      × ((q : FiveTuple) → (get r.0 q ≡ ok null) ↔ (change_all operations (contents m h) q ≡ none))
unfolding perform_all change_all AllowsAll
perform_all-Holds [] {m} {h} valid owned allowed room = (
  (m, h),
  refl,
  (
    record { valid = valid; owned = owned; holds = λ q. refl; size = omega arith },
    λ q. get-null-contents q valid owned,
  ),
)
perform_all-Holds (o ∷ later) {m} {h} valid owned (allowed, then_allowed) room =
    let (r, run, first) = perform-Holds valid owned o allowed (omega arith) in
    let size = first.size in
    let same : contents r.0 r.1 ≡ change o (contents m h) = fun_ext first.holds in
    let (r', run', (held, nulls)) =
      perform_all-Holds later first.valid first.owned
        (subst (λ s. AllowsAll s later) (sym same) then_allowed) (omega arith) in
    (
      r',
      rw run run',
      (
        record {
          valid = held.valid;
          owned = held.owned;
          holds = λ q. held.holds q ∙ ap (λ s. change_all later s q) same;
          size = let last = held.size in omega arith;
        },
        λ q. subst (λ s. (get r'.0 q ≡ ok null) ↔ (change_all later s q ≡ none)) same (nulls q),
      ),
    )
