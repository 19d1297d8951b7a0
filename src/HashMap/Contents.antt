-- ===== src/HashMap/Contents.antt =====
-- What the table of src/hashmap.c promises: it is a finite map from keys to ring buffers, which
-- forgets in which slots the keys stand and at which addresses the ring buffers do.
use o_rss_nic.Prelude.{List, Option, Run, [], if◌then◌else◌, none, ok, some, ◌>>=◌, ◌∷◌, ◌≡◌}
use o_rss_nic.FiveTuple.{FiveTuple, five_tuple_equals}
use o_rss_nic.RingBuffer.{RingBuffer, init as fresh_ring}
use o_rss_nic.Heap.{Heap, store}
use o_rss_nic.HashMap.{HashMap, new, get, remove, cleanup_inactive_flows}
use o_rss_nic.HashMap.Lookup.{view}
use o_rss_nic.HashMap.Cleanup.{keep}

-- The ring buffer of each key.
abbrev pub Contents : Type 0
Contents = FiveTuple → Option RingBuffer

unfoldable pub contents : HashMap → Heap → Contents
contents m h q = elim (view m q) [ none ↦ none | some p ↦ h.cell p ]

-- The calls that change the table or a ring buffer in it: `hashmap_new`, `hashmap_remove`,
-- `hashmap_cleanup_inactive_flows`, and a write through the pointer that `hashmap_get` gives.
pub data Operation : Type 0 where
  calls_new : FiveTuple → Operation
  calls_remove : FiveTuple → Operation
  calls_cleanup : Operation
  writes : FiveTuple → RingBuffer → Operation

unfoldable pub perform : Operation → HashMap → Heap → Run (HashMap × Heap)
unfolding new remove cleanup_inactive_flows get store
perform (calls_new key) m h = do (_, m', h') ← new m key h; ok (m', h')
perform (calls_remove key) m h = remove m key h
perform calls_cleanup m h = cleanup_inactive_flows m h
perform (writes key rb) m h = do p ← get m key; h' ← store p rb h; ok (m, h')

unfoldable pub perform_all : List Operation → HashMap → Heap → Run (HashMap × Heap)
unfolding perform
perform_all [] m h = ok (m, h)
perform_all (o ∷ later) m h =
    let rest = perform_all later in do (m', h') ← perform o m h; rest m' h'

-- The same on a finite map.
unfoldable pub change : Operation → Contents → Contents
change (calls_new key) s q = if five_tuple_equals key q then some fresh_ring else s q
change (calls_remove key) s q = if five_tuple_equals key q then none else s q
change calls_cleanup s q = keep (s q)
change (writes key rb) s q = if five_tuple_equals key q then some rb else s q

unfoldable pub change_all : List Operation → Contents → Contents
change_all [] s = s
change_all (o ∷ later) s = change_all later (change o s)

-- A new key is not there before, and a write goes to a key that is there.
unfoldable pub Allows : Contents → Operation → Type 0
Allows s (calls_new key) = s key ≡ none
Allows s (calls_remove key) = Unit
Allows s calls_cleanup = Unit
Allows s (writes key rb) = (old : RingBuffer) × (s key ≡ some old)

unfoldable pub AllowsAll : Contents → List Operation → Type 0
AllowsAll s [] = Unit
AllowsAll s (o ∷ later) = Allows s o × AllowsAll (change o s) later
