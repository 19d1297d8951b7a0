-- ===== src/Monitor/Replay.antt =====
-- What the migrations of src/main.c, applied in their order, do to the table and to its flows.
use o_rss_nic.Prelude.{
  Array, Bool, Bool-cases, Option-cases, ap, arith, if◌then◌else◌, inl, inr, refl, some, suc, sym,
  true, zero, ℕ, ◌&&◌, ◌+◌, ◌<◌, ◌∙◌, ◌≡◌,
}
use o_rss_nic.FiveTuple.{FiveTuple, five_tuple_equals, five_tuple_equals_iff}
use o_rss_nic.RingBuffer.{RingBuffer}
use o_rss_nic.Heap.{Heap}
use o_rss_nic.HashMap.{HashMap}
use o_rss_nic.HashMap.Lookup.{view}
use o_rss_nic.Balancer.{Migration}
use o_rss_nic.Balancer.Steps.{apply_one, replay, MayUse}
use o_rss_nic.Balancer.Repartition.{IsReady}
use o_rss_nic.Monitor.Store.{stored-IsReady}
use o_rss_nic.HashMap.Ownership.{view-live}
use o_rss_nic.Balancer.Cores.{reassigned}
use o_rss_nic.Monitor.Belongs.{core_of, core_of-ring, core_of-other}

-- A migration to a core that exists leaves a table that is ready.
apply_one-IsReady :
    {n : ℕ} {m : HashMap} {h : Heap} (migration : Migration)
    → migration.destination_core < n
    → IsReady n m h
    → IsReady n m (apply_one m migration h)
unfolding apply_one
apply_one-IsReady {n} {m} {h} migration exists ready = elim (Option-cases (view m migration.key)) [
  | inl e ↦ rw (apply_one, e) ready
  | inr (p, e) ↦ elim (Option-cases (h.cell p)) [
    | inl e' ↦ rw (apply_one, e, e') ready
    | inr (rb, e') ↦
        let valid = ready.rings p rb e' in
        rw (apply_one, e, e')
          (stored-IsReady h p e' (record rb { assigned_core = migration.destination_core })
            (record { place = valid.place; filled = valid.filled; words = valid.words }) exists
            ready)
  ]
]

pub replay-IsReady :
    {n : ℕ} {m : HashMap} (left i : ℕ) (migrations : Array Migration) {h : Heap}
    → ((k : ℕ) → k < i + left → (migrations k).destination_core < n)
    → IsReady n m h
    → IsReady n m (replay m left i migrations h)
unfolding replay
replay-IsReady zero i migrations exists ready = ready
replay-IsReady (suc left) i migrations exists ready =
    replay-IsReady left (i + 1) migrations (λ k hk. exists k (omega arith))
      (apply_one-IsReady (migrations i) (exists i (omega arith)) ready)

-- The core of a flow after the migrations from number `i` on, of which those count that `counts`
-- names.
unfoldable pub moved : (counts : ℕ → Bool) (left i : ℕ) → Array Migration → FiveTuple → ℕ → ℕ
moved counts zero i migrations q old = old
moved counts (suc left) i migrations q old = moved counts left (i + 1) migrations q (
    if counts i && five_tuple_equals (migrations i).key q
    then (migrations i).destination_core
    else old)

abbrev pub all_count : ℕ → Bool
all_count k = true

pub moved_congr :
    (counts : ℕ → Bool) (left i : ℕ) (migrations : Array Migration) (q : FiveTuple) (old : ℕ)
    → ((k : ℕ) → k < i + left → counts k ≡ true)
    → moved counts left i migrations q old ≡ moved all_count left i migrations q old
unfolding moved
moved_congr counts zero i migrations q old all = refl
moved_congr counts (suc left) i migrations q old all =
    rw (all i (omega arith))
      (moved_congr counts left (i + 1) migrations q _ (λ k hk. all k (omega arith)))

-- It is a core that exists, where every migration goes to one.
pub moved-lt :
    {n : ℕ} (counts : ℕ → Bool) (left i : ℕ) (migrations : Array Migration) (q : FiveTuple)
    (old : ℕ)
    → ((k : ℕ) → k < i + left → (migrations k).destination_core < n)
    → old < n
    → moved counts left i migrations q old < n
unfolding moved
moved-lt counts zero i migrations q old exists small = small
moved-lt counts (suc left) i migrations q old exists small =
    moved-lt counts left (i + 1) migrations q _ (λ k hk. exists k (omega arith))
      (ground (arith, exists i (omega arith)))

apply_one-reassigned :
    (m : HashMap) (h : Heap) (migration : Migration) {p : ℕ} {rb : RingBuffer}
    → view m migration.key ≡ some p
    → h.cell p ≡ some rb
    → apply_one m migration h ≡ reassigned h p rb migration.destination_core
unfolding apply_one
apply_one-reassigned m h migration there here = rw (apply_one, there, here) refl

-- A migration of a flow of the table moves that flow, and no other.
apply_one-core_of :
    {n : ℕ} {m : HashMap} {h : Heap} (migration : Migration) (q : FiveTuple)
    → MayUse n m migration
    → IsReady n m h
    → core_of m (apply_one m migration h) q
      ≡ (if five_tuple_equals migration.key q then migration.destination_core else core_of m h q)
apply_one-core_of {n} {m} {h} migration q (exists, (p, there)) ready =
    let (rb, here) = view-live migration.key ready.owned there in
    let ready' = apply_one-IsReady migration exists ready in
    let run = apply_one-reassigned m h migration there here in
    elim (Bool-cases (five_tuple_equals migration.key q)) [
      | inl equal ↦
          let same = (five_tuple_equals_iff migration.key q).0 equal in
          rw (equal, run)
            (core_of-ring m (reassigned h p rb migration.destination_core) q
              {rb = record rb { assigned_core = migration.destination_core }}
              (ap (view m) (sym same) ∙ there) (ground arith))
      | inr ne ↦ rw ne (
          core_of-other m m h (apply_one m migration h) migration.key q ready' there ne refl
            (λ a other. ap (λ (x : Heap). x.cell a) run ∙ ground arith))
    ]

pub replay-core_of :
    {n : ℕ} {m : HashMap} (left i : ℕ) (migrations : Array Migration) {h : Heap} (q : FiveTuple)
    → ((k : ℕ) → k < i + left → MayUse n m (migrations k))
    → IsReady n m h
    → core_of m (replay m left i migrations h) q
      ≡ moved all_count left i migrations q (core_of m h q)
unfolding replay moved
replay-core_of zero i migrations q known ready = refl
replay-core_of {n} {m} (suc left) i migrations {h} q known ready =
    let this = known i (omega arith) in
    replay-core_of left (i + 1) migrations q (λ k hk. known k (omega arith))
      (apply_one-IsReady (migrations i) this.0 ready)
    ∙ ap (moved all_count left (i + 1) migrations q) (apply_one-core_of (migrations i) q this ready)
