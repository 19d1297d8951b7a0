-- ===== src/Monitor/Belongs.antt =====
-- The core that the table of src/main.c gives to a flow, which recording counts does not change.
use o_rss_nic.Prelude.{
  Bool-cases, Option-cases, ap, arith, false, inl, inr, none, refl, some, sym, ℕ, ◌<◌, ◌∙◌, ◌≡◌,
  ◌≢◌,
}
use o_rss_nic.FiveTuple.{FiveTuple, five_tuple_equals, five_tuple_equals_iff}
use o_rss_nic.RingBuffer.{RingBuffer, init}
use o_rss_nic.Heap.{Heap}
use o_rss_nic.HashMap.{HashMap}
use o_rss_nic.HashMap.Lookup.{view}
use o_rss_nic.HashMap.Ownership.{view-live}
use o_rss_nic.HashMap.ByKey.{IsOwned-OwnsByKey}
use o_rss_nic.RingBuffer.{RingBuffer, init}
use o_rss_nic.Balancer.Repartition.{IsReady}
use o_rss_nic.Openflow.Convert.{FlowStats}
use o_rss_nic.Monitor.Record.{Records, key_of}

-- The core of a flow: that of its ring buffer, and the core 0 of a new one where there is none.
unfoldable pub core_of : HashMap → Heap → FiveTuple → ℕ
core_of m h q = elim (view m q) [
  | none ↦ 0
  | some p ↦ elim (h.cell p) [ none ↦ 0 | some rb ↦ rb.assigned_core ]
]

pub core_of-ring :
    (m : HashMap) (h : Heap) (q : FiveTuple) {p : ℕ} {rb : RingBuffer}
    → view m q ≡ some p
    → h.cell p ≡ some rb
    → core_of m h q ≡ rb.assigned_core
unfolding core_of
core_of-ring m h q e e' = rw (core_of, e, e') refl

pub core_of-none : (m : HashMap) (h : Heap) (q : FiveTuple) → view m q ≡ none → core_of m h q ≡ 0
unfolding core_of
core_of-none m h q e = rw (core_of, e) refl

-- A change of the ring buffer at one address, for a key that is not there.
pub core_of-other :
    {n : ℕ} (m m' : HashMap) (h h' : Heap) (key : FiveTuple) {place : ℕ} (q : FiveTuple)
    → IsReady n m' h'
    → view m' key ≡ some place
    → five_tuple_equals key q ≡ false
    → view m' q ≡ view m q
    → ((p : ℕ) → p ≢ place → h'.cell p ≡ h.cell p)
    → core_of m' h' q ≡ core_of m h q
core_of-other m m' h h' key {place} q ready found ne same cells = elim (Option-cases (view m' q)) [
  | inl e ↦ core_of-none m' h' q e ∙ sym (core_of-none m h q (sym same ∙ e))
  | inr (p, e) ↦
      let own = IsOwned-OwnsByKey ready.valid ready.owned in
      let (rb, here) = own.live q p e in
      let other : p ≢ place = λ at.
        let one = own.apart key q place found (e ∙ ap some at) in
        let yes_equal = (five_tuple_equals_iff key q).1 one in cc in
      core_of-ring m' h' q e here
      ∙ sym (core_of-ring m h q (sym same ∙ e) (sym (cells p other) ∙ here))
]

-- Recording a count moves no flow.
pub record-core_of :
    {n : ℕ} {m : HashMap} {h : Heap} {stats : FlowStats} {r : HashMap × Heap} (q : FiveTuple)
    → Records n m h stats r
    → core_of r.0 r.1 q ≡ core_of m h q
record-core_of {n} {m} {h} {stats} {r} q made =
    elim (Bool-cases (five_tuple_equals (key_of stats) q)) [
      | inl equal ↦
          let same = (five_tuple_equals_iff (key_of stats) q).0 equal in
          ap (core_of r.0 r.1) (sym same)
          ∙ core_of-ring r.0 r.1 (key_of stats) made.found made.now
          ∙ made.same_core
          ∙ at_key
          ∙ ap (core_of m h) same
      | inr ne ↦
          core_of-other m r.0 h r.1 (key_of stats) q made.ready made.found ne (made.others q ne)
            made.cells
    ]
  where
    at_key : made.before.assigned_core ≡ core_of m h (key_of stats)
    at_key = elim (Option-cases (view m (key_of stats))) [
      | inl e ↦
          let new : some init ≡ some made.before = rw e at made.was in
          let is_new : init ≡ made.before = ground arith in
          ap (λ (rb : RingBuffer). rb.assigned_core) (sym is_new)
          ∙ sym (core_of-none m h (key_of stats) e)
      | inr (p, e) ↦
          let here : h.cell p ≡ some made.before = rw e at made.was in
          sym (core_of-ring m h (key_of stats) e here)
    ]

-- On a table that is ready, it is a core that exists.
pub core_of-lt :
    {n : ℕ} {m : HashMap} {h : Heap} (q : FiveTuple) → 0 < n → IsReady n m h → core_of m h q < n
core_of-lt {n} {m} {h} q cores ready = elim (Option-cases (view m q)) [
  | inl e ↦ omega (arith, core_of-none m h q e)
  | inr (p, e) ↦
      let (rb, here) = view-live q ready.owned e in
      omega (arith, core_of-ring m h q e here, ready.cores_exist p rb here)
]
