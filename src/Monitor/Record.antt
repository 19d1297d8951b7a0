-- ===== src/Monitor/Record.antt =====
-- What a round of src/main.c does to the table with the count of one flow.
use o_rss_nic.Prelude.{
  Option-cases, Returns, ap, arith, false, inl, inr, none, ok, ok-injective, refl, some, subst, sym,
  true, ℕ, ℕ_discrete, ◌%◌, ◌*◌, ◌+◌, ◌<◌, ◌==◌, ◌∙◌, ◌≡◌, ◌≢◌, ◌≤◌,
}
use Prim.Native.Nat.{bit_or}
use o_rss_nic.RingBuffer.{RingBuffer, u64_mod, init, add}
use o_rss_nic.RingBuffer.Bounds.{IsValid, init-IsValid, added, add-eq-added, added-IsValid}
use o_rss_nic.Heap.{Heap, null, ringbuffer_init}
use o_rss_nic.HashMap.{HashMap, hashmap_size, new}
use o_rss_nic.HashMap.Ownership.{view-live}
use o_rss_nic.HashMap.Fresh.{new-fresh}
use o_rss_nic.Balancer.Repartition.{IsReady}
use o_rss_nic.FiveTuple.{FiveTuple, five_tuple_equals, five_tuple_equals_refl}
use o_rss_nic.HashMap.Lookup.{view, get-view}
use o_rss_nic.HashMap.Insert.{insert-Inserts}
use o_rss_nic.HashMap.Dense.{IsDense, insert-IsDense}
use o_rss_nic.Monitor.{get_or_new, record_flow}
use o_rss_nic.Openflow.Convert.{FlowStats, openflow_ovsbe64_to_uint64}
use o_rss_nic.Openflow.FlowMod.{flow_of}
use o_rss_nic.HashMap.Writing.{stored, load-ok, store-ok}
use o_rss_nic.Monitor.Store.{stored-IsReady}

-- What `get_or_new` gives: an address for the key, and the ring buffer there.
pub record Gives (n : ℕ) (m : HashMap) (h : Heap) (key : FiveTuple) (r : ℕ × HashMap × Heap)
    : Type 0 where
  pub ready : IsReady n r.1 r.2
  pub found : view r.1 key ≡ some r.0
  pub others : (q : FiveTuple) → five_tuple_equals key q ≡ false → view r.1 q ≡ view m q
  pub cells : (p : ℕ) → p ≢ r.0 → r.2.cell p ≡ h.cell p
  pub ring : r.2.cell r.0 ≡ elim (view m key) [ none ↦ some init | some p ↦ h.cell p ]
  pub grows : r.1.size ≤ m.size + 1

module _ {n : ℕ} {m : HashMap} {h : Heap} (key : FiveTuple) (ready : IsReady n m h) where
  present-Gives : (p : ℕ) → view m key ≡ some p → Gives n m h key (p, m, h)
  present-Gives p e = record {
    ready = ready;
    found = e;
    others = λ q ne. refl;
    cells = λ q ne. refl;
    ring = rw e refl;
    grows = omega arith;
  }

  get-present : (p : ℕ) → view m key ≡ some p → get_or_new key m h ≡ ok (p, m, h)
  unfolding get_or_new
  get-present p e =
      let (rb, here) = view-live key ready.owned e in
      let gone = ready.owned.no_null in
      let real : (p == null) ≡ false = ground (arith, ap h.cell {x = p} {y = null}) in
      rw (get-view key ready.valid, e, real) refl

  get-absent : view m key ≡ none → get_or_new key m h ≡ new m key h
  unfolding get_or_new
  get-absent e = rw (get-view key ready.valid, e) refl

  new-Gives :
      0 < n
      → view m key ≡ none
      → m.size + 1 < hashmap_size
      → Returns (new m key h) (Gives n m h key)
  unfolding new ringbuffer_init
  new-Gives cores absent room =
      let (r, run, (valid, owned, reads, cells, fresh, size)) =
        new-fresh key ready.valid ready.owned absent (omega arith) in
      let (m', inserted, _) = insert-Inserts key h.next ready.valid (inr (omega arith)) in
      let dense = insert-IsDense key h.next ready.valid ready.dense inserted in
      let is_r : r ≡ (h.next, m', (ringbuffer_init h).1) =
        ok-injective (sym run ∙ rw inserted refl) in
      (
        r,
        run,
        record {
          ready = record {
            valid = valid;
            dense = subst (λ x. IsDense x.1) (sym is_r) dense;
            owned = owned;
            rings = λ q rb there. elim (ℕ_discrete r.0 q) [
              | yes same ↦
                  let is_rb : init ≡ rb = ground (arith, cells q) in
                  subst IsValid is_rb init-IsValid
              | no other ↦ ready.rings q rb (ground (arith, cells q))
            ];
            room = omega arith;
            cores_exist = λ q rb there. elim (ℕ_discrete r.0 q) [
              | yes same ↦ let is_rb : init ≡ rb = ground (arith, cells q) in rw (← is_rb) cores
              | no other ↦ ready.cores_exist q rb (ground (arith, cells q))
            ];
          };
          found = reads key ∙ rw (five_tuple_equals_refl key) refl;
          others = λ q ne. reads q ∙ rw ne refl;
          cells = λ q ne. cells q ∙ ground arith;
          ring = rw absent (cells r.0 ∙ ground arith);
          grows = omega arith;
        },
      )

  get_or_new-Gives :
      0 < n → m.size + 1 < hashmap_size → Returns (get_or_new key m h) (Gives n m h key)
  get_or_new-Gives cores room = elim (Option-cases (view m key)) [
    | inl absent ↦ rw (get-absent absent) (new-Gives cores absent room)
    | inr (p, e) ↦ ((p, m, h), get-present p e, present-Gives p e)
  ]

-- The packets that the switch counted for a flow, and the key of the flow.
abbrev pub packets : FlowStats → ℕ
packets stats =
    bit_or (stats.packet_count.hi * 4294967296 % 18446744073709551616) stats.packet_count.lo

abbrev pub key_of : FlowStats → FiveTuple
key_of stats = record {
  src_ip = stats.match_.nw_src;
  dst_ip = stats.match_.nw_dst;
  src_port = stats.match_.tp_src;
  dst_port = stats.match_.tp_dst;
  proto = stats.match_.nw_proto;
}

-- Every ring buffer has seen a count.
unfoldable pub HasActive : Heap → Type 0
HasActive h = (p : ℕ) (rb : RingBuffer) → h.cell p ≡ some rb → rb.is_active ≡ true

-- What a round does with the count of one flow.
pub record Records (n : ℕ) (m : HashMap) (h : Heap) (stats : FlowStats) (r : HashMap × Heap)
    : Type 0 where
  pub ready : IsReady n r.0 r.1
  pub place : ℕ
  pub found : view r.0 (key_of stats) ≡ some place
  pub before : RingBuffer
  pub was : elim (view m (key_of stats)) [ none ↦ some init | some p ↦ h.cell p ] ≡ some before
  pub after : RingBuffer
  pub counted : add before (packets stats) ≡ ok after
  pub is_added : after ≡ added before (packets stats)
  pub active : after.is_active ≡ true
  pub same_core : after.assigned_core ≡ before.assigned_core
  pub now : r.1.cell place ≡ some after
  pub others : (q : FiveTuple) → five_tuple_equals (key_of stats) q ≡ false → view r.0 q ≡ view m q
  pub cells : (p : ℕ) → p ≢ place → r.1.cell p ≡ h.cell p
  pub grows : r.0.size ≤ m.size + 1

pub Records-HasActive :
    {n : ℕ} {m : HashMap} {h : Heap} {stats : FlowStats} {r : HashMap × Heap}
    → Records n m h stats r
    → HasActive h
    → HasActive r.1
unfolding HasActive
Records-HasActive {r = r} made old p rb there = elim (ℕ_discrete p made.place) [
  | yes same ↦
      let now = made.now in
      let is_after : made.after ≡ rb = ground (arith, now, there, ap r.1.cell same) in
      rw (← is_after) made.active
  | no other ↦ old p rb (sym (made.cells p other) ∙ there)
]

-- The body of the loop of `get_migrations`, on a table and ring buffers that are ready for the
-- balancer, for at least one core, with two free slots, and a count that is a `uint64_t`: it ends
-- normally, and leaves them ready. The flow has a ring buffer, the one that it had or a new one,
-- into which `ringbuffer_add` has put the count. The other flows and ring buffers are as before.
pub record_flow-Records :
    {n : ℕ} {m : HashMap} {h : Heap} (stats : FlowStats)
    → 0 < n
    → IsReady n m h
    → m.size + 1 < hashmap_size
    → packets stats < u64_mod
    → Returns (record_flow stats m h) (Records n m h stats)
unfolding record_flow flow_of openflow_ovsbe64_to_uint64
record_flow-Records {n} {m} {h} stats cores ready room small =
    let ((p, m', h'), run, g) = get_or_new-Gives (key_of stats) ready cores room in
    let (old, here) = view-live (key_of stats) g.ready.owned g.found in
    let valid = g.ready.rings p old here in
    let rb = added old (packets stats) in
    (
      (m', stored h' p rb),
      rw (run, load-ok h' p here, add-eq-added (packets stats) valid, store-ok h' p here rb) refl,
      record {
        ready =
            stored-IsReady h' p here rb (added-IsValid (packets stats) small valid)
              (g.ready.cores_exist p old here) g.ready;
        place = p;
        found = g.found;
        before = old;
        was = sym g.ring ∙ here;
        after = rb;
        counted = add-eq-added (packets stats) valid;
        is_added = refl;
        active = refl;
        same_core = refl;
        now = ground arith;
        others = g.others;
        cells = λ q ne. let same = g.cells q ne in ground arith;
        grows = g.grows;
      },
    )
