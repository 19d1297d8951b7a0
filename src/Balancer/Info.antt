-- ===== src/Balancer/Info.antt =====
-- `balancer_update_core_info` of src/balancer.c.
use o_rss_nic.Prelude.{
  Returns, add-one, arith, if◌then◌else◌, ltb, none, ok, refl, some, suc, zero, ℕ, ℕ_discrete, ◌%◌,
  ◌+◌, ◌<◌, ◌==◌, ◌≡◌, ◌≢◌, ◌≤◌,
}
use o_rss_nic.RingBuffer.{RingBuffer, u64_mod, get_last}
use o_rss_nic.RingBuffer.Bounds.{IsValid}
use o_rss_nic.Heap.{Heap, load}
use o_rss_nic.HashMap.{hashmap_size}
use o_rss_nic.Balancer.{CoreLoad, flow_load, info_loop, update_core_info}

-- Every block that is there holds a ring in range.
abbrev pub HasRings : Heap → Type 0
HasRings h = (p : ℕ) (rb : RingBuffer) → h.cell p ≡ some rb → IsValid rb

-- The last entry of the ring at an address.
abbrev pub last_of : Heap → ℕ → ℕ
last_of h p = elim (h.cell p) [ none ↦ 0 | some rb ↦ if rb.size == 0 then 0 else rb.buffer rb.pos ]

-- The flows of a core fit, and their ring buffers are there.
pub record IsLoaded (core : CoreLoad) (h : Heap) : Type 0 where
  pub fits : core.nb_flows ≤ hashmap_size
  pub live : (j : ℕ) → j < core.nb_flows → (rb : RingBuffer) × (h.cell (core.flows j) ≡ some rb)

pub flow_load-last_of :
    (core : CoreLoad) (h : Heap) (j : ℕ)
    → HasRings h
    → IsLoaded core h
    → j < core.nb_flows
    → flow_load core h j ≡ ok (last_of h (core.flows j))
unfolding flow_load load get_last
flow_load-last_of core h j rings c hj =
    let (rb, here) = c.live j hj in
    ground (arith, here, c.fits, (rings (core.flows j) rb here).place)

-- The first `n` values of a function, added up.
unfoldable pub sum_below : (ℕ → ℕ) → ℕ → ℕ
sum_below f zero = 0
sum_below f (suc n) = sum_below f n + f n

-- What the loop knows after the first `j` flows.
record Best (f : ℕ → ℕ) (j total idx biggest : ℕ) : Type 0 where
  added : total ≡ sum_below f j % u64_mod
  above : (k : ℕ) → k < j → f k ≤ biggest
  nothing : biggest ≡ 0 → idx ≡ 0
  reached : biggest ≢ 0 → (idx < j) × (f idx ≡ biggest)

Best-step :
    (f : ℕ → ℕ) (j total idx biggest : ℕ)
    → Best f j total idx biggest
    → Best f
        (suc j)
        ((total + f j) % u64_mod)
        (if ltb biggest (f j) then j else idx)
        (if ltb biggest (f j) then f j else biggest)
unfolding sum_below
Best-step f j total idx biggest b = record {
  added = omega (arith, b.added);
  above = λ k hk. elim (ℕ_discrete k j) [
    | yes e ↦ rw e (ground arith)
    | no ne ↦ ground (arith, b.above k)
  ];
  nothing = ground (arith, b.nothing);
  reached = ground (arith, b.reached);
}

info_loop-Best :
    (core : CoreLoad) (h : Heap) (left j total idx biggest : ℕ)
    → HasRings h
    → IsLoaded core h
    → j + left ≡ core.nb_flows
    → Best (λ k. last_of h (core.flows k)) j total idx biggest
    → Returns
        (info_loop core h left j total idx biggest)
        λ r. (top : ℕ) × Best (λ k. last_of h (core.flows k)) core.nb_flows r.0 r.1 top
unfolding info_loop
info_loop-Best core h zero j total idx biggest rings c e b =
    let all : j ≡ core.nb_flows = omega arith in ((total, idx), refl, (biggest, rw (← all) b))
info_loop-Best core h (suc left) j total idx biggest rings c e b =
    let f = λ (k : ℕ). last_of h (core.flows k) in
    rw (flow_load-last_of core h j rings c (omega arith)) (
      info_loop-Best core h left (j + 1) ((total + f j) % u64_mod)
        (if ltb biggest (f j) then j else idx) (if ltb biggest (f j) then f j else biggest) rings c
        (omega arith) (rw add-one (Best-step f j total idx biggest b)))

-- What `balancer_update_core_info` finds out of a core: the load is the sum of the last entries
-- of its flows, as a `uint64_t`, and the index is that of a flow with the biggest last entry.
-- Nothing else of the core changes.
pub record IsInformed (h : Heap) (core : CoreLoad) : Type 0 where
  pub sums : core.total ≡ sum_below (λ k. last_of h (core.flows k)) core.nb_flows % u64_mod
  pub in_range : 0 < core.nb_flows → core.biggest_load_idx < core.nb_flows
  pub biggest :
      (k : ℕ)
      → k < core.nb_flows
      → last_of h (core.flows k) ≤ last_of h (core.flows core.biggest_load_idx)

informed :
    (h : Heap) (core : CoreLoad) (top : ℕ)
    → Best (λ k. last_of h (core.flows k)) core.nb_flows core.total core.biggest_load_idx top
    → IsInformed h core
informed h core top b = record {
  sums = b.added;
  in_range = λ some_flow. elim (ℕ_discrete top 0) [
    | yes e ↦ rw (b.nothing e) some_flow
    | no ne ↦ (b.reached ne).0
  ];
  biggest = λ k hk. elim (ℕ_discrete top 0) [
    | yes e ↦ omega (arith, b.above k hk)
    | no ne ↦ omega (arith, b.above k hk, (b.reached ne).1)
  ];
}

-- `balancer_update_core_info` on a core whose flows fit and are there, with rings in range, ends
-- normally: the load is the sum of the last entries of the flows, as a `uint64_t`, the index is
-- that of a flow with the biggest last entry, and the flows are as before.
pub update_core_info-IsInformed :
    {core : CoreLoad} {h : Heap}
    → HasRings h
    → IsLoaded core h
    → Returns (update_core_info core h) λ r.
      IsInformed h r
      × (r.core_idx ≡ core.core_idx)
      × (r.nb_flows ≡ core.nb_flows)
      × (r.flows ≡ core.flows)
      × (r.flow_keys ≡ core.flow_keys)
unfolding update_core_info
update_core_info-IsInformed {core} {h} rings c =
    let (r, run, (top, b)) =
      info_loop-Best core h core.nb_flows 0 0 0 0 rings c (omega arith) (record {
        added = unfold sum_below in refl;
        above = λ k hk. absurd (omega arith);
        nothing = λ e. refl;
        reached = λ ne. absurd (ne refl);
      }) in
    (
      record core { total = r.0; biggest_load_idx = r.1 },
      rw run,
      (
        informed h (record core { total = r.0; biggest_load_idx = r.1 }) top b,
        refl,
        refl,
        refl,
        refl,
      ),
    )
