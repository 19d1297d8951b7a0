-- ===== src/Balancer/Repartition.antt =====
-- `balancer_compute_repartition` of src/balancer.c.
use o_rss_nic.Prelude.{
  Array, Returns, ap, arith, dec_lt, none, read-ok, refl, some, subst, suc, update, update-cases,
  write-ok, zero, ℕ, ℕ_discrete, ◌+◌, ◌<◌, ◌∙◌, ◌≡◌, ◌≤◌,
}
use o_rss_nic.RingBuffer.{RingBuffer}
use o_rss_nic.Heap.{Heap, load}
use o_rss_nic.HashMap.{HashMap, hashmap_size, get_next, next_from}
use o_rss_nic.HashMap.Lookup.{IsValid, view, view-eq, slot_of-eq, slot_of-view}
use o_rss_nic.HashMap.Ownership.{IsOwned}
use o_rss_nic.HashMap.Dense.{IsDense, next_from-dense, get_next-slot, in_use}
use o_rss_nic.Balancer.{CoreLoad, no_flows, place, gather, loads_loop, compute_repartition}
use o_rss_nic.Balancer.Info.{IsInformed, HasRings, update_core_info-IsInformed}
use o_rss_nic.Balancer.Cores.{
  IsStocked, appended, append_flow-appended, appended-IsStocked, sum_below-change, sum_below_congr,
  term-le-sum_below,
}
use o_rss_nic.Balancer.Split.{IsSplit, all_flows, IsStocked-IsLoaded, IsStocked-same}
use o_rss_nic.Balancer.Loads.{sum_below-zero}
use o_rss_nic.FiveTuple.{FiveTuple}

-- What the balancer asks of the table and of the ring buffers.
pub record IsReady (n : ℕ) (m : HashMap) (h : Heap) : Type 0 where
  pub valid : IsValid m
  pub dense : IsDense m
  pub owned : IsOwned m h
  pub rings : HasRings h
  pub room : m.size < hashmap_size
  pub cores_exist : (p : ℕ) (rb : RingBuffer) → h.cell p ≡ some rb → rb.assigned_core < n

-- A core under the number that the second loop gives it.
abbrev pub numbered : CoreLoad → ℕ → CoreLoad
numbered core i = record core { core_idx = i }

-- The cores hold the flows of the first `i` slots.
record Gathers (n : ℕ) (m : HashMap) (h : Heap) (i : ℕ) (cores : Array CoreLoad) : Type 0 where
  count : all_flows n cores ≡ i
  stocked : (c : ℕ) → c < n → IsStocked m h c (numbered (cores c) c)
  early :
      (c j : ℕ)
      → c < n
      → j < (cores c).nb_flows
      → (k : ℕ) × (k < i) × ((m.map k).value ≡ (cores c).flows j)

start-Gathers : (n : ℕ) (m : HashMap) (h : Heap) → Gathers n m h 0 (λ _. no_flows)
start-Gathers n m h = record {
  count = sum_below-zero (λ i. 0) n (λ k hk. refl);
  stocked = λ c hc. record {
    named = refl;
    assigned = λ j hj. absurd (omega arith);
    keyed = λ j hj. absurd (omega arith);
    apart = λ j k hj hk e. absurd (omega arith);
  };
  early = λ c j hc hj. absurd (omega arith);
}

module _ {n : ℕ} {m : HashMap} {h : Heap} (ready : IsReady n m h) where
  place-Gathers :
      (i : ℕ) {cores : Array CoreLoad}
      → i < m.size
      → Gathers n m h i cores
      → Returns (place n (m.map i).key (m.map i).value cores h) (Gathers n m h (i + 1))
  unfolding place load
  place-Gathers i {cores} hi g =
      let small : i < hashmap_size = omega (arith, ready.room) in
      let used = in_use m ready.dense i hi in
      let value = (m.map i).value in
      let key = (m.map i).key in
      let (rb, here) = ready.owned.live i small used in
      let a = rb.assigned_core in
      let ha = ready.cores_exist value rb here in
      let fits = term-le-sum_below (λ k. (cores k).nb_flows) a n ha in
      let fewer : (cores a).nb_flows < hashmap_size = omega (arith, g.count) in
      let core = appended (cores a) value key in
      let at_a : (update cores a core a).nb_flows ≡ (cores a).nb_flows + 1 = ground arith in
      (
        update cores a core,
        ground (arith, here, append_flow-appended (cores a) value key fewer),
        record {
          count = omega (
            arith,
            sum_below-change (λ k. (cores k).nb_flows) (λ k. (update cores a core k).nb_flows) a n
                ha (λ k ne. ground arith),
            at_a,
            g.count,
          );
          stocked = λ c hc.
              update-cases (λ k x. IsStocked m h k (numbered x k)) cores a core c
                (appended-IsStocked value key rb (g.stocked a ha)
                  (λ j hj e.
                    let (k, hk, same) = g.early a j ha hj in
                    absurd (
                      omega (
                        arith,
                        ready.owned.apart k i (omega arith) small
                            (in_use m ready.dense k (omega arith)) used (same ∙ e),
                      )))
                  here refl (view-eq key i ready.valid small used refl))
                (λ ne. g.stocked c hc);
          early = λ c j hc hj. elim (ℕ_discrete a c) [
            | no ne ↦
                let (k, hk, same) = g.early c j hc (ground arith) in (k, omega arith, ground arith)
            | yes e ↦ elim (ℕ_discrete (cores a).nb_flows j) [
              | yes last ↦ (i, omega arith, ground arith)
              | no older ↦
                  let (k, hk, same) = g.early a j ha (ground arith) in
                  (k, omega arith, ground arith)
            ]
          ];
        },
      )

  -- The search for the slot after the one at `i`.
  next-after : (i : ℕ) → i < m.size → get_next m (m.map i).key ≡ next_from m (i + 1)
  next-after i hi =
      let small : i < hashmap_size = omega (arith, ready.room) in
      get_next-slot (m.map i).key ready.valid
      ∙ rw (slot_of-eq (m.map i).key i ready.valid small (in_use m ready.dense i hi) refl)

  gather-Gathers :
      (fuel i : ℕ) (previous : FiveTuple) {cores : Array CoreLoad}
      → m.size < fuel + i
      → i ≤ m.size
      → get_next m previous ≡ next_from m i
      → Gathers n m h i cores
      → Returns (gather n fuel m previous cores h) (Gathers n m h m.size)
  unfolding gather
  gather-Gathers zero i previous enough hi at_i g = absurd (omega arith)
  gather-Gathers (suc fuel) i previous {cores} enough hi at_i g =
      let next = at_i ∙ next_from-dense m i ready.dense ready.room hi in
      elim (dec_lt i m.size) [
        | no last ↦
            let all : i ≡ m.size = omega arith in
            (cores, ground (arith, next), subst (λ k. Gathers n m h k cores) all g)
        | yes more ↦
            let (cores', run, g') = place-Gathers i more g in
            let (out, run', g'') =
              gather-Gathers fuel (i + 1) (m.map i).key {cores = cores'} (omega arith) (omega arith)
                (next-after i more) g' in
            (out, ground (arith, next, run, run'), g'')
      ]

  -- What the second loop knows after the first `i` cores.
  record Numbers (i : ℕ) (cores : Array CoreLoad) : Type 0 where
    few : all_flows n cores ≡ m.size
    stocked : (c : ℕ) → c < n → IsStocked m h c (numbered (cores c) c)
    done : (c : ℕ) → c < i → (IsInformed h (cores c)) × ((cores c).core_idx ≡ c)

  loads_loop-Numbers :
      (left i : ℕ) {cores : Array CoreLoad}
      → i + left ≡ n
      → Numbers i cores
      → Returns (loads_loop n left i cores h) (Numbers n)
  unfolding loads_loop
  loads_loop-Numbers zero i {cores} e t =
      let all : i ≡ n = omega arith in (cores, refl, subst (λ k. Numbers k cores) all t)
  loads_loop-Numbers (suc left) i {cores} e t =
      let hi : i < n = omega arith in
      let fits = term-le-sum_below (λ k. (cores k).nb_flows) i n hi in
      let (c, run, (inf, ei, en, ef, ek)) =
        update_core_info-IsInformed ready.rings
          (IsStocked-IsLoaded (t.stocked i hi) (omega (arith, t.few, ready.room))) in
      let counted : (k : ℕ) → (update cores i c k).nb_flows ≡ (cores k).nb_flows =
        λ k. ground (arith, en, ap (λ x. (cores x).nb_flows) {x = i} {y = k}) in
      let (out, run', t') =
        loads_loop-Numbers left (i + 1) {cores = update cores i c} (omega arith) (record {
          few =
              sum_below_congr (λ k. (cores k).nb_flows) (λ k. (update cores i c k).nb_flows) n
                (λ k hk. counted k)
              ∙ t.few;
          stocked = λ k hk.
              update-cases (λ x y. IsStocked m h x (numbered y x)) cores i c k
                (IsStocked-same refl en ef ek (t.stocked i hi)) (λ ne. t.stocked k hk);
          done = λ k hk.
              update-cases (λ x y. IsInformed h y × (y.core_idx ≡ x)) cores i c k (inf, ei)
                (λ ne. t.done k (omega arith));
        }) in
      (out, rw (read-ok n cores i hi, run, write-ok n cores i c hi) run', t')

  -- `balancer_compute_repartition` on a dense table that owns its blocks and has a free slot,
  -- started with a key that is not in the table: it ends normally, with every flow of the table on
  -- exactly the core that its ring buffer names, and the figures of every core up to date.
  pub compute_repartition-IsSplit :
      (uninitialised : FiveTuple)
      → view m uninitialised ≡ none
      → Returns (compute_repartition n uninitialised m h) λ cores.
        IsSplit n m h cores
        × ((i : ℕ) → i < n → IsInformed h (cores i))
        × (all_flows n cores ≡ m.size)
  unfolding compute_repartition
  compute_repartition-IsSplit uninitialised absent =
      let from_start : get_next m uninitialised ≡ next_from m 0 =
        get_next-slot uninitialised ready.valid ∙ rw (slot_of-view m uninitialised absent) in
      let (cores, run, g) =
        gather-Gathers (suc hashmap_size) 0 uninitialised (omega (arith, ready.room)) (omega arith)
          from_start (start-Gathers n m h) in
      let (out, run', t) =
        loads_loop-Numbers n 0 {cores = cores} (omega arith)
          (record { few = g.count; stocked = g.stocked; done = λ c hc. absurd (omega arith) }) in
      (
        out,
        rw run run',
        (
          record {
            rings = ready.rings;
            few = omega (arith, t.few, ready.room);
            stocked = λ i hi. IsStocked-same (t.done i hi).1 refl refl refl (t.stocked i hi);
          },
          λ i hi. (t.done i hi).0,
          t.few,
        ),
      )
