-- ===== src/Balancer/Migrate.antt =====
-- `balancer_migrate` of src/balancer.c.
use o_rss_nic.Prelude.{
  Array, Returns, ap, arith, ok, read-ok, refl, some, subst, update, update-cases, write-ok, ℕ,
  ℕ_discrete, ◌+◌, ◌-◌, ◌<◌, ◌∙◌, ◌≡◌, ◌≤◌,
}
use o_rss_nic.Heap.{Heap, load, store}
use o_rss_nic.HashMap.{HashMap, hashmap_size}
use o_rss_nic.Balancer.{CoreLoad, Migration, refresh, migrate}
use o_rss_nic.Balancer.Info.{IsInformed, HasRings}
use o_rss_nic.Balancer.Cores.{
  IsStocked, removed, appended, term-le-sum_below, Lacks, removed-IsStocked, removed-Lacks,
  sum_below-change, appended-IsStocked, reassigned-IsStocked, reassigned, remove_flow-removed,
  append_flow-appended, IsInformed-reassigned,
}
use o_rss_nic.FiveTuple.{FiveTuple}
use o_rss_nic.RingBuffer.{RingBuffer}
use o_rss_nic.RingBuffer.Bounds.{IsValid}
use o_rss_nic.HashMap.Lookup.{view}
use o_rss_nic.Balancer.Split.{all_flows, IsSplit, IsSplit-IsLoaded, refresh-IsSplit}

-- A migration from the core `big`, at the flow that its figures name.
module _ {n : ℕ} {m : HashMap} {h : Heap} {cores : Array CoreLoad} (s : IsSplit n m h cores)
    (big small : ℕ) (hb : big < n) (hs : small < n)
    (some_flow : (cores big).biggest_load_idx < (cores big).nb_flows) where
  abbrev pub source : CoreLoad
  source = cores big

  abbrev pub moved : ℕ
  moved = source.flows source.biggest_load_idx

  abbrev pub moved_key : FiveTuple
  moved_key = source.flow_keys source.biggest_load_idx

  -- The cores once the flow has left.
  abbrev pub without : Array CoreLoad
  without = update cores big (removed source)

  -- The cores once it has joined the other.
  abbrev pub joined : Array CoreLoad
  joined = update without small (appended (without small) moved moved_key)

  without-IsStocked : (i : ℕ) → i < n → IsStocked m h i (without i)
  without-IsStocked i hi =
      update-cases (IsStocked m h) cores big (removed source) i
        (removed-IsStocked (s.stocked big hb) some_flow) (λ ne. s.stocked i hi)

  without-Lacks : (i : ℕ) → i < n → Lacks (without i) moved
  without-Lacks i hi =
      update-cases (λ k c. Lacks c moved) cores big (removed source) i
        (removed-Lacks (s.stocked big hb) some_flow)
        (λ ne j hj e.
          let (rb, here, mine) = (s.stocked big hb).assigned source.biggest_load_idx some_flow in
          let (rb', here', mine') = (s.stocked i hi).assigned j hj in ground (arith, ap h.cell e))

  all_flows-without : all_flows n without + 1 ≡ all_flows n cores
  all_flows-without = omega (
    arith,
    sum_below-change (λ k. (cores k).nb_flows) (λ k. (without k).nb_flows) big n hb
        (λ k ne. ground arith),
    at_big,
  )
    where
      at_big : (without big).nb_flows ≡ source.nb_flows - 1
      at_big = ground arith

  without-room : (without small).nb_flows < hashmap_size
  without-room =
      omega
        (arith, term-le-sum_below (λ k. (without k).nb_flows) small n hs, all_flows-without, s.few)

  all_flows-joined : all_flows n joined ≡ all_flows n cores
  all_flows-joined = omega (
    arith,
    sum_below-change (λ k. (without k).nb_flows) (λ k. (joined k).nb_flows) small n hs
        (λ k ne. ground arith),
    at_small,
    all_flows-without,
  )
    where
      at_small : (joined small).nb_flows ≡ (without small).nb_flows + 1
      at_small = ground arith

  module _ (rb : RingBuffer) (here : h.cell moved ≡ some rb) where
    abbrev pub after : Heap
    after = reassigned h moved rb small

    after-HasRings : HasRings after
    after-HasRings p r e = elim (ℕ_discrete moved p) [
      | yes same ↦
          let v = s.rings moved rb here in
          let is_r : record rb { assigned_core = small } ≡ r = ground arith in
          subst IsValid is_r (record { place = v.place; filled = v.filled; words = v.words })
      | no other ↦ s.rings p r (ground arith)
    ]

    moved-view : view m moved_key ≡ some moved
    moved-view = (s.stocked big hb).keyed source.biggest_load_idx some_flow

    joined-IsSplit : IsSplit n m after joined
    joined-IsSplit = record {
      rings = after-HasRings;
      few = omega (arith, all_flows-joined, s.few);
      stocked = λ i hi.
          let kept = λ (k : ℕ) (hk : k < n).
            reassigned-IsStocked moved rb small (without-IsStocked k hk) (without-Lacks k hk) in
          update-cases (IsStocked m after) without small (appended (without small) moved moved_key)
            i
            (appended-IsStocked moved moved_key (record rb { assigned_core = small })
              (kept small hs) (without-Lacks small hs) (ground arith) refl moved-view)
            (λ ne. kept i hi);
    }

    load-moved : load moved h ≡ ok rb
    unfolding load
    load-moved = ground (arith, here)

    store-moved : store moved (record rb { assigned_core = (without small).core_idx }) h ≡ ok after
    unfolding store
    store-moved = ground (arith, here, (without-IsStocked small hs).named)

    fits : source.nb_flows ≤ hashmap_size
    fits = (IsSplit-IsLoaded big s hb).fits

    migrate-run :
        (cores₃ cores₄ : Array CoreLoad)
        → refresh n big joined after ≡ ok cores₃
        → refresh n small cores₃ after ≡ ok cores₄
        → (cores₄ small).core_idx ≡ small
        → migrate n big small cores h
          ≡ ok (record { key = moved_key; destination_core = small }, cores₄, after)
    unfolding migrate
    migrate-run cores₃ cores₄ run₃ run₄ last =
        let in_array : source.biggest_load_idx < hashmap_size = omega (arith, fits) in
        rw
          (
            read-ok n cores big hb,
            read-ok hashmap_size source.flows source.biggest_load_idx in_array,
            read-ok hashmap_size source.flow_keys source.biggest_load_idx in_array,
            remove_flow-removed n source fits some_flow,
            write-ok n cores big (removed source) hb,
            read-ok n without small hs,
            append_flow-appended (without small) moved moved_key without-room,
            write-ok n without small (appended (without small) moved moved_key) hs,
            load-moved,
          )
          (rw (store-moved, run₃, run₄, read-ok n cores₄ small hs, last))

    -- What `balancer_migrate` has done: the flow of the biggest load of the one core has joined the
    -- other, its ring buffer says so, and nothing else has.
    pub record Migrates (r : Migration × Array CoreLoad × Heap) : Type 0 where
      pub split : IsSplit n m r.2 r.1
      pub key : r.0.key ≡ moved_key
      pub destination : r.0.destination_core ≡ small
      pub heap : r.2 ≡ after
      pub counts : (k : ℕ) → (r.1 k).nb_flows ≡ (joined k).nb_flows
      pub informed :
          ((k : ℕ) → k < n → IsInformed h (cores k)) → (k : ℕ) → k < n → IsInformed r.2 (r.1 k)

    -- `balancer_migrate`, on cores that split the flows of the table, from a core whose index
    -- names one of its flows, with a live ring buffer, to any core: it ends normally. The
    -- migration names the key of that flow and the other core, the numbers of flows of the cores
    -- change as when the flow leaves the one and joins the other, its ring buffer has the new
    -- core and no other ring buffer changes, the cores still split the flows, and the figures of
    -- all cores are up to date if they were before.
    pub migrate-Migrates : Returns (migrate n big small cores h) Migrates
    migrate-Migrates =
        let (cores₃, run₃, (split₃, informed₃, same₃, count₃)) =
          refresh-IsSplit big joined-IsSplit hb in
        let (cores₄, run₄, (split₄, informed₄, same₄, count₄)) = refresh-IsSplit small split₃ hs in
        (
          (record { key = moved_key; destination_core = small }, cores₄, after),
          migrate-run cores₃ cores₄ run₃ run₄ (split₄.stocked small hs).named,
          record {
            split = split₄;
            key = refl;
            destination = refl;
            heap = refl;
            counts = λ k. count₄ k ∙ count₃ k;
            informed = λ before k hk. elim (ℕ_discrete k small) [
              | yes e ↦ rw e informed₄
              | no ne ↦ rw (same₄ k ne) (elim (ℕ_discrete k big) [
                | yes e ↦ rw e informed₃
                | no nb ↦ rw (same₃ k nb) (
                    subst (λ c. IsInformed after c) {x = cores k} {y = joined k} (ground arith)
                      (IsInformed-reassigned h moved rb small (cores k) here (before k hk)))
              ])
            ];
          },
        )
