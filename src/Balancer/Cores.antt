-- ===== src/Balancer/Cores.antt =====
-- The flows of one core of src/balancer.c, while one of them leaves or joins it.
use o_rss_nic.Prelude.{
  ap, arith, ok, refl, some, suc, sym, update, zero, ℕ, ℕ_discrete, ◌%◌, ◌+◌, ◌-◌, ◌<◌, ◌∙◌, ◌≡◌,
  ◌≢◌, ◌≤◌,
}
use o_rss_nic.FiveTuple.{FiveTuple}
use o_rss_nic.RingBuffer.{RingBuffer, u64_mod}
use o_rss_nic.Heap.{Heap}
use o_rss_nic.HashMap.{HashMap, hashmap_size}
use o_rss_nic.HashMap.Lookup.{view}
use o_rss_nic.Balancer.{CoreLoad, append_flow, remove_flow}
use o_rss_nic.Balancer.Info.{sum_below, last_of, IsInformed}

-- The flows of the core `i`: each is in the table under its key, its ring buffer is there and
-- says that it belongs to this core, and no flow is listed twice.
pub record IsStocked (m : HashMap) (h : Heap) (i : ℕ) (core : CoreLoad) : Type 0 where
  pub named : core.core_idx ≡ i
  pub assigned :
      (j : ℕ)
      → j < core.nb_flows
      → (rb : RingBuffer) × (h.cell (core.flows j) ≡ some rb) × (rb.assigned_core ≡ i)
  pub keyed : (j : ℕ) → j < core.nb_flows → view m (core.flow_keys j) ≡ some (core.flows j)
  pub apart :
      (j k : ℕ) → j < core.nb_flows → k < core.nb_flows → core.flows j ≡ core.flows k → j ≡ k

-- The core without the flow at its `biggest_load_idx`, and with one more flow.
abbrev pub removed : CoreLoad → CoreLoad
removed core = record core {
  nb_flows = core.nb_flows - 1;
  flows = update core.flows core.biggest_load_idx (core.flows (core.nb_flows - 1));
  flow_keys = update core.flow_keys core.biggest_load_idx (core.flow_keys (core.nb_flows - 1));
}

abbrev pub appended : CoreLoad → ℕ → FiveTuple → CoreLoad
appended core flow key = record core {
  flow_keys = update core.flow_keys core.nb_flows key;
  flows = update core.flows core.nb_flows flow;
  nb_flows = core.nb_flows + 1;
}

pub remove_flow-removed :
    (n : ℕ) (core : CoreLoad)
    → core.nb_flows ≤ hashmap_size
    → core.biggest_load_idx < core.nb_flows
    → remove_flow n core ≡ ok (removed core)
unfolding remove_flow
remove_flow-removed n core fits hi = ground arith

pub append_flow-appended :
    (core : CoreLoad) (flow : ℕ) (key : FiveTuple)
    → core.nb_flows < hashmap_size
    → append_flow core flow key ≡ ok (appended core flow key)
unfolding append_flow
append_flow-appended core flow key room = ground arith

-- The core lists no flow at the address `p`.
abbrev pub Lacks : CoreLoad → ℕ → Type 0
Lacks core p = (j : ℕ) → j < core.nb_flows → core.flows j ≢ p

module _ {m : HashMap} {h : Heap} {i : ℕ} {core : CoreLoad} (s : IsStocked m h i core) where
  pub removed-IsStocked : core.biggest_load_idx < core.nb_flows → IsStocked m h i (removed core)
  removed-IsStocked hi = record {
    named = s.named;
    assigned = λ j hj. elim (ℕ_discrete core.biggest_load_idx j) [
      | yes e ↦
          let (rb, here, mine) = s.assigned (core.nb_flows - 1) (omega arith) in
          (rb, ground arith, mine)
      | no ne ↦ let (rb, here, mine) = s.assigned j (omega arith) in (rb, ground arith, mine)
    ];
    keyed = λ j hj. ground (arith, s.keyed (core.nb_flows - 1), s.keyed j);
    apart = λ j k hj hk e.
        ground (arith, s.apart j k, s.apart (core.nb_flows - 1) k, s.apart j (core.nb_flows - 1));
  }

  pub removed-Lacks :
      core.biggest_load_idx < core.nb_flows
      → Lacks (removed core) (core.flows core.biggest_load_idx)
  removed-Lacks hi j hj e =
      ground
        (arith, s.apart j core.biggest_load_idx, s.apart (core.nb_flows - 1) core.biggest_load_idx)

-- A flow that joins the core `i`, on the heap where it already belongs there.
pub appended-IsStocked :
    {m : HashMap} {h : Heap} {i : ℕ} {core : CoreLoad} (flow : ℕ) (key : FiveTuple)
    (rb : RingBuffer)
    → IsStocked m h i core
    → Lacks core flow
    → h.cell flow ≡ some rb
    → rb.assigned_core ≡ i
    → view m key ≡ some flow
    → IsStocked m h i (appended core flow key)
appended-IsStocked {m} {h} {i} {core} flow key rb s absent here mine there = record {
  named = s.named;
  assigned = λ j hj. elim (ℕ_discrete core.nb_flows j) [
    | yes e ↦ (rb, ground arith, mine)
    | no ne ↦ let (rb', here', mine') = s.assigned j (omega arith) in (rb', ground arith, mine')
  ];
  keyed = λ j hj. ground (arith, s.keyed j);
  apart = λ j k hj hk e. ground (arith, s.apart j k, absent j, absent k);
}

-- The heap after `flow->assigned_core = core`.
abbrev pub reassigned : Heap → ℕ → RingBuffer → ℕ → Heap
reassigned h flow rb core = record h {
  cell = update h.cell flow (some (record rb { assigned_core = core }));
}

pub last_of-reassigned :
    (h : Heap) (flow : ℕ) (rb : RingBuffer) (core p : ℕ)
    → h.cell flow ≡ some rb
    → last_of (reassigned h flow rb core) p ≡ last_of h p
last_of-reassigned h flow rb core p here = ground (arith, here)

-- A core that does not list the flow does not see the change.
pub reassigned-IsStocked :
    {m : HashMap} {h : Heap} {i : ℕ} {c : CoreLoad} (flow : ℕ) (rb : RingBuffer) (core : ℕ)
    → IsStocked m h i c
    → Lacks c flow
    → IsStocked m (reassigned h flow rb core) i c
reassigned-IsStocked {m} {h} {i} {c} flow rb core s absent = record {
  named = s.named;
  assigned =
      λ j hj. let (rb', here, mine) = s.assigned j hj in (rb', ground (arith, absent j hj), mine);
  keyed = s.keyed;
  apart = s.apart;
}

pub sum_below_congr :
    (f g : ℕ → ℕ) (n : ℕ) → ((k : ℕ) → k < n → g k ≡ f k) → sum_below g n ≡ sum_below f n
unfolding sum_below
sum_below_congr f g zero same = refl
sum_below_congr f g (suc n) same =
    omega (arith, sum_below_congr f g n (λ k hk. same k (omega arith)), same n (omega arith))

-- A sum in which one term changes.
pub sum_below-change :
    (f g : ℕ → ℕ) (i n : ℕ)
    → i < n
    → ((k : ℕ) → k ≢ i → g k ≡ f k)
    → sum_below g n + f i ≡ sum_below f n + g i
unfolding sum_below
sum_below-change f g i zero hi same = absurd (omega arith)
sum_below-change f g i (suc n) hi same = elim (ℕ_discrete i n) [
  | yes e ↦ rw e (omega (arith, sum_below_congr f g n (λ k hk. same k (omega arith))))
  | no ne ↦ omega (arith, sum_below-change f g i n (omega arith) same, same n (λ e. ne (sym e)))
]

pub term-le-sum_below : (f : ℕ → ℕ) (i n : ℕ) → i < n → f i ≤ sum_below f n
unfolding sum_below
term-le-sum_below f i zero hi = absurd (omega arith)
term-le-sum_below f i (suc n) hi = elim (ℕ_discrete i n) [
  | yes e ↦ rw e (omega arith)
  | no ne ↦ omega (arith, term-le-sum_below f i n (omega arith))
]

-- Nor do the figures of any core.
pub IsInformed-reassigned :
    (h : Heap) (flow : ℕ) (rb : RingBuffer) (core : ℕ) (c : CoreLoad)
    → h.cell flow ≡ some rb
    → IsInformed h c
    → IsInformed (reassigned h flow rb core) c
IsInformed-reassigned h flow rb core c here inf =
    let same = λ (p : ℕ). last_of-reassigned h flow rb core p here in
    let sums =
      sum_below_congr (λ k. last_of h (c.flows k))
        (λ k. last_of (reassigned h flow rb core) (c.flows k)) c.nb_flows
        (λ k hk. same (c.flows k)) in
    record {
      sums = inf.sums ∙ ap (λ x. x % u64_mod) (sym sums);
      in_range = inf.in_range;
      biggest = λ k hk.
          omega (arith, inf.biggest k hk, same (c.flows k), same (c.flows c.biggest_load_idx));
    }
