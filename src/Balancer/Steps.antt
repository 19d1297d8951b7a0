-- ===== src/Balancer/Steps.antt =====
-- The migrations of src/balancer.c as changes of the heap, and how the rebalancing ends.
use o_rss_nic.Prelude.{
  Array, ap, arith, false, inl, inr, none, some, suc, zero, ℕ, ℕ_discrete, ◌%◌, ◌+◌, ◌/◌, ◌<◌, ◌≡◌,
  ◌≤◌, ◌⊎◌,
}
use o_rss_nic.Heap.{Heap}
use o_rss_nic.HashMap.{HashMap}
use o_rss_nic.HashMap.Lookup.{view}
use o_rss_nic.Balancer.{
  CoreLoad, Migration, max_rebalance_iterations, Stats, LongDouble, is_imbalanced,
}
use o_rss_nic.Balancer.Info.{sum_below}
use o_rss_nic.RingBuffer.{u64_mod}
use o_rss_nic.Balancer.Cores.{reassigned}
use o_rss_nic.Balancer.Loads.{Measures}

-- What one migration says: the flow of its key belongs to its core.
unfoldable pub apply_one : HashMap → Migration → Heap → Heap
apply_one m migration h = elim (view m migration.key) [
  | none ↦ h
  | some p ↦ elim (h.cell p) [ none ↦ h | some rb ↦ reassigned h p rb migration.destination_core ]
]

-- The migrations from number `i` on, in their order.
unfoldable pub replay : HashMap → (left i : ℕ) → Array Migration → Heap → Heap
replay m zero i migrations h = h
replay m (suc left) i migrations h = replay m left (i + 1) migrations (apply_one m (migrations i) h)

abbrev pub MayUse : ℕ → HashMap → Migration → Type 0
MayUse n m migration =
    (migration.destination_core < n) × ((p : ℕ) × (view m migration.key ≡ some p))

-- Loads in balance: the greatest of them is not above 1 and the threshold times their average, and
-- the smallest is not below 1 less the threshold times it, unless the average is 0. The sum of the
-- loads is a `uint64_t`, and the average is a whole number.
pub record InBalance (floats : LongDouble) (f : ℕ → ℕ) (n : ℕ) : Type 0 where
  pub greatest : ℕ
  pub greatest_place : ℕ
  pub greatest_in : (greatest_place < n) × (f greatest_place ≡ greatest)
  pub none_above : (k : ℕ) → k < n → f k ≤ greatest
  pub smallest : ℕ
  pub smallest_place : ℕ
  pub smallest_in : (smallest_place < n) × (f smallest_place ≡ smallest)
  pub none_below : (k : ℕ) → k < n → smallest ≤ f k
  pub average : ℕ
  pub is_average : average ≡ sum_below f n % u64_mod / n
  pub not_above :
      floats.less floats.one_plus_threshold
        (floats.divide (floats.of_uint64 greatest) (floats.of_uint64 average))
      ≡ false
  pub not_below :
      (average ≡ 0)
      ⊎ (floats.less
            (floats.divide (floats.of_uint64 smallest) (floats.of_uint64 average))
            floats.one_minus_threshold
          ≡ false)

-- The test of the loop, told of the loads themselves.
pub is_imbalanced-InBalance :
    (floats : LongDouble) (f : ℕ → ℕ) (n : ℕ) (s : Stats)
    → 0 < n
    → ((k : ℕ) → k < n → f k < u64_mod)
    → Measures f n s
    → is_imbalanced floats (s.average_load / n) s.biggest_load s.smallest_load ≡ false
    → InBalance floats f n
unfolding is_imbalanced
is_imbalanced-InBalance floats f n s pos words b even_test = record {
  greatest = s.biggest_load;
  greatest_place = s.biggest_load_idx;
  greatest_in = (
    b.big_place pos,
    elim (ℕ_discrete s.biggest_load 0) [
      | yes e ↦ omega (arith, b.above s.biggest_load_idx (b.big_place pos), e)
      | no ne ↦ b.big_reached ne
    ],
  );
  none_above = b.above;
  smallest = s.smallest_load;
  smallest_place = s.smallest_load_idx;
  smallest_in = (
    b.small_place pos,
    elim (ℕ_discrete (s.smallest_load + 1) u64_mod) [
      | yes e ↦ omega (
        arith,
        e,
        words s.smallest_load_idx (b.small_place pos),
        b.below s.smallest_load_idx (b.small_place pos),
      )
      | no ne ↦ b.small_reached ne
    ],
  );
  none_below = b.below;
  average = s.average_load / n;
  is_average = ap (λ (x : ℕ). x / n) b.sums;
  not_above = ground arith;
  not_below = elim (ℕ_discrete (s.average_load / n) 0) [
    | yes e ↦ inl e
    | no ne ↦ inr (ground arith)
  ];
}

-- How the loop ends: after the greatest number of migrations, or with loads in balance.
pub data Settles (floats : LongDouble) (n : ℕ) (cores : Array CoreLoad) (count : ℕ) : Type 0 where
  spent : count ≡ max_rebalance_iterations → Settles floats n cores count
  even : InBalance floats (λ k. (cores k).total) n → Settles floats n cores count
