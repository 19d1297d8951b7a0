-- ===== src/Balancer/Loads.antt =====
-- The pass over the loads of the cores in `balancer_balance` of src/balancer.c.
use o_rss_nic.Prelude.{
  Array, Returns, add-one, arith, false, inr, read-ok, refl, suc, true, zero, ℕ, ℕ_discrete, ◌%◌,
  ◌+◌, ◌/◌, ◌<◌, ◌≡◌, ◌≢◌, ◌≤◌, ◌⊎◌,
}
use o_rss_nic.RingBuffer.{u64_mod}
use o_rss_nic.Balancer.{
  CoreLoad, Stats, no_stats, stats_step, stats_loop, LongDouble, is_imbalanced,
}
use o_rss_nic.Balancer.Info.{sum_below}

-- What is known of the figures after the first `i` loads `f`.
pub record Measures (f : ℕ → ℕ) (i : ℕ) (s : Stats) : Type 0 where
  pub sums : s.average_load ≡ sum_below f i % u64_mod
  pub above : (k : ℕ) → k < i → f k ≤ s.biggest_load
  pub big_reached : s.biggest_load ≢ 0 → f s.biggest_load_idx ≡ s.biggest_load
  pub big_place : 0 < i → s.biggest_load_idx < i
  pub below : (k : ℕ) → k < i → s.smallest_load ≤ f k
  pub small_place : 0 < i → s.smallest_load_idx < i
  pub small_top : s.smallest_load < u64_mod
  pub small_reached : s.smallest_load + 1 ≢ u64_mod → f s.smallest_load_idx ≡ s.smallest_load

start-Measures : (f : ℕ → ℕ) → Measures f 0 no_stats
unfolding sum_below
start-Measures f = record {
  sums = refl;
  above = λ k hk. absurd (omega arith);
  big_reached = λ ne. absurd (ne refl);
  big_place = λ h. absurd (omega arith);
  below = λ k hk. absurd (omega arith);
  small_place = λ h. absurd (omega arith);
  small_top = omega arith;
  small_reached = λ ne. absurd (ne (omega arith));
}

-- The index 0 at the start is in range once there is a core.
record InPlace (i : ℕ) (s : Stats) : Type 0 where
  big : (s.biggest_load_idx < i) ⊎ (s.biggest_load_idx ≡ 0)
  small : (s.smallest_load_idx < i) ⊎ (s.smallest_load_idx ≡ 0)

step-Measures :
    (f : ℕ → ℕ) (i : ℕ) (s : Stats)
    → Measures f i s
    → InPlace i s
    → Measures f (suc i) (stats_step s i (f i)) × InPlace (suc i) (stats_step s i (f i))
unfolding sum_below stats_step
step-Measures f i s b place = (
  record {
    sums = omega (arith, b.sums);
    above = λ k hk. elim (ℕ_discrete k i) [
      | yes e ↦ rw e (ground arith)
      | no ne ↦ ground (arith, b.above k)
    ];
    big_reached = ground (arith, b.big_reached);
    big_place = λ h. ground (arith, place.big);
    below = λ k hk. elim (ℕ_discrete k i) [
      | yes e ↦ rw e (ground arith)
      | no ne ↦ ground (arith, b.below k)
    ];
    small_place = λ h. ground (arith, place.small);
    small_top = ground (arith, b.small_top);
    small_reached = ground (arith, b.small_reached);
  },
  record { big = ground (arith, place.big); small = ground (arith, place.small) },
)

stats_loop-Measures :
    (n left i : ℕ) (cores : Array CoreLoad) (s : Stats)
    → i + left ≡ n
    → Measures (λ k. (cores k).total) i s
    → InPlace i s
    → Returns (stats_loop n left i cores s) (Measures (λ k. (cores k).total) n)
unfolding stats_loop
stats_loop-Measures n zero i cores s e b place =
    let all : i ≡ n = omega arith in (s, refl, rw (← all) b)
stats_loop-Measures n (suc left) i cores s e b place =
    let f = λ (k : ℕ). (cores k).total in
    let (b', place') = step-Measures f i s b place in
    rw (read-ok n cores i (omega arith)) (
      stats_loop-Measures n left (i + 1) cores (stats_step s i (f i)) (omega arith) (rw add-one b')
        (rw add-one place'))

-- The pass over the cores, for any number of them, ends normally and does not leave the array.
-- It finds the sum of the loads as a `uint64_t`, the biggest load and a core that has it, a
-- bound below all loads and a core.
pub stats_loop-finds :
    (n : ℕ) (cores : Array CoreLoad)
    → Returns (stats_loop n n 0 cores no_stats) (Measures (λ k. (cores k).total) n)
stats_loop-finds n cores =
    stats_loop-Measures n n 0 cores no_stats (omega arith) (start-Measures _)
      (record { big = inr refl; small = inr refl })

pub sum_below-zero : (f : ℕ → ℕ) (n : ℕ) → ((k : ℕ) → k < n → f k ≡ 0) → sum_below f n ≡ 0
unfolding sum_below
sum_below-zero f zero h = refl
sum_below-zero f (suc n) h =
    omega (arith, sum_below-zero f n (λ k hk. h k (omega arith)), h n (omega arith))

-- What is relied on of `long double`: 0 / 0 is not above the threshold.
abbrev pub IsIeee : LongDouble → Type 0
IsIeee floats =
    floats.less floats.one_plus_threshold (floats.divide (floats.of_uint64 0) (floats.of_uint64 0))
    ≡ false

-- Where the loads are out of balance, the core with the biggest load has a load.
pub is_imbalanced-biggest :
    (floats : LongDouble) (f : ℕ → ℕ) (n : ℕ) (s : Stats)
    → IsIeee floats
    → Measures f n s
    → is_imbalanced floats (s.average_load / n) s.biggest_load s.smallest_load ≡ true
    → s.biggest_load ≢ 0
unfolding is_imbalanced
is_imbalanced-biggest floats f n s nan b uneven e =
    let none_loaded = sum_below-zero f n (λ k hk. omega (arith, b.above k hk)) in
    let no_sum : s.average_load ≡ 0 = rw none_loaded at b.sums in
    let no_average : s.average_load / n ≡ 0 = rw no_sum (zero_div n) in
    ground (arith, nan, no_average)
  where
    zero_div : (n : ℕ) → 0 / n ≡ 0
    zero_div n = grind arith
