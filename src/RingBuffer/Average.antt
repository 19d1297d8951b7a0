-- ===== src/RingBuffer/Average.antt =====
-- `ringbuffer_get_average` and `ringbuffer_predict_next` of src/ringbuffer.c, by the list of the
-- entries from the newest back.
use o_rss_nic.Prelude.{
  Bool-cases, List, [], ap, arith, division_by_zero, fault, if◌then◌else◌, inl, inr, ltb, ltb→lt,
  ok, read-ok, refl, suc, sum, take, zero, ℕ, ◌%◌, ◌+◌, ◌-◌, ◌/◌, ◌<◌, ◌==◌, ◌∙◌, ◌∷◌, ◌≡◌,
}
use o_rss_nic.RingBuffer.{
  RingBuffer, ring_size, u64_mod, get_last, prev, Count, pos, negsuc, below, to_u64, sum_loop,
  get_average, predict_next,
}
use o_rss_nic.RingBuffer.Bounds.{IsValid}
use o_rss_nic.RingBuffer.History.{window, recent}

-- How many entries `i < count` lets through.
abbrev pub limit : Count → ℕ
limit (pos n) = n
limit (negsuc n) = 0

below-limit : (i : ℕ) (count : Count) → below i count ≡ ltb i (limit count)
below-limit i (pos n) = refl
below-limit i (negsuc n) = ground arith

take-nil : (k : ℕ) → take {A = ℕ} k [] ≡ []
take-nil zero = refl
take-nil (suc k) = refl

take-suc : (k x : ℕ) (xs : List ℕ) → 0 < k → take k (x ∷ xs) ≡ x ∷ take (k - 1) xs
take-suc zero x xs h = elim h [ ]
take-suc (suc k) x xs h = ap (λ n. x ∷ take n xs) (omega arith)

take-none : (k : ℕ) (xs : List ℕ) → k ≡ 0 → take k xs ≡ []
take-none k xs e = rw e

-- The loop adds the entries that it passes, as many as `count` and the size allow.
sum_loop-window :
    (rb : RingBuffer) (count : Count) (left i total p : ℕ)
    → p < ring_size
    → total < u64_mod
    → sum_loop rb count left i total p
      ≡ ok ((total + sum (take (limit count - i) (window rb.buffer left p))) % u64_mod)
unfolding sum_loop
sum_loop-window rb count zero i total p hp ht = rw take-nil (ap ok (omega arith))
sum_loop-window rb count (suc left) i total p hp ht = elim (Bool-cases (ltb i (limit count))) [
  | inl go ↦
      let more = ltb→lt i (limit count) go in
      let rest = window rb.buffer left (prev p) in
      let fewer : limit count - (i + 1) ≡ limit count - i - 1 = omega arith in
      rw
        (
          below-limit,
          go,
          read-ok ring_size rb.buffer p hp,
          take-suc (limit count - i) (rb.buffer p) rest (omega arith),
        )
        (sum_loop-window rb count left (i + 1) ((total + rb.buffer p) % u64_mod) (prev p)
            (ground arith) (omega arith)
          ∙ rw fewer (ap ok (omega arith)))
  | inr done ↦
      let none_left : limit count - i ≡ 0 = ground arith in
      rw
        (
          below-limit,
          done,
          take-none (limit count - i) (rb.buffer p ∷ window rb.buffer left (prev p)) none_left,
        )
        (ap ok (omega arith))
]

-- `ringbuffer_get_average` of a valid ring does not leave the array. It gives 0 on an empty
-- ring, divides by 0 for a count of 0, and otherwise gives the `uint64_t` sum of the newest
-- entries, at most `count` of them, divided by `count` itself.
pub get_average-recent :
    {rb : RingBuffer} (count : Count)
    → IsValid rb
    → get_average rb count ≡ (
        if rb.size == 0
        then ok 0
        else if to_u64 count == 0
        then fault division_by_zero
        else ok (sum (take (limit count) (recent rb)) % u64_mod / to_u64 count))
unfolding get_average
get_average-recent {rb} count v =
    rw (sum_loop-window rb count rb.size 0 0 rb.pos v.place (omega arith)) (ground arith)

-- On every ring in range and for every `count`, `ringbuffer_predict_next` is
-- `ringbuffer_get_average`: the last entry cancels, and a division by 0 is the same.
pub predict_next-eq-get_average :
    {rb : RingBuffer} (count : Count) → IsValid rb → predict_next rb count ≡ get_average rb count
unfolding predict_next get_last
predict_next-eq-get_average {rb} count v =
    rw (get_average-recent count v) (ground (arith, v.place, v.words rb.pos))
