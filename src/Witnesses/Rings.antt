-- ===== src/Witnesses/Rings.antt =====
-- Runs of src/ringbuffer.c on a ring that three counts went into.
use o_rss_nic.Prelude.{
  Returns, [], arith, division_by_zero, fault, if◌then◌else◌, min, ok, sum, take, true, ℕ, ◌%◌, ◌+◌,
  ◌-◌, ◌/◌, ◌==◌, ◌↔◌, ◌∷◌, ◌≡◌, ◌≢◌,
}
use o_rss_nic.RingBuffer.{
  init, add, get_last, get_average, predict_next, pos, to_u64, ring_size, u64_mod,
}
use o_rss_nic.RingBuffer.Bounds.{IsValid, init-IsValid, add-IsValid}
use o_rss_nic.RingBuffer.History.{
  History, fresh, more, recent, delta, add-recent, get_last-increase_iff,
}
use o_rss_nic.RingBuffer.Average.{limit, get_average-recent, predict_next-eq-get_average}

add_example : Returns (add init 7) λ r.
    IsValid r
    × (r.pos ≡ (init.pos + 1) % ring_size)
    × (r.size ≡ min ring_size (init.size + 1))
    × (r.is_active ≡ true)
    × (r.assigned_core ≡ init.assigned_core)
    × ((i : ℕ) → i ≢ r.pos → r.buffer i ≡ init.buffer i)
add_example = add-IsValid 7 (omega arith) init-IsValid

first : Returns (add init 4) IsValid
first = let r = add-IsValid 4 (omega arith) init-IsValid in (r.0, r.1, r.2.0)

second : Returns (add first.0 9) IsValid
second = let r = add-IsValid 9 (omega arith) first.2 in (r.0, r.1, r.2.0)

third : Returns (add second.0 15) IsValid
third = let r = add-IsValid 15 (omega arith) second.2 in (r.0, r.1, r.2.0)

three_counts : History (15 ∷ 9 ∷ 4 ∷ []) third.0
three_counts =
    more 15 (omega arith) (more 9 (omega arith) (more 4 (omega arith) fresh first.1) second.1)
      third.1

recent_example :
    Returns (add third.0 20) λ r. recent r ≡ take ring_size (delta third.0 20 ∷ recent third.0)
recent_example = add-recent 20 third.2

increase_example : (get_last third.0 ≡ ok (15 - 9)) ↔ (◌≡◌ {A = ℕ} 4 0)
increase_example =
    get_last-increase_iff 4 9 15 (omega arith) (omega arith) (omega arith) three_counts

average_example : get_average third.0 (pos 3) ≡ (
    if third.0.size == 0
    then ok 0
    else if to_u64 (pos 3) == 0
    then fault division_by_zero
    else ok (sum (take (limit (pos 3)) (recent third.0)) % u64_mod / to_u64 (pos 3)))
average_example = get_average-recent (pos 3) third.2

predict_example : predict_next third.0 (pos 3) ≡ get_average third.0 (pos 3)
predict_example = predict_next-eq-get_average (pos 3) third.2
