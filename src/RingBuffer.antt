-- ===== src/RingBuffer.antt =====
-- src/ringbuffer.c and src/ringbuffer.h: the packet counts of one flow.
pub mod Bounds
pub mod History
pub mod Average
use o_rss_nic.Prelude.{
  Array, Bool, Run, division_by_zero, false, fault, if◌then◌else◌, ltb, ok, read, suc, true, write,
  zero, ℕ, ◌%◌, ◌+◌, ◌-◌, ◌/◌, ◌==◌, ◌>>=◌, ◌^◌,
}

abbrev pub ring_size : ℕ
ring_size = 16

abbrev pub u64_mod : ℕ
u64_mod = 2 ^ 64

-- `pos` and `size` are ints of the source that never go below 0.
pub record RingBuffer : Type 0 where
  pub assigned_core : ℕ
  pub pos : ℕ
  pub size : ℕ
  pub buffer : Array ℕ
  pub is_active : Bool

-- The block that `calloc` returns, with the core set to 0.
abbrev pub init : RingBuffer
init = record { assigned_core = 0; pos = 0; size = 0; buffer = λ _. 0; is_active = false }

-- `uint64_t` subtraction.
abbrev pub sub64 : ℕ → ℕ → ℕ
sub64 a b = (a + u64_mod - b) % u64_mod

-- What goes into the new place: the value itself, or its difference from the last entry.
unfoldable pub entry : RingBuffer → ℕ → Run ℕ
entry rb value =
    if rb.size == 0
    then ok value
    else do last ← read ring_size rb.buffer rb.pos; ok (sub64 value last)

unfoldable pub add : RingBuffer → ℕ → Run RingBuffer
unfolding entry
add rb value = do
  let new_pos = (rb.pos + 1) % ring_size
  e ← entry rb value
  cells ← write ring_size rb.buffer new_pos e
  ok record rb {
    pos = new_pos;
    buffer = cells;
    size = if ltb rb.size ring_size then rb.size + 1 else rb.size;
    is_active = true;
  }

unfoldable pub get_last : RingBuffer → Run ℕ
get_last rb = if rb.size == 0 then ok 0 else read ring_size rb.buffer rb.pos

-- The argument `int count`: not negative, or -(n + 1).
pub data Count : Type 0 where
  pos : ℕ → Count
  negsuc : ℕ → Count

-- `i < count`, for an `i` that is not negative.
abbrev pub below : ℕ → Count → Bool
below i (pos n) = ltb i n
below i (negsuc n) = false

-- `count` as the divisor of a `uint64_t`.
abbrev pub to_u64 : Count → ℕ
to_u64 (pos n) = n
to_u64 (negsuc n) = u64_mod - suc n

-- `(pos - 1) % RING_SIZE` is -1 at 0, which the test after it takes to the last place.
abbrev pub prev : ℕ → ℕ
prev p = if p == 0 then ring_size - 1 else (p - 1) % ring_size

-- The `while` loop; `left` is `rb->size - i`.
unfoldable pub sum_loop : RingBuffer → Count → (left i total p : ℕ) → Run ℕ
sum_loop rb count zero i total p = ok total
sum_loop rb count (suc left) i total p =
    let rest = λ (x : ℕ). sum_loop rb count left (i + 1) ((total + x) % u64_mod) (prev p) in
    if below i count then read ring_size rb.buffer p >>= rest else ok total

unfoldable pub get_average : RingBuffer → Count → Run ℕ
unfolding sum_loop
get_average rb count = if rb.size == 0 then ok 0 else do
  total ← sum_loop rb count rb.size 0 0 rb.pos
  if to_u64 count == 0 then fault division_by_zero else ok (total / to_u64 count)

unfoldable pub predict_next : RingBuffer → Count → Run ℕ
unfolding get_last get_average
predict_next rb count = if rb.size == 0 then ok 0 else do
  last ← get_last rb
  average ← get_average rb count
  ok ((last + sub64 average last) % u64_mod)
