-- ===== src/RingBuffer/Bounds.antt =====
-- What every operation of src/ringbuffer.c keeps, and that none leaves the array.
use o_rss_nic.Prelude.{
  Returns, arith, if◌then◌else◌, ltb, min, ok, refl, true, update, ℕ, ◌%◌, ◌+◌, ◌<◌, ◌==◌, ◌≡◌, ◌≢◌,
  ◌≤◌,
}
use o_rss_nic.RingBuffer.{RingBuffer, ring_size, u64_mod, init, add, sub64}

-- The places are in range and every entry is a `uint64_t`.
pub record IsValid (rb : RingBuffer) : Type 0 where
  pub place : rb.pos < ring_size
  pub filled : rb.size ≤ ring_size
  pub words : (i : ℕ) → rb.buffer i < u64_mod

pub init-IsValid : IsValid init
init-IsValid = record { place = omega arith; filled = omega arith; words = λ i. omega arith }

-- The ring after `add`, where no access faults.
abbrev pub added : RingBuffer → ℕ → RingBuffer
added rb value = record rb {
  pos = (rb.pos + 1) % ring_size;
  buffer =
      update rb.buffer ((rb.pos + 1) % ring_size)
        (if rb.size == 0 then value else sub64 value (rb.buffer rb.pos));
  size = if ltb rb.size ring_size then rb.size + 1 else rb.size;
  is_active = true;
}

pub add-eq-added : {rb : RingBuffer} (value : ℕ) → IsValid rb → add rb value ≡ ok (added rb value)
unfolding add
add-eq-added {rb} value v = ground (arith, v.place)

pub added-IsValid :
    {rb : RingBuffer} (value : ℕ) → value < u64_mod → IsValid rb → IsValid (added rb value)
added-IsValid {rb} value h v = record {
  place = omega arith;
  filled = ground (arith, v.filled);
  words = λ i. ground (arith, v.words i);
}

-- `ringbuffer_add` of a `uint64_t` to a valid ring ends normally and does not leave the array.
-- It keeps the invariant, moves the place one on round the ring, counts up to the size of the
-- ring, marks the flow active and leaves its core and all other entries alone.
pub add-IsValid :
    {rb : RingBuffer} (value : ℕ)
    → value < u64_mod
    → IsValid rb
    → Returns (add rb value) λ r.
      IsValid r
      × (r.pos ≡ (rb.pos + 1) % ring_size)
      × (r.size ≡ min ring_size (rb.size + 1))
      × (r.is_active ≡ true)
      × (r.assigned_core ≡ rb.assigned_core)
      × ((i : ℕ) → i ≢ r.pos → r.buffer i ≡ rb.buffer i)
add-IsValid {rb} value h v = (
  added rb value,
  add-eq-added value v,
  (added-IsValid value h v, refl, ground (arith, v.filled), refl, refl, λ i ne. ground arith),
)
