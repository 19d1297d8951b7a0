-- ===== src/Heap.antt =====
-- The blocks of `struct RingBuffer` that src/ringbuffer.c allocates and frees. The hash map and
-- the balancer hold addresses of them, and share what they point to.
use o_rss_nic.Prelude.{
  Option, Run, bad_pointer, fault, if◌then◌else◌, none, ok, some, update, ℕ, ◌+◌, ◌==◌,
}
use o_rss_nic.RingBuffer.{RingBuffer, init}

-- `NULL` is address 0. `calloc` gives addresses that no block had before, so that a use of a
-- freed block shows.
pub record Heap : Type 0 where
  pub next : ℕ
  pub cell : ℕ → Option RingBuffer

abbrev pub null : ℕ
null = 0

abbrev pub no_blocks : Heap
no_blocks = record { next = 1; cell = λ _. none }

unfoldable pub ringbuffer_init : Heap → ℕ × Heap
ringbuffer_init h = (h.next, record { next = h.next + 1; cell = update h.cell h.next (some init) })

-- `free`: nothing at `NULL`, undefined behaviour at an address with no block.
unfoldable pub ringbuffer_destroy : ℕ → Heap → Run Heap
ringbuffer_destroy p h = if p == null then ok h else elim (h.cell p) [
  | none ↦ fault bad_pointer
  | some rb ↦ ok (record h { cell = update h.cell p none })
]

-- `*p`
unfoldable pub load : ℕ → Heap → Run RingBuffer
load p h = elim (h.cell p) [ none ↦ fault bad_pointer | some rb ↦ ok rb ]

unfoldable pub store : ℕ → RingBuffer → Heap → Run Heap
store p rb h = elim (h.cell p) [
  | none ↦ fault bad_pointer
  | some old ↦ ok (record h { cell = update h.cell p (some rb) })
]
