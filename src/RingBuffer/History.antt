-- ===== src/RingBuffer/History.antt =====
-- What src/ringbuffer.c holds after a sequence of `ringbuffer_add`: the entries from the newest
-- back, and the newest one in terms of the values that were added.
use o_rss_nic.Prelude.{
  ==-false, ==_iff, Array, Bool-cases, List, Returns, [], ap, arith, if◌then◌else◌, inl, inr, min,
  ok, ok-injective, read-ok, refl, suc, sym, take, update, zero, ℕ, ◌%◌, ◌+◌, ◌-◌, ◌<◌, ◌==◌, ◌↔◌,
  ◌∙◌, ◌∷◌, ◌≡◌, ◌≢◌, ◌≤◌,
}
use o_rss_nic.RingBuffer.{RingBuffer, ring_size, u64_mod, init, add, get_last, sub64, prev}
use o_rss_nic.RingBuffer.Bounds.{IsValid, init-IsValid, added, add-eq-added, added-IsValid}

-- The `n` entries from the place `p` back, going round at the ring's end.
abbrev pub window : Array ℕ → ℕ → ℕ → List ℕ
window buffer zero p = []
window buffer (suc n) p = buffer p ∷ window buffer n (prev p)

-- The entries, newest first.
abbrev pub recent : RingBuffer → List ℕ
recent rb = window rb.buffer rb.size rb.pos

-- The value that `add` stores.
abbrev pub delta : RingBuffer → ℕ → ℕ
delta rb value = if rb.size == 0 then value else sub64 value (rb.buffer rb.pos)

-- A write at `q` is not seen by the window of the places before `q`.
window-update :
    (buffer : Array ℕ) (q v k n p : ℕ)
    → q < ring_size
    → p ≡ (q + (15 - k)) % ring_size
    → n + k ≤ 15
    → window (update buffer q v) n p ≡ window buffer n p
window-update buffer q v k zero p hq e h = refl
window-update buffer q v k (suc n) p hq e h =
    rw (window-update buffer q v (suc k) n (prev p) hq (ground arith) (omega arith)) (ground arith)

take-window :
    (buffer : Array ℕ) (k n p : ℕ) → take k (window buffer n p) ≡ window buffer (min k n) p
take-window buffer zero n p = rw (min_zero n)
  where
    min_zero : (n : ℕ) → min 0 n ≡ 0
    min_zero n = omega arith
take-window buffer (suc k) zero p = rw (min_zero k)
  where
    min_zero : (k : ℕ) → min (suc k) 0 ≡ 0
    min_zero k = omega arith
take-window buffer (suc k) (suc n) p = rw (min_suc k n, take-window buffer k n (prev p))
  where
    min_suc : (k n : ℕ) → min (suc k) (suc n) ≡ suc (min k n)
    min_suc k n = omega arith

window-push :
    (buffer : Array ℕ) (d n p : ℕ)
    → p < ring_size
    → n ≤ 15
    → window (update buffer ((p + 1) % ring_size) d) (suc n) ((p + 1) % ring_size)
      ≡ d ∷ window buffer n p
window-push buffer d n p hp h =
    let q = (p + 1) % ring_size in
    let back : prev q ≡ p = ground arith in
    let older : window (update buffer q d) n (prev q) ≡ window buffer n p =
      rw back (window-update buffer q d 0 n p (omega arith) (omega arith) (omega arith)) in
    rw older (ground arith)

recent-added :
    {rb : RingBuffer} (value : ℕ)
    → IsValid rb
    → recent (added rb value) ≡ take ring_size (delta rb value ∷ recent rb)
recent-added {rb} value v =
    let grown : (added rb value).size ≡ suc (min 15 rb.size) = ground (arith, v.filled) in
    rw (take-window rb.buffer 15 rb.size rb.pos) (
      ap (λ n. window (added rb value).buffer n (added rb value).pos) grown
      ∙ window-push rb.buffer (delta rb value) (min 15 rb.size) rb.pos v.place (omega arith))

-- `ringbuffer_add` on a valid ring ends normally. Read from the newest back, the entries are then
-- the new one, which is the value itself on an empty ring and else its difference from the last
-- entry, followed by the old entries, of which the oldest is forgotten when the ring is full.
pub add-recent :
    {rb : RingBuffer} (value : ℕ)
    → IsValid rb
    → Returns (add rb value) λ r. recent r ≡ take ring_size (delta rb value ∷ recent rb)
add-recent {rb} value v = (added rb value, add-eq-added value v, recent-added value v)

-- The rings that a sequence of values, newest first, can lead to.
pub data History : List ℕ → RingBuffer → Type 0 where
  fresh : History [] init
  more :
      {vs : List ℕ} {rb r : RingBuffer} (value : ℕ)
      → value < u64_mod
      → History vs rb
      → add rb value ≡ ok r
      → History (value ∷ vs) r

-- The values at even and at odd distance from the newest, added up.
abbrev pub plus : List ℕ → ℕ
plus [] = 0
plus (v ∷ []) = v
plus (v ∷ w ∷ vs) = v + plus vs

abbrev pub minus : List ℕ → ℕ
minus [] = 0
minus (v ∷ vs) = plus vs

plus-cons : (v : ℕ) (vs : List ℕ) → plus (v ∷ vs) ≡ v + minus vs
plus-cons v [] = omega arith
plus-cons v (w ∷ vs) = refl

pub record Alternates (vs : List ℕ) (rb : RingBuffer) : Type 0 where
  pub valid : IsValid rb
  pub empty : rb.size ≡ 0 → vs ≡ []
  pub newest : rb.size ≢ 0 → (rb.buffer rb.pos + minus vs) % u64_mod ≡ plus vs % u64_mod

Alternates-added :
    {vs : List ℕ} {rb : RingBuffer} (value : ℕ)
    → value < u64_mod
    → Alternates vs rb
    → Alternates (value ∷ vs) (added rb value)
Alternates-added {vs} {rb} value h t = record {
  valid = added-IsValid value h t.valid;
  empty = λ e. absurd (ground arith);
  newest = λ _. elim (Bool-cases (rb.size == 0)) [
    | inl e ↦
        let none_yet : vs ≡ [] = t.empty ((==_iff rb.size 0).0 e) in rw (e, none_yet) (ground arith)
    | inr ne ↦
        let before = t.newest (==-false rb.size 0 ne) in
        let last = t.valid.words rb.pos in
        rw (ne, plus-cons value vs) (ground (arith, before, last))
  ];
}

pub History-Alternates : {vs : List ℕ} {rb : RingBuffer} → History vs rb → Alternates vs rb
History-Alternates fresh = record { valid = init-IsValid; empty = λ _. refl; newest = ground arith }
History-Alternates (more value h past step) =
    let t = History-Alternates past in
    rw (ok-injective (sym step ∙ add-eq-added value t.valid)) (Alternates-added value h t)

-- After any sequence of `ringbuffer_add` on a fresh ring, `ringbuffer_get_last` does not leave
-- the array, and gives the alternating sum of all the values ever added, newest first, as a
-- `uint64_t`: the newest, minus the one before it, plus the one before that, and so on.
pub get_last-alternates :
    {vs : List ℕ} {rb : RingBuffer}
    → History vs rb
    → Returns (get_last rb) λ l. (l < u64_mod) × ((l + minus vs) % u64_mod ≡ plus vs % u64_mod)
unfolding get_last
get_last-alternates {vs} {rb} past =
    let t = History-Alternates past in
    elim (Bool-cases (rb.size == 0)) [
      | inl e ↦ (0, rw e, (omega arith, rw (t.empty ((==_iff rb.size 0).0 e))))
      | inr ne ↦ (
        rb.buffer rb.pos,
        rw ne (read-ok ring_size rb.buffer rb.pos t.valid.place),
        (t.valid.words rb.pos, t.newest (==-false rb.size 0 ne)),
      )
    ]

-- After `ringbuffer_add` of three values `a ≤ b ≤ c` of a packet counter to a fresh ring, each a
-- `uint64_t`: the last entry is the latest increase `c - b` exactly when the first count `a` was
-- 0.
pub get_last-increase_iff :
    {rb : RingBuffer} (a b c : ℕ)
    → a ≤ b
    → b ≤ c
    → c < u64_mod
    → History (c ∷ b ∷ a ∷ []) rb
    → (get_last rb ≡ ok (c - b)) ↔ (a ≡ 0)
get_last-increase_iff {rb} a b c hab hbc hc past =
    let (l, e, (small, alternates)) = get_last-alternates past in
    (λ h. let same = ok-injective (sym e ∙ h) in omega arith, λ zero_first. e ∙ ap ok (omega arith))
