-- ===== src/Words.antt =====
-- Words of 64 bits put together from two halves, and the byte order of the network, which the C
-- library converts to and from.
use Prim.Native.Nat.{bit_or, bit_or-bitwise, digits}
use native.Mathlib.Nat.{pow-suc}
use mathlib.Core.List.{append_assoc}
use o_rss_nic.Prelude.{
  Bool-cases, List, Run, ap, arith, drop, drop-append, false, fault, if◌then◌else◌, inl, inr, leb,
  length, length-append, length-take, max, ok, out_of_bounds, refl, suc, sym, take, take-append,
  take-drop, true, zero, ℕ, ◌%◌, ◌*◌, ◌++◌, ◌+◌, ◌/◌, ◌<◌, ◌==◌, ◌^◌, ◌∙◌, ◌≡◌, ◌≤◌,
}

-- `htons` and its kin, on words in range.
pub record ByteOrder : Type 0 where
  pub htons : ℕ → ℕ
  pub ntohs : ℕ → ℕ
  pub htonl : ℕ → ℕ
  pub ntohl : ℕ → ℕ

-- Documented behaviour: the conversions give words of their width and undo one another.
pub record IsByteOrder (order : ByteOrder) : Type 0 where
  pub htons-lt : (x : ℕ) → x < 2 ^ 16 → order.htons x < 2 ^ 16
  pub htonl-lt : (x : ℕ) → x < 2 ^ 32 → order.htonl x < 2 ^ 32
  pub ntohl-lt : (x : ℕ) → x < 2 ^ 32 → order.ntohl x < 2 ^ 32
  pub ntohs-htons : (x : ℕ) → x < 2 ^ 16 → order.ntohs (order.htons x) ≡ x
  pub ntohl-htonl : (x : ℕ) → x < 2 ^ 32 → order.ntohl (order.htonl x) ≡ x
  pub htonl-ntohl : (x : ℕ) → x < 2 ^ 32 → order.htonl (order.ntohl x) ≡ x

-- The macros `htonll` and `ntohll`: nothing where the orders agree, else the halves change places
-- and each is converted.
unfoldable pub convert64 : (ℕ → ℕ) → ℕ → ℕ
convert64 convert x =
    if 1 == convert 1 then x else bit_or (convert (x % 2 ^ 32) * 2 ^ 32) (convert (x / 2 ^ 32))

-- The digits of a number and of another that lies below them.
or_digits-same :
    (n m a b : ℕ) → a ≤ n → a ≤ m → digits (λ y. y) max n a b ≡ digits (λ y. y) max m a b
or_digits-same zero zero a b ha hm = refl
or_digits-same zero (suc m) zero b ha hm = refl
or_digits-same zero (suc m) (suc a) b ha hm = absurd (omega arith)
or_digits-same (suc n) zero zero b ha hm = refl
or_digits-same (suc n) zero (suc a) b ha hm = absurd (omega arith)
or_digits-same (suc n) (suc m) zero b ha hm = refl
or_digits-same (suc n) (suc m) (suc a) b ha hm =
    omega (arith, or_digits-same n m (suc a / 2) (b / 2) (omega arith) (omega arith))

bit_or-halves : (a b : ℕ) → bit_or a b ≡ bit_or (a / 2) (b / 2) * 2 + max (a % 2) (b % 2)
bit_or-halves zero b = omega (arith, bit_or-bitwise 0 b, bit_or-bitwise 0 (b / 2))
bit_or-halves (suc a) b = omega (
  arith,
  bit_or-bitwise (suc a) b,
  bit_or-bitwise (suc a / 2) (b / 2),
  or_digits-same a (suc a / 2) (suc a / 2) (b / 2) (omega arith) (omega arith),
)

bit_or-nothing : (n a : ℕ) → a ≤ n → bit_or a 0 ≡ a
bit_or-nothing n zero h = refl
bit_or-nothing zero (suc a) h = absurd (omega arith)
bit_or-nothing (suc n) (suc a) h =
    omega (arith, bit_or-halves (suc a) 0, bit_or-nothing n (suc a / 2) (omega arith))

-- Where the low number fits below the high one, the two are added.
pub bit_or-disjoint : (k hi lo : ℕ) → lo < 2 ^ k → bit_or (hi * 2 ^ k) lo ≡ hi * 2 ^ k + lo
bit_or-disjoint zero hi lo fits = ground (arith, bit_or-nothing hi hi)
bit_or-disjoint (suc k) hi lo fits =
    let doubled : hi * 2 ^ suc k ≡ 2 * (hi * 2 ^ k) =
      omega (arith, ap (λ (t : ℕ). hi * t) (pow-suc 2 k)) in
    ground (
      arith,
      doubled,
      pow-suc 2 k,
      bit_or-halves (hi * 2 ^ suc k) lo,
      bit_or-disjoint k hi (lo / 2) (omega (arith, pow-suc 2 k)),
    )

-- Two halves of 32 bits.
pub bit_or-join : (hi lo : ℕ) → lo < 2 ^ 32 → bit_or (hi * 2 ^ 32) lo ≡ hi * 2 ^ 32 + lo
bit_or-join hi lo fits = bit_or-disjoint 32 hi lo fits

-- The two macros take the same branch.
agree : (order : ByteOrder) → IsByteOrder order → (1 == order.htonl 1) ≡ (1 == order.ntohl 1)
agree order laws = ground (
  arith,
  laws.ntohl-htonl 1 (omega arith),
  laws.htonl-ntohl 1 (omega arith),
  ap order.ntohl {x = order.htonl 1} {y = 1},
  ap order.htonl {x = order.ntohl 1} {y = 1},
)

-- Where the conversions of 32 bits undo one another, `ntohll` undoes `htonll` on a `uint64_t`,
-- on a machine of either byte order.
pub convert64-convert64 :
    (order : ByteOrder) (x : ℕ)
    → IsByteOrder order
    → x < 2 ^ 64
    → convert64 order.ntohl (convert64 order.htonl x) ≡ x
unfolding convert64
convert64-convert64 order x laws hx = elim (Bool-cases (1 == order.htonl 1)) [
  | inl same ↦
      let same' : (1 == order.ntohl 1) ≡ true = sym (agree order laws) ∙ same in
      rw (same, same') refl
  | inr differs ↦
      let differs' : (1 == order.ntohl 1) ≡ false = sym (agree order laws) ∙ differs in
      let lo = order.htonl (x % 2 ^ 32) in
      let hi = order.htonl (x / 2 ^ 32) in
      let hi_lt : hi < 2 ^ 32 = laws.htonl-lt (x / 2 ^ 32) (omega arith) in
      let lo_lt : lo < 2 ^ 32 = laws.htonl-lt (x % 2 ^ 32) (omega arith) in
      let joined : bit_or (lo * 2 ^ 32) hi ≡ lo * 2 ^ 32 + hi = bit_or-join lo hi hi_lt in
      let low : (lo * 2 ^ 32 + hi) % 2 ^ 32 ≡ hi = omega arith in
      let high : (lo * 2 ^ 32 + hi) / 2 ^ 32 ≡ lo = omega arith in
      let back_hi : order.ntohl hi ≡ x / 2 ^ 32 = laws.ntohl-htonl (x / 2 ^ 32) (omega arith) in
      let back_lo : order.ntohl lo ≡ x % 2 ^ 32 = laws.ntohl-htonl (x % 2 ^ 32) (omega arith) in
      let again : bit_or (x / 2 ^ 32 * 2 ^ 32) (x % 2 ^ 32) ≡ x / 2 ^ 32 * 2 ^ 32 + x % 2 ^ 32 =
        bit_or-join (x / 2 ^ 32) (x % 2 ^ 32) (omega arith) in
      rw (differs, differs', joined, low, high, back_hi, back_lo, again) (omega arith)
]

-- How the machine reads a word at two, four or eight bytes in a row.
pub record Memory : Type 0 where
  pub word16 : List ℕ → ℕ
  pub word32 : List ℕ → ℕ
  pub word64 : List ℕ → ℕ

-- The `n` bytes at an offset: inside the block, or undefined behaviour.
unfoldable pub slice_at : List ℕ → (at n : ℕ) → Run (List ℕ)
slice_at bytes at n =
    if leb (at + n) (length bytes) then ok (take n (drop at bytes)) else fault out_of_bounds

pub slice_at-append :
    (before bytes after : List ℕ) (at n : ℕ)
    → at ≡ length before
    → n ≡ length bytes
    → slice_at (before ++ (bytes ++ after)) at n ≡ ok bytes
unfolding slice_at
slice_at-append before bytes after at n e e' =
    let fits : leb (at + n) (length (before ++ (bytes ++ after))) ≡ true =
      ground (arith, length-append before (bytes ++ after), length-append bytes after) in
    rw (fits, e, drop-append before (bytes ++ after), e', take-append bytes after) refl

-- The first bytes of a piece.
pub slice_at-part :
    (before bytes after : List ℕ) (at n : ℕ)
    → at ≡ length before
    → n ≤ length bytes
    → slice_at (before ++ (bytes ++ after)) at n ≡ ok (take n bytes)
slice_at-part before bytes after at n e small =
    let split : bytes ++ after ≡ take n bytes ++ (drop n bytes ++ after) =
      ap (λ (t : List ℕ). t ++ after) (sym (take-drop n bytes))
      ∙ append_assoc (take n bytes) (drop n bytes) after in
    rw split (
      slice_at-append before (take n bytes) (drop n bytes ++ after) at n e
        (sym (length-take n bytes small)))
