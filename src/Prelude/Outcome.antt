-- ===== src/Prelude/Outcome.antt =====
-- The outcome of a C call: a value, `exit(1)`, or undefined behaviour, which is named.
use Prim.Native.Nat.{ℕ, ◌<◌}
use mathlib.Core.Path.{◌≡◌, subst, refl}
use native.Mathlib.Omega.{arith}
use o_rss_nic.Prelude.Tests.{ltb, ◌==◌, if◌then◌else◌}
use native.Mathlib.Decide.{ℕ_discrete}
use mathlib.Core.Logic.{◌≢◌}

-- `no_return`: control reaches the end of a non-void function.
pub data Fault : Type 0 where
  out_of_bounds bad_pointer division_by_zero no_return out_of_fuel : Fault

pub data Run {ℓ} (A : Type ℓ) : Type ℓ where
  exit_failure : Run A
  fault : Fault → Run A
  ok : A → Run A

infixl 5 ◌>>=◌ ◌>>◌
abbrev pub ◌>>=◌ {ℓ κ} : {B : Type κ} {A : Type ℓ} → Run A → (A → Run B) → Run B
exit_failure >>= next = exit_failure
fault why >>= next = fault why
ok value >>= next = next value

abbrev pub ◌>>◌ {ℓ κ} : {A : Type ℓ} {B : Type κ} → Run A → Run B → Run B
m >> k = m >>= λ _. k

-- The run ends normally, in a value that satisfies `P`.
abbrev pub Returns {ℓ κ} : {V : Type ℓ} (run : Run V) (holds : V → Type κ) → Type (ℓ ⊔ κ)
Returns {V} run holds = (v : V) × (run ≡ ok v) × holds v

pub ok-injective {ℓ} : {A : Type ℓ} {a b : A} → ok a ≡ ok b → a ≡ b
ok-injective h = cc

-- A bind that ends normally does so in both parts.
pub >>=-eq-ok {ℓ κ} :
    {V : Type ℓ} {W : Type κ} (first : Run V) (second : V → Run W) {w : W}
    → (first >>= second) ≡ ok w
    → Returns first (λ v. second v ≡ ok w)
>>=-eq-ok (ok v) second run = (v, refl, run)
>>=-eq-ok exit_failure second run = cc
>>=-eq-ok (fault why) second run = cc

-- A C array is the function from its indices; its length stands at each access.
abbrev pub Array {ℓ} : Type ℓ → Type ℓ
Array A = ℕ → A

module _ {ℓ} {A : Type ℓ} where
  abbrev pub update : Array A → ℕ → A → Array A
  update a i v j = if i == j then v else a j

  abbrev pub read : ℕ → Array A → ℕ → Run A
  read n a i = if ltb i n then ok (a i) else fault out_of_bounds

  abbrev pub write : ℕ → Array A → ℕ → A → Run (Array A)
  write n a i v = if ltb i n then ok (update a i v) else fault out_of_bounds

  pub read-ok : (n : ℕ) (a : Array A) (i : ℕ) → i < n → read n a i ≡ ok (a i)
  read-ok n a i h = ground arith

  pub write-ok : (n : ℕ) (a : Array A) (i : ℕ) (v : A) → i < n → write n a i v ≡ ok (update a i v)
  write-ok n a i v h = ground arith

-- What holds of the new element and of the others holds after a write.
pub update-cases {ℓ κ} :
    {A : Type ℓ} (P : ℕ → A → Type κ) (a : Array A) (i : ℕ) (v : A) (k : ℕ)
    → P i v
    → (i ≢ k → P k (a k))
    → P k (update a i v k)
update-cases P a i v k here there = elim (ℕ_discrete i k) [
  | yes e ↦ rw (← e) (subst (λ x. P i x) {x = v} {y = update a i v i} (ground arith) here)
  | no ne ↦ subst (λ x. P k x) {x = a k} {y = update a i v k} (ground arith) (there ne)
]
