-- ===== src/Base/Bits.antt =====
-- A mask of low ones is a remainder. The digit laws of `bit_and` come from its definition.
use Prim.Native.Nat.{
  ℕ, zero, suc, ◌+◌, ◌-◌, ◌*◌, ◌/◌, ◌%◌, ◌^◌, ◌≤◌, ◌<◌, min, bit_and, digits, bit_and-bitwise,
}
use mathlib.Core.Path.{◌≡◌, refl, sym, ap, ◌∙◌}
use native.Mathlib.Omega.{arith}
use native.Mathlib.Decide.{dec_lt}
use native.Mathlib.Nat.{
  pow-suc, mod-lt, mod-eq_of_lt, div-add-mod, mul-add-mod_self_left, mul_assoc, zero-add, suc-add,
}

-- The recursion over binary digits takes as much fuel as its number; more changes nothing.
module _ (z : ℕ → ℕ) (f : ℕ → ℕ → ℕ) where
  one_more : (n x y : ℕ) → x ≤ n → digits z f (suc n) x y ≡ digits z f n x y
  one_more zero zero y h = refl
  one_more (suc n) zero y h = refl
  one_more zero (suc x) y h = elim h [ ]
  one_more (suc n) (suc x) y h =
      ap (λ t. t * 2 + f (suc x % 2) (y % 2)) (one_more n (suc x / 2) (y / 2) (omega arith))

  spare : (n x y : ℕ) → x ≤ n → digits z f n x y ≡ digits z f x x y
  spare zero zero y h = refl
  spare zero (suc x) y h = elim h [ ]
  spare (suc n) x y h = elim (dec_lt n x) [
    | yes full ↦ let e : suc n ≡ x = omega arith in ap (λ t. digits z f t x y) e
    | no more ↦ one_more n x y (omega arith) ∙ spare n x y (omega arith)
  ]

  -- The lowest digit of an operation that is this recursion.
  pub lowest_digit :
      (op : ℕ → ℕ → ℕ)
      → ((x y : ℕ) → op x y ≡ digits z f x x y)
      → (x y : ℕ) → op (suc x) y ≡ op (suc x / 2) (y / 2) * 2 + f (suc x % 2) (y % 2)
  lowest_digit op means x y =
      means (suc x) y
      ∙ ap (λ t. t * 2 + f (suc x % 2) (y % 2))
          (spare x (suc x / 2) (y / 2) (omega arith) ∙ sym (means (suc x / 2) (y / 2)))

-- A statement about all numbers by halving them.
pub halving {ℓ} : (P : ℕ → Type ℓ) → P 0 → ((x : ℕ) → P (suc x / 2) → P (suc x)) → (x : ℕ) → P x
halving P base step x = below x x (omega arith)
  where
    below : (n y : ℕ) → y ≤ n → P y
    below n zero h = base
    below zero (suc y) h = elim h [ ]
    below (suc n) (suc y) h = step y (below n (suc y / 2) (omega arith))

pub bit_and_step : (x y : ℕ) → bit_and x y ≡ bit_and (x / 2) (y / 2) * 2 + min (x % 2) (y % 2)
bit_and_step zero y = omega (arith, bit_and-bitwise 0 y, bit_and-bitwise 0 (y / 2))
bit_and_step (suc x) y = lowest_digit (λ t. 0) min bit_and bit_and-bitwise x y

pub bit_and-zero : (x : ℕ) → bit_and x 0 ≡ 0
bit_and-zero = halving (λ x. bit_and x 0 ≡ 0) refl (λ x h. omega (arith, bit_and_step (suc x) 0, h))

pub two_pow-pos : (k : ℕ) → 0 < 2 ^ k
two_pow-pos zero = omega arith
two_pow-pos (suc k) = rw pow-suc (omega (arith, two_pow-pos k))

pub two_pow-suc : (k : ℕ) → 2 ^ suc k ≡ 2 * 2 ^ k
two_pow-suc k = rw pow-suc (omega arith)

-- The remainder is the one number below the divisor that a multiple of it leaves.
pub mod_unique : (a m q r : ℕ) → a ≡ m * q + r → r < m → a % m ≡ r
mod_unique a m q r e h = rw (e, mul-add-mod_self_left) (mod-eq_of_lt h)

pub mod_double : (a m : ℕ) → 0 < m → a % (2 * m) ≡ (a / 2 % m) * 2 + a % 2
mod_double a m h =
    mod_unique a (2 * m) (a / 2 / m) _ (omega (arith, div-add-mod (a / 2) m))
      (omega (arith, mod-lt (a / 2) h))

-- `x & (2^k - 1)` is `x % 2^k`.
pub bit_and-mask : (k a : ℕ) → bit_and a (2 ^ k - 1) ≡ a % 2 ^ k
bit_and-mask zero a = omega (arith, bit_and-zero a)
bit_and-mask (suc k) a =
    let half : (2 * 2 ^ k - 1) / 2 ≡ 2 ^ k - 1 = omega (arith, two_pow-pos k) in
    let odd : (2 * 2 ^ k - 1) % 2 ≡ 1 = omega (arith, two_pow-pos k) in
    rw (two_pow-suc k, bit_and_step a (2 * 2 ^ k - 1), half, odd, bit_and-mask k (a / 2))
      (omega (arith, mod_double a (2 ^ k) (two_pow-pos k)))

pub two_pow-add : (a b : ℕ) → 2 ^ (a + b) ≡ 2 ^ a * 2 ^ b
two_pow-add zero b = rw zero-add (omega arith)
two_pow-add (suc a) b =
    rw (suc-add, two_pow-suc (a + b), two_pow-suc a, two_pow-add a b) (omega arith)

pub mod-mul-mod : (x m c : ℕ) → x % (m * c) % m ≡ x % m
mod-mul-mod x m c =
    let e : x ≡ m * (c * (x / (m * c))) + x % (m * c) =
      sym (div-add-mod x (m * c)) ∙ ap (λ (t : ℕ). t + x % (m * c)) (mul_assoc m c (x / (m * c))) in
    sym (ap (λ (t : ℕ). t % m) e ∙ mul-add-mod_self_left m (c * (x / (m * c))) (x % (m * c)))

-- A word's low bits do not feel its wrap-around.
pub mod-word-mod : (k x : ℕ) → k ≤ 32 → x % 2 ^ 32 % 2 ^ k ≡ x % 2 ^ k
mod-word-mod k x h =
    let parts : 32 ≡ k + (32 - k) = omega arith in
    let e : 2 ^ 32 ≡ 2 ^ k * 2 ^ (32 - k) = ap (λ (t : ℕ). 2 ^ t) parts ∙ two_pow-add k (32 - k) in
    ap (λ (w : ℕ). x % w % 2 ^ k) e ∙ mod-mul-mod x (2 ^ k) (2 ^ (32 - k))
