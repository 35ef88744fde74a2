-- ===== src/Base/Masks.antt =====
-- What a masked comparison says: the digit laws of `&`, `|` and `^`, and from them the facts that
-- the mask algebra of the tables rests on.
use Prim.Native.Nat.{
  differ, ℕ, zero, suc, ◌+◌, ◌*◌, ◌/◌, ◌%◌, ◌≤◌, ◌<◌, min, max, bit_and, bit_or, bit_xor,
  bit_or-bitwise, bit_xor-bitwise,
}
use mathlib.Core.Path.{◌≡◌, refl, ◌∙◌}
use mathlib.Core.Logic.{◌↔◌}
use native.Mathlib.Omega.{arith}
use ivs.Base.Bits.{bit_and_step, bit_and-zero, lowest_digit}

pub bit_or_step : (x y : ℕ) → bit_or x y ≡ bit_or (x / 2) (y / 2) * 2 + max (x % 2) (y % 2)
bit_or_step zero y = omega (arith, bit_or-bitwise 0 y, bit_or-bitwise 0 (y / 2))
bit_or_step (suc x) y = lowest_digit (λ t. t) max bit_or bit_or-bitwise x y

differ_bits : (a b : ℕ) → a < 2 → b < 2 → differ a b ≡ (a + b) % 2
differ_bits zero zero p q = refl
differ_bits zero (suc zero) p q = refl
differ_bits (suc zero) zero p q = refl
differ_bits (suc zero) (suc zero) p q = refl
differ_bits zero (suc (suc b)) p q = absurd (omega arith)
differ_bits (suc zero) (suc (suc b)) p q = absurd (omega arith)
differ_bits (suc (suc a)) b p q = absurd (omega arith)

pub bit_xor_step : (a b : ℕ) → bit_xor a b ≡ bit_xor (a / 2) (b / 2) * 2 + (a + b) % 2
bit_xor_step zero b = omega (arith, bit_xor-bitwise 0 b, bit_xor-bitwise 0 (b / 2))
bit_xor_step (suc a) b =
    lowest_digit (λ t. t) differ bit_xor bit_xor-bitwise a b
    ∙ omega (arith, differ_bits (suc a % 2) (b % 2) (omega arith) (omega arith))

-- Masks that agree under a union agree under each part.
agree_fuel :
    (n a b m k : ℕ)
    → m ≤ n
    → k ≤ n
    → bit_and a (bit_or m k) ≡ bit_and b (bit_or m k)
    → (bit_and a m ≡ bit_and b m) × (bit_and a k ≡ bit_and b k)
agree_fuel zero a b zero zero p q e =
    (omega (arith, bit_and-zero a, bit_and-zero b), omega (arith, bit_and-zero a, bit_and-zero b))
agree_fuel zero a b (suc m) k p q e = absurd (omega arith)
agree_fuel zero a b zero (suc k) p q e = absurd (omega arith)
agree_fuel (suc n) a b m k p q e =
    let o = bit_or_step m k in
    let u = bit_or m k in
    let low : bit_or m k % 2 ≡ max (m % 2) (k % 2) = omega arith in
    let high : bit_or m k / 2 ≡ bit_or (m / 2) (k / 2) = omega arith in
    let ea = bit_and_step a u in
    let eb = bit_and_step b u in
    let rest : bit_and (a / 2) (bit_or (m / 2) (k / 2)) ≡ bit_and (b / 2) (bit_or (m / 2) (k / 2)) =
      rw (← high) (omega arith) in
    let ih = agree_fuel n (a / 2) (b / 2) (m / 2) (k / 2) (omega arith) (omega arith) rest in
    (
      omega (arith, bit_and_step a m, bit_and_step b m),
      omega (arith, bit_and_step a k, bit_and_step b k),
    )

pub bit_and-bit_or_agree :
    (a b m k : ℕ)
    → bit_and a (bit_or m k) ≡ bit_and b (bit_or m k)
    → (bit_and a m ≡ bit_and b m) × (bit_and a k ≡ bit_and b k)
bit_and-bit_or_agree a b m k e = agree_fuel (m + k) a b m k (omega arith) (omega arith) e

xor_fuel : (n a b m : ℕ) → m ≤ n → (bit_and (bit_xor a b) m ≡ 0) ↔ (bit_and a m ≡ bit_and b m)
xor_fuel zero a b zero p =
    (λ e. omega (arith, bit_and-zero a, bit_and-zero b), λ e. bit_and-zero (bit_xor a b))
xor_fuel zero a b (suc m) p = absurd (omega arith)
xor_fuel (suc n) a b m p =
    let x = bit_xor_step a b in
    let low : bit_xor a b % 2 ≡ (a + b) % 2 = omega arith in
    let high : bit_xor a b / 2 ≡ bit_xor (a / 2) (b / 2) = omega arith in
    let step : bit_and (bit_xor a b) m
        ≡ bit_and (bit_xor (a / 2) (b / 2)) (m / 2) * 2 + min ((a + b) % 2) (m % 2) =
      rw (← high, ← low) (bit_and_step (bit_xor a b) m) in
    let ih = xor_fuel n (a / 2) (b / 2) (m / 2) (omega arith) in
    let ea = bit_and_step a m in
    let eb = bit_and_step b m in
    (λ e. let r = ih.0 (omega arith) in omega arith, λ e. let r = ih.1 (omega arith) in omega arith)

-- Two words differ nowhere under a mask when they agree under it.
pub bit_and-bit_xor : (a b m : ℕ) → (bit_and (bit_xor a b) m ≡ 0) ↔ (bit_and a m ≡ bit_and b m)
bit_and-bit_xor a b m = xor_fuel m a b m (omega arith)
