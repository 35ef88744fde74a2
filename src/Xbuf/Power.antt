-- ===== src/Xbuf/Power.antt =====
-- `next_pow2` of modules/xbuf/module/src/xbuf.c: the least power of two that is not below a number.
use ivs.Base.{
  ℕ, zero, suc, ◌+◌, ◌-◌, ◌*◌, ◌/◌, ◌%◌, ◌^◌, ◌≤◌, ◌<◌, ◌≡◌, refl, ap, ◌∙◌, bit_or, arith,
}
use ivs.Base.Bits.{two_pow-pos, two_pow-suc, two_pow-add, halving, mod_unique}
use ivs.Base.Masks.{bit_or_step}
use native.Mathlib.Decide.{dec_lt}
use native.Mathlib.Nat.{
  mod-eq_of_lt, lt-mul-div-succ, mul-le-mul_left, mul-add, mul_comm, div-le_self, div-lt_iff_lt-mul,
  pow-le-pow_right,
}
use ivs.Xbuf.{smear, next_pow2}

bit_or-zero : (x : ℕ) → bit_or x 0 ≡ x
bit_or-zero = halving (λ x. bit_or x 0 ≡ x) refl (λ x h. omega (arith, bit_or_step (suc x) 0, h))

bit_or-ge : (x y : ℕ) → x ≤ bit_or x y
bit_or-ge =
    halving (λ x. (y : ℕ) → x ≤ bit_or x y) (λ y. omega arith)
      (λ x h y. omega (arith, bit_or_step (suc x) y, h (y / 2)))

bit_or-lt : (n x y : ℕ) → x < 2 ^ n → y < 2 ^ n → bit_or x y < 2 ^ n
bit_or-lt zero x y p q =
    let e : x ≡ 0 = omega arith in let k : y ≡ 0 = omega arith in rw (e, k) (omega arith)
bit_or-lt (suc n) x y p q =
    let w = two_pow-suc n in
    let ih = bit_or-lt n (x / 2) (y / 2) (omega arith) (omega arith) in
    omega (arith, bit_or_step x y, ih, w)

-- All digits set below the `b`-th.
join_low : (b a y z : ℕ) → 2 ^ (a + b) ≤ y + 2 ^ b → z + 1 ≡ 2 ^ b → 2 ^ (a + b) ≤ bit_or y z + 1
join_low zero a y z p q = omega (arith, bit_or-ge y z, p)
join_low (suc b) a y z p q =
    let e : a + suc b ≡ suc (a + b) = omega arith in
    let w = two_pow-suc b in
    let p' : 2 * 2 ^ (a + b) ≤ y + 2 * 2 ^ b = omega (arith, rw (e, two_pow-suc (a + b)) at p) in
    let ih = join_low b a (y / 2) (z / 2) (omega arith) (omega arith) in
    rw (e, two_pow-suc (a + b)) (omega (arith, bit_or_step y z, ih, w, q))

-- The highest `a` of `a + b + c` digits, then the next `b`.
join_ones :
    (c b a y z : ℕ)
    → 2 ^ (a + b + c) ≤ y + 2 ^ (b + c)
    → 2 ^ (b + c) ≤ z + 2 ^ c
    → z < 2 ^ (b + c)
    → 2 ^ (a + b + c) ≤ bit_or y z + 2 ^ c
join_ones (suc c) b a y z p q r =
    let e : a + b + suc c ≡ suc (a + b + c) = omega arith in
    let k : b + suc c ≡ suc (b + c) = omega arith in
    let w = two_pow-suc c in
    let v = two_pow-suc (b + c) in
    let p' : 2 * 2 ^ (a + b + c) ≤ y + 2 * 2 ^ (b + c) =
      rw (e, k, two_pow-suc (a + b + c), two_pow-suc (b + c)) at p in
    let q' : 2 * 2 ^ (b + c) ≤ z + 2 * 2 ^ c = rw (k, two_pow-suc (b + c), two_pow-suc c) at q in
    let r' : z < 2 * 2 ^ (b + c) = rw (k, two_pow-suc (b + c)) at r in
    let ih = join_ones c b a (y / 2) (z / 2) (omega arith) (omega arith) (omega arith) in
    rw (e, two_pow-suc (a + b + c), two_pow-suc c) (omega (arith, bit_or_step y z, ih))
join_ones zero b a y z p q r =
    let e : a + b + 0 ≡ a + b = omega arith in
    let k : b + 0 ≡ b = omega arith in
    let p' : 2 ^ (a + b) ≤ y + 2 ^ b = rw (e, k) at p in
    let q' : 2 ^ b ≤ z + 1 = rw k at q in
    let r' : z < 2 ^ b = rw k at r in rw e (join_low b a y z p' (omega arith))

-- Moved down by as many digits, the ones that were behind them come first.
quotient_ones : (A B C y : ℕ) → 0 < A → A * B ≤ y + A * C → B ≤ y / A + C
quotient_ones A B C y h p = elim (dec_lt (y / A + C) B) [
  | no le ↦ omega arith
  | yes lt ↦
      let low : y < A * (y / A + 1) = lt-mul-div-succ y h in
      let all : A * (y / A + 1 + C) ≤ A * B = mul-le-mul_left A (omega arith) in
      let parts : A * (y / A + 1 + C) ≡ A * (y / A + 1) + A * C = mul-add A (y / A + 1) C in
      absurd (omega arith)
]

smear-Ones :
    (a b c y : ℕ)
    → b ≤ a
    → y < 2 ^ (a + b + c)
    → 2 ^ (a + b + c) ≤ y + 2 ^ (b + c)
    → (smear y a < 2 ^ (a + b + c)) × (2 ^ (a + b + c) ≤ smear y a + 2 ^ c)
smear-Ones a b c y h p q =
    let z = y / 2 ^ a in
    let parts : 2 ^ (a + b + c) ≡ 2 ^ a * 2 ^ (b + c) =
      ap (λ (t : ℕ). 2 ^ t) (omega arith) ∙ two_pow-add a (b + c) in
    let below : 2 ^ (b + c) ≤ 2 ^ (a + c) = pow-le-pow_right (omega arith) (omega arith) in
    let ones : 2 ^ (b + c) ≤ z + 2 ^ c =
      quotient_ones (2 ^ a) (2 ^ (b + c)) (2 ^ c) y (two_pow-pos a)
        (rw (← parts, ← two_pow-add a c) (omega (arith, q, below))) in
    let low : z < 2 ^ (b + c) =
      (div-lt_iff_lt-mul (two_pow-pos a)).1
        (omega (arith, p, parts, mul_comm (2 ^ a) (2 ^ (b + c)))) in
    let small : z ≤ y = div-le_self y (2 ^ a) in
    (bit_or-lt (a + b + c) y z p (omega arith), join_ones c b a y z q ones low)

-- A number of `n` digits, the highest `a` of them ones.
abbrev Ones : ℕ → ℕ → ℕ → Type 0
Ones n a y = (y < 2 ^ n) × (2 ^ n ≤ y + 2 ^ (n - a))

Ones-smear : (n a y : ℕ) → Ones n a y → Ones n (a + a) (smear y a)
Ones-smear n a y h = elim (dec_lt n (a + a)) [
  | no fits ↦
      let sum : n ≡ a + a + (n - (a + a)) = omega arith in
      let rest : n - a ≡ a + (n - (a + a)) = omega arith in
      let r =
        smear-Ones a a (n - (a + a)) y (omega arith) (rw (← sum) (h.0))
          (rw (← sum, ← rest) (h.1)) in
      (rw (← sum) at r.0, rw (← sum) at r.1)
  | yes over ↦ elim (dec_lt n a) [
    | no part ↦
        let sum : n ≡ a + (n - a) + 0 = omega arith in
        let rest : n - a ≡ n - a + 0 = omega arith in
        let none_left : n - (a + a) ≡ 0 = omega arith in
        let r =
          smear-Ones a (n - a) 0 y (omega arith) (rw (← sum) (h.0)) (rw (← sum, ← rest) (h.1)) in
        (rw (← sum) at r.0, rw none_left (rw (← sum) at r.1))
    | yes full ↦
        let small : y / 2 ^ a ≤ y = div-le_self y (2 ^ a) in
        let none_left : n - a ≡ 0 = omega arith in
        let none_left' : n - (a + a) ≡ 0 = omega arith in
        let h' : 2 ^ n ≤ y + 2 ^ 0 = rw none_left at h.1 in
        (
          bit_or-lt n y (y / 2 ^ a) (h.0) (omega (arith, h.0)),
          rw none_left' (omega (arith, bit_or-ge y (y / 2 ^ a), h')),
        )
  ]
]

highest : (y : ℕ) → 0 < y → (k : ℕ) × (2 ^ k ≤ y) × (y < 2 ^ suc k)
highest =
    halving (λ y. 0 < y → (k : ℕ) × (2 ^ k ≤ y) × (y < 2 ^ suc k)) (λ p. absurd (omega arith)) step
  where
    step :
        (x : ℕ)
        → (0 < suc x / 2 → (k : ℕ) × (2 ^ k ≤ suc x / 2) × (suc x / 2 < 2 ^ suc k))
        → 0 < suc x
        → (k : ℕ) × (2 ^ k ≤ suc x) × (suc x < 2 ^ suc k)
    step zero ih p = (0, omega arith, omega arith)
    step (suc x) ih p =
        let r = ih (omega arith) in
        let w = two_pow-suc (r.0) in
        let v = two_pow-suc (suc (r.0)) in
        let lo = r.1 in let hi = r.2 in (suc (r.0), omega arith, omega arith)

exponent-lt : (k m y : ℕ) → 2 ^ k ≤ y → y < 2 ^ m → k < m
exponent-lt k m y p q = elim (dec_lt k m) [
  | yes lt ↦ lt
  | no ge ↦
      let grown : 2 ^ m ≤ 2 ^ k = pow-le-pow_right (omega arith) (omega arith) in
      absurd (omega arith)
]

all_ones :
    (k y : ℕ)
    → 2 ^ k ≤ y
    → y < 2 ^ suc k
    → suc k ≤ 32
    → smear (smear (smear (smear (smear y 1) 2) 4) 8) 16 + 1 ≡ 2 ^ suc k
all_ones k y p q h =
    let n = suc k in
    let one : suc k - 1 ≡ k = omega arith in
    let start : Ones n 1 y = (q, rw (one, two_pow-suc k) (omega arith)) in
    let r =
      Ones-smear n 16 _
        (Ones-smear n 8 _ (Ones-smear n 4 _ (Ones-smear n 2 _ (Ones-smear n 1 y start)))) in
    let none_left : n - 32 ≡ 0 = omega arith in
    let r1 = rw none_left at r.1 in omega (arith, r.0, r1)

-- The 32 bits of the result, for the caller that stores them in a `uint32_t`.
pub next_pow2-word :
    (x : ℕ) → 0 < x → x ≤ 2 ^ 31 → (k : ℕ) × (next_pow2 x ≡ 2 ^ k) × (x ≤ 2 ^ k) × (2 ^ k < 2 * x)
unfolding next_pow2
next_pow2-word zero p q = absurd (omega arith)
next_pow2-word (suc zero) p q = (0, refl, omega arith, omega arith)
next_pow2-word (suc (suc y)) p q =
    let r = highest (suc y) (omega arith) in
    let k = r.0 in
    let wraps : (suc (suc y) + (2 ^ 32 - 1)) % 2 ^ 32 ≡ suc y =
      mod_unique _ (2 ^ 32) 1 (suc y) (omega arith) (omega arith) in
    let small : k < 31 = exponent-lt k 31 (suc y) (r.1) (omega arith) in
    let w = two_pow-suc k in
    let grown : 2 ^ suc k ≤ 2 ^ 31 = pow-le-pow_right (omega arith) {j = 31} (omega arith) in
    let bound : 2 ^ suc k < 2 ^ 32 = omega arith in
    let ones = all_ones k (suc y) (r.1) (r.2) (omega arith) in
    (suc k, rw (wraps, ones) (mod-eq_of_lt bound), omega (arith, r.2), omega (arith, r.1))

-- For a number from 1 to 2^30, next_pow2 is a power of two that is not below the number, is less
-- than twice it and fits an int.
pub next_pow2-least :
    (x : ℕ)
    → 0 < x
    → x ≤ 2 ^ 30
    → (k : ℕ) × (next_pow2 x ≡ 2 ^ k) × (x ≤ 2 ^ k) × (2 ^ k < 2 * x) × (next_pow2 x < 2 ^ 31)
next_pow2-least x p q =
    let (k, e, above, below) = next_pow2-word x p (omega arith) in (k, e, above, below, omega arith)
