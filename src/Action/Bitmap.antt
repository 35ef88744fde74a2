-- ===== src/Action/Bitmap.antt =====
-- The attribute bitmaps of modules/ivs/module/inc/ivs/ivs.h: what a bit reads after a set or a clear.
use ivs.Base.{
  ℕ, zero, suc, ◌-◌, ◌/◌, ◌%◌, ◌^◌, ◌<◌, ◌≡◌, refl, ap, ◌∙◌, bit_and, bit_or, Bool, false, ◌&&◌,
  ◌||◌, ◌==◌, if◌then◌else◌, ltb, arith,
}
use ivs.Base.Bits.{bit_and_step, bit_and-zero, two_pow-suc, two_pow-pos}
use ivs.Base.Masks.{bit_or_step}
use ivs.Action.{attr_bitmap_test, attr_bitmap_set, attr_bitmap_clear}

abbrev has_bit : ℕ → ℕ → Bool
has_bit a zero = a % 2 == 1
has_bit a (suc k) = has_bit (a / 2) k

has_bit-bit_or : (k a b : ℕ) → has_bit (bit_or a b) k ≡ (has_bit a k || has_bit b k)
has_bit-bit_or zero a b = ground (arith, bit_or_step a b)
has_bit-bit_or (suc k) a b =
    ap (λ n. has_bit n k) (omega (arith, bit_or_step a b)) ∙ has_bit-bit_or k (a / 2) (b / 2)

has_bit-bit_and : (k a b : ℕ) → has_bit (bit_and a b) k ≡ (has_bit a k && has_bit b k)
has_bit-bit_and zero a b = ground (arith, bit_and_step a b)
has_bit-bit_and (suc k) a b =
    ap (λ n. has_bit n k) (omega (arith, bit_and_step a b)) ∙ has_bit-bit_and k (a / 2) (b / 2)

zero-has_bit : (k : ℕ) → has_bit 0 k ≡ false
zero-has_bit zero = refl
zero-has_bit (suc k) = zero-has_bit k

two_pow-has_bit : (j k : ℕ) → has_bit (2 ^ j) k ≡ (j == k)
two_pow-has_bit zero zero = refl
two_pow-has_bit zero (suc k) = zero-has_bit k ∙ ground arith
two_pow-has_bit (suc j) zero = ground (arith, two_pow-suc j)
two_pow-has_bit (suc j) (suc k) =
    ap (λ n. has_bit n k) (omega (arith, two_pow-suc j)) ∙ two_pow-has_bit j k ∙ ground arith

ones-has_bit : (w k : ℕ) → has_bit (2 ^ w - 1) k ≡ ltb k w
ones-has_bit zero k = zero-has_bit k ∙ ground arith
ones-has_bit (suc w) zero = ground (arith, two_pow-suc w, two_pow-pos w)
ones-has_bit (suc w) (suc k) =
    ap (λ n. has_bit n k) (omega (arith, two_pow-suc w, two_pow-pos w))
    ∙ ones-has_bit w k
    ∙ ground arith

two_pow-lt : (j w : ℕ) → j < w → 2 ^ j < 2 ^ w
two_pow-lt j zero h = elim h [ ]
two_pow-lt zero (suc w) h = omega (arith, two_pow-suc w, two_pow-pos w)
two_pow-lt (suc j) (suc w) h =
    omega (arith, two_pow-suc w, two_pow-suc j, two_pow-lt j w (omega arith))

-- The complement of a bit in a word of `w` bits.
complement-has_bit :
    (w j k : ℕ) → j < w → has_bit (2 ^ w - 1 - 2 ^ j) k ≡ (if k == j then false else ltb k w)
complement-has_bit zero j k h = elim h [ ]
complement-has_bit (suc w) zero zero h = ground (arith, two_pow-suc w, two_pow-pos w)
complement-has_bit (suc w) zero (suc k) h =
    ap (λ n. has_bit n k) (omega (arith, two_pow-suc w, two_pow-pos w))
    ∙ ones-has_bit w k
    ∙ ground arith
complement-has_bit (suc w) (suc j) zero h =
    ground (arith, two_pow-suc w, two_pow-suc j, two_pow-lt j w (omega arith))
complement-has_bit (suc w) (suc j) (suc k) h =
    ap (λ n. has_bit n k)
      (omega (arith, two_pow-suc w, two_pow-suc j, two_pow-lt j w (omega arith)))
    ∙ complement-has_bit w j k (omega arith)
    ∙ ground arith

half_pow : (k : ℕ) → 2 ^ suc k / 2 ≡ 2 ^ k
half_pow k = omega (arith, two_pow-suc k)

test-has_bit : (k a : ℕ) → attr_bitmap_test a k ≡ has_bit a k
unfolding attr_bitmap_test
test-has_bit zero a = ground (arith, bit_and_step a 1, bit_and-zero (a / 2))
test-has_bit (suc k) a = ground (
  arith,
  bit_and_step a (2 ^ suc k),
  two_pow-suc k,
  ap (λ n. bit_and (a / 2) n) (half_pow k),
  test-has_bit k (a / 2),
)

pub test-set :
    (a j k : ℕ) → attr_bitmap_test (attr_bitmap_set a j) k ≡ (attr_bitmap_test a k || (j == k))
unfolding attr_bitmap_set
test-set a j k =
    test-has_bit k (bit_or a (2 ^ j))
    ∙ has_bit-bit_or k a (2 ^ j)
    ∙ rw (two_pow-has_bit j k, test-has_bit k a) refl

pub test-clear :
    (a j k : ℕ)
    → j < 64
    → k < 64
    → attr_bitmap_test (attr_bitmap_clear a j) k ≡ (if k == j then false else attr_bitmap_test a k)
unfolding attr_bitmap_clear
test-clear a j k small h =
    test-has_bit k (bit_and a (2 ^ 64 - 1 - 2 ^ j))
    ∙ has_bit-bit_and k a (2 ^ 64 - 1 - 2 ^ j)
    ∙ rw (complement-has_bit 64 j k small, test-has_bit k a) ground (arith, has_bit a k)

pub zero-test : (k : ℕ) → attr_bitmap_test 0 k ≡ false
zero-test k = test-has_bit k 0 ∙ zero-has_bit k
