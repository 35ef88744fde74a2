-- ===== src/L2table/Probe.antt =====
-- The triangular numbers reach every slot of a table whose size is a power of two.
use native.Mathlib.Nat.{mod-lt, mod-eq_of_lt, div-add-mod, mul_comm}
use native.Mathlib.Decide.{dec_lt}
use ivs.Base.{
  ℕ, zero, suc, ◌+◌, ◌-◌, ◌*◌, ◌/◌, ◌%◌, ◌^◌, ◌≤◌, ◌<◌, ◌≡◌, refl, sym, ap, ◌∙◌, ◌⊎◌, inl, inr,
  arith,
}
use ivs.Base.Bits.{bit_and-mask, two_pow-pos, two_pow-suc, mod_unique, mod-mul-mod, mod-word-mod}
use ivs.L2table.{probe_index}

-- `step_size` after a number of steps.
unfoldable pub step_size : ℕ → ℕ
step_size zero = 0
step_size (suc n) = step_size n + suc n

double_step_size : (n : ℕ) → step_size n * 2 ≡ n * (n + 1)
unfolding step_size
double_step_size zero = refl
double_step_size (suc n) = omega (arith, double_step_size n)

mirror : (i j s : ℕ) → s ≡ i + j + 1 → step_size j * 2 + s * (2 * i + 1) ≡ step_size i * 2 + s * s
mirror i j s e = rw e (omega (arith, double_step_size i, double_step_size j))

-- The step opposite to `i` in `2 * m` steps lands half a table away.
opposite : (m i : ℕ) → i < m → step_size (2 * m - 1 - i) ≡ step_size i + m + 2 * m * (m - i - 1)
opposite m i h =
    let j : ℕ = 2 * m - 1 - i in
    let d : m ≡ i + 1 + (m - i - 1) = omega arith in
    omega (arith, mirror i j (2 * m) (omega arith), ap (λ (t : ℕ). m * t) d)

small_mod : (m a : ℕ) → a < 2 * m → (a ≡ a % m) ⊎ (a ≡ m + a % m)
small_mod m a h = elim (dec_lt a m) [
  | yes p ↦ inl (sym (mod-eq_of_lt p))
  | no p ↦ inr (rw (mod_unique a m 1 (a - m) (omega arith) (omega arith)) (omega arith))
]

-- Two residues that agree modulo `m` are equal modulo `2 * m`, or lie half the way apart.
half_apart :
    (m a r : ℕ) → a < 2 * m → r < 2 * m → a % m ≡ r % m → (a ≡ r) ⊎ (r ≡ a + m) ⊎ (a ≡ r + m)
half_apart m a r ha hr e = omega (arith, small_mod m a ha, small_mod m r hr)

extend :
    (m r i : ℕ)
    → 0 < m
    → r < 2 * m
    → i < m
    → step_size i % m ≡ r % m
    → (j : ℕ) × (j < 2 * m) × (step_size j % (2 * m) ≡ r)
extend m r i pos hr hi e =
    let t : ℕ = step_size i in
    let q : ℕ = t / (2 * m) in
    let a : ℕ = t % (2 * m) in
    let split : 2 * m * q + a ≡ t = div-add-mod t (2 * m) in
    let same : a % m ≡ r % m = ap (λ (w : ℕ). t % w % m) (mul_comm 2 m) ∙ mod-mul-mod t m 2 ∙ e in
    elim (half_apart m a r (mod-lt t (omega arith)) hr same) [
      | inl p ↦ (i, omega arith, p)
      | inr p ↦ (
        2 * m - 1 - i,
        omega arith,
        elim p [
          | inl up ↦
              rw (opposite m i hi) (mod_unique _ (2 * m) (q + (m - i - 1)) r (omega arith) hr)
          | inr down ↦
              rw (opposite m i hi) (mod_unique _ (2 * m) (q + 1 + (m - i - 1)) r (omega arith) hr)
        ],
      )
    ]

step_size-mod-surj : (k r : ℕ) → r < 2 ^ k → (i : ℕ) × (i < 2 ^ k) × (step_size i % 2 ^ k ≡ r)
step_size-mod-surj zero r h = (0, omega arith, omega arith)
step_size-mod-surj (suc k) r h =
    let m : ℕ = 2 ^ k in
    let pos = two_pow-pos k in
    let (i, lt, e) = step_size-mod-surj k (r % m) (mod-lt r pos) in
    rw (two_pow-suc k) (extend m r i pos (rw (two_pow-suc k) at h) lt e)

-- From the hash `h`, a step size that is `j - h` modulo the size lands on `j`.
land : (m h t j : ℕ) → j < m → t % m ≡ (j + m - h % m) % m → (h + t) % m ≡ j
land m h t j lt e =
    let pos : 0 < m = omega arith in
    let a : ℕ = h % m in
    let small : a < m = mod-lt h pos in
    let r : ℕ = t % m in
    let eh : m * (h / m) + a ≡ h = div-add-mod h m in
    let et : m * (t / m) + r ≡ t = div-add-mod t m in
    elim (dec_lt j a) [
      | yes p ↦
          let er : r ≡ j + m - a = e ∙ mod-eq_of_lt (omega arith) in
          mod_unique (h + t) m (h / m + t / m + 1) j (omega arith) lt
      | no p ↦
          let er : r ≡ j - a = e ∙ mod_unique _ m 1 (j - a) (omega arith) (omega arith) in
          mod_unique (h + t) m (h / m + t / m) j (omega arith) lt
    ]

-- In a table of 2^k slots, k up to 32, every slot is probed within as many steps as the table has
-- slots, from any hash.
pub probe_index-surj :
    (k h j : ℕ)
    → k ≤ 32
    → j < 2 ^ k
    → (i : ℕ) × (i < 2 ^ k) × (probe_index (2 ^ k) h (step_size i) ≡ j)
unfolding probe_index
probe_index-surj k h j hk lt =
    let m : ℕ = 2 ^ k in
    let pos = two_pow-pos k in
    let r : ℕ = (j + m - h % m) % m in
    let (i, small, e) = step_size-mod-surj k r (mod-lt _ pos) in
    (
      i,
      small,
      rw (bit_and-mask k _, mod-word-mod k (h + step_size i % 2 ^ 32) hk)
          (land m h (step_size i % 2 ^ 32) j lt (mod-word-mod k (step_size i) hk ∙ e)),
    )

-- A probe stays inside the table.
pub probe_index-lt : (k h s : ℕ) → probe_index (2 ^ k) h s < 2 ^ k
unfolding probe_index
probe_index-lt k h s = rw (bit_and-mask k _) (mod-lt _ (two_pow-pos k))
