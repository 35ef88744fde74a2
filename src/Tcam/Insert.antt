-- ===== src/Tcam/Insert.antt =====
-- modules/tcam/module/src/tcam.c: an insertion, with the growth of its shard, keeps the shards filed.
use ivs.Base.{
  ℕ, zero, suc, ◌+◌, ◌*◌, ◌/◌, ◌%◌, ◌^◌, ◌<◌, ◌≤◌, ◌≡◌, ◌≢◌, ◌⊎◌, inl, inr, refl, sym, ◌∙◌, ap,
  true, List, [], ◌∷◌, ◌++◌, arith, length, get_or, ◌==◌, ==_iff, ltb, Bool-cases, bit_and,
}
use Prim.Native.Nat.{min}
use mathlib.Core.Path.{subst}
use mathlib.Core.Bool.{false≢true}
use ivs.Base.Bits.{bit_and_step, bit_and-zero, bit_and-mask, mod_double, two_pow-pos, two_pow-suc}
use ivs.Tcam.{
  Env, Shard, Entry, bucket_index, chain_insert, split_lo, split_hi, map_split, add_chain,
  add_chains,
}
use ivs.Tcam.Chain.{InChain, Sorted}

-- The place of a hash among twice as many buckets.
pub grow_index :
    (k h : ℕ)
    → (bit_and h (2 ^ k) ≡ 0 → h % 2 ^ suc k ≡ h % 2 ^ k)
      × (bit_and h (2 ^ k) ≢ 0 → h % 2 ^ suc k ≡ h % 2 ^ k + 2 ^ k)
grow_index zero h =
    let step = bit_and_step h 1 in
    let none_left = bit_and-zero (h / 2) in
    (λ e. omega (arith, step, none_left), λ ne. omega (arith, step, none_left, ne))
grow_index (suc k) h =
    let ih = grow_index k (h / 2) in
    let half : 2 * 2 ^ k / 2 ≡ 2 ^ k = omega arith in
    let step : bit_and h (2 * 2 ^ k) ≡ bit_and (h / 2) (2 ^ k) * 2 =
      bit_and_step h (2 * 2 ^ k)
      ∙ ap (λ (m : ℕ). bit_and (h / 2) m * 2 + min (h % 2) (2 * 2 ^ k % 2)) half
      ∙ omega arith in
    let wide = mod_double h (2 ^ suc k) (two_pow-pos (suc k)) in
    let near = mod_double h (2 ^ k) (two_pow-pos k) in
    let w = two_pow-suc k in
    rw (two_pow-suc (suc k), wide, two_pow-suc k, near, step)
      (
        λ e. let low = rw (two_pow-suc k) at ih.0 (omega arith) in omega (arith, low),
        λ ne. let high = rw (two_pow-suc k) at ih.1 (λ e. ne (omega arith)) in omega (arith, high),
      )

module _ (env : Env) where
  open env use {Bloom}

  pub chain_insert-In :
      (e y : Entry) (xs : List Entry) → InChain y (chain_insert env e xs) → (y ≡ e) ⊎ InChain y xs
  unfolding chain_insert
  chain_insert-In e y [] (inl h) = inl h
  chain_insert-In e y [] (inr h) = elim h [ ]
  chain_insert-In e y (x ∷ xs) h = elim (Bool-cases (ltb e.priority x.priority)) [
    | inr here ↦ elim (rw here at h) [ inl same ↦ inl same | inr there ↦ inr there ]
    | inl later ↦ elim (rw later at h) [
      | inl same ↦ inr (inl same)
      | inr there ↦ elim (chain_insert-In e y xs there) [
        | inl same ↦ inl same
        | inr old ↦ inr (inr old)
      ]
    ]
  ]

  pub chain_insert-Sorted :
      (e : Entry) (xs : List Entry) → Sorted xs → Sorted (chain_insert env e xs)
  unfolding chain_insert
  chain_insert-Sorted e [] s = (λ y h. elim h [ ], tt)
  chain_insert-Sorted e (x ∷ xs) s = elim (Bool-cases (ltb e.priority x.priority)) [
    | inl later ↦ rw later (
      λ y h. elim (chain_insert-In e y xs h) [
        | inl same ↦ let p = ap (λ z. z.priority) same in ground arith
        | inr old ↦ s.0 y old
      ],
      chain_insert-Sorted e xs (s.1),
    )
    | inr here ↦ rw here (
      λ y h. elim h [
        | inl same ↦ let p = ap (λ z. z.priority) same in ground arith
        | inr old ↦ let p = s.0 y old in ground arith
      ],
      s,
    )
  ]

  -- A chain keeps its order where it is split.
  pub split_lo-In :
      (bit : ℕ) (y : Entry) (xs : List Entry)
      → InChain y (split_lo env bit xs)
      → InChain y xs × (bit_and y.hash bit ≡ 0)
  unfolding split_lo
  split_lo-In bit y [] h = elim h [ ]
  split_lo-In bit y (x ∷ xs) h = elim (Bool-cases (bit_and x.hash bit == 0)) [
    | inr out ↦ let r = split_lo-In bit y xs (rw out at h) in (inr (r.0), r.1)
    | inl kept ↦ elim (rw kept at h) [
      | inl same ↦
          (inl same, ap (λ z. bit_and z.hash bit) same ∙ (==_iff (bit_and x.hash bit) 0).0 kept)
      | inr there ↦ let r = split_lo-In bit y xs there in (inr (r.0), r.1)
    ]
  ]

  pub split_hi-In :
      (bit : ℕ) (y : Entry) (xs : List Entry)
      → InChain y (split_hi env bit xs)
      → InChain y xs × (bit_and y.hash bit ≢ 0)
  unfolding split_hi
  split_hi-In bit y [] h = elim h [ ]
  split_hi-In bit y (x ∷ xs) h = elim (Bool-cases (bit_and x.hash bit == 0)) [
    | inl out ↦ let r = split_hi-In bit y xs (rw out at h) in (inr (r.0), r.1)
    | inr kept ↦ elim (rw kept at h) [
      | inl same ↦ (
        inl same,
        λ e. false≢true (
            sym kept
            ∙ (==_iff (bit_and x.hash bit) 0).1 (ap (λ z. bit_and z.hash bit) (sym same) ∙ e)),
      )
      | inr there ↦ let r = split_hi-In bit y xs there in (inr (r.0), r.1)
    ]
  ]

  pub split_lo-Sorted : (bit : ℕ) (xs : List Entry) → Sorted xs → Sorted (split_lo env bit xs)
  unfolding split_lo
  split_lo-Sorted bit [] s = tt
  split_lo-Sorted bit (x ∷ xs) s = elim (Bool-cases (bit_and x.hash bit == 0)) [
    | inl kept ↦ rw kept (λ y h. s.0 y (split_lo-In bit y xs h).0, split_lo-Sorted bit xs (s.1))
    | inr out ↦ rw out (split_lo-Sorted bit xs (s.1))
  ]

  pub split_hi-Sorted : (bit : ℕ) (xs : List Entry) → Sorted xs → Sorted (split_hi env bit xs)
  unfolding split_hi
  split_hi-Sorted bit [] s = tt
  split_hi-Sorted bit (x ∷ xs) s = elim (Bool-cases (bit_and x.hash bit == 0)) [
    | inl out ↦ rw out (split_hi-Sorted bit xs (s.1))
    | inr kept ↦ rw kept (λ y h. s.0 y (split_hi-In bit y xs h).0, split_hi-Sorted bit xs (s.1))
  ]

  -- A power of two of chains.
  abbrev pub Shaped : Shard Bloom → Type 0
  Shaped s = (k : ℕ) × (s.buckets_size ≡ 2 ^ k) × (length s.buckets ≡ 2 ^ k)

  pub index :
      (s : Shard Bloom) (k h : ℕ) → s.buckets_size ≡ 2 ^ k → bucket_index env s h ≡ h % 2 ^ k
  unfolding bucket_index
  index s k h size = rw size (bit_and-mask k h)

  pub get_or-past : (l : List (List Entry)) (i : ℕ) → length l ≤ i → get_or l i [] ≡ []
  get_or-past [] i h = refl
  get_or-past (x ∷ xs) zero h = elim h [ ]
  get_or-past (x ∷ xs) (suc i) h = get_or-past xs i (omega arith)

  pub get_or-map_split :
      (f : List Entry → List Entry) (l : List (List Entry)) (i : ℕ)
      → f [] ≡ []
      → get_or (map_split env f l) i [] ≡ f (get_or l i [])
  unfolding map_split
  get_or-map_split f [] i nil = sym nil
  get_or-map_split f (x ∷ xs) zero nil = refl
  get_or-map_split f (x ∷ xs) (suc i) nil = get_or-map_split f xs i nil

  pub length-map_split :
      (f : List Entry → List Entry) (l : List (List Entry)) → length (map_split env f l) ≡ length l
  unfolding map_split
  length-map_split f [] = refl
  length-map_split f (x ∷ xs) = ap suc (length-map_split f xs)

  pub get_or-append_lo :
      (xs ys : List (List Entry)) (i : ℕ) → i < length xs → get_or (xs ++ ys) i [] ≡ get_or xs i []
  get_or-append_lo [] ys i h = elim h [ ]
  get_or-append_lo (x ∷ xs) ys zero h = refl
  get_or-append_lo (x ∷ xs) ys (suc i) h = get_or-append_lo xs ys i (omega arith)

  pub get_or-append_hi :
      (xs ys : List (List Entry)) (i : ℕ) → get_or (xs ++ ys) (length xs + i) [] ≡ get_or ys i []
  get_or-append_hi [] ys i = ap (λ (j : ℕ). get_or ys j []) (omega arith)
  get_or-append_hi (x ∷ xs) ys i =
      let e : suc (length xs) + i ≡ suc (length xs + i) = omega arith in
      rw e (get_or-append_hi xs ys i)

  -- The bloom filter forgets nothing.
  abbrev pub Remembers : Type 0
  Remembers =
      (filter : Bloom) (h : ℕ)
      → (env.bloom_filter_lookup (env.bloom_filter_add filter h) h ≡ true)
        × ((other : ℕ)
            → env.bloom_filter_lookup filter other ≡ true
            → env.bloom_filter_lookup (env.bloom_filter_add filter h) other ≡ true)

  module _ (remembers : Remembers) where
    add_chain-old :
        (xs : List Entry) (filter : Bloom) (h : ℕ)
        → env.bloom_filter_lookup filter h ≡ true
        → env.bloom_filter_lookup (add_chain env filter xs) h ≡ true
    unfolding add_chain
    add_chain-old [] filter h p = p
    add_chain-old (x ∷ xs) filter h p =
        add_chain-old xs (env.bloom_filter_add filter x.hash) h ((remembers filter x.hash).1 h p)

    add_chain-new :
        (xs : List Entry) (filter : Bloom) (y : Entry)
        → InChain y xs
        → env.bloom_filter_lookup (add_chain env filter xs) y.hash ≡ true
    unfolding add_chain
    add_chain-new [] filter y h = elim h [ ]
    add_chain-new (x ∷ xs) filter y (inl same) =
        add_chain-old xs (env.bloom_filter_add filter x.hash) y.hash (
          subst (λ z. env.bloom_filter_lookup (env.bloom_filter_add filter x.hash) z.hash ≡ true)
            (sym same) (remembers filter x.hash).0)
    add_chain-new (x ∷ xs) filter y (inr there) =
        add_chain-new xs (env.bloom_filter_add filter x.hash) y there

    add_chains-old :
        (l : List (List Entry)) (filter : Bloom) (h : ℕ)
        → env.bloom_filter_lookup filter h ≡ true
        → env.bloom_filter_lookup (add_chains env filter l) h ≡ true
    unfolding add_chains
    add_chains-old [] filter h p = p
    add_chains-old (x ∷ xs) filter h p =
        add_chains-old xs (add_chain env filter x) h (add_chain-old x filter h p)

    pub add_chains-new :
        (l : List (List Entry)) (filter : Bloom) (i : ℕ) (y : Entry)
        → InChain y (get_or l i [])
        → env.bloom_filter_lookup (add_chains env filter l) y.hash ≡ true
    unfolding add_chains
    add_chains-new [] filter i y h = elim h [ ]
    add_chains-new (x ∷ xs) filter zero y h =
        add_chains-old xs (add_chain env filter x) y.hash (add_chain-new x filter y h)
    add_chains-new (x ∷ xs) filter (suc i) y h = add_chains-new xs (add_chain env filter x) i y h
