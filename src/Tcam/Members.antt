-- ===== src/Tcam/Members.antt =====
-- modules/tcam/module/src/tcam.c: the entries of a shard, through an insertion and a growth.
use ivs.Base.{
  ℕ, ◌+◌, ◌*◌, ◌%◌, ◌^◌, ◌<◌, ◌≡◌, ◌⊎◌, inl, inr, refl, sym, ◌∙◌, true, false, List, [], ◌∷◌, arith,
  length, get_or, set, get_or-set_self, ◌==◌, ltb, Bool-cases, bit_and,
}
use native.Mathlib.Nat.{mod-lt}
use mathlib.Core.Path.{subst}
use mathlib.Core.Bool.{false≢true}
use ivs.Base.Bits.{two_pow-pos}
use ivs.Tcam.{
  Env, Tcam, Shard, Entry, bucket, bucket_index, hash_key, chain_insert, split_lo, split_hi,
  shard_grow, shard_insert,
}
use ivs.Tcam.Chain.{InChain}
use ivs.Tcam.Best.{InShard}
use ivs.Tcam.Insert.{chain_insert-In, split_lo-In, split_hi-In, index, Remembers}
use ivs.Tcam.Grow.{Sound, grown_chain}
use ivs.Tcam.Filed.{set_chain, put_entry, put_entry-Sound}

module _ (env : Env) where
  open env use {Bloom}

  pub chain_insert-new : (e : Entry) (xs : List Entry) → InChain e (chain_insert env e xs)
  unfolding chain_insert
  chain_insert-new e [] = inl refl
  chain_insert-new e (x ∷ xs) = elim (Bool-cases (ltb e.priority x.priority)) [
    | inr here ↦ rw here (inl refl)
    | inl later ↦ rw later (inr (chain_insert-new e xs))
  ]

  pub chain_insert-old :
      (e y : Entry) (xs : List Entry) → InChain y xs → InChain y (chain_insert env e xs)
  unfolding chain_insert
  chain_insert-old e y [] h = elim h [ ]
  chain_insert-old e y (x ∷ xs) h = elim (Bool-cases (ltb e.priority x.priority)) [
    | inr here ↦ rw here (inr h)
    | inl later ↦
        rw later (elim h [ inl same ↦ inl same | inr there ↦ inr (chain_insert-old e y xs there) ])
  ]

  pub split_lo-keep :
      (bit : ℕ) (y : Entry) (xs : List Entry)
      → InChain y xs
      → (bit_and y.hash bit == 0) ≡ true
      → InChain y (split_lo env bit xs)
  unfolding split_lo
  split_lo-keep bit y [] h clear = h
  split_lo-keep bit y (x ∷ xs) h clear = elim (Bool-cases (bit_and x.hash bit == 0)) [
    | inl kept ↦
        rw kept
          (elim h [ inl same ↦ inl same | inr there ↦ inr (split_lo-keep bit y xs there clear) ])
    | inr out ↦ rw out (elim h [
      | inl same ↦
          absurd (false≢true (sym out ∙ subst (λ z. (bit_and z.hash bit == 0) ≡ true) same clear))
      | inr there ↦ split_lo-keep bit y xs there clear
    ])
  ]

  pub split_hi-keep :
      (bit : ℕ) (y : Entry) (xs : List Entry)
      → InChain y xs
      → (bit_and y.hash bit == 0) ≡ false
      → InChain y (split_hi env bit xs)
  unfolding split_hi
  split_hi-keep bit y [] h set_bit = h
  split_hi-keep bit y (x ∷ xs) h set_bit = elim (Bool-cases (bit_and x.hash bit == 0)) [
    | inr kept ↦
        rw kept
          (elim h [ inl same ↦ inl same | inr there ↦ inr (split_hi-keep bit y xs there set_bit) ])
    | inl out ↦ rw out (elim h [
      | inl same ↦
          absurd
            (false≢true (sym (subst (λ z. (bit_and z.hash bit == 0) ≡ false) same set_bit) ∙ out))
      | inr there ↦ split_hi-keep bit y xs there set_bit
    ])
  ]

module _ (env : Env) (remembers : Remembers env) where
  open env use {Bloom}

  pub shard_grow-back :
      (t : Tcam Bloom) (n : ℕ) (s : Shard Bloom) (y : Entry)
      → Sound env remembers t n s
      → InShard env (shard_grow env s) y
      → InShard env s y
  shard_grow-back t n s y (filed, (k, size, len)) (i, h) =
      elim (grown_chain env remembers s k i size len) [
        | inl (below, chain) ↦ (i, (split_lo-In env (2 ^ k) y _ (subst (InChain y) chain h)).0)
        | inr (j, at, chain) ↦ (j, (split_hi-In env (2 ^ k) y _ (subst (InChain y) chain h)).0)
      ]

  pub shard_grow-keep :
      (t : Tcam Bloom) (n : ℕ) (s : Shard Bloom) (y : Entry)
      → Sound env remembers t n s
      → InShard env s y
      → InShard env (shard_grow env s) y
  shard_grow-keep t n s y (filed, (k, size, len)) (j, h) =
      let facts = filed.1 j y h in
      let at : y.hash % 2 ^ k ≡ j = sym (index env s k y.hash size) ∙ facts.2 in
      let below : j < 2 ^ k = subst (λ (m : ℕ). m < 2 ^ k) at (mod-lt y.hash (two_pow-pos k)) in
      elim (Bool-cases (bit_and y.hash (2 ^ k) == 0)) [
        | inl clear ↦ elim (grown_chain env remembers s k j size len) [
          | inl (low, chain) ↦
              (j, subst (InChain y) (sym chain) (split_lo-keep env (2 ^ k) y _ h clear))
          | inr (i, e, chain) ↦ absurd (omega arith)
        ]
        | inr set_bit ↦ elim (grown_chain env remembers s k (j + 2 ^ k) size len) [
          | inl (low, chain) ↦ absurd (omega arith)
          | inr (i, e, chain) ↦
              let same : j ≡ i = omega arith in
              (
                j + 2 ^ k,
                subst (InChain y) (sym chain) (
                    split_hi-keep env (2 ^ k) y _
                      (subst (λ (m : ℕ). InChain y (get_or s.buckets m [])) same h) set_bit),
              )
        ]
      ]

  pub put_entry-In :
      (s : Shard Bloom) (e y : Entry) (k : ℕ)
      → s.buckets_size ≡ 2 ^ k
      → length s.buckets ≡ 2 ^ k
      → (InShard env (put_entry env remembers s e) y → (y ≡ e) ⊎ InShard env s y)
        × ((y ≡ e) ⊎ InShard env s y → InShard env (put_entry env remembers s e) y)
  put_entry-In s e y k size len =
      let i = bucket_index env s e.hash in
      let chain = chain_insert env e (bucket env s e.hash) in
      let inside : i < length s.buckets =
        rw (index env s k e.hash size, len) (mod-lt e.hash (two_pow-pos k)) in
      (
        λ (j, h). elim (set_chain env remembers s.buckets i j chain inside) [
          | inl (at, here) ↦ elim (chain_insert-In env e y _ (subst (InChain y) here h)) [
            | inl new ↦ inl new
            | inr old ↦ inr (i, old)
          ]
          | inr (ne, there) ↦ inr (j, subst (InChain y) there h)
        ],
        λ c. elim c [
          | inl new ↦ (
            i,
            subst (λ z. InChain z (get_or (set s.buckets i chain) i [])) (sym new)
                (subst (InChain e) (sym (get_or-set_self s.buckets i chain [] inside))
                  (chain_insert-new env e (bucket env s e.hash))),
          )
          | inr (j, h) ↦ elim (set_chain env remembers s.buckets i j chain inside) [
            | inl (at, here) ↦ (
              j,
              subst (InChain y) (sym here) (
                  chain_insert-old env e y _
                    (subst (λ (m : ℕ). InChain y (get_or s.buckets m [])) at h)),
            )
            | inr (ne, there) ↦ (j, subst (InChain y) (sym there) h)
          ]
        ],
      )

  pub shard_insert-In :
      (t : Tcam Bloom) (n : ℕ) (s : Shard Bloom) (e y : Entry)
      → length e.key ≡ n
      → e.hash ≡ hash_key env t e.key s.mask
      → Sound env remembers t n s
      → (InShard env (shard_insert env s e) y → (y ≡ e) ⊎ InShard env s y)
        × ((y ≡ e) ⊎ InShard env s y → InShard env (shard_insert env s e) y)
        × ((shard_insert env s e).mask ≡ s.mask)
  unfolding shard_insert shard_grow
  shard_insert-In t n s e y len hash sound =
      let put = put_entry-Sound env remembers t n s e len hash sound in
      let members = put_entry-In s e y (sound.1.0) (sound.1.1) (sound.1.2) in
      let after = put_entry env remembers s e in
      elim (Bool-cases (ltb s.buckets_size ((s.count + 1) % 2 ^ 32 * 2))) [
        | inr room ↦ rw (shard_insert, room) (members.0, members.1, refl)
        | inl full ↦
            rw (shard_insert, full)
              (
                λ h. members.0 (shard_grow-back t n after y put h),
                λ c. shard_grow-keep t n after y put (members.1 c),
                refl,
              )
      ]
