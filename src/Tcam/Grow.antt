-- ===== src/Tcam/Grow.antt =====
-- modules/tcam/module/src/tcam.c: a shard that grows stays filed.
use native.Mathlib.Nat.{mod-eq_of_lt}
use ivs.Base.{
  ℕ, suc, ◌+◌, ◌-◌, ◌^◌, ◌<◌, ◌≡◌, ◌⊎◌, inl, inr, refl, sym, ◌∙◌, ap, [], ◌++◌, arith, length,
  get_or, length-append, ◌≤◌,
}
use native.Mathlib.Decide.{dec_lt}
use mathlib.Core.Path.{subst}
use ivs.Base.Bits.{two_pow-suc}
use ivs.Tcam.{Env, Tcam, Shard, split_lo, split_hi, map_split, shard_grow}
use ivs.Tcam.Chain.{InChain, Sorted}
use ivs.Tcam.Best.{Filed}
use ivs.Tcam.Insert.{
  grow_index, split_lo-In, split_hi-In, split_lo-Sorted, split_hi-Sorted, Shaped, index,
  get_or-map_split, length-map_split, get_or-append_lo, get_or-append_hi, Remembers, add_chains-new,
}

module _ (env : Env) (remembers : Remembers env) where
  open env use {Bloom}

  abbrev pub Sound : Tcam Bloom → ℕ → Shard Bloom → Type 0
  Sound t n s = Filed env t n s × Shaped env s

  -- A shard of at most 2^24 chains can double them within an `int`.
  abbrev pub IsSmall : Shard Bloom → Type 0
  IsSmall s = s.buckets_size ≤ 2 ^ 24

  -- The chains after a growth.
  pub grown_chain :
      (s : Shard Bloom) (k i : ℕ)
      → s.buckets_size ≡ 2 ^ k
      → length s.buckets ≡ 2 ^ k
      → ((i < 2 ^ k)
          × (get_or (shard_grow env s).buckets i [] ≡ split_lo env (2 ^ k) (get_or s.buckets i [])))
        ⊎ ((j : ℕ) × (i ≡ j + 2 ^ k)
            × (get_or (shard_grow env s).buckets i []
                ≡ split_hi env (2 ^ k) (get_or s.buckets j [])))
  unfolding shard_grow split_lo split_hi
  grown_chain s k i size len =
      let lo = map_split env (split_lo env s.buckets_size) s.buckets in
      let hi = map_split env (split_hi env s.buckets_size) s.buckets in
      let wide : length lo ≡ 2 ^ k =
        length-map_split env (split_lo env s.buckets_size) s.buckets ∙ len in
      elim (dec_lt i (2 ^ k)) [
        | yes below ↦ inl (
          below,
          get_or-append_lo env lo hi i (omega arith)
              ∙ get_or-map_split env (split_lo env s.buckets_size) s.buckets i refl
              ∙ ap (λ (b : ℕ). split_lo env b (get_or s.buckets i [])) size,
        )
        | no above ↦
            let at : i ≡ length lo + (i - 2 ^ k) = omega arith in
            inr (
              i - 2 ^ k,
              omega arith,
              ap (λ (j : ℕ). get_or (lo ++ hi) j []) at
                  ∙ get_or-append_hi env lo hi (i - 2 ^ k)
                  ∙ get_or-map_split env (split_hi env s.buckets_size) s.buckets (i - 2 ^ k) refl
                  ∙ ap (λ (b : ℕ). split_hi env b (get_or s.buckets (i - 2 ^ k) [])) size,
            )
      ]

  pub shard_grow-Sound :
      (t : Tcam Bloom) (n : ℕ) (s : Shard Bloom)
      → IsSmall s
      → Sound t n s
      → Sound t n (shard_grow env s)
  unfolding shard_grow
  shard_grow-Sound t n s small (filed, (k, size, len)) =
      let grown = shard_grow env s in
      let size' : grown.buckets_size ≡ 2 ^ suc k =
        mod-eq_of_lt (omega (arith, small)) ∙ omega (arith, size, two_pow-suc k) in
      let len' : length grown.buckets ≡ 2 ^ suc k = omega (
        arith,
        size,
        len,
        two_pow-suc k,
        length-append (map_split env (split_lo env s.buckets_size) s.buckets)
            (map_split env (split_hi env s.buckets_size) s.buckets),
        length-map_split env (split_lo env s.buckets_size) s.buckets,
        length-map_split env (split_hi env s.buckets_size) s.buckets,
      ) in
      (
        (
          λ i. elim (grown_chain s k i size len) [
            | inl (below, chain) ↦
                subst Sorted (sym chain) (split_lo-Sorted env (2 ^ k) _ (filed.0 i))
            | inr (j, at, chain) ↦
                subst Sorted (sym chain) (split_hi-Sorted env (2 ^ k) _ (filed.0 j))
          ],
          λ i e h. elim (grown_chain s k i size len) [
            | inl (below, chain) ↦
                let there = split_lo-In env (2 ^ k) e _ (subst (InChain e) chain h) in
                let facts = filed.1 i e (there.0) in
                (
                  facts.0,
                  facts.1,
                  index env grown (suc k) e.hash size'
                      ∙ (grow_index k e.hash).0 (there.1)
                      ∙ sym (index env s k e.hash size)
                      ∙ facts.2,
                  add_chains-new env remembers s.buckets _ i e (there.0),
                )
            | inr (j, at, chain) ↦
                let there = split_hi-In env (2 ^ k) e _ (subst (InChain e) chain h) in
                let facts = filed.1 j e (there.0) in
                (
                  facts.0,
                  facts.1,
                  index env grown (suc k) e.hash size'
                      ∙ (grow_index k e.hash).1 (there.1)
                      ∙ ap (λ (m : ℕ). m + 2 ^ k) (sym (index env s k e.hash size) ∙ facts.2)
                      ∙ sym at,
                  add_chains-new env remembers s.buckets _ j e (there.0),
                )
          ],
        ),
        (suc k, size', len'),
      )
