-- ===== src/Tcam/Chain.antt =====
-- modules/tcam/module/src/tcam.c: what the loop over one chain finds.
use ivs.Base.{
  ℕ, ◌<◌, ◌≤◌, ◌≡◌, ◌⊎◌, inl, inr, refl, sym, ◌∙◌, ap, true, ◌&&◌, Option, none, some, List, [],
  ◌∷◌, arith, ◌==◌, ==_iff, leb, Bool-cases, bit_and, bit_xor,
}
use mathlib.Core.Bool.{false≢true}
use mathlib.Core.Path.{subst}
use ivs.Base.Masks.{bit_and-bit_xor}
use ivs.Tcam.{Words, Env, Entry, equal_masked, chain_match}
use ivs.Tcam.Mask.{Agree}

abbrev pub InChain : Entry → List Entry → Type 0
InChain e [] = ⊥
InChain e (x ∷ xs) = (e ≡ x) ⊎ InChain e xs

-- The priorities of a chain do not rise.
abbrev pub Sorted : List Entry → Type 0
Sorted [] = Unit
Sorted (x ∷ xs) = ((e : Entry) → InChain e xs → e.priority ≤ x.priority) × Sorted xs

pub equal_masked→Agree : (key x mask : Words) → equal_masked key x mask ≡ true → Agree key x mask
unfolding equal_masked
equal_masked→Agree (a ∷ as_) (b ∷ bs) (m ∷ ms) h =
    elim (Bool-cases (bit_and (bit_xor a b) m == 0)) [
      | inl same ↦ (
        (bit_and-bit_xor a b m).0 ((==_iff (bit_and (bit_xor a b) m) 0).0 same),
        equal_masked→Agree as_ bs ms (rw same at h),
      )
      | inr other ↦ absurd (false≢true (rw other at h))
    ]
equal_masked→Agree [] x mask h = tt
equal_masked→Agree (a ∷ as_) [] mask h = tt
equal_masked→Agree (a ∷ as_) (b ∷ bs) [] h = tt

-- What `chain_match` says of the entries of the chain that match, those of a hash.
abbrev pub Best : (Entry → Type 0) → ℕ → List Entry → Option Entry → Type 0
Best Fits cur chain none = (e : Entry) → InChain e chain → Fits e → e.priority < cur
Best Fits cur chain (some x) =
    InChain x chain
    × Fits x
    × (cur ≤ x.priority)
    × ((e : Entry) → InChain e chain → Fits e → e.priority ≤ x.priority)

pub Best-skip :
    (Fits : Entry → Type 0) (cur : ℕ) (x : Entry) (xs : List Entry) (o : Option Entry)
    → (Fits x → ⊥)
    → Best Fits cur xs o
    → Best Fits cur (x ∷ xs) o
Best-skip Fits cur x xs none never best = λ e h fits. elim h [
  | inl here ↦ absurd (never (subst Fits here fits))
  | inr later ↦ best e later fits
]
Best-skip Fits cur x xs (some y) never best = (
  inr (best.0),
  best.1,
  best.2,
  λ e h fits. elim h [
    | inl here ↦ absurd (never (subst Fits here fits))
    | inr later ↦ best.3 e later fits
  ],
)

module _ (env : Env) where
  open env use {Bloom, bloom_filter_lookup}

  abbrev pub Hit : ℕ → Words → Words → Entry → Type 0
  Hit hash key mask e = ((e.hash == hash) && equal_masked key e.key mask) ≡ true

  pub chain_match-Best :
      (hash : ℕ) (key mask : Words) (cur : ℕ) (chain : List Entry)
      → Sorted chain
      → Best (Hit hash key mask) cur chain (chain_match env hash key mask cur chain)
  unfolding chain_match
  chain_match-Best hash key mask cur [] sorted = λ e h fits. elim h [ ]
  chain_match-Best hash key mask cur (x ∷ xs) sorted =
      let hit = (x.hash == hash) && equal_masked key x.key mask in
      elim (Bool-cases (leb cur x.priority)) [
        | inr low ↦ rw low (λ e h fits. elim h [
          | inl here ↦ let e' = ap (λ y. y.priority) here in ground arith
          | inr later ↦ let le = sorted.0 e later in ground arith
        ])
        | inl high ↦ elim (Bool-cases hit) [
          | inl taken ↦
              rw (high, taken)
                (
                  inl refl,
                  taken,
                  ground arith,
                  λ e h fits. elim h [
                    | inl here ↦ let e' = ap (λ y. y.priority) here in omega arith
                    | inr later ↦ sorted.0 e later
                  ],
                )
          | inr passed ↦
              rw (high, passed)
                (Best-skip (Hit hash key mask) cur x xs _ (λ fits. false≢true (sym passed ∙ fits))
                  (chain_match-Best hash key mask cur xs (sorted.1)))
        ]
      ]
