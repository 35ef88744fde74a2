-- ===== src/Tcam/Mask.antt =====
-- The mask that `tcam_match_and_mask` collects determines the match.
use ivs.Base.{
  ℕ, suc, ◌+◌, bit_and, ◌≡◌, refl, sym, ◌∙◌, ap, Option, none, List, [], ◌∷◌, arith, length,
}
use ivs.Base.Masks.{bit_and-bit_or_agree, bit_and-bit_xor}
use ivs.Tcam.{
  Words, Env, Tcam, Shard, Entry, memor, equal_masked, hash_words, hash_key, chain_match,
  match_shards, tcam_match_and_mask, bucket,
}

-- Two keys are one under a mask.
abbrev pub Agree : Words → Words → Words → Type 0
Agree (a ∷ as_) (b ∷ bs) (m ∷ ms) = (bit_and a m ≡ bit_and b m) × Agree as_ bs ms
Agree _ _ _ = Unit {0}

Agree-memor :
    (a b d s : Words) → length s ≡ length d → Agree a b (memor d s) → Agree a b d × Agree a b s
unfolding memor
Agree-memor (a ∷ as_) (b ∷ bs) (d ∷ ds) (s ∷ ss) e (h, r) =
    let now = bit_and-bit_or_agree a b d s h in
    let rest = Agree-memor as_ bs ds ss (omega arith) r in ((now.0, rest.0), (now.1, rest.1))
Agree-memor [] b d s e h = (tt, tt)
Agree-memor (a ∷ as_) [] d s e h = (tt, tt)
Agree-memor (a ∷ as_) (b ∷ bs) [] [] e h = (tt, tt)
Agree-memor (a ∷ as_) (b ∷ bs) [] (s ∷ ss) e h = absurd (omega arith)
Agree-memor (a ∷ as_) (b ∷ bs) (d ∷ ds) [] e h = absurd (omega arith)

length-memor : (d s : Words) → length (memor d s) ≡ length d
unfolding memor
length-memor (d ∷ ds) (s ∷ ss) = ap suc (length-memor ds ss)
length-memor [] s = refl
length-memor (d ∷ ds) [] = refl

pub equal_masked-Agree :
    (a b x m : Words) → length a ≡ length b → Agree a b m → equal_masked a x m ≡ equal_masked b x m
unfolding equal_masked
equal_masked-Agree (a ∷ as_) (b ∷ bs) (x ∷ xs) (m ∷ ms) e (h, r) = ground (
  arith,
  equal_masked-Agree as_ bs xs ms (omega arith) r,
  bit_and-bit_xor a x m,
  bit_and-bit_xor b x m,
)
equal_masked-Agree [] [] x m e h = refl
equal_masked-Agree [] (b ∷ bs) x m e h = absurd (omega arith)
equal_masked-Agree (a ∷ as_) [] x m e h = absurd (omega arith)
equal_masked-Agree (a ∷ as_) (b ∷ bs) [] m e h = refl
equal_masked-Agree (a ∷ as_) (b ∷ bs) (x ∷ xs) [] e h = refl

module _ (env : Env) where
  open env use {Bloom}

  hash_words-Agree :
      (i state : ℕ) (a b m : Words)
      → length a ≡ length b
      → Agree a b m
      → hash_words env i state a m ≡ hash_words env i state b m
  unfolding hash_words
  hash_words-Agree i state (a ∷ as_) (b ∷ bs) (m ∷ ms) e (h, r) =
      rw h (hash_words-Agree (i + 1) _ as_ bs ms (omega arith) r)
  hash_words-Agree i state [] [] m e h = refl
  hash_words-Agree i state [] (b ∷ bs) m e h = absurd (omega arith)
  hash_words-Agree i state (a ∷ as_) [] m e h = absurd (omega arith)
  hash_words-Agree i state (a ∷ as_) (b ∷ bs) [] e h = refl

  -- Where two keys of one length agree under a mask, they have one hash under it.
  pub hash_key-Agree :
      (t : Tcam Bloom) (a b m : Words)
      → length a ≡ length b
      → Agree a b m
      → hash_key env t a m ≡ hash_key env t b m
  unfolding hash_key
  hash_key-Agree t a b m e h = rw (hash_words-Agree 0 t.salt a b m e h)

  chain_match-Agree :
      (hash : ℕ) (a b m : Words) (cur : ℕ) (xs : List Entry)
      → length a ≡ length b
      → Agree a b m
      → chain_match env hash a m cur xs ≡ chain_match env hash b m cur xs
  unfolding chain_match
  chain_match-Agree hash a b m cur [] e h = refl
  chain_match-Agree hash a b m cur (x ∷ xs) e h =
      rw (equal_masked-Agree a b x.key m e h, chain_match-Agree hash a b m cur xs e h)

  -- Every shard's mask has as many words as a key.
  abbrev pub MaskLengths : ℕ → List (Shard Bloom) → Type 0
  MaskLengths n [] = Unit {0}
  MaskLengths n (s ∷ ss) = (length s.mask ≡ n) × MaskLengths n ss

  -- The union of the masks of all shards.
  unfoldable pub collect : List (Shard Bloom) → Words → Words
  collect [] mask = mask
  collect (s ∷ ss) mask = collect ss (memor mask s.mask)

  match_shards-collect :
      (t : Tcam Bloom) (key : Words) (ss : List (Shard Bloom)) (found : Option Entry) (cur : ℕ)
      (mask : Words)
      → (match_shards env t key ss found cur mask).1 ≡ collect ss mask
  unfolding match_shards collect
  match_shards-collect t key [] found cur mask = refl
  match_shards-collect t key (s ∷ ss) found cur mask =
      match_shards-collect t key ss _ _ (memor mask s.mask)

  Agree-collect :
      (n : ℕ) (a b : Words) (ss : List (Shard Bloom)) (mask : Words)
      → length mask ≡ n
      → MaskLengths n ss
      → Agree a b (collect ss mask)
      → Agree a b mask
  unfolding collect
  Agree-collect n a b [] mask e l h = h
  Agree-collect n a b (s ∷ ss) mask e l h =
      (Agree-memor a b mask s.mask (l.0 ∙ sym e)
        (Agree-collect n a b ss (memor mask s.mask) (length-memor mask s.mask ∙ e) l.1 h)).0

  match_shards-Agree :
      (n : ℕ) (t : Tcam Bloom) (a b : Words) (ss : List (Shard Bloom)) (found : Option Entry)
      (cur : ℕ) (mask : Words)
      → length a ≡ length b
      → length mask ≡ n
      → MaskLengths n ss
      → Agree a b (collect ss mask)
      → match_shards env t a ss found cur mask ≡ match_shards env t b ss found cur mask
  unfolding match_shards collect
  match_shards-Agree n t a b [] found cur mask e w l h = refl
  match_shards-Agree n t a b (s ∷ ss) found cur mask e w l h =
      let w' = length-memor mask s.mask ∙ w in
      let both =
        Agree-memor a b mask s.mask (l.0 ∙ sym w)
          (Agree-collect n a b ss (memor mask s.mask) w' l.1 h) in
      rw
        (
          hash_key-Agree t a b s.mask e both.1,
          chain_match-Agree (hash_key env t b s.mask) a b s.mask cur
              (bucket env s (hash_key env t b s.mask)) e both.1,
        )
        (match_shards-Agree n t a b ss _ _ (memor mask s.mask) e w' l.1 h)

  -- Where the masks of all shards have the length of the mask argument, and two keys of one length
  -- agree under the mask that tcam_match_and_mask returns for the first, it returns the same entry
  -- and the same mask for the second: a kernel flow with that mask is sound.
  pub tcam_match_and_mask-Agree :
      (n : ℕ) (t : Tcam Bloom) (key key' mask : Words)
      → length key ≡ length key'
      → length mask ≡ n
      → MaskLengths n t.shards
      → Agree key key' (tcam_match_and_mask env t key mask).1
      → tcam_match_and_mask env t key' mask ≡ tcam_match_and_mask env t key mask
  unfolding tcam_match_and_mask
  tcam_match_and_mask-Agree n t key key' mask e w l h = sym (
      match_shards-Agree n t key key' t.shards none 0 mask e w l
        (rw (match_shards-collect t key t.shards none 0 mask) at h))
