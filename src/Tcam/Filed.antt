-- ===== src/Tcam/Filed.antt =====
-- modules/tcam/module/src/tcam.c: the shards stay filed, through insertions and growth.
use ivs.Base.{
  ℕ, ◌+◌, ◌*◌, ◌<◌, ◌≡◌, ◌≢◌, ◌⊎◌, inl, inr, refl, sym, ◌∙◌, ap, Bool, true, false, List, [], ◌∷◌,
  ◌++◌, arith, length, get_or, set, length-set, get_or-replicate, get_or-set_self, get_or-set_ne,
  ◌==◌, ==_iff, ==_refl, ltb, if◌then◌else◌, Bool-cases, Option-cases, ◌%◌, ◌^◌,
}
use native.Mathlib.Nat.{mod-lt}
use mathlib.Core.Path.{subst}
use mathlib.Core.Bool.{false≢true}
use ivs.Base.Bits.{two_pow-pos}
use ivs.Tcam.{
  Words, Env, Tcam, Shard, Entry, words_eq, bucket, bucket_index, hash_key, chain_insert,
  shard_insert,
}
use ivs.Tcam.Chain.{InChain, Sorted}
use ivs.Tcam.{tcam_insert, update_shard, find_shard, shard_create, new_entry, list_push}
use ivs.Tcam.Insert.{chain_insert-In, chain_insert-Sorted, index, Remembers}
use ivs.Tcam.Grow.{IsSmall, Sound, shard_grow-Sound}

module _ (env : Env) (remembers : Remembers env) where
  open env use {Bloom}

  -- A chain of the shard that an entry is put into.
  pub set_chain :
      (l : List (List Entry)) (i j : ℕ) (chain : List Entry)
      → i < length l
      → ((j ≡ i) × (get_or (set l i chain) j [] ≡ chain))
        ⊎ ((j ≢ i) × (get_or (set l i chain) j [] ≡ get_or l j []))
  set_chain l i j chain h = elim (Bool-cases (j == i)) [
    | inl same ↦
        let e : j ≡ i = (==_iff j i).0 same in
        inl (e, ap (λ (m : ℕ). get_or (set l i chain) m []) e ∙ get_or-set_self l i chain [] h)
    | inr other ↦
        let ne : i ≢ j =
          λ e. false≢true (sym other ∙ subst (λ (m : ℕ). (j == m) ≡ true) (sym e) (==_refl j)) in
        inr ((λ e. ne (sym e)), get_or-set_ne l i j chain [] ne)
  ]

  -- The shard before it grows.
  abbrev pub put_entry : Shard Bloom → Entry → Shard Bloom
  put_entry s e = record s {
    buckets = set s.buckets (bucket_index env s e.hash) (chain_insert env e (bucket env s e.hash));
    count = (s.count + 1) % 2 ^ 32;
    bloom_filter = env.bloom_filter_add s.bloom_filter e.hash;
  }

  pub put_entry-Sound :
      (t : Tcam Bloom) (n : ℕ) (s : Shard Bloom) (e : Entry)
      → length e.key ≡ n
      → e.hash ≡ hash_key env t e.key s.mask
      → Sound env remembers t n s
      → Sound env remembers t n (put_entry s e)
  unfolding bucket_index
  put_entry-Sound t n s e len_key hash (filed, (k, size, len)) =
      let i = bucket_index env s e.hash in
      let inside : i < length s.buckets =
        rw (index env s k e.hash size, len) (mod-lt e.hash (two_pow-pos k)) in
      let chain = chain_insert env e (bucket env s e.hash) in
      (
        (
          λ j. elim (set_chain s.buckets i j chain inside) [
            | inl (at, here) ↦ subst Sorted (sym here) (chain_insert-Sorted env e _ (filed.0 i))
            | inr (ne, there) ↦ subst Sorted (sym there) (filed.0 j)
          ],
          λ j y h. elim (set_chain s.buckets i j chain inside) [
            | inl (at, here) ↦ elim (chain_insert-In env e y _ (subst (InChain y) here h)) [
              | inl new ↦
                  subst
                    (λ z.
                      (length z.key ≡ n)
                      × (z.hash ≡ hash_key env t z.key s.mask)
                      × (bucket_index env s z.hash ≡ j)
                      × (env.bloom_filter_lookup (env.bloom_filter_add s.bloom_filter e.hash) z.hash
                          ≡ true))
                    (sym new) (len_key, hash, sym at, (remembers s.bloom_filter e.hash).0)
              | inr old ↦
                  let facts = filed.1 i y old in
                  (
                    facts.0,
                    facts.1,
                    facts.2 ∙ sym at,
                    (remembers s.bloom_filter e.hash).1 y.hash (facts.3),
                  )
            ]
            | inr (ne, there) ↦
                let facts = filed.1 j y (subst (InChain y) there h) in
                (facts.0, facts.1, facts.2, (remembers s.bloom_filter e.hash).1 y.hash (facts.3))
          ],
        ),
        (k, size, length-set s.buckets i chain ∙ len),
      )

  shard_insert-Sound :
      (t : Tcam Bloom) (n : ℕ) (s : Shard Bloom) (e : Entry)
      → length e.key ≡ n
      → e.hash ≡ hash_key env t e.key s.mask
      → IsSmall env remembers s
      → Sound env remembers t n s
      → Sound env remembers t n (shard_insert env s e)
  unfolding shard_insert
  shard_insert-Sound t n s e len_key hash small sound =
      let put = put_entry-Sound t n s e len_key hash sound in
      elim (Bool-cases (ltb s.buckets_size ((s.count + 1) % 2 ^ 32 * 2))) [
        | inl full ↦
            rw (shard_insert, full) (shard_grow-Sound env remembers t n (put_entry s e) small put)
        | inr room ↦ rw (shard_insert, room) put
      ]

  pub words_eq_sound : (a b : Words) → words_eq a b ≡ true → a ≡ b
  unfolding words_eq
  words_eq_sound [] [] h = refl
  words_eq_sound [] (b ∷ bs) h = absurd (false≢true h)
  words_eq_sound (a ∷ as_) [] h = absurd (false≢true h)
  words_eq_sound (a ∷ as_) (b ∷ bs) h = ground (arith, words_eq_sound as_ bs)

  abbrev pub AllSound : Tcam Bloom → ℕ → List (Shard Bloom) → Type 0
  AllSound t n [] = Unit
  AllSound t n (s ∷ ss) = Sound env remembers t n s × AllSound t n ss

  abbrev pub AllSmall : List (Shard Bloom) → Type 0
  AllSmall [] = Unit
  AllSmall (s ∷ ss) = IsSmall env remembers s × AllSmall ss

  update_shard-AllSound :
      (t : Tcam Bloom) (n : ℕ) (e : Entry) (ss : List (Shard Bloom))
      → length e.key ≡ n
      → e.hash ≡ hash_key env t e.key e.mask
      → AllSmall ss
      → AllSound t n ss
      → AllSound t n (update_shard env e.mask (λ s. shard_insert env s e) ss)
  unfolding update_shard
  update_shard-AllSound t n e [] len hash small sound = tt
  update_shard-AllSound t n e (s ∷ ss) len hash small sound =
      elim (Bool-cases (words_eq s.mask e.mask)) [
        | inl same ↦
            let mask = words_eq_sound s.mask e.mask same in
            rw same (
              shard_insert-Sound t n s e len (hash ∙ ap (hash_key env t e.key) (sym mask)) (small.0)
                  (sound.0),
              sound.1,
            )
        | inr other ↦
            rw other (sound.0, update_shard-AllSound t n e ss len hash (small.1) (sound.1))
      ]

  pub shard_create-Sound :
      (t : Tcam Bloom) (n : ℕ) (mask : Words) → Sound env remembers t n (shard_create env t mask)
  unfolding shard_create
  shard_create-Sound t n mask = (
    (
      λ i. subst Sorted (sym (get_or-replicate 16 i [])) tt,
      λ i e h. elim (subst (InChain e) (get_or-replicate 16 i []) h) [ ],
    ),
    (4, refl, refl),
  )

  pub AllSound-push :
      (t : Tcam Bloom) (n : ℕ) (ss : List (Shard Bloom)) (s : Shard Bloom)
      → AllSound t n ss
      → Sound env remembers t n s
      → AllSound t n (list_push env ss s)
  AllSound-push t n ss s all one = pushed env.list_push_front
    where
      at_end : (l : List (Shard Bloom)) → AllSound t n l → AllSound t n (l ++ s ∷ [])
      at_end [] all = (one, tt)
      at_end (x ∷ xs) all = (all.0, at_end xs (all.1))

      pushed : (front : Bool) → AllSound t n (if front then s ∷ ss else ss ++ s ∷ [])
      pushed true = (one, all)
      pushed false = at_end ss all

  shard_create-IsSmall :
      (t : Tcam Bloom) (mask : Words) → IsSmall env remembers (shard_create env t mask)
  unfolding shard_create
  shard_create-IsSmall t mask = omega arith

  AllSmall-push :
      (ss : List (Shard Bloom)) (s : Shard Bloom)
      → AllSmall ss
      → IsSmall env remembers s
      → AllSmall (list_push env ss s)
  AllSmall-push ss s all one = pushed env.list_push_front
    where
      at_end : (l : List (Shard Bloom)) → AllSmall l → AllSmall (l ++ s ∷ [])
      at_end [] all = (one, tt)
      at_end (x ∷ xs) all = (all.0, at_end xs (all.1))

      pushed : (front : Bool) → AllSmall (if front then s ∷ ss else ss ++ s ∷ [])
      pushed true = (one, all)
      pushed false = at_end ss all

  -- With a bloom filter that forgets nothing, tcam_insert of a pattern of the length of the table,
  -- on shards of at most 2^24 chains, keeps every shard filed and its chains as many as a power of
  -- two, also where it creates a shard and where the shard grows.
  pub tcam_insert-AllSound :
      (t : Tcam Bloom) (n id : ℕ) (key mask : Words) (priority : ℕ)
      → AllSmall t.shards
      → AllSound t n t.shards
      → length key ≡ n
      → AllSound
          (tcam_insert env t id key mask priority)
          n
          (tcam_insert env t id key mask priority).shards
  unfolding tcam_insert new_entry hash_key
  tcam_insert-AllSound t n id key mask priority small all len =
      let entry = new_entry env t id key mask priority in
      elim (Option-cases (find_shard env t mask)) [
        | inl fresh ↦
            rw (tcam_insert, fresh)
              (update_shard-AllSound t n entry (list_push env t.shards (shard_create env t mask))
                len refl
                (AllSmall-push t.shards (shard_create env t mask) small
                  (shard_create-IsSmall t mask))
                (AllSound-push t n t.shards (shard_create env t mask) all
                  (shard_create-Sound t n mask)))
        | inr (s, found) ↦
            rw (tcam_insert, found) (update_shard-AllSound t n entry t.shards len refl small all)
      ]
