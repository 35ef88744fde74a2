-- ===== src/Tcam/Best.antt =====
-- modules/tcam/module/src/tcam.c: `tcam_match` finds the matching entry of the highest priority.
use ivs.Base.{
  ℕ, ◌<◌, ◌≤◌, ◌≡◌, ◌⊎◌, inl, inr, refl, sym, ◌∙◌, ap, Bool, true, false, ◌&&◌, Option, none, some,
  List, [], ◌∷◌, arith, length, get_or, ◌==◌, ==_refl, if◌then◌else◌, Bool-cases,
}
use mathlib.Core.Bool.{false≢true}
use mathlib.Core.Path.{subst}
use mathlib.Core.Option.{some_inj, some-ne-none, none-ne-some}
use ivs.Tcam.{
  Words, Env, Tcam, Shard, Entry, memor, equal_masked, hash_key, chain_match, match_shards,
  tcam_match, bucket, bucket_index,
}
use ivs.Tcam.Mask.{hash_key-Agree}
use ivs.Tcam.Chain.{InChain, Sorted, equal_masked→Agree, Best, Hit, chain_match-Best}

module _ (env : Env) where
  open env use {Bloom, bloom_filter_lookup}

  -- An entry in one of the shard's chains.
  abbrev pub InShard : Shard Bloom → Entry → Type 0
  InShard s e = (i : ℕ) × InChain e (get_or s.buckets i [])

  -- Chains are sorted. An entry has a key of the table's length, the hash of its key under the shard's
  -- mask, a place in the chain of that hash, and the bloom filter lets its hash pass.
  abbrev pub Filed : Tcam Bloom → ℕ → Shard Bloom → Type 0
  Filed t n s =
      ((i : ℕ) → Sorted (get_or s.buckets i []))
      × ((i : ℕ) (e : Entry)
          → InChain e (get_or s.buckets i [])
          → (length e.key ≡ n)
            × (e.hash ≡ hash_key env t e.key s.mask)
            × (bucket_index env s e.hash ≡ i)
            × (bloom_filter_lookup s.bloom_filter e.hash ≡ true))

  abbrev pub AllFiled : Tcam Bloom → ℕ → List (Shard Bloom) → Type 0
  AllFiled t n [] = Unit
  AllFiled t n (s ∷ ss) = Filed t n s × AllFiled t n ss

  -- The entries of the shards that match a key.
  abbrev pub Candidate : Words → List (Shard Bloom) → Entry → Type 0
  Candidate key [] e = ⊥
  Candidate key (s ∷ ss) e =
      (InShard s e × (equal_masked key e.key s.mask ≡ true)) ⊎ Candidate key ss e

  -- What the loop looks up in one shard.
  abbrev shard_hit : Tcam Bloom → Words → ℕ → Shard Bloom → Option Entry
  shard_hit t key cur s =
      let hash = hash_key env t key s.mask in
      if bloom_filter_lookup s.bloom_filter hash
      then chain_match env hash key s.mask cur (bucket env s hash)
      else none

  abbrev ShardBest : Words → ℕ → Shard Bloom → Option Entry → Type 0
  ShardBest key cur s none =
      (e : Entry) → InShard s e → equal_masked key e.key s.mask ≡ true → e.priority < cur
  ShardBest key cur s (some x) =
      InShard s x
      × (equal_masked key x.key s.mask ≡ true)
      × (cur ≤ x.priority)
      × ((e : Entry) → InShard s e → equal_masked key e.key s.mask ≡ true → e.priority ≤ x.priority)

  -- A matching entry stands in the chain that is searched.
  placed :
      (t : Tcam Bloom) (n : ℕ) (s : Shard Bloom) (key : Words) (e : Entry)
      → Filed t n s
      → length key ≡ n
      → InShard s e
      → equal_masked key e.key s.mask ≡ true
      → (e.hash ≡ hash_key env t key s.mask)
        × InChain e (bucket env s (hash_key env t key s.mask))
        × (bloom_filter_lookup s.bloom_filter (hash_key env t key s.mask) ≡ true)
  placed t n s key e filed len (i, there) fits =
      let facts = filed.1 i e there in
      let same : e.hash ≡ hash_key env t key s.mask =
        facts.1
        ∙ sym (
            hash_key-Agree env t key e.key s.mask (len ∙ sym (facts.0))
              (equal_masked→Agree key e.key s.mask fits)) in
      (
        same,
        subst (λ j. InChain e (get_or s.buckets j []))
            (sym (facts.2) ∙ ap (bucket_index env s) same) there,
        subst (λ h. bloom_filter_lookup s.bloom_filter h ≡ true) same (facts.3),
      )

  hit_both : (a b : Bool) → (a && b) ≡ true → b ≡ true
  hit_both true b h = h
  hit_both false b h = absurd (false≢true h)

  shard_hit-ShardBest :
      (t : Tcam Bloom) (n : ℕ) (s : Shard Bloom) (key : Words) (cur : ℕ)
      → Filed t n s
      → length key ≡ n
      → ShardBest key cur s (shard_hit t key cur s)
  shard_hit-ShardBest t n s key cur filed len =
      let hash = hash_key env t key s.mask in
      elim (Bool-cases (bloom_filter_lookup s.bloom_filter hash)) [
        | inr never ↦ rw never (λ e there fits.
            absurd (false≢true (sym never ∙ (placed t n s key e filed len there fits).2)))
        | inl pass ↦ rw pass (
            lift (chain_match env hash key s.mask cur (bucket env s hash)) (
              chain_match-Best env hash key s.mask cur (bucket env s hash)
                (filed.0 (bucket_index env s hash))))
      ]
    where
      hit_of :
          (hash : ℕ) (mask : Words) (e : Entry)
          → e.hash ≡ hash
          → equal_masked key e.key mask ≡ true
          → Hit env hash key mask e
      hit_of hash mask e same fits = rw (same, ==_refl hash) fits

      hit_fits :
          (hash : ℕ) (mask : Words) (e : Entry)
          → Hit env hash key mask e
          → equal_masked key e.key mask ≡ true
      hit_fits hash mask e = hit_both (e.hash == hash) (equal_masked key e.key mask)

      lift :
          (o : Option Entry)
          → Best
              (Hit env (hash_key env t key s.mask) key s.mask)
              cur
              (bucket env s (hash_key env t key s.mask))
              o
          → ShardBest key cur s o
      lift none best = λ e there fits.
          let p = placed t n s key e filed len there fits in best e (p.1) (hit_of _ _ e (p.0) fits)
      lift (some x) best = (
        (bucket_index env s (hash_key env t key s.mask), best.0),
        hit_fits (hash_key env t key s.mask) s.mask x (best.1),
        best.2,
        λ e there fits.
            let p = placed t n s key e filed len there fits in
            best.3 e (p.1) (hit_of _ _ e (p.0) fits),
      )

  -- The answer of the loop over the shards.
  abbrev Answer : Words → List (Shard Bloom) → Option Entry → ℕ → Option Entry → Type 0
  Answer key ss found cur none = (found ≡ none) × ((e : Entry) → Candidate key ss e → ⊥)
  Answer key ss found cur (some b) =
      ((found ≡ some b) ⊎ Candidate key ss b)
      × (cur ≤ b.priority)
      × ((e : Entry) → Candidate key ss e → e.priority ≤ b.priority)

  -- The priority that the loop keeps is that of the entry it has found.
  abbrev Current : Option Entry → ℕ → Type 0
  Current none cur = cur ≡ 0
  Current (some f) cur = cur ≡ f.priority

  -- One round of the loop, on what the shard gives.
  round-Answer :
      (t : Tcam Bloom) (key : Words) (s : Shard Bloom) (ss : List (Shard Bloom))
      (found : Option Entry) (cur : ℕ) (mask : Words) (hit : Option Entry)
      → ShardBest key cur s hit
      → Current found cur
      → ((f : Option Entry) (c : ℕ)
          → Current f c
          → Answer key ss f c ((match_shards env t key ss f c (memor mask s.mask)).0))
      → let found' : Option Entry = elim hit [ none ↦ found | some e ↦ some e ] in
        let cur' : ℕ = elim hit [ none ↦ cur | some e ↦ e.priority ] in
        Answer key
          (s ∷ ss)
          found
          cur
          ((match_shards env t key ss found' cur' (memor mask s.mask)).0)
  round-Answer t key s ss found cur mask none best current rest =
      missed_on found _ best current (rest found cur current)
    where
      missed_on :
          (found r : Option Entry)
          → ShardBest key cur s none
          → Current found cur
          → Answer key ss found cur r
          → Answer key (s ∷ ss) found cur r
      missed_on none none best current a = (
        refl,
        λ e c. elim c [
          | inl (there, fits) ↦ let lt = best e there fits in absurd (omega arith)
          | inr later ↦ a.1 e later
        ],
      )
      missed_on (some f) none best current a = absurd (some-ne-none f (a.0))
      missed_on found (some b) best current a = (
        elim (a.0) [ inl e ↦ inl e | inr c ↦ inr (inr c) ],
        a.1,
        λ e c. elim c [
          | inl (there, fits) ↦ let lt = best e there fits in let le = a.1 in omega arith
          | inr later ↦ a.2 e later
        ],
      )
  round-Answer t key s ss found cur mask (some x) best current rest =
      hit_on x _ best (rest (some x) x.priority refl)
    where
      hit_on :
          (x : Entry) (r : Option Entry)
          → ShardBest key cur s (some x)
          → Answer key ss (some x) x.priority r
          → Answer key (s ∷ ss) found cur r
      hit_on x none best a = absurd (some-ne-none x (a.0))
      hit_on x (some b) best a = (
        elim (a.0) [
          | inl e ↦ inr (
              inl (
                subst (λ y. InShard s y × (equal_masked key y.key s.mask ≡ true)) (some_inj.0 e)
                  (best.0, best.1)))
          | inr c ↦ inr (inr c)
        ],
        (let p = best.2 in let q = a.1 in omega arith),
        λ e c. elim c [
          | inl (there, fits) ↦ let p = best.3 e there fits in let q = a.1 in omega arith
          | inr later ↦ a.2 e later
        ],
      )

  match_shards-Answer :
      (t : Tcam Bloom) (n : ℕ) (key : Words) (ss : List (Shard Bloom)) (found : Option Entry)
      (cur : ℕ) (mask : Words)
      → AllFiled t n ss
      → length key ≡ n
      → Current found cur
      → Answer key ss found cur ((match_shards env t key ss found cur mask).0)
  unfolding match_shards
  match_shards-Answer t n key [] none cur mask filed len current = (refl, λ e h. h)
  match_shards-Answer t n key [] (some f) cur mask filed len current =
      (inl refl, omega arith, λ e h. elim h [ ])
  match_shards-Answer t n key (s ∷ ss) found cur mask filed len current =
      round-Answer t key s ss found cur mask (shard_hit t key cur s)
        (shard_hit-ShardBest t n s key cur (filed.0) len) current
        (λ f c now. match_shards-Answer t n key ss f c (memor mask s.mask) (filed.1) len now)

  -- The answer of `tcam_match`: none where no entry matches, or a matching entry of the highest priority.
  abbrev pub Matched : Words → List (Shard Bloom) → Option Entry → Type 0
  Matched key ss none = (e : Entry) → Candidate key ss e → ⊥
  Matched key ss (some b) =
      Candidate key ss b × ((e : Entry) → Candidate key ss e → e.priority ≤ b.priority)

  -- Where every shard is filed - chains sorted by priority, each entry in the chain of the hash of
  -- its masked key, which the bloom filter lets pass - and the key has the length of the table,
  -- tcam_match gives none where no entry of any shard matches the key, and otherwise a matching
  -- entry of the highest priority.
  pub tcam_match-Matched :
      (t : Tcam Bloom) (n : ℕ) (key : Words)
      → AllFiled t n t.shards
      → length key ≡ n
      → Matched key t.shards (tcam_match env t key)
  unfolding tcam_match
  tcam_match-Matched t n key filed len =
      finish ((match_shards env t key t.shards none 0 []).0)
        (match_shards-Answer t n key t.shards none 0 [] filed len refl)
    where
      finish : (r : Option Entry) → Answer key t.shards none 0 r → Matched key t.shards r
      finish none a = a.1
      finish (some b) a = (elim (a.0) [ inl e ↦ absurd (none-ne-some b e) | inr c ↦ c ], a.2)
