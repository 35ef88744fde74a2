-- ===== src/Tcam/Present.antt =====
-- modules/tcam/module/src/tcam.c: after an insertion, the table has the new entry and the old ones.
use ivs.Base.{
  ℕ, ◌≤◌, ◌≡◌, ◌⊎◌, inl, inr, refl, sym, ◌∙◌, ap, Bool, true, false, Option, none, some, List, [],
  ◌∷◌, ◌++◌, length, get_or-replicate, ==_refl, if◌then◌else◌, Bool-cases, Option-cases,
}
use mathlib.Core.Option.{none-ne-some, some_inj}
use mathlib.Core.Path.{subst}
use mathlib.Core.Bool.{false≢true}
use ivs.Tcam.{Words, Env, Tcam, Shard, Entry, words_eq, hash_key, shard_insert}
use ivs.Tcam.Chain.{InChain}
use ivs.Tcam.{
  tcam_insert, update_shard, find_shard, first_with_mask, shard_create, new_entry, list_push,
}
use ivs.Tcam.Best.{AllFiled, InShard}
use ivs.Tcam.Insert.{Remembers}
use ivs.Tcam.{equal_masked, tcam_match}
use ivs.Tcam.Best.{Candidate, Matched, tcam_match-Matched}
use ivs.Tcam.Filed.{
  AllSmall, AllSound, words_eq_sound, AllSound-push, shard_create-Sound, tcam_insert-AllSound,
}
use ivs.Tcam.Members.{shard_insert-In}

module _ (env : Env) (remembers : Remembers env) where
  open env use {Bloom}

  -- Some shard of the list has the mask.
  abbrev HasMask : Words → List (Shard Bloom) → Type 0
  HasMask mask [] = ⊥
  HasMask mask (s ∷ ss) = (words_eq s.mask mask ≡ true) ⊎ HasMask mask ss

  abbrev pub Added : Words → Entry → List (Shard Bloom) → Entry → Type 0
  Added key e ss y = ((y ≡ e) × (equal_masked key e.key e.mask ≡ true)) ⊎ Candidate env key ss y

  update_shard-Candidate :
      (t : Tcam Bloom) (n : ℕ) (key : Words) (e y : Entry) (ss : List (Shard Bloom))
      → length e.key ≡ n
      → e.hash ≡ hash_key env t e.key e.mask
      → AllSound env remembers t n ss
      → (Candidate env key (update_shard env e.mask (λ s. shard_insert env s e) ss) y
          → Added key e ss y)
        × (HasMask e.mask ss
            → Added key e ss y
            → Candidate env key (update_shard env e.mask (λ s. shard_insert env s e) ss) y)
  unfolding update_shard
  update_shard-Candidate t n key e y [] len hash sound = (λ c. inr c, λ has a. elim has [ ])
  update_shard-Candidate t n key e y (s ∷ ss) len hash sound =
      elim (Bool-cases (words_eq s.mask e.mask)) [
        | inr other ↦
            let rest = update_shard-Candidate t n key e y ss len hash (sound.1) in
            rw other (
              λ c. elim c [
                | inl here ↦ inr (inl here)
                | inr later ↦ elim (rest.0 later) [ inl new ↦ inl new | inr old ↦ inr (inr old) ]
              ],
              λ has a. elim has [
                | inl bad ↦ absurd (false≢true bad)
                | inr has' ↦ elim a [
                  | inl new ↦ inr (rest.1 has' (inl new))
                  | inr (inl here) ↦ inl here
                  | inr (inr old) ↦ inr (rest.1 has' (inr old))
                ]
              ],
            )
        | inl same ↦
            let mask = words_eq_sound env remembers s.mask e.mask same in
            let put =
              shard_insert-In env remembers t n s e y len
                (hash ∙ ap (hash_key env t e.key) (sym mask)) (sound.0) in
            let moved : (shard_insert env s e).mask ≡ e.mask = put.2 ∙ mask in
            rw same (
              λ c. elim c [
                | inr later ↦ inr (inr later)
                | inl (h, fits) ↦ elim (put.0 h) [
                  | inr old ↦
                      inr (inl (old, subst (λ m. equal_masked key y.key m ≡ true) (put.2) fits))
                  | inl new ↦ inl (
                    new,
                    subst (λ z. equal_masked key z.key e.mask ≡ true) new
                        (subst (λ m. equal_masked key y.key m ≡ true) moved fits),
                  )
                ]
              ],
              λ has a. elim a [
                | inr (inr later) ↦ inr later
                | inr (inl (h, fits)) ↦
                    inl (
                      put.1 (inr h),
                      subst (λ m. equal_masked key y.key m ≡ true) (sym (put.2)) fits,
                    )
                | inl (new, fits) ↦ inl (
                  put.1 (inl new),
                  subst (λ m. equal_masked key y.key m ≡ true) (sym moved)
                      (subst (λ z. equal_masked key z.key e.mask ≡ true) (sym new) fits),
                )
              ],
            )
      ]

  abbrev pub Listed : Shard Bloom → List (Shard Bloom) → Type 0
  Listed s [] = ⊥
  Listed s (x ∷ xs) = (s ≡ x) ⊎ Listed s xs

  -- A walk of the hash table comes to nothing but what is filed there.
  abbrev pub Walks : Type 0
  Walks =
      (hash : ℕ) (ss : List (Shard Bloom)) (s : Shard Bloom)
      → Listed s (env.bighash_walk hash ss)
      → Listed s ss

  found-Listed :
      (mask : Words) (ss : List (Shard Bloom)) (s : Shard Bloom)
      → first_with_mask env mask ss ≡ some s
      → Listed s ss × (words_eq s.mask mask ≡ true)
  unfolding first_with_mask
  found-Listed mask [] s h = absurd (none-ne-some s h)
  found-Listed mask (x ∷ xs) s h = elim (Bool-cases (words_eq x.mask mask)) [
    | inl same ↦
        let e : x ≡ s = some_inj.0 (rw same at h) in
        (inl (sym e), subst (λ z. words_eq z.mask mask ≡ true) e same)
    | inr other ↦ let r = found-Listed mask xs s (rw other at h) in (inr (r.0), r.1)
  ]

  Listed-HasMask :
      (mask : Words) (ss : List (Shard Bloom)) (s : Shard Bloom)
      → Listed s ss
      → words_eq s.mask mask ≡ true
      → HasMask mask ss
  Listed-HasMask mask [] s h same = h
  Listed-HasMask mask (x ∷ xs) s (inl e) same =
      inl (subst (λ z. words_eq z.mask mask ≡ true) e same)
  Listed-HasMask mask (x ∷ xs) s (inr later) same = inr (Listed-HasMask mask xs s later same)

  words_eq_refl : (a : Words) → words_eq a a ≡ true
  unfolding words_eq
  words_eq_refl [] = refl
  words_eq_refl (a ∷ as_) = rw (==_refl a) (words_eq_refl as_)

  -- The new shard is there and brings no entry.
  pushed-Candidate :
      (t : Tcam Bloom) (key mask : Words) (y : Entry) (front : Bool)
      → let ss : List (Shard Bloom) =
          if front
          then shard_create env t mask ∷ t.shards
          else t.shards ++ shard_create env t mask ∷ [] in
        HasMask mask ss
        × (Candidate env key ss y → Candidate env key t.shards y)
        × (Candidate env key t.shards y → Candidate env key ss y)
  unfolding shard_create
  pushed-Candidate t key mask y true = (
    inl (words_eq_refl mask),
    λ c. elim c [ inl (h, fits) ↦ absurd (nothing h) | inr c ↦ c ],
    λ c. inr c,
  )
    where
      nothing : InShard env (shard_create env t mask) y → ⊥
      nothing (i, h) = elim (subst (InChain y) (get_or-replicate 16 i []) h) [ ]
  pushed-Candidate t key mask y false = (has t.shards, back t.shards, keep t.shards)
    where
      nothing : InShard env (shard_create env t mask) y → ⊥
      nothing (i, h) = elim (subst (InChain y) (get_or-replicate 16 i []) h) [ ]

      has : (ss : List (Shard Bloom)) → HasMask mask (ss ++ shard_create env t mask ∷ [])
      has [] = inl (words_eq_refl mask)
      has (x ∷ xs) = inr (has xs)

      back :
          (ss : List (Shard Bloom))
          → Candidate env key (ss ++ shard_create env t mask ∷ []) y
          → Candidate env key ss y
      back [] (inl (h, fits)) = nothing h
      back [] (inr h) = h
      back (x ∷ xs) (inl here) = inl here
      back (x ∷ xs) (inr later) = inr (back xs later)

      keep :
          (ss : List (Shard Bloom))
          → Candidate env key ss y
          → Candidate env key (ss ++ shard_create env t mask ∷ []) y
      keep [] h = elim h [ ]
      keep (x ∷ xs) (inl here) = inl here
      keep (x ∷ xs) (inr later) = inr (keep xs later)

  tcam_insert-Candidate :
      (t : Tcam Bloom) (n id : ℕ) (pattern mask : Words) (priority : ℕ) (key : Words) (y : Entry)
      → Walks
      → AllSound env remembers t n t.shards
      → length pattern ≡ n
      → let e = new_entry env t id pattern mask priority in
        (Candidate env key (tcam_insert env t id pattern mask priority).shards y
          → Added key e t.shards y)
        × (Added key e t.shards y
            → Candidate env key (tcam_insert env t id pattern mask priority).shards y)
  unfolding tcam_insert new_entry find_shard
  tcam_insert-Candidate t n id pattern mask priority key y walks all len =
      let e = new_entry env t id pattern mask priority in
      elim (Option-cases (find_shard env t mask)) [
        | inl fresh ↦
            let created = shard_create env t mask in
            let pushed = pushed-Candidate t key mask y env.list_push_front in
            let put = update_shard-Candidate t n key e y (list_push env t.shards created) len refl (
              AllSound-push env remembers t n t.shards created all
                (shard_create-Sound env remembers t n mask)) in
            rw (tcam_insert, fresh)
              (
                λ c. elim (put.0 c) [ inl new ↦ inl new | inr old ↦ inr (pushed.1 old) ],
                λ a. put.1 (pushed.0) (elim a [ inl new ↦ inl new | inr old ↦ inr (pushed.2 old) ]),
              )
        | inr (s, found) ↦
            let there =
              found-Listed mask (env.bighash_walk (hash_key env t mask mask) t.shards) s found in
            let has =
              Listed-HasMask mask t.shards s (walks (hash_key env t mask mask) t.shards s (there.0))
                (there.1) in
            let put = update_shard-Candidate t n key e y t.shards len refl all in
            rw (tcam_insert, found) (put.0, put.1 has)
      ]

  pub AllSound-AllFiled :
      (t : Tcam Bloom) (n : ℕ) (ss : List (Shard Bloom))
      → AllSound env remembers t n ss
      → AllFiled env t n ss
  AllSound-AllFiled t n [] all = tt
  AllSound-AllFiled t n (s ∷ ss) all = (all.0.0, AllSound-AllFiled t n ss (all.1))

  -- The answer among the entries of a table and one more.
  abbrev pub MatchedWith : Words → Entry → List (Shard Bloom) → Option Entry → Type 0
  MatchedWith key e ss none = (y : Entry) → Added key e ss y → ⊥
  MatchedWith key e ss (some b) =
      Added key e ss b × ((y : Entry) → Added key e ss y → y.priority ≤ b.priority)

  -- With a bloom filter that forgets nothing and a hash-table walk that comes to nothing but filed
  -- shards, where every shard is filed, has at most 2^24 chains and keys have the length of the
  -- table, tcam_match after tcam_insert gives none where neither the new pattern nor an old entry
  -- matches the key, and otherwise a matching one among the new entry and the old ones than which
  -- no matching one has a higher priority.
  pub tcam_insert-MatchedWith :
      (t : Tcam Bloom) (n id : ℕ) (pattern mask : Words) (priority : ℕ) (key : Words)
      → Walks
      → AllSmall env remembers t.shards
      → AllSound env remembers t n t.shards
      → length pattern ≡ n
      → length key ≡ n
      → MatchedWith key
          (new_entry env t id pattern mask priority)
          t.shards
          (tcam_match env (tcam_insert env t id pattern mask priority) key)
  tcam_insert-MatchedWith t n id pattern mask priority key walks small all len len_key =
      let after = tcam_insert env t id pattern mask priority in
      finish (tcam_match env after key) (
        tcam_match-Matched env after n key
          (AllSound-AllFiled after n after.shards
            (tcam_insert-AllSound env remembers t n id pattern mask priority small all len))
          len_key)
    where
      finish :
          (r : Option Entry)
          → Matched env key (tcam_insert env t id pattern mask priority).shards r
          → MatchedWith key (new_entry env t id pattern mask priority) t.shards r
      finish none m =
          λ y a. m y ((tcam_insert-Candidate t n id pattern mask priority key y walks all len).1 a)
      finish (some b) m = (
        (tcam_insert-Candidate t n id pattern mask priority key b walks all len).0 (m.0),
        λ y a. m.1 y ((tcam_insert-Candidate t n id pattern mask priority key y walks all len).1 a),
      )
