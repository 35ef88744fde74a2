-- ===== src/L2table/Reinsert.antt =====
-- The loop of `l2table_resize__` that inserts the old entries again.
use ivs.Base.{
  ℕ, zero, suc, ◌+◌, ◌*◌, ◌^◌, ◌≤◌, ◌<◌, ◌≡◌, refl, ◌∙◌, inl, inr, Option, none, some, List, [],
  ◌∷◌, arith, ◌==◌, if◌then◌else◌, replicate, Returns, ==_iff, ==_ne, ==_refl, Bool-cases,
}
use ivs.L2table.{
  Mac, Entry, Table, Error, none_error, decode_key, key_free, key_is_unoccupied, free_entry, place,
  reinsert, insert,
}
use ivs.L2table.Key.{encode_key-decode_key}
use ivs.L2table.Scan.{scan, IsOccupied, Distinct, AllKeys, IsKey, count_occupied, count_deleted}
use ivs.L2table.Update.{place-Placed}
use ivs.L2table.Valid.{IsAddress, IsValid}

-- The parts of an occupied key are an address.
decode_key-IsAddress : (key : ℕ) → key < 2 ^ 60 → IsAddress (decode_key key).0 (decode_key key).1
unfolding decode_key
decode_key-IsAddress key h = record { is_mac = omega arith; is_vlan = omega arith }

occupied-lt : (key : ℕ) → IsKey key → IsOccupied key → key < 2 ^ 60
occupied-lt key k o = ground arith

abbrev pub or_else {ℓ} : {A : Type ℓ} → Option A → Option A → Option A
or_else none b = b
or_else (some a) b = some a

reinsert-cons :
    (insert_one : Table → Mac → ℕ → ℕ → ℕ → Option (Error × Table)) (e : Entry) (es : List Entry)
    (t t' : Table) (err : Error)
    → IsOccupied e.key
    → insert_one t (decode_key e.key).0 (decode_key e.key).1 e.out_port e.metadata ≡ some (err, t')
    → err ≡ none_error
    → reinsert insert_one (e ∷ es) t ≡ reinsert insert_one es t'
unfolding reinsert
reinsert-cons insert_one e es t t' err o run ok = rw (o, run, ok)

head_apart :
    (es : List Entry) (p q : ℕ) (v : ℕ × ℕ) → p ≡ q → scan q es ≡ none → scan p es ≡ some v → ⊥
head_apart es p q v e n s = cc

-- The head of the list may be looked up before the rest or after it.
merge_head :
    (es : List Entry) (p q : ℕ) (v : ℕ × ℕ) (new old : Option (ℕ × ℕ))
    → scan q es ≡ none
    → new ≡ (if p == q then some v else old)
    → or_else (scan p es) new ≡ or_else (if q == p then some v else scan p es) old
merge_head es p q v new old n e = ground arith

pub all_free : (n : ℕ) → AllKeys (replicate n free_entry)
all_free zero = tt
all_free (suc n) = (inr (inl refl), all_free n)

pub Distinct-free : (n : ℕ) → Distinct (replicate n free_entry)
Distinct-free zero = tt
Distinct-free (suc n) = (λ o. cc, Distinct-free n)

pub none_counted :
    (n : ℕ)
    → (count_occupied (replicate n free_entry) ≡ 0) × (count_deleted (replicate n free_entry) ≡ 0)
unfolding count_occupied count_deleted
none_counted zero = (refl, refl)
none_counted (suc n) = (omega (arith, none_counted n), omega (arith, none_counted n))

pub none_found : (n q : ℕ) → IsOccupied q → scan q (replicate n free_entry) ≡ none
unfolding scan
none_found zero q o = refl
none_found (suc n) q o = rw (==_ne key_free q (λ e. ground arith)) (none_found n q o)

pub or_else-none : (o : Option (ℕ × ℕ)) → or_else o none ≡ o
or_else-none none = refl
or_else-none (some v) = refl

module _ (murmur_hash : List ℕ → ℕ → ℕ) where
  -- With room for one more entry there is no resize.
  pub insert-place :
      (depth k : ℕ) (t : Table) (mac : Mac) (vlan_id out_port metadata : ℕ)
      → t.size ≡ 2 ^ k
      → 2 * (t.num_occupied + t.num_deleted + 1) ≤ 2 ^ k
      → insert murmur_hash (suc depth) t mac vlan_id out_port metadata
        ≡ place murmur_hash t mac vlan_id out_port metadata
  unfolding insert
  insert-place depth k t mac vlan_id out_port metadata e room = ground arith

  -- The table that took over the entries of a list.
  pub record Moved (k : ℕ) (es : List Entry) (t t' : Table) : Type 0 where
    pub valid : IsValid murmur_hash k t'
    pub salt : t'.salt ≡ t.salt
    pub used : t'.num_occupied + t'.num_deleted ≤ t.num_occupied + t.num_deleted + count_occupied es
    pub reads : (q : ℕ) → IsOccupied q → scan q t'.entries ≡ or_else (scan q es) (scan q t.entries)

  pub reinsert-Moved :
      (depth k : ℕ) (es : List Entry) (t : Table)
      → IsValid murmur_hash k t
      → AllKeys es
      → Distinct es
      → 2 * (t.num_occupied + t.num_deleted + count_occupied es) ≤ 2 ^ k
      → ((q : ℕ) (v : ℕ × ℕ) → IsOccupied q → scan q es ≡ some v → scan q t.entries ≡ none)
      → Returns (reinsert (insert murmur_hash (suc depth)) es t) (Moved k es t)
  unfolding reinsert scan count_occupied
  reinsert-Moved depth k [] t valid keys distinct room apart =
      (t, refl, record { valid = valid; salt = refl; used = omega arith; reads = λ q o. refl })
  reinsert-Moved depth k (e ∷ es) t valid keys distinct room apart =
      elim (Bool-cases (key_is_unoccupied e.key)) [
        | inl skip ↦
            let (t', run, m) =
              reinsert-Moved depth k es t valid keys.1 distinct.1 (omega arith)
                (λ q v oq at. apart q v oq (ground arith)) in
            (
              t',
              rw skip run,
              record {
                valid = m.valid;
                salt = m.salt;
                used = omega (arith, m.used);
                reads = λ q oq. rw (==_ne e.key q (λ h. ground arith)) (m.reads q oq);
              },
            )
        | inr o ↦
            let q = e.key in
            let lt = occupied-lt q keys.0 o in
            let back = encode_key-decode_key q (omega arith) in
            let gone : scan q t.entries ≡ none =
              apart q (e.out_port, e.metadata) o (rw (==_refl q)) in
            let space : 2 * (t.num_occupied + t.num_deleted + 1) ≤ 2 ^ k = ground arith in
            let (r, run, (valid', used, salt, (err, reads))) =
              place-Placed murmur_hash valid (decode_key q).0 (decode_key q).1
                (decode_key-IsAddress q lt) e.out_port e.metadata space in
            let run' =
              insert-place depth k t (decode_key q).0 (decode_key q).1 e.out_port e.metadata
                valid.sized space
              ∙ run in
            let fresh : r.0 ≡ none_error = err ∙ rw (back, gone) in
            let kept_head : scan q es ≡ none = distinct.0 o in
            let reads' : (p : ℕ)
                → IsOccupied p
                → scan p r.1.entries
                  ≡ (if p == q then some (e.out_port, e.metadata) else scan p t.entries) =
              λ p op. reads p op ∙ rw (back, gone) in
            let (t', go, m) =
              reinsert-Moved depth k es r.1 valid' keys.1 distinct.1 (ground arith) (λ p v op at.
                elim (Bool-cases (p == q)) [
                  | inl same ↦ absurd (head_apart es p q v ((==_iff p q).0 same) kept_head at)
                  | inr ne ↦ rw (reads' p op, ne) (apart p v op (ground arith))
                ]) in
            (
              t',
              reinsert-cons (insert murmur_hash (suc depth)) e es t r.1 r.0 o run' fresh ∙ go,
              record {
                valid = m.valid;
                salt = m.salt ∙ salt;
                used = ground (arith, m.used);
                reads = λ p op.
                    m.reads p op
                    ∙ merge_head es p q (e.out_port, e.metadata) _ _ kept_head (reads' p op);
              },
            )
      ]
