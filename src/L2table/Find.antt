-- ===== src/L2table/Find.antt =====
-- The loop of `l2table_find_internal__`: it ends, and its result is described by the probe
-- sequence that it walked.
use native.Mathlib.Decide.{ℕ_discrete}
use native.Mathlib.Numerals.{add-one}
use mathlib.Core.Path.{subst, ap}
use ivs.Base.{
  ℕ, zero, suc, ◌+◌, ◌^◌, ◌≤◌, ◌<◌, ◌≡◌, refl, ◌≢◌, inl, inr, true, false, Option, none, some, List,
  arith, ◌==◌, if◌then◌else◌, Bool-cases, Returns,
}
use ivs.L2table.{Entry, key_at, key_free, key_is_unoccupied, probe_index, found_or, find_loop}
use ivs.L2table.Probe.{step_size, probe_index-lt}

ne_of_test : (a b : ℕ) → (a == b) ≡ false → a ≢ b
ne_of_test a b h = ground arith

module _ (es : List Entry) (k q h : ℕ) where
  -- The slot of a step.
  abbrev pub slot : ℕ → ℕ
  slot n = probe_index (2 ^ k) h (step_size n)

  -- No slot before a step is free, and none before it holds the key.
  abbrev pub NoFree : ℕ → Type 0
  NoFree n = (m : ℕ) → m < n → key_at es (slot m) ≢ key_free

  abbrev pub NoKey : ℕ → Type 0
  NoKey n = (m : ℕ) → m < n → key_at es (slot m) ≢ q

  -- The walk met a free slot with no entry of the key before it.
  abbrev pub Absent : Type 0
  Absent = (m : ℕ) × (key_at es (slot m) ≡ key_free) × NoKey m

  -- A slot for a new entry: not occupied, and on the walk before any free slot.
  abbrev pub Vacant : ℕ → Type 0
  Vacant j = (m : ℕ) × (slot m ≡ j) × (key_is_unoccupied (key_at es j) ≡ true) × NoFree m

  abbrev pub LookupOutcome : Option ℕ → Type 0
  LookupOutcome none = Absent
  LookupOutcome (some j) = (j < 2 ^ k) × (key_at es j ≡ q)

  abbrev pub InsertOutcome : Option ℕ → Type 0
  InsertOutcome none = (j : ℕ) × (j < 2 ^ k) × (key_at es j ≡ q)
  InsertOutcome (some j) = Vacant j × Absent

  abbrev Candidate : Option ℕ → Type 0
  Candidate none = Unit {0}
  Candidate (some j) = Vacant j

  NoFree-suc : (n : ℕ) → NoFree n → key_at es (slot n) ≢ key_free → NoFree (suc n)
  NoFree-suc n before here m lt = elim (ℕ_discrete m n) [
    | yes e ↦ rw e here
    | no ne ↦ before m (omega arith)
  ]

  NoKey-suc : (n : ℕ) → NoKey n → key_at es (slot n) ≢ q → NoKey (suc n)
  NoKey-suc n before here m lt = elim (ℕ_discrete m n) [
    | yes e ↦ rw e here
    | no ne ↦ before m (omega arith)
  ]

  -- A free slot that is not this one lies further on.
  further :
      (n i : ℕ) → n ≤ i → key_at es (slot i) ≡ key_free → key_at es (slot n) ≢ key_free → suc n ≤ i
  further n i lo free ne = elim (ℕ_discrete n i) [
    | yes e ↦ absurd (ne (rw e free))
    | no far ↦ omega arith
  ]

  next_found : ℕ → Option ℕ → Option ℕ
  next_found n found =
      if key_is_unoccupied (key_at es (slot n)) then some (found_or found (slot n)) else found

  next_found-Candidate :
      (n : ℕ) (found : Option ℕ) → NoFree n → Candidate found → Candidate (next_found n found)
  unfolding next_found
  next_found-Candidate n none frees c = elim (Bool-cases (key_is_unoccupied (key_at es (slot n)))) [
    | inl open_slot ↦ rw open_slot (n, refl, open_slot, frees)
    | inr taken ↦ rw taken tt
  ]
  next_found-Candidate n (some j) frees c =
      elim (Bool-cases (key_is_unoccupied (key_at es (slot n)))) [
        | inl open_slot ↦ rw open_slot c
        | inr taken ↦ rw taken c
      ]

  -- The walk that meets a free slot has a slot for a new entry.
  next_found-some :
      (n : ℕ) (found : Option ℕ)
      → key_at es (slot n) ≡ key_free
      → (j : ℕ) × (next_found n found ≡ some j)
  unfolding next_found
  next_found-some n found e = (found_or found (slot n), rw e)

  pub find_loop-lookup :
      (fuel n i : ℕ)
      → n ≤ i
      → i < n + fuel
      → key_at es (slot i) ≡ key_free
      → NoKey n
      → Returns (find_loop es (2 ^ k) q h false fuel none (step_size n) n) LookupOutcome
  unfolding find_loop step_size
  find_loop-lookup zero n i lo hi free keys = absurd (omega arith)
  find_loop-lookup (suc fuel) n i lo hi free keys = elim (Bool-cases (key_at es (slot n) == q)) [
    | inl hit ↦ (some (slot n), rw hit, (probe_index-lt k h _, ground arith))
    | inr miss ↦ rw miss (elim (Bool-cases (key_at es (slot n) == key_free)) [
      | inl end ↦ (none, rw end, (n, ground arith, keys))
      | inr more ↦
          rw (more, add-one n)
            (find_loop-lookup fuel (suc n) i (further n i lo free (ne_of_test _ _ more))
              (omega arith) free (NoKey-suc n keys (ne_of_test _ _ miss)))
    ])
  ]

  pub find_loop-insert :
      (fuel n i : ℕ) (found : Option ℕ)
      → n ≤ i
      → i < n + fuel
      → key_at es (slot i) ≡ key_free
      → NoKey n
      → NoFree n
      → Candidate found
      → Returns (find_loop es (2 ^ k) q h true fuel found (step_size n) n) InsertOutcome
  unfolding find_loop step_size next_found
  find_loop-insert zero n i found lo hi free keys frees c = absurd (omega arith)
  find_loop-insert (suc fuel) n i found lo hi free keys frees c =
      elim (Bool-cases (key_at es (slot n) == q)) [
        | inl hit ↦ (none, rw hit, (slot n, probe_index-lt k h _, ground arith))
        | inr miss ↦ rw miss (elim (Bool-cases (key_at es (slot n) == key_free)) [
          | inl end ↦
              let here : key_at es (slot n) ≡ key_free = ground arith in
              let (j, e) = next_found-some n found here in
              let vacant = subst Candidate e (next_found-Candidate n found frees c) in
              (some j, rw end (ap some e), (vacant, (n, here, keys)))
          | inr more ↦
              rw (more, add-one n)
                (find_loop-insert fuel (suc n) i (next_found n found)
                  (further n i lo free (ne_of_test _ _ more)) (omega arith) free
                  (NoKey-suc n keys (ne_of_test _ _ miss))
                  (NoFree-suc n frees (ne_of_test _ _ more)) (next_found-Candidate n found frees c))
        ])
      ]
