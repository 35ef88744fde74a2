-- ===== src/L2table/Scan.antt =====
-- What the entry array means: a finite map from keys to values, read by a linear scan.
use ivs.Base.{
  ℕ, zero, suc, ◌+◌, ◌^◌, ◌<◌, ◌≡◌, refl, ◌≢◌, ◌⊎◌, inl, inr, false, Option, none, some, List, [],
  ◌∷◌, arith, ◌==◌, if◌then◌else◌, length, set, ==_refl, ==_ne, Bool-cases,
}
use mathlib.Core.Path.{subst}
use ivs.L2table.{Entry, entry_at, key_at, key_free, key_deleted, key_is_unoccupied}

-- The value of the first entry with the key.
unfoldable pub scan : ℕ → List Entry → Option (ℕ × ℕ)
scan q [] = none
scan q (e ∷ es) = if e.key == q then some (e.out_port, e.metadata) else scan q es

abbrev pub IsOccupied : ℕ → Type 0
IsOccupied key = key_is_unoccupied key ≡ false

-- No two occupied entries have one key.
abbrev pub Distinct : List Entry → Type 0
Distinct [] = Unit {0}
Distinct (e ∷ es) = (IsOccupied e.key → scan e.key es ≡ none) × Distinct es

-- A key is that of an occupied entry, with its flag bits clear, or one of the two marks.
abbrev pub IsKey : ℕ → Type 0
IsKey key = (key < 2 ^ 60) ⊎ (key ≡ key_free) ⊎ (key ≡ key_deleted)

abbrev pub AllKeys : List Entry → Type 0
AllKeys [] = Unit {0}
AllKeys (e ∷ es) = IsKey e.key × AllKeys es

abbrev pub weigh_occupied : ℕ → ℕ
weigh_occupied key = if key_is_unoccupied key then 0 else 1

abbrev pub weigh_deleted : ℕ → ℕ
weigh_deleted key = if key == key_deleted then 1 else 0

unfoldable pub count_occupied : List Entry → ℕ
count_occupied [] = 0
count_occupied (e ∷ es) = weigh_occupied e.key + count_occupied es

unfoldable pub count_deleted : List Entry → ℕ
count_deleted [] = 0
count_deleted (e ∷ es) = weigh_deleted e.key + count_deleted es

pub count_occupied-set :
    (es : List Entry) (j : ℕ) (e : Entry)
    → j < length es
    → count_occupied (set es j e) + weigh_occupied (key_at es j)
      ≡ count_occupied es + weigh_occupied e.key
unfolding count_occupied
count_occupied-set [] j e h = absurd (omega arith)
count_occupied-set (x ∷ xs) zero e h = omega arith
count_occupied-set (x ∷ xs) (suc j) e h = omega (arith, count_occupied-set xs j e (omega arith))

pub count_deleted-set :
    (es : List Entry) (j : ℕ) (e : Entry)
    → j < length es
    → count_deleted (set es j e) + weigh_deleted (key_at es j)
      ≡ count_deleted es + weigh_deleted e.key
unfolding count_deleted
count_deleted-set [] j e h = absurd (omega arith)
count_deleted-set (x ∷ xs) zero e h = omega arith
count_deleted-set (x ∷ xs) (suc j) e h = omega (arith, count_deleted-set xs j e (omega arith))

-- Where not every entry is occupied or deleted, one is free.
pub free_exists :
    (es : List Entry)
    → AllKeys es
    → count_occupied es + count_deleted es < length es
    → (j : ℕ) × (j < length es) × (key_at es j ≡ key_free)
unfolding count_occupied count_deleted
free_exists [] ks h = absurd (omega arith)
free_exists (x ∷ xs) ks h = elim (Bool-cases (x.key == key_free)) [
  | inl e ↦ (0, omega arith, ground arith)
  | inr ne ↦ let (j, lt, e) = free_exists xs ks.1 (ground arith) in (suc j, omega arith, e)
]

pub AllKeys-set :
    (es : List Entry) (j : ℕ) (e : Entry) → AllKeys es → IsKey e.key → AllKeys (set es j e)
AllKeys-set [] j e ks k = ks
AllKeys-set (x ∷ xs) zero e ks k = (k, ks.1)
AllKeys-set (x ∷ xs) (suc j) e ks k = (ks.0, AllKeys-set xs j e ks.1 k)

pub AllKeys-at : (es : List Entry) (j : ℕ) → AllKeys es → IsKey (key_at es j)
AllKeys-at [] j ks = inr (inl refl)
AllKeys-at (x ∷ xs) zero ks = ks.0
AllKeys-at (x ∷ xs) (suc j) ks = AllKeys-at xs j ks.1

pub scan-set_ne :
    (es : List Entry) (j : ℕ) (e : Entry) (q : ℕ)
    → e.key ≢ q
    → key_at es j ≢ q
    → scan q (set es j e) ≡ scan q es
unfolding scan
scan-set_ne [] j e q a b = refl
scan-set_ne (x ∷ xs) zero e q a b = ground arith
scan-set_ne (x ∷ xs) (suc j) e q a b = rw (scan-set_ne xs j e q a b)

pub scan-set_self :
    (es : List Entry) (j : ℕ) (e : Entry)
    → j < length es
    → scan e.key es ≡ none
    → scan e.key (set es j e) ≡ some (e.out_port, e.metadata)
unfolding scan
scan-set_self [] j e h n = absurd (omega arith)
scan-set_self (x ∷ xs) zero e h n = rw (==_refl e.key)
scan-set_self (x ∷ xs) (suc j) e h n = ground (arith, scan-set_self xs j e)

pub scan-set-none :
    (es : List Entry) (j : ℕ) (e : Entry) (q : ℕ)
    → e.key ≢ q
    → scan q es ≡ none
    → scan q (set es j e) ≡ none
unfolding scan
scan-set-none [] j e q a n = refl
scan-set-none (x ∷ xs) zero e q a n = ground arith
scan-set-none (x ∷ xs) (suc j) e q a n = ground (arith, scan-set-none xs j e q)

-- A key that the tail holds is not the head's.
head_ne :
    (x : Entry) (xs : List Entry) (q : ℕ) (v : ℕ × ℕ)
    → Distinct (x ∷ xs)
    → IsOccupied q
    → scan q xs ≡ some v
    → x.key ≢ q
head_ne x xs q v d o s = λ e. let n = subst (λ k. IsOccupied k → scan k xs ≡ none) e d.0 o in cc

pub scan-at :
    (es : List Entry) (j : ℕ)
    → Distinct es
    → j < length es
    → IsOccupied (key_at es j)
    → scan (key_at es j) es ≡ some ((entry_at es j).out_port, (entry_at es j).metadata)
unfolding scan
scan-at [] j d h o = absurd (omega arith)
scan-at (x ∷ xs) zero d h o = rw (==_refl x.key)
scan-at (x ∷ xs) (suc j) d h o =
    let q = key_at xs j in
    let found = scan-at xs j d.1 (omega arith) o in
    rw (==_ne x.key q (head_ne x xs q _ d o found)) found

pub scan-set_gone :
    (es : List Entry) (j : ℕ) (e : Entry)
    → Distinct es
    → j < length es
    → IsOccupied (key_at es j)
    → e.key ≢ key_at es j
    → scan (key_at es j) (set es j e) ≡ none
unfolding scan
scan-set_gone [] j e d h o a = absurd (omega arith)
scan-set_gone (x ∷ xs) zero e d h o a = rw (==_ne e.key x.key a) (d.0 o)
scan-set_gone (x ∷ xs) (suc j) e d h o a =
    let q = key_at xs j in
    rw (==_ne x.key q (head_ne x xs q _ d o (scan-at xs j d.1 (omega arith) o)))
      (scan-set_gone xs j e d.1 (omega arith) o a)

pub scan-some :
    (es : List Entry) (q : ℕ) (v : ℕ × ℕ)
    → scan q es ≡ some v
    → (j : ℕ) × (j < length es) × (key_at es j ≡ q)
unfolding scan
scan-some [] q v h = cc
scan-some (x ∷ xs) q v h = elim (Bool-cases (x.key == q)) [
  | inl e ↦ (0, omega arith, ground arith)
  | inr ne ↦ let (j, lt, e) = scan-some xs q v (ground arith) in (suc j, omega arith, e)
]

pub scan-eq-none :
    (es : List Entry) (q : ℕ) → ((j : ℕ) → j < length es → key_at es j ≢ q) → scan q es ≡ none
unfolding scan
scan-eq-none [] q h = refl
scan-eq-none (x ∷ xs) q h =
    rw (==_ne x.key q (h 0 (omega arith))) (scan-eq-none xs q (λ j lt. h (suc j) (omega arith)))

pub Distinct-set :
    (es : List Entry) (j : ℕ) (e : Entry)
    → Distinct es
    → (IsOccupied e.key → scan e.key es ≡ none)
    → Distinct (set es j e)
unfolding scan
Distinct-set [] j e d n = d
Distinct-set (x ∷ xs) zero e d n = (λ o. ground (arith, n o), d.1)
Distinct-set (x ∷ xs) (suc j) e d n = (
  λ o. scan-set-none xs j e x.key (λ same. ground (arith, n)) (d.0 o),
  Distinct-set xs j e d.1 (λ o. ground (arith, n o)),
)
