-- ===== src/Kflow/Member.antt =====
-- modules/OVSDriver/module/src/kflow.c: lists of kflows and what their operations keep.
use ivs.Base.{
  ℕ, ◌≡◌, ◌≢◌, ◌⊎◌, inl, inr, refl, ◌∙◌, arith, true, List, [], ◌∷◌, ◌==◌, ==_iff, Bool-cases,
}
use mathlib.Core.Bool.{false≢true}
use ivs.Kflow.{bytes_eq, list_remove}

abbrev pub In : ℕ → List ℕ → Type 0
In x [] = ⊥
In x (y ∷ ys) = (x ≡ y) ⊎ In x ys

pub In-list_remove : (x id : ℕ) (l : List ℕ) → In x (list_remove id l) → In x l × (x ≢ id)
unfolding list_remove
In-list_remove x id [] h = elim h [ ]
In-list_remove x id (y ∷ ys) h = elim (Bool-cases (y == id)) [
  | inl same ↦ let rest = In-list_remove x id ys (rw same at h) in (inr (rest.0), rest.1)
  | inr other ↦ elim (rw other at h) [
    | inl e ↦ (inl e, ground arith)
    | inr later ↦ let rest = In-list_remove x id ys later in (inr (rest.0), rest.1)
  ]
]

-- Whether an address is on a list.
pub on_list : (x : ℕ) (l : List ℕ) → In x l ⊎ (In x l → ⊥)
on_list x [] = inr (λ h. h)
on_list x (y ∷ ys) = elim (Bool-cases (x == y)) [
  | inl e ↦ inl (inl ((==_iff x y).0 e))
  | inr ne ↦ elim (on_list x ys) [
    | inl later ↦ inl (inr later)
    | inr never ↦ inr (λ h. elim h [ inl e ↦ ground arith | inr later ↦ never later ])
  ]
]

pub bytes_eq_sound : (xs ys : List ℕ) → bytes_eq xs ys ≡ true → xs ≡ ys
unfolding bytes_eq
bytes_eq_sound [] [] h = refl
bytes_eq_sound [] (y ∷ ys) h = absurd (false≢true h)
bytes_eq_sound (x ∷ xs) [] h = absurd (false≢true h)
bytes_eq_sound (x ∷ xs) (y ∷ ys) h = ground (arith, bytes_eq_sound xs ys)

pub list_remove-In : (x id : ℕ) (l : List ℕ) → In x l → x ≢ id → In x (list_remove id l)
unfolding list_remove
list_remove-In x id [] h ne = h
list_remove-In x id (y ∷ ys) h ne = elim (Bool-cases (y == id)) [
  | inl same ↦ elim h [
    | inl e ↦ absurd (ne (e ∙ (==_iff y id).0 same))
    | inr later ↦ rw same (list_remove-In x id ys later ne)
  ]
  | inr other ↦ elim h [
    | inl e ↦ rw other (inl e)
    | inr later ↦ rw other (inr (list_remove-In x id ys later ne))
  ]
]
