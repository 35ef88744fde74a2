-- ===== src/Uplink/Choice.antt =====
-- The uplink that a reselection chooses.
use ivs.Base.{
  ℕ, zero, suc, ◌+◌, ◌≤◌, ◌<◌, ◌≡◌, refl, ◌⊎◌, inl, inr, true, false, Option, none, some,
  Bool-cases, arith,
}
use mathlib.Core.Path.{subst}
use native.Mathlib.Decide.{dec_lt}
use ivs.Uplink.{State, max_ports, is_valid_uplink, first_valid, reselect_among, uplink_reselect}

-- What the loop finds: the first valid port, or that there is none.
abbrev FirstValid : ℕ → ℕ → State → Option ℕ → Type 0
FirstValid rounds i st found =
    ((found ≡ none) × ((j : ℕ) → i ≤ j → j < i + rounds → is_valid_uplink j st ≡ false))
    ⊎ ((k : ℕ) × (found ≡ some k)
        × (k < i + rounds)
        × (is_valid_uplink k st ≡ true)
        × ((j : ℕ) → i ≤ j → j < k → is_valid_uplink j st ≡ false))

-- The port at which a range begins, or one behind it.
from_next :
    (i : ℕ) (st : State) (bound : ℕ)
    → is_valid_uplink i st ≡ false
    → ((j : ℕ) → i + 1 ≤ j → j < bound → is_valid_uplink j st ≡ false)
    → (j : ℕ) → i ≤ j
    → j < bound
    → is_valid_uplink j st ≡ false
from_next i st bound here later j lo hi = elim (dec_lt i j) [
  | yes more ↦ later j (omega arith) hi
  | no same ↦ let e : i ≡ j = omega arith in subst (λ x. is_valid_uplink x st ≡ false) e here
]

first_valid-FirstValid :
    (rounds i : ℕ) (st : State) → FirstValid rounds i st (first_valid rounds i st)
unfolding first_valid
first_valid-FirstValid zero i st = inl (refl, λ j lo hi. absurd (omega arith))
first_valid-FirstValid (suc rounds) i st = elim (Bool-cases (is_valid_uplink i st)) [
  | inl valid ↦
      rw (first_valid, valid) (inr (i, refl, omega arith, valid, λ j lo hi. absurd (omega arith)))
  | inr invalid ↦ elim (first_valid-FirstValid rounds (i + 1) st) [
    | inl (e, none_valid) ↦
        rw (first_valid, invalid)
          (inl (
            e,
            λ j lo hi.
                from_next i st (i + suc rounds) invalid (λ k l h. none_valid k l (omega arith)) j lo
                  hi,
          ))
    | inr (k, e, small, valid, before) ↦
        rw (first_valid, invalid) (inr (k, e, omega arith, valid, from_next i st k invalid before))
  ]
]

-- The choice among the first ports, `rounds` of them: the current port, the first valid one, or none.
abbrev pub Chosen : ℕ → ℕ → State → ℕ → Type 0
Chosen rounds dest_none st port =
    ((is_valid_uplink st.current_uplink st ≡ true) × (port ≡ st.current_uplink))
    ⊎ ((is_valid_uplink st.current_uplink st ≡ false)
        × (port < rounds)
        × (is_valid_uplink port st ≡ true)
        × ((j : ℕ) → j < port → is_valid_uplink j st ≡ false))
    ⊎ (is_valid_uplink st.current_uplink st ≡ false)
      × (port ≡ dest_none)
      × ((j : ℕ) → j < rounds → is_valid_uplink j st ≡ false)

reselect_among-Chosen :
    (rounds dest_none : ℕ) (st : State)
    → Chosen rounds dest_none st (reselect_among rounds dest_none st).current_uplink
unfolding reselect_among
reselect_among-Chosen rounds dest_none st =
    elim (Bool-cases (is_valid_uplink st.current_uplink st)) [
      | inl keep ↦ rw keep (inl (refl, refl))
      | inr change ↦ elim (first_valid-FirstValid rounds 0 st) [
        | inl (e, none_valid) ↦
            rw (change, e)
              (inr (inr (refl, refl, λ j hi. none_valid j (omega arith) (omega arith))))
        | inr (k, e, small, valid, before) ↦
            rw (change, e) (inr (inl (refl, omega arith, valid, λ j hi. before j (omega arith) hi)))
      ]
    ]

-- ind_ovs_uplink_reselect keeps a current uplink that is valid; otherwise it chooses the first
-- valid one of the 1024 ports, or none where no port is valid.
pub uplink_reselect-Chosen :
    (dest_none : ℕ) (st : State)
    → Chosen max_ports dest_none st (uplink_reselect dest_none st).current_uplink
unfolding uplink_reselect
uplink_reselect-Chosen dest_none st = reselect_among-Chosen max_ports dest_none st
