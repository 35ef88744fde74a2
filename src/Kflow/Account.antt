-- ===== src/Kflow/Account.antt =====
-- modules/OVSDriver/module/src/kflow.c: the number of kflows of each port.
use ivs.Base.{
  ℕ, ◌+◌, ◌-◌, ◌%◌, ◌^◌, ◌≡◌, inl, inr, refl, sym, ap, ◌∙◌, arith, false, none, some, List, [], ◌∷◌,
  ◌==◌, ==_ne, ==_refl, ==_iff, Bool-cases, Option-cases, if◌then◌else◌,
}
use mathlib.Core.Path.{subst}
use mathlib.Core.Bool.{true≢false}
use mathlib.Core.Option.{none-ne-some, some_inj}
use ivs.Stats.{update}
use ivs.Kflow.{
  Kflow, Env, State, list_remove, bucket_of, release_port, unlink, ind_ovs_kflow_delete,
}
use ivs.Kflow.Member.{In, In-list_remove}
use ivs.Kflow.Cache.{sync-Lists, delete-Same, delete-kflows}

-- The kflows of a port, among those at the addresses.
unfoldable pub count : (ℕ → Kflow) → ℕ → List ℕ → ℕ
count heap port [] = 0
count heap port (x ∷ xs) = (if (heap x).in_port == port then 1 else 0) + count heap port xs

abbrev pub Distinct : List ℕ → Type 0
Distinct [] = Unit
Distinct (x ∷ xs) = (In x xs → ⊥) × Distinct xs

pub count-heap :
    (heap heap' : ℕ → Kflow) (port : ℕ) (l : List ℕ)
    → ((x : ℕ) → In x l → (heap' x).in_port ≡ (heap x).in_port)
    → count heap' port l ≡ count heap port l
unfolding count
count-heap heap heap' port [] same = refl
count-heap heap heap' port (x ∷ xs) same =
    let here = same x (inl refl) in
    let rest = count-heap heap heap' port xs (λ y later. same y (inr later)) in ground arith

list_remove-absent : (id : ℕ) (l : List ℕ) → (In id l → ⊥) → list_remove id l ≡ l
unfolding list_remove
list_remove-absent id [] never = refl
list_remove-absent id (x ∷ xs) never =
    let ne : (x == id) ≡ false = ==_ne x id (λ e. never (inl (sym e))) in
    rw ne (ap (λ l. x ∷ l) (list_remove-absent id xs (λ later. never (inr later))))

count-list_remove :
    (heap : ℕ → Kflow) (port id : ℕ) (l : List ℕ)
    → Distinct l
    → In id l
    → count heap port (list_remove id l) + (if (heap id).in_port == port then 1 else 0)
      ≡ count heap port l
unfolding count list_remove
count-list_remove heap port id [] d h = elim h [ ]
count-list_remove heap port id (x ∷ xs) d h = elim (Bool-cases (x == id)) [
  | inl same ↦
      let e : x ≡ id = (==_iff x id).0 same in
      let rest = list_remove-absent id xs (subst (λ i. In i xs → ⊥) e (d.0)) in
      rw (same, rest)
        (ap (λ i. count heap port xs + (if (heap i).in_port == port then 1 else 0)) (sym e)
          ∙ omega arith)
  | inr other ↦ elim h [
    | inl e ↦ ground arith
    | inr later ↦
        let ih = count-list_remove heap port id xs (d.1) later in rw other (omega (arith, ih))
  ]
]

pub Distinct-list_remove : (id : ℕ) (l : List ℕ) → Distinct l → Distinct (list_remove id l)
unfolding list_remove
Distinct-list_remove id [] d = tt
Distinct-list_remove id (x ∷ xs) d = elim (Bool-cases (x == id)) [
  | inl same ↦ rw same (Distinct-list_remove id xs (d.1))
  | inr other ↦ rw other (λ h. d.0 (In-list_remove x id xs h).0, Distinct-list_remove id xs (d.1))
]

module _ (env : Env) where
  open env use {Megaflows}

  -- The counter of every port is the number of its kflows, up to the wrap-around of 32 bits.
  abbrev pub Accounted : State Megaflows → Type 0
  Accounted st =
      (port num_kflows : ℕ)
      → st.ports port ≡ some num_kflows
      → num_kflows ≡ count st.heap port st.kflows % 2 ^ 32

  -- A bucket has kflows of the list, those whose key belongs there.
  abbrev pub Bucketed : State Megaflows → Type 0
  Bucketed st =
      (bucket x : ℕ)
      → In x (st.buckets bucket)
      → In x st.kflows × (bucket ≡ bucket_of env (st.heap x).key)

  pub release_port-ports :
      (st : State Megaflows) (own port num_kflows : ℕ)
      → (release_port env st own).ports port ≡ some num_kflows
      → (n : ℕ) × (st.ports port ≡ some n)
        × (num_kflows ≡ (if own == port then (n + (2 ^ 32 - 1)) % 2 ^ 32 else n))
  unfolding release_port update
  release_port-ports st own port num_kflows h = elim (Bool-cases (own == port)) [
    | inl same ↦
        let e : own ≡ port = (==_iff own port).0 same in
        elim (Option-cases (st.ports own)) [
          | inl gone ↦ absurd (
              none-ne-some _
                (sym (subst (λ p. st.ports p ≡ none) e gone) ∙ (rw (release_port, gone) at h)))
          | inr (n, there) ↦
              let new = rw (release_port, there, ← e, ==_refl own) at h in
              (n, subst (λ p. st.ports p ≡ some n) e there, rw same (some_inj.0 (sym new)))
        ]
    | inr other ↦
        let ne : (port == own) ≡ false =
          ==_ne port own
            (λ e. true≢false (sym (==_refl own) ∙ subst (λ p. (own == p) ≡ false) e other)) in
        elim (Option-cases (st.ports own)) [
          | inl gone ↦ (num_kflows, rw (release_port, gone) at h, rw other refl)
          | inr (n, there) ↦ (num_kflows, rw (release_port, there, ne) at h, rw other refl)
        ]
  ]

  wrap_down :
      (n c c' v : ℕ)
      → n ≡ c % 2 ^ 32
      → c' + 1 ≡ c
      → v ≡ (n + (2 ^ 32 - 1)) % 2 ^ 32
      → v ≡ c' % 2 ^ 32
  wrap_down n c c' v p q r = omega arith

  pub delete-Accounted :
      (st : State Megaflows) (id : ℕ)
      → Distinct st.kflows
      → In id st.kflows
      → Accounted st
      → Accounted (ind_ovs_kflow_delete env st id)
  unfolding ind_ovs_kflow_delete unlink
  delete-Accounted st id distinct member accounted port num_kflows h =
      let released = release_port env st (st.heap id).in_port in
      let ports = (sync-Lists env released id).2 in
      let before =
        release_port-ports st (st.heap id).in_port port num_kflows
          (ap (λ f. f port) (sym ports) ∙ h) in
      let had = accounted port (before.0) (before.1) in
      let heap' = (ind_ovs_kflow_delete env st id).heap in
      let same =
        count-heap st.heap heap' port (list_remove id st.kflows)
          (λ x there. (delete-Same env st id x).1) in
      let fewer = count-list_remove st.heap port id st.kflows distinct member in
      let value = before.2 in
      rw (delete-kflows env st id, same)
        (elim (Bool-cases ((st.heap id).in_port == port)) [
          | inl own ↦
              wrap_down (before.0) (count st.heap port st.kflows)
                (count st.heap port (list_remove id st.kflows)) num_kflows had (rw own at fewer)
                (rw own at value)
          | inr other ↦
              let unchanged = rw other at fewer in
              let kept = rw other at value in
              kept ∙ had ∙ ap (λ (c : ℕ). c % 2 ^ 32) (sym unchanged ∙ omega arith)
        ])
