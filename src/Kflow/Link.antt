-- ===== src/Kflow/Link.antt =====
-- modules/OVSDriver/module/src/kflow.c: a new kflow in the lists and in its port's counter.
use ivs.Base.{
  ℕ, ◌+◌, ◌%◌, ◌^◌, ◌≡◌, ◌⊎◌, inl, inr, refl, sym, ap, ◌∙◌, arith, true, false, some, List, [], ◌∷◌,
  ◌++◌, ◌==◌, ==_ne, ==_refl, ==_iff, Bool-cases, if◌then◌else◌,
}
use native.Mathlib.Nat.{mod-eq_of_lt}
use mathlib.Core.Option.{some_inj}
use mathlib.Core.Path.{subst}
use mathlib.Core.Bool.{true≢false}
use ivs.Stats.{update}
use ivs.Kflow.{Bytes, Kflow, Verdict, Env, State, list_push, bucket_of, link}
use ivs.Kflow.Member.{In}
use ivs.Kflow.Keeps.{Below, In-list_push, link-Below}
use ivs.Kflow.Account.{count, count-heap, Distinct, Accounted, Bucketed}
use ivs.Kflow.Whole.{Whole}

count-append :
    (heap : ℕ → Kflow) (port x : ℕ) (l : List ℕ)
    → count heap port (l ++ x ∷ [])
      ≡ count heap port l + (if (heap x).in_port == port then 1 else 0)
unfolding count
count-append heap port x [] = omega arith
count-append heap port x (y ∷ ys) = omega (arith, count-append heap port x ys)

Distinct-append : (x : ℕ) (l : List ℕ) → (In x l → ⊥) → Distinct l → Distinct (l ++ x ∷ [])
Distinct-append x [] never d = (λ h. h, tt)
Distinct-append x (y ∷ ys) never d = (
  λ h. elim (at_end y ys h) [ inl e ↦ never (inl (sym e)) | inr there ↦ d.0 there ],
  Distinct-append x ys (λ later. never (inr later)) (d.1),
)
  where
    at_end : (z : ℕ) (l : List ℕ) → In z (l ++ x ∷ []) → (z ≡ x) ⊎ In z l
    at_end z [] (inl e) = inl e
    at_end z [] (inr later) = elim later [ ]
    at_end z (w ∷ ws) (inl e) = inr (inl e)
    at_end z (w ∷ ws) (inr later) = elim (at_end z ws later) [
      | inl e ↦ inl e
      | inr found ↦ inr (inr found)
    ]

module _ (env : Env) where
  open env use {Megaflows, ind_ovs_parse_key, pipeline_process, disable_megaflows, transact}

  push-Distinct : (x : ℕ) (l : List ℕ) → (In x l → ⊥) → Distinct l → Distinct (list_push env l x)
  push-Distinct x l never d = elim (Bool-cases env.list_push_front) [
    | inl front ↦ rw front (never, d)
    | inr back ↦ rw back (Distinct-append x l never d)
  ]

  count-push :
      (heap : ℕ → Kflow) (port x : ℕ) (l : List ℕ)
      → count heap port (list_push env l x)
        ≡ count heap port l + (if (heap x).in_port == port then 1 else 0)
  unfolding count
  count-push heap port x l = elim (Bool-cases env.list_push_front) [
    | inl front ↦ rw front (omega arith)
    | inr back ↦ rw back (count-append heap port x l)
  ]

  push-In : (x y : ℕ) (l : List ℕ) → In y l → In y (list_push env l x)
  push-In x y l h = elim (Bool-cases env.list_push_front) [
    | inl front ↦ rw front (inr h)
    | inr back ↦ rw back (before l h)
  ]
    where
      before : (l : List ℕ) → In y l → In y (l ++ x ∷ [])
      before [] h = elim h [ ]
      before (z ∷ zs) (inl e) = inl e
      before (z ∷ zs) (inr later) = inr (before zs later)

  push-here : (x : ℕ) (l : List ℕ) → In x (list_push env l x)
  push-here x l = elim (Bool-cases env.list_push_front) [
    | inl front ↦ rw front (inl refl)
    | inr back ↦ rw back (last l)
  ]
    where
      last : (l : List ℕ) → In x (l ++ x ∷ [])
      last [] = inl refl
      last (z ∷ zs) = inr (last zs)

  fresh-new : (st : State Megaflows) → Below env st → In st.fresh st.kflows → ⊥
  fresh-new st below h = let lt = below st.fresh h in absurd (omega arith)

  link-heap :
      (st : State Megaflows) (key : Bytes) (in_port num_kflows now : ℕ) (v : Verdict) (x : ℕ)
      → Below env st
      → In x st.kflows
      → (link env st key in_port num_kflows v now).heap x ≡ st.heap x
  unfolding link update
  link-heap st key in_port num_kflows now v x below member =
      let lt = below x member in rw (==_ne x st.fresh (λ e. absurd (omega arith))) refl

  link-new :
      (st : State Megaflows) (key : Bytes) (in_port num_kflows now : ℕ) (v : Verdict)
      → (((link env st key in_port num_kflows v now).heap st.fresh).in_port ≡ in_port % 2 ^ 16)
        × (((link env st key in_port num_kflows v now).heap st.fresh).key ≡ key)
  unfolding link update
  link-new st key in_port num_kflows now v = rw (==_refl st.fresh) (refl, refl)

  wrap_up :
      (num c c' n : ℕ) → num ≡ c % 2 ^ 32 → n ≡ (num + 1) % 2 ^ 32 → c' ≡ c + 1 → n ≡ c' % 2 ^ 32
  wrap_up num c c' n p q r = omega arith

  pub link-count :
      (st : State Megaflows) (key : Bytes) (in_port num_kflows now : ℕ) (v : Verdict) (port : ℕ)
      → Below env st
      → count
          (link env st key in_port num_kflows v now).heap
          port
          (list_push env st.kflows st.fresh)
        ≡ count st.heap port st.kflows + (if in_port % 2 ^ 16 == port then 1 else 0)
  link-count st key in_port num_kflows now v port below =
      let heap' = (link env st key in_port num_kflows v now).heap in
      count-push heap' port st.fresh st.kflows
      ∙ ap (λ (p : ℕ). count heap' port st.kflows + (if p == port then 1 else 0))
          (link-new st key in_port num_kflows now v).0
      ∙ ap (λ (c : ℕ). c + (if in_port % 2 ^ 16 == port then 1 else 0))
          (count-heap st.heap heap' port st.kflows (λ x member.
            ap (λ k. k.in_port) (link-heap st key in_port num_kflows now v x below member)))

  link-Accounted :
      (st : State Megaflows) (key : Bytes) (in_port num_kflows now : ℕ) (v : Verdict)
      → st.ports in_port ≡ some num_kflows
      → Whole env st
      → Accounted env (link env st key in_port num_kflows v now)
  unfolding link update
  link-Accounted st key in_port num_kflows now v there w port n h =
      let short : in_port % 2 ^ 16 ≡ in_port = mod-eq_of_lt (w.4 in_port num_kflows there) in
      let total = link-count st key in_port num_kflows now v port (w.1) in
      elim (Bool-cases (port == in_port)) [
        | inl same ↦
            let e : port ≡ in_port = (==_iff port in_port).0 same in
            let own : (in_port % 2 ^ 16 == port) ≡ true = rw (short, e) (==_refl in_port) in
            wrap_up num_kflows (count st.heap port st.kflows) _ n
              (w.2 port num_kflows (subst (λ p. st.ports p ≡ some num_kflows) (sym e) there))
              (sym (some_inj.0 (rw same at h))) (rw own at total)
        | inr other ↦
            let own : (in_port % 2 ^ 16 == port) ≡ false = rw short (
              ==_ne in_port port (λ e.
                true≢false (sym (==_refl port) ∙ subst (λ p. (port == p) ≡ false) e other))) in
            w.2 port n (rw other at h)
            ∙ ap (λ (c : ℕ). c % 2 ^ 32) (sym (rw own at total ∙ omega arith))
      ]

  link-Bucketed :
      (st : State Megaflows) (key : Bytes) (in_port num_kflows now : ℕ) (v : Verdict)
      → Below env st
      → Bucketed env st
      → Bucketed env (link env st key in_port num_kflows v now)
  unfolding link update
  link-Bucketed st key in_port num_kflows now v below bucketed b x h =
      let linked = link env st key in_port num_kflows v now in
      let own = bucket_of env key in
      let old : In x (st.buckets b)
          → In x (list_push env st.kflows st.fresh) × (b ≡ bucket_of env (linked.heap x).key) =
        λ there.
          let before = bucketed b x there in
          (
            push-In st.fresh x st.kflows (before.0),
            before.1
                ∙ ap (λ k. bucket_of env k.key)
                    (sym (link-heap st key in_port num_kflows now v x below (before.0))),
          ) in
      elim (Bool-cases (b == own)) [
        | inr other ↦ old (rw other at h)
        | inl same ↦
            let e : b ≡ own = (==_iff b own).0 same in
            elim (In-list_push env x st.fresh (st.buckets own) (rw same at h)) [
              | inr there ↦ old (subst (λ c. In x (st.buckets c)) (sym e) there)
              | inl new ↦ (
                subst (λ i. In i (list_push env st.kflows st.fresh)) (sym new)
                    (push-here st.fresh st.kflows),
                e
                    ∙ ap (bucket_of env) (sym (link-new st key in_port num_kflows now v).1)
                    ∙ ap (λ i. bucket_of env (linked.heap i).key) (sym new),
              )
            ]
      ]

  pub link-Whole :
      (st : State Megaflows) (key : Bytes) (in_port num_kflows now : ℕ) (v : Verdict)
      → st.ports in_port ≡ some num_kflows
      → Whole env st
      → Whole env (link env st key in_port num_kflows v now)
  unfolding link update
  link-Whole st key in_port num_kflows now v there w = (
    push-Distinct st.fresh st.kflows (fresh-new st (w.1)) (w.0),
    link-Below env st key in_port num_kflows now v (w.1),
    link-Accounted st key in_port num_kflows now v there w,
    link-Bucketed st key in_port num_kflows now v (w.1) (w.3),
    λ port n h. elim (Bool-cases (port == in_port)) [
      | inl same ↦
          let e : port ≡ in_port = (==_iff port in_port).0 same in
          let lt = w.4 in_port num_kflows there in omega arith
      | inr other ↦ w.4 port n (rw other at h)
    ],
  )
