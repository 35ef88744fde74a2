-- ===== src/Kflow/Coherent.antt =====
-- modules/OVSDriver/module/src/kflow.c: after an invalidation, the kflows that are left are what the
-- pipeline says of their keys.
use ivs.Base.{
  ℕ, ◌≡◌, ◌≢◌, inl, inr, refl, sym, ap, ◌∙◌, false, none, some, List, [], ◌∷◌, ==_ne, ==_refl,
  Bool-cases, Option-cases, if◌then◌else◌, length, ◌<◌, ◌^◌,
}
use mathlib.Core.Path.{subst}
use ivs.Stats.{update}
use ivs.Kflow.{
  Bytes, Kflow, Verdict, Env, State, Words, bytes_eq, list_remove, list_push, flow_set, flow_new,
  send, refresh_handles, refresh_actions, ind_ovs_kflow_delete, ind_ovs_kflow_invalidate,
  invalidate_each, ind_ovs_kflow_invalidate_all, link, add_checked, ind_ovs_kflow_add,
}
use ivs.Kflow.Member.{In, In-list_remove, on_list, bytes_eq_sound}
use ivs.Kflow.Cache.{
  Same, delete-Same, delete-kflows, refresh_handles-id, refresh_handles-other,
  refresh_handles-kflows,
}

module _ (env : Env) where
  open env use {Megaflows, ind_ovs_parse_key, pipeline_process, disable_megaflows, transact}

  -- The kflow has the mask, the actions and the stats handles that the pipeline gives for its key.
  abbrev pub Agrees : Kflow → Type 0
  Agrees k =
      (v : Verdict) × (pipeline_process (ind_ovs_parse_key k.key) ≡ some v)
      × (k.mask ≡ v.mask)
      × (k.actions ≡ v.actions)
      × (k.stats_handles ≡ v.stats_handles)

  -- The pipeline gives at most 65535 stats handles.
  abbrev pub FewHandles : Type 0
  FewHandles =
      (key : Words) (v : Verdict) → pipeline_process key ≡ some v → length v.stats_handles < 2 ^ 16

  pub Agrees-Same : (k l : Kflow) → Same k l → Agrees l → Agrees k
  Agrees-Same k l s a = (
    a.0,
    ap (λ key. pipeline_process (ind_ovs_parse_key key)) (s.0) ∙ a.1,
    s.2 ∙ a.2,
    s.3 ∙ a.3,
    s.4 ∙ a.4,
  )

  abbrev Message_of : State Megaflows → ℕ → Verdict → ivs.Kflow.Message
  Message_of st id v =
      flow_set (st.heap id).key v.actions (if disable_megaflows then none else some v.mask)

  pub delete-In :
      (st : State Megaflows) (id x : ℕ)
      → In x (ind_ovs_kflow_delete env st id).kflows
      → In x st.kflows × (x ≢ id)
  delete-In st id x h = In-list_remove x id st.kflows (subst (In x) (delete-kflows env st id) h)

  refresh_actions-other :
      (st : State Megaflows) (id x : ℕ) (v : Verdict)
      → x ≢ id
      → Same ((refresh_actions env st id v).heap x) (st.heap x)
  unfolding refresh_actions update
  refresh_actions-other st id x v ne = elim (Bool-cases (bytes_eq v.actions (st.heap id).actions)) [
    | inl same ↦ rw (refresh_actions, same) (refl, refl, refl, refl, refl)
    | inr other ↦ elim (Bool-cases (transact st.sent (Message_of st id v))) [
      | inl taken ↦ rw (refresh_actions, other, taken, ==_ne x id ne) (refl, refl, refl, refl, refl)
      | inr refused ↦
          rw (refresh_actions, other, refused)
            (delete-Same env (send env st (Message_of st id v)) id x)
    ]
  ]

  refresh_actions-In :
      (st : State Megaflows) (id x : ℕ) (v : Verdict)
      → In x (refresh_actions env st id v).kflows
      → In x st.kflows
  unfolding refresh_actions update
  refresh_actions-In st id x v h = elim (Bool-cases (bytes_eq v.actions (st.heap id).actions)) [
    | inl same ↦ rw (refresh_actions, same) at h
    | inr other ↦ elim (Bool-cases (transact st.sent (Message_of st id v))) [
      | inl taken ↦ rw (refresh_actions, other, taken) at h
      | inr refused ↦
          (delete-In (send env st (Message_of st id v)) id x
            (rw (refresh_actions, other, refused) at h)).0
    ]
  ]

  refresh_actions-Agrees :
      (st : State Megaflows) (id : ℕ) (v : Verdict)
      → pipeline_process (ind_ovs_parse_key (st.heap id).key) ≡ some v
      → (st.heap id).mask ≡ v.mask
      → (st.heap id).stats_handles ≡ v.stats_handles
      → In id (refresh_actions env st id v).kflows
      → Agrees ((refresh_actions env st id v).heap id)
  unfolding refresh_actions update
  refresh_actions-Agrees st id v says mask handles h =
      elim (Bool-cases (bytes_eq v.actions (st.heap id).actions)) [
        | inl same ↦
            rw (refresh_actions, same)
              (v, says, mask, sym (bytes_eq_sound v.actions _ same), handles)
        | inr other ↦ elim (Bool-cases (transact st.sent (Message_of st id v))) [
          | inl taken ↦
              rw (refresh_actions, other, taken, ==_refl id) (v, says, mask, refl, handles)
          | inr refused ↦ absurd (
              (delete-In (send env st (Message_of st id v)) id id
                  (rw (refresh_actions, other, refused) at h)).1
                refl)
        ]
      ]

  Same-trans : (j k l : Kflow) → Same j k → Same k l → Same j l
  Same-trans j k l s t = (s.0 ∙ t.0, s.1 ∙ t.1, s.2 ∙ t.2, s.3 ∙ t.3, s.4 ∙ t.4)

  pub invalidate-other :
      (st : State Megaflows) (id x : ℕ)
      → x ≢ id
      → Same ((ind_ovs_kflow_invalidate env st id).heap x) (st.heap x)
  unfolding ind_ovs_kflow_invalidate
  invalidate-other st id x ne =
      elim (Option-cases (pipeline_process (ind_ovs_parse_key (st.heap id).key))) [
        | inl fails ↦ rw (ind_ovs_kflow_invalidate, fails) (delete-Same env st id x)
        | inr (v, says) ↦ elim (Bool-cases (bytes_eq v.mask (st.heap id).mask)) [
          | inl kept ↦
              let refreshed = refresh_handles env st id v.stats_handles in
              rw (ind_ovs_kflow_invalidate, says, kept)
                (Same-trans ((refresh_actions env refreshed id v).heap x) (refreshed.heap x)
                  (st.heap x) (refresh_actions-other refreshed id x v ne)
                  (refresh_handles-other env st id x v.stats_handles ne))
          | inr changed ↦ rw (ind_ovs_kflow_invalidate, says, changed) (delete-Same env st id x)
        ]
      ]

  pub invalidate-In :
      (st : State Megaflows) (id x : ℕ)
      → In x (ind_ovs_kflow_invalidate env st id).kflows
      → In x st.kflows
  unfolding ind_ovs_kflow_invalidate
  invalidate-In st id x h =
      elim (Option-cases (pipeline_process (ind_ovs_parse_key (st.heap id).key))) [
        | inl fails ↦ (delete-In st id x (rw (ind_ovs_kflow_invalidate, fails) at h)).0
        | inr (v, says) ↦ elim (Bool-cases (bytes_eq v.mask (st.heap id).mask)) [
          | inl kept ↦ subst (In x) (refresh_handles-kflows env st id v.stats_handles) (
              refresh_actions-In (refresh_handles env st id v.stats_handles) id x v
                (rw (ind_ovs_kflow_invalidate, says, kept) at h))
          | inr changed ↦ (delete-In st id x (rw (ind_ovs_kflow_invalidate, says, changed) at h)).0
        ]
      ]

  -- A kflow that is still cached after its invalidation is what the pipeline says of its key.
  pub invalidate-Agrees :
      FewHandles
      → (st : State Megaflows) (id : ℕ) → In id (ind_ovs_kflow_invalidate env st id).kflows
      → Agrees ((ind_ovs_kflow_invalidate env st id).heap id)
  unfolding ind_ovs_kflow_invalidate
  invalidate-Agrees few st id h =
      elim (Option-cases (pipeline_process (ind_ovs_parse_key (st.heap id).key))) [
        | inl fails ↦
            absurd ((delete-In st id id (rw (ind_ovs_kflow_invalidate, fails) at h)).1 refl)
        | inr (v, says) ↦ elim (Bool-cases (bytes_eq v.mask (st.heap id).mask)) [
          | inl kept ↦
              let r = refresh_handles-id env st id v.stats_handles (few _ v says) in
              rw (ind_ovs_kflow_invalidate, says, kept)
                (refresh_actions-Agrees (refresh_handles env st id v.stats_handles) id v
                  (ap (λ key. pipeline_process (ind_ovs_parse_key key)) (r.0) ∙ says)
                  (r.2 ∙ sym (bytes_eq_sound v.mask _ kept)) (r.4)
                  (rw (ind_ovs_kflow_invalidate, says, kept) at h))
          | inr changed ↦
              absurd
                ((delete-In st id id (rw (ind_ovs_kflow_invalidate, says, changed) at h)).1 refl)
        ]
      ]

  each-In :
      (st : State Megaflows) (ids : List ℕ) (x : ℕ)
      → In x (invalidate_each env st ids).kflows
      → In x st.kflows
  unfolding invalidate_each
  each-In st [] x h = h
  each-In st (id ∷ ids) x h =
      invalidate-In st id x (each-In (ind_ovs_kflow_invalidate env st id) ids x h)

  each-other :
      (st : State Megaflows) (ids : List ℕ) (x : ℕ)
      → (In x ids → ⊥)
      → Same ((invalidate_each env st ids).heap x) (st.heap x)
  unfolding invalidate_each
  each-other st [] x never = (refl, refl, refl, refl, refl)
  each-other st (id ∷ ids) x never =
      let once = ind_ovs_kflow_invalidate env st id in
      Same-trans ((invalidate_each env once ids).heap x) (once.heap x) (st.heap x)
        (each-other once ids x (λ later. never (inr later)))
        (invalidate-other st id x (λ e. never (inl e)))

  each-Agrees :
      FewHandles
      → (st : State Megaflows) (ids : List ℕ) (x : ℕ) → In x ids
      → In x (invalidate_each env st ids).kflows
      → Agrees ((invalidate_each env st ids).heap x)
  unfolding invalidate_each
  each-Agrees few st [] x walked h = elim walked [ ]
  each-Agrees few st (id ∷ ids) x walked h = elim (on_list x ids) [
    | inl later ↦ each-Agrees few (ind_ovs_kflow_invalidate env st id) ids x later h
    | inr never ↦ elim walked [
      | inr later ↦ absurd (never later)
      | inl here ↦
          let once = ind_ovs_kflow_invalidate env st id in
          let left = each-In once ids x h in
          Agrees-Same ((invalidate_each env once ids).heap x) (once.heap x)
            (each-other once ids x never)
            (subst (λ i. Agrees (once.heap i)) (sym here)
              (invalidate-Agrees few st id (subst (λ i. In i once.kflows) here left)))
    ]
  ]

  -- Every kflow in the cache is what the pipeline says of its key.
  abbrev pub AllAgree : State Megaflows → Type 0
  AllAgree st = (x : ℕ) → In x st.kflows → Agrees (st.heap x)

  -- Outside of a hitless restart, where the pipeline gives at most 65535 stats handles for any
  -- key, after ind_ovs_kflow_invalidate_all every kflow still in the cache has the mask, the
  -- actions and the stats handles that the current pipeline gives for its key, whatever the kernel
  -- answers and whatever the cache held before.
  pub invalidate_all-AllAgree :
      FewHandles
      → (st : State Megaflows) → env.hitless ≡ false
      → AllAgree (ind_ovs_kflow_invalidate_all env st)
  unfolding ind_ovs_kflow_invalidate_all
  invalidate_all-AllAgree few st live x h =
      let h' : In x (invalidate_each env st st.kflows).kflows =
        rw (ind_ovs_kflow_invalidate_all, live) at h in
      rw (ind_ovs_kflow_invalidate_all, live)
        (each-Agrees few st st.kflows x (each-In st st.kflows x h') h')
