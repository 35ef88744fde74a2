-- ===== src/Kflow/Steps.antt =====
-- modules/OVSDriver/module/src/kflow.c: every operation keeps the invariant.
use ivs.Base.{
  ℕ, ◌≡◌, ◌≢◌, inl, inr, refl, sym, none, some, List, [], ◌∷◌, ◌==◌, ==_iff, Bool-cases,
  Option-cases, if◌then◌else◌,
}
use mathlib.Core.Path.{subst}
use ivs.Stats.{update}
use ivs.Kflow.{
  Kflow, Verdict, Env, State, bytes_eq, ind_ovs_kflow_delete, flow_set, send, refresh_handles,
  refresh_actions, ind_ovs_kflow_sync_stats, ind_ovs_kflow_invalidate, invalidate_each,
  ind_ovs_kflow_invalidate_all, counted_handles,
}
use ivs.Kflow.Member.{In, list_remove-In}
use ivs.Kflow.Cache.{sync-Same, sync-Lists, refresh_handles-kflows, delete-kflows}
use ivs.Kflow.Account.{Distinct}
use ivs.Kflow.Whole.{Whole, Whole-Framed, delete-Whole}

module _ (env : Env) where
  open env use {Megaflows, ind_ovs_parse_key, pipeline_process, disable_megaflows, transact}

  -- The kflow at one address gets other handles or actions.
  changed-Whole :
      (st : State Megaflows) (id : ℕ) (k : Kflow)
      → k.key ≡ (st.heap id).key
      → k.in_port ≡ (st.heap id).in_port
      → Whole env st
      → Whole env (record st { heap = update st.heap id k })
  unfolding update
  changed-Whole st id k key in_port w =
      Whole-Framed env st (record st { heap = update st.heap id k })
        (
          λ x. elim (Bool-cases (x == id)) [
            | inl same ↦ let e : x ≡ id = (==_iff x id).0 same in rw (same, e) (key, in_port)
            | inr other ↦ rw other (refl, refl)
          ],
          (refl, refl, refl, refl),
        )
        w

  sync-Whole :
      (st : State Megaflows) (id : ℕ)
      → Whole env st
      → Whole env (ind_ovs_kflow_sync_stats env st id)
  sync-Whole st id w =
      Whole-Framed env st (ind_ovs_kflow_sync_stats env st id)
        (λ x. let s = sync-Same env st id x in (s.0, s.1), sync-Lists env st id) w

  refresh_handles-Whole :
      (st : State Megaflows) (id : ℕ) (handles : List ℕ)
      → Whole env st
      → Whole env (refresh_handles env st id handles)
  unfolding refresh_handles
  refresh_handles-Whole st id handles w =
      elim (Bool-cases (bytes_eq handles (st.heap id).stats_handles)) [
        | inl same ↦ rw (refresh_handles, same) w
        | inr other ↦
            let synced = ind_ovs_kflow_sync_stats env st id in
            rw (refresh_handles, other)
              (changed-Whole synced id
                (record (synced.heap id) { stats_handles = counted_handles handles }) refl refl
                (sync-Whole st id w))
      ]

  refresh_actions-Whole :
      (st : State Megaflows) (id : ℕ) (v : Verdict)
      → In id st.kflows
      → Whole env st
      → Whole env (refresh_actions env st id v)
  unfolding refresh_actions
  refresh_actions-Whole st id v member w =
      let message =
        flow_set (st.heap id).key v.actions (if disable_megaflows then none else some v.mask) in
      let asked = send env st message in
      elim (Bool-cases (bytes_eq v.actions (st.heap id).actions)) [
        | inl same ↦ rw (refresh_actions, same) w
        | inr other ↦ elim (Bool-cases (transact st.sent message)) [
          | inl taken ↦
              rw (refresh_actions, other, taken)
                (changed-Whole asked id (record (asked.heap id) { actions = v.actions }) refl refl
                  w)
          | inr refused ↦ rw (refresh_actions, other, refused) (delete-Whole env asked id member w)
        ]
      ]

  pub invalidate-Whole :
      (st : State Megaflows) (id : ℕ)
      → In id st.kflows
      → Whole env st
      → Whole env (ind_ovs_kflow_invalidate env st id)
  unfolding ind_ovs_kflow_invalidate
  invalidate-Whole st id member w =
      elim (Option-cases (pipeline_process (ind_ovs_parse_key (st.heap id).key))) [
        | inl fails ↦ rw (ind_ovs_kflow_invalidate, fails) (delete-Whole env st id member w)
        | inr (v, says) ↦ elim (Bool-cases (bytes_eq v.mask (st.heap id).mask)) [
          | inl kept ↦
              rw (ind_ovs_kflow_invalidate, says, kept)
                (refresh_actions-Whole (refresh_handles env st id v.stats_handles) id v
                  (subst (In id) (sym (refresh_handles-kflows env st id v.stats_handles)) member)
                  (refresh_handles-Whole st id v.stats_handles w))
          | inr changed ↦
              rw (ind_ovs_kflow_invalidate, says, changed) (delete-Whole env st id member w)
        ]
      ]

  -- The address that is saved before a round is still on the list after it.
  invalidate-In_other :
      (st : State Megaflows) (id x : ℕ)
      → x ≢ id
      → In x st.kflows
      → In x (ind_ovs_kflow_invalidate env st id).kflows
  unfolding ind_ovs_kflow_invalidate refresh_actions
  invalidate-In_other st id x ne h =
      let after_delete : (st' : State Megaflows)
          → st'.kflows ≡ st.kflows
          → In x (ind_ovs_kflow_delete env st' id).kflows =
        λ st' same.
          subst (In x) (sym (delete-kflows env st' id))
            (list_remove-In x id st'.kflows (subst (In x) (sym same) h) ne) in
      elim (Option-cases (pipeline_process (ind_ovs_parse_key (st.heap id).key))) [
        | inl fails ↦ rw (ind_ovs_kflow_invalidate, fails) (after_delete st refl)
        | inr (v, says) ↦ elim (Bool-cases (bytes_eq v.mask (st.heap id).mask)) [
          | inr changed ↦ rw (ind_ovs_kflow_invalidate, says, changed) (after_delete st refl)
          | inl kept ↦
              let st' = refresh_handles env st id v.stats_handles in
              let lists = refresh_handles-kflows env st id v.stats_handles in
              let there : In x st'.kflows = subst (In x) (sym lists) h in
              let message =
                flow_set (st'.heap id).key v.actions
                  (if disable_megaflows then none else some v.mask) in
              rw (ind_ovs_kflow_invalidate, says, kept)
                (elim (Bool-cases (bytes_eq v.actions (st'.heap id).actions)) [
                  | inl same ↦ rw (refresh_actions, same) there
                  | inr other ↦ elim (Bool-cases (transact st'.sent message)) [
                    | inl taken ↦ rw (refresh_actions, other, taken) there
                    | inr refused ↦
                        rw (refresh_actions, other, refused)
                          (after_delete (send env st' message) lists)
                  ]
                ])
        ]
      ]

  each-Whole :
      (st : State Megaflows) (ids : List ℕ)
      → Distinct ids
      → ((x : ℕ) → In x ids → In x st.kflows)
      → Whole env st
      → Whole env (invalidate_each env st ids)
  unfolding invalidate_each
  each-Whole st [] d listed w = w
  each-Whole st (id ∷ ids) d listed w =
      each-Whole (ind_ovs_kflow_invalidate env st id) ids (d.1)
        (λ x later.
          invalidate-In_other st id x (λ e. d.0 (subst (λ i. In i ids) e later))
            (listed x (inr later)))
        (invalidate-Whole st id (listed id (inl refl)) w)

  -- ind_ovs_kflow_invalidate_all keeps the lists, the buckets and the port counters in order,
  -- whatever the pipeline and the kernel answer for each kflow.
  pub invalidate_all-Whole :
      (st : State Megaflows) → Whole env st → Whole env (ind_ovs_kflow_invalidate_all env st)
  unfolding ind_ovs_kflow_invalidate_all
  invalidate_all-Whole st w = elim (Bool-cases env.hitless) [
    | inl quiet ↦ rw (ind_ovs_kflow_invalidate_all, quiet) w
    | inr live ↦
        rw (ind_ovs_kflow_invalidate_all, live) (each-Whole st st.kflows (w.0) (λ x h. h) w)
  ]
