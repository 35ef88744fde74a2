-- ===== src/Kflow/Keeps.antt =====
-- modules/OVSDriver/module/src/kflow.c: additions and expiry keep the cache what the pipeline says.
use ivs.Base.{
  ℕ, ◌+◌, ◌-◌, ◌%◌, ◌^◌, ◌<◌, ◌≡◌, ◌⊎◌, inl, inr, refl, arith, some, List, [], ◌∷◌, ◌++◌, ==_ne,
  ==_refl, Bool-cases, Option-cases, leb,
}
use mathlib.Core.Path.{subst}
use ivs.Stats.{update}
use ivs.Kflow.{
  Bytes, Verdict, Env, State, list_push, send, ind_ovs_kflow_delete, link, ind_ovs_kflow_add,
  Report, kflow_sync_stats, kflow_lookup, kflow_expire, expiration_ms,
}
use ivs.Kflow.Member.{In}
use ivs.Kflow.Add.{add-cases}
use ivs.Kflow.Coherent.{AllAgree, FewHandles, Agrees-Same, delete-In}
use ivs.Kflow.Cache.{
  kflow_sync_stats-Same, kflow_sync_stats-Lists, delete-fresh, delete-Same, counted_handles-all,
}

module _ (env : Env) where
  open env use {Megaflows, ind_ovs_parse_key, pipeline_process, disable_megaflows, transact}

  -- Addresses in use are below the next one.
  abbrev pub Below : State Megaflows → Type 0
  Below st = (x : ℕ) → In x st.kflows → x < st.fresh

  pub In-list_push : (x id : ℕ) (l : List ℕ) → In x (list_push env l id) → (x ≡ id) ⊎ In x l
  In-list_push x id l h = elim (Bool-cases env.list_push_front) [
    | inl front ↦ rw front at h
    | inr back ↦ at_end l (rw back at h)
  ]
    where
      at_end : (l : List ℕ) → In x (l ++ id ∷ []) → (x ≡ id) ⊎ In x l
      at_end [] (inl e) = inl e
      at_end [] (inr later) = elim later [ ]
      at_end (y ∷ ys) (inl e) = inr (inl e)
      at_end (y ∷ ys) (inr later) = elim (at_end ys later) [
        | inl e ↦ inl e
        | inr found ↦ inr (inr found)
      ]

  link-AllAgree :
      FewHandles env
      → (st : State Megaflows) (key : Bytes) (in_port num_kflows now : ℕ) (v : Verdict)
      → pipeline_process (ind_ovs_parse_key key) ≡ some v
      → AllAgree env st
      → Below st
      → AllAgree env (link env st key in_port num_kflows v now)
  unfolding link update
  link-AllAgree few st key in_port num_kflows now v says agree below x h =
      elim (In-list_push x st.fresh st.kflows h) [
        | inl new ↦
            rw (new, ==_refl st.fresh)
              (v, says, refl, refl, counted_handles-all v.stats_handles (few _ v says))
        | inr old ↦
            rw (==_ne x st.fresh (λ e. let lt = below x old in absurd (omega arith))) (agree x old)
      ]

  pub link-Below :
      (st : State Megaflows) (key : Bytes) (in_port num_kflows now : ℕ) (v : Verdict)
      → Below st
      → Below (link env st key in_port num_kflows v now)
  unfolding link
  link-Below st key in_port num_kflows now v below x h =
      elim (In-list_push x st.fresh st.kflows h) [
        | inl new ↦ omega arith
        | inr old ↦ let lt = below x old in omega arith
      ]

  abbrev pub Keeps : State Megaflows → State Megaflows → Type 0
  Keeps st st' = AllAgree env st → Below st → AllAgree env st' × Below st'

  pub add-Keeps :
      FewHandles env
      → (st : State Megaflows) (key : Bytes) (now : ℕ)
      → Keeps st ((ind_ovs_kflow_add env st key now).1)
  add-Keeps few st key now agree below =
      add-cases env (λ r. AllAgree env (r.1) × Below (r.1)) st key now (λ o. (agree, below))
        (λ message. (agree, below))
        (λ message num_kflows v there says room. (
          link-AllAgree few (send env st message) key (env.key_in_port key) num_kflows now v says
              agree below,
          link-Below (send env st message) key (env.key_in_port key) num_kflows now v below,
        ))

  sync-Keeps :
      (st : State Megaflows) (id : ℕ) (report : Report)
      → Keeps st (kflow_sync_stats env st id report)
  sync-Keeps st id report agree below =
      let lists = kflow_sync_stats-Lists env st id report in
      (
        λ x h.
            Agrees-Same env ((kflow_sync_stats env st id report).heap x) (st.heap x)
              (kflow_sync_stats-Same env st id x report) (agree x (subst (In x) (lists.0) h)),
        λ x h. let lt = below x (subst (In x) (lists.0) h) in let same = lists.1 in omega arith,
      )

  delete-Keeps : (st : State Megaflows) (id : ℕ) → Keeps st (ind_ovs_kflow_delete env st id)
  delete-Keeps st id agree below = (
    λ x h.
        Agrees-Same env ((ind_ovs_kflow_delete env st id).heap x) (st.heap x)
          (delete-Same env st id x) (agree x (delete-In env st id x h).0),
    λ x h.
        let lt = below x (delete-In env st id x h).0 in
        let same = delete-fresh env st id in omega arith,
  )

  pub expire-Keeps :
      (st : State Megaflows) (key : Bytes) (report : Report) (cur_time : ℕ)
      → Keeps st (kflow_expire env st key report cur_time)
  unfolding kflow_expire
  expire-Keeps st key report cur_time agree below = elim (Option-cases (kflow_lookup env st key)) [
    | inl unknown_key ↦ rw (kflow_expire, unknown_key) (agree, below)
    | inr (id, found) ↦
        let synced = kflow_sync_stats env st id report in
        let kept = sync-Keeps st id report agree below in
        let idle = (cur_time + (2 ^ 64 - (synced.heap id).last_used)) % 2 ^ 64 in
        elim (Bool-cases (leb expiration_ms idle)) [
          | inl expired ↦
              rw (kflow_expire, found, expired) (delete-Keeps synced id (kept.0) (kept.1))
          | inr active ↦ rw (kflow_expire, found, active) kept
        ]
  ]
