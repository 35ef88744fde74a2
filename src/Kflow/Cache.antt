-- ===== src/Kflow/Cache.antt =====
-- modules/OVSDriver/module/src/kflow.c: a cached kflow is what the pipeline says of its key.
use native.Mathlib.Nat.{mod-eq_of_lt}
use ivs.Base.{
  ℕ, ◌≡◌, ◌≢◌, inl, inr, refl, sym, ap, ◌∙◌, arith, Option, none, some, List, ==_ne, ==_refl,
  Bool-cases, Option-cases, length, ◌<◌, ◌^◌, take-length,
}
use ivs.Stats.{Stats, update}
use ivs.Kflow.{
  Kflow, Report, Env, State, bytes_eq, list_remove, flow_get, refresh_handles, release_port, unlink,
  ind_ovs_kflow_delete, sync_counters, sync_used, kflow_sync_stats, ind_ovs_kflow_sync_stats,
  counted_handles,
}
use ivs.Kflow.Member.{bytes_eq_sound}

-- Two states of a kflow that differ in the statistics alone.
abbrev pub Same : Kflow → Kflow → Type 0
Same k l =
    (k.key ≡ l.key)
    × (k.in_port ≡ l.in_port)
    × (k.mask ≡ l.mask)
    × (k.actions ≡ l.actions)
    × (k.stats_handles ≡ l.stats_handles)

pub counted_handles-all :
    (handles : List ℕ) → length handles < 2 ^ 16 → counted_handles handles ≡ handles
counted_handles-all handles few = rw (mod-eq_of_lt few) (take-length handles)

module _ (env : Env) where
  open env use {Megaflows}

  sync_counters-Same :
      (st : State Megaflows) (id x : ℕ) (stats : Option Stats)
      → Same ((sync_counters env st id stats).heap x) (st.heap x)
  unfolding sync_counters update
  sync_counters-Same st id x none = (refl, refl, refl, refl, refl)
  sync_counters-Same st id x (some s) = ground arith

  sync_used-Same :
      (st : State Megaflows) (id x : ℕ) (used : Option ℕ)
      → Same ((sync_used env st id used).heap x) (st.heap x)
  unfolding sync_used update
  sync_used-Same st id x none = (refl, refl, refl, refl, refl)
  sync_used-Same st id x (some used) = ground arith

  pub kflow_sync_stats-Same :
      (st : State Megaflows) (id x : ℕ) (report : Report)
      → Same ((kflow_sync_stats env st id report).heap x) (st.heap x)
  unfolding kflow_sync_stats
  kflow_sync_stats-Same st id x report =
      let first = sync_counters-Same st id x report.stats in
      let next = sync_used-Same (sync_counters env st id report.stats) id x report.used in
      ground arith

  pub sync-Same :
      (st : State Megaflows) (id x : ℕ)
      → Same ((ind_ovs_kflow_sync_stats env st id).heap x) (st.heap x)
  unfolding ind_ovs_kflow_sync_stats
  sync-Same st id x = elim (Option-cases (env.transact_reply st.sent (flow_get (st.heap id).key))) [
    | inl none_given ↦ rw (ind_ovs_kflow_sync_stats, none_given) (refl, refl, refl, refl, refl)
    | inr (report, given) ↦
        rw (ind_ovs_kflow_sync_stats, given) (kflow_sync_stats-Same _ id x report)
  ]

  pub release_port-heap :
      (st : State Megaflows) (port : ℕ)
      → ((release_port env st port).heap ≡ st.heap)
        × ((release_port env st port).kflows ≡ st.kflows)
        × ((release_port env st port).fresh ≡ st.fresh)
        × ((release_port env st port).buckets ≡ st.buckets)
  unfolding release_port
  release_port-heap st port = ground arith

  pub delete-Same :
      (st : State Megaflows) (id x : ℕ) → Same ((ind_ovs_kflow_delete env st id).heap x) (st.heap x)
  unfolding ind_ovs_kflow_delete unlink
  delete-Same st id x =
      let released = release_port env st (st.heap id).in_port in
      let same = sync-Same released id x in rw (release_port-heap st (st.heap id).in_port).0 at same

  -- The lists, which a synchronisation does not touch.
  abbrev pub Lists : State Megaflows → State Megaflows → Type 0
  Lists st st' =
      (st'.kflows ≡ st.kflows)
      × (st'.fresh ≡ st.fresh)
      × (st'.ports ≡ st.ports)
      × (st'.buckets ≡ st.buckets)

  sync_counters-Lists :
      (st : State Megaflows) (id : ℕ) (stats : Option Stats)
      → Lists st (sync_counters env st id stats)
  unfolding sync_counters
  sync_counters-Lists st id none = (refl, refl, refl, refl)
  sync_counters-Lists st id (some s) = ground arith

  sync_used-Lists :
      (st : State Megaflows) (id : ℕ) (used : Option ℕ) → Lists st (sync_used env st id used)
  unfolding sync_used
  sync_used-Lists st id none = (refl, refl, refl, refl)
  sync_used-Lists st id (some used) = ground arith

  pub kflow_sync_stats-Lists :
      (st : State Megaflows) (id : ℕ) (report : Report)
      → Lists st (kflow_sync_stats env st id report)
  unfolding kflow_sync_stats
  kflow_sync_stats-Lists st id report =
      let first = sync_counters-Lists st id report.stats in
      let next = sync_used-Lists (sync_counters env st id report.stats) id report.used in
      (next.0 ∙ first.0, next.1 ∙ first.1, next.2 ∙ first.2, next.3 ∙ first.3)

  pub sync-Lists : (st : State Megaflows) (id : ℕ) → Lists st (ind_ovs_kflow_sync_stats env st id)
  unfolding ind_ovs_kflow_sync_stats
  sync-Lists st id = elim (Option-cases (env.transact_reply st.sent (flow_get (st.heap id).key))) [
    | inl none_given ↦ rw (ind_ovs_kflow_sync_stats, none_given) (refl, refl, refl, refl)
    | inr (report, given) ↦
        rw (ind_ovs_kflow_sync_stats, given) (kflow_sync_stats-Lists _ id report)
  ]

  pub delete-kflows :
      (st : State Megaflows) (id : ℕ)
      → (ind_ovs_kflow_delete env st id).kflows ≡ list_remove id st.kflows
  unfolding ind_ovs_kflow_delete unlink
  delete-kflows st id =
      let released = release_port env st (st.heap id).in_port in
      ap (list_remove id)
        ((sync-Lists released id).0 ∙ (release_port-heap st (st.heap id).in_port).1)

  pub delete-fresh :
      (st : State Megaflows) (id : ℕ) → (ind_ovs_kflow_delete env st id).fresh ≡ st.fresh
  unfolding ind_ovs_kflow_delete unlink
  delete-fresh st id =
      let released = release_port env st (st.heap id).in_port in
      (sync-Lists released id).1 ∙ (release_port-heap st (st.heap id).in_port).2

  pub refresh_handles-id :
      (st : State Megaflows) (id : ℕ) (handles : List ℕ)
      → length handles < 2 ^ 16
      → Same
          ((refresh_handles env st id handles).heap id)
          (record (st.heap id) { stats_handles = handles })
  unfolding refresh_handles update
  refresh_handles-id st id handles few =
      elim (Bool-cases (bytes_eq handles (st.heap id).stats_handles)) [
        | inl same ↦
            rw (refresh_handles, same) (refl, refl, refl, refl, sym (bytes_eq_sound handles _ same))
        | inr other ↦
            let kept = sync-Same st id id in
            rw (refresh_handles, other, ==_refl id)
              (kept.0, kept.1, kept.2, kept.3, counted_handles-all handles few)
      ]

  pub refresh_handles-other :
      (st : State Megaflows) (id x : ℕ) (handles : List ℕ)
      → x ≢ id
      → Same ((refresh_handles env st id handles).heap x) (st.heap x)
  unfolding refresh_handles update
  refresh_handles-other st id x handles ne =
      elim (Bool-cases (bytes_eq handles (st.heap id).stats_handles)) [
        | inl same ↦ rw (refresh_handles, same) (refl, refl, refl, refl, refl)
        | inr other ↦ rw (refresh_handles, other, ==_ne x id ne) (sync-Same st id x)
      ]

  pub refresh_handles-kflows :
      (st : State Megaflows) (id : ℕ) (handles : List ℕ)
      → (refresh_handles env st id handles).kflows ≡ st.kflows
  unfolding refresh_handles
  refresh_handles-kflows st id handles =
      elim (Bool-cases (bytes_eq handles (st.heap id).stats_handles)) [
        | inl same ↦ rw (refresh_handles, same) refl
        | inr other ↦ rw (refresh_handles, other) (sync-Lists st id).0
      ]
