-- ===== src/Kflow/Whole.antt =====
-- modules/OVSDriver/module/src/kflow.c: the invariant of the lists, the buckets and the counters of the
-- ports, kept by every operation.
use ivs.Base.{
  ℕ, ◌%◌, ◌^◌, ◌<◌, ◌≡◌, ◌≢◌, inl, inr, sym, ap, ◌∙◌, false, some, ◌==◌, ==_refl, ==_iff,
  Bool-cases,
}
use mathlib.Core.Path.{subst}
use mathlib.Core.Bool.{true≢false}
use ivs.Stats.{update}
use ivs.Kflow.{
  Env, State, bucket_of, release_port, unlink, ind_ovs_kflow_delete, flow_del, send,
  ind_ovs_kflow_sync_stats,
}
use ivs.Kflow.Member.{In, In-list_remove, list_remove-In}
use ivs.Kflow.Cache.{Lists, sync-Same, sync-Lists, delete-kflows, delete-fresh, release_port-heap}
use ivs.Kflow.Coherent.{delete-In}
use ivs.Kflow.Keeps.{Below}
use ivs.Kflow.Account.{
  count, count-heap, Distinct, Distinct-list_remove, Accounted, Bucketed, delete-Accounted,
  release_port-ports,
}

module _ (env : Env) where
  open env use {Megaflows, ind_ovs_parse_key, pipeline_process, disable_megaflows, transact}

  -- Every port has a number that the key's 16 bits hold.
  abbrev pub Ranged : State Megaflows → Type 0
  Ranged st = (port n : ℕ) → st.ports port ≡ some n → port < 2 ^ 16

  abbrev pub Whole : State Megaflows → Type 0
  Whole st = Distinct st.kflows × Below env st × Accounted env st × Bucketed env st × Ranged st

  -- A change of a kflow that leaves its key, its port and its place.
  abbrev pub Framed : State Megaflows → State Megaflows → Type 0
  Framed st st' =
      ((x : ℕ)
        → ((st'.heap x).key ≡ (st.heap x).key) × ((st'.heap x).in_port ≡ (st.heap x).in_port))
      × Lists env st st'

  Bucketed-moved :
      (st st' : State Megaflows)
      → ((x : ℕ) → (st'.heap x).key ≡ (st.heap x).key)
      → st'.kflows ≡ st.kflows
      → st'.buckets ≡ st.buckets
      → Bucketed env st
      → Bucketed env st'
  Bucketed-moved st st' keys kflows buckets bucketed b x h =
      let old = bucketed b x (subst (In x) (ap (λ g. g b) buckets) h) in
      (subst (In x) (sym kflows) (old.0), old.1 ∙ ap (bucket_of env) (sym (keys x)))

  unlink-Bucketed :
      (st : State Megaflows) (id : ℕ) → Bucketed env st → Bucketed env (unlink env st id)
  unfolding unlink update
  unlink-Bucketed st id bucketed b x h =
      let own = bucket_of env (st.heap id).key in
      elim (Bool-cases (b == own)) [
        | inl same ↦
            let e : b ≡ own = (==_iff b own).0 same in
            let there = In-list_remove x id (st.buckets own) (rw same at h) in
            let old = bucketed own x (there.0) in
            (list_remove-In x id st.kflows (old.0) (there.1), e ∙ old.1)
        | inr other ↦
            let old = bucketed b x (rw other at h) in
            let ne : x ≢ id = λ e. true≢false (
              sym (==_refl own)
              ∙ subst (λ c. (c == own) ≡ false) (old.1 ∙ ap (λ i. bucket_of env (st.heap i).key) e)
                  other) in
            (list_remove-In x id st.kflows (old.0) ne, old.1)
      ]

  pub Whole-Framed : (st st' : State Megaflows) → Framed st st' → Whole st → Whole st'
  Whole-Framed st st' f w =
      let kflows = f.1.0 in
      let fresh = f.1.1 in
      let ports = f.1.2 in
      let buckets = f.1.3 in
      (
        subst Distinct (sym kflows) (w.0),
        λ x h. subst (λ n. x < n) (sym fresh) (w.1 x (subst (In x) kflows h)),
        λ port n h.
            w.2 port n (ap (λ g. g port) (sym ports) ∙ h)
            ∙ ap (λ (c : ℕ). c % 2 ^ 32)
                (sym (count-heap st.heap st'.heap port st.kflows (λ x there. (f.0 x).1))
                  ∙ ap (count st'.heap port) (sym kflows)),
        Bucketed-moved st st' (λ x. (f.0 x).0) kflows buckets (w.3),
        λ port n h. w.4 port n (ap (λ g. g port) (sym ports) ∙ h),
      )

  pub delete-Whole :
      (st : State Megaflows) (id : ℕ)
      → In id st.kflows
      → Whole st
      → Whole (ind_ovs_kflow_delete env st id)
  unfolding ind_ovs_kflow_delete unlink update
  delete-Whole st id member w =
      let deleted = ind_ovs_kflow_delete env st id in
      let released = release_port env st (st.heap id).in_port in
      let synced = ind_ovs_kflow_sync_stats env released id in
      let unchanged = release_port-heap env st (st.heap id).in_port in
      let lists = sync-Lists env released id in
      let kflows = delete-kflows env st id in
      (
        subst Distinct (sym kflows) (Distinct-list_remove id st.kflows (w.0)),
        λ x h.
            subst (λ n. x < n) (sym (delete-fresh env st id)) (w.1 x (delete-In env st id x h).0),
        delete-Accounted env st id (w.0) member (w.2),
        unlink-Bucketed (send env synced (flow_del (st.heap id).key)) id (
            Bucketed-moved st synced
              (λ x. (sync-Same env released id x).0 ∙ ap (λ heap. (heap x).key) (unchanged.0))
              (lists.0 ∙ unchanged.1) (lists.3 ∙ unchanged.3) (w.3)),
        λ port n h.
            let before =
              release_port-ports env st (st.heap id).in_port port n
                (ap (λ f. f port) (sym (lists.2)) ∙ h) in
            w.4 port (before.0) (before.1),
      )
