-- ===== src/Kflow/Limit.antt =====
-- modules/OVSDriver/module/src/kflow.c: additions and expiry keep the invariant, and the limit of a port.
use ivs.Base.{
  ℕ, ◌+◌, ◌-◌, ◌%◌, ◌^◌, ◌<◌, ◌≤◌, ◌≡◌, inl, inr, sym, ap, ◌∙◌, arith, false, some, List, [], ◌∷◌,
  ◌==◌, ==_iff, Bool-cases, Option-cases, leb,
}
use mathlib.Core.Path.{subst}
use ivs.Kflow.{
  Bytes, Report, Env, State, bytes_eq, bucket_of, send, link, ind_ovs_kflow_add, kflow_sync_stats,
  kflow_lookup, lookup_in, kflow_expire, max_kflows_per_port, expiration_ms,
}
use ivs.Kflow.Member.{In}
use ivs.Kflow.Cache.{kflow_sync_stats-Same, kflow_sync_stats-Lists}
use ivs.Kflow.Account.{count}
use ivs.Kflow.Whole.{Whole, Whole-Framed, delete-Whole}
use ivs.Kflow.Link.{link-Whole}
use ivs.Kflow.Whole.{Whole, Whole-Framed, delete-Whole}
use ivs.Kflow.Link.{link-Whole, link-count}
use ivs.Kflow.Add.{add-cases}
use native.Mathlib.Nat.{mod-eq_of_lt}
use mathlib.Core.Option.{none-ne-some, some_inj}

module _ (env : Env) where
  open env use {Megaflows, ind_ovs_parse_key, pipeline_process, disable_megaflows, transact}

  pub add-Whole :
      (st : State Megaflows) (key : Bytes) (now : ℕ)
      → Whole env st
      → Whole env ((ind_ovs_kflow_add env st key now).1)
  add-Whole st key now w =
      add-cases env (λ r. Whole env (r.1)) st key now (λ o. w) (λ message. w)
        (λ message num_kflows v there says room.
          link-Whole env (send env st message) key (env.key_in_port key) num_kflows now v there w)

  lookup-In :
      (st : State Megaflows) (key : Bytes) (id : ℕ)
      → Whole env st
      → kflow_lookup env st key ≡ some id
      → In id st.kflows
  unfolding kflow_lookup lookup_in
  lookup-In st key id w found =
      (w.3 (bucket_of env key) id (in_bucket (st.buckets (bucket_of env key)) found)).0
    where
      in_bucket : (l : List ℕ) → lookup_in env st.heap key l ≡ some id → In id l
      in_bucket [] h = absurd (none-ne-some id h)
      in_bucket (x ∷ xs) h = elim (Bool-cases (bytes_eq (st.heap x).key key)) [
        | inl hit ↦ inl (some_inj.0 (sym (rw hit at h)))
        | inr miss ↦ inr (in_bucket xs (rw miss at h))
      ]

  pub expire-Whole :
      (st : State Megaflows) (key : Bytes) (report : Report) (cur_time : ℕ)
      → Whole env st
      → Whole env (kflow_expire env st key report cur_time)
  unfolding kflow_expire
  expire-Whole st key report cur_time w = elim (Option-cases (kflow_lookup env st key)) [
    | inl unknown_key ↦ rw (kflow_expire, unknown_key) w
    | inr (id, found) ↦
        let synced = kflow_sync_stats env st id report in
        let lists = kflow_sync_stats-Lists env st id report in
        let kept =
          Whole-Framed env st synced
            (λ x. let s = kflow_sync_stats-Same env st id x report in (s.0, s.1), lists) w in
        let idle = (cur_time + (2 ^ 64 - (synced.heap id).last_used)) % 2 ^ 64 in
        elim (Bool-cases (leb expiration_ms idle)) [
          | inl expired ↦
              rw (kflow_expire, found, expired)
                (delete-Whole env synced id
                  (subst (In id) (sym (lists.0)) (lookup-In st key id w found)) kept)
          | inr active ↦ rw (kflow_expire, found, active) kept
        ]
  ]

  -- No port has more kflows than it may.
  abbrev pub Limited : State Megaflows → Type 0
  Limited st = (port : ℕ) → port < 2 ^ 16 → count st.heap port st.kflows ≤ max_kflows_per_port

  -- Outside of the benchmark mode, where the lists and the port counters are in order and no port
  -- has more than 16384 kflows, ind_ovs_kflow_add leaves no port with more than 16384.
  pub add-Limited :
      (st : State Megaflows) (key : Bytes) (now : ℕ)
      → env.benchmark_mode ≡ false
      → Whole env st
      → Limited st
      → Limited ((ind_ovs_kflow_add env st key now).1)
  unfolding link
  add-Limited st key now measured w limited =
      add-cases env (λ r. Limited (r.1)) st key now (λ o. limited) (λ message. limited)
        (λ message num_kflows v there says room port range.
          let before = limited port range in
          let more =
            link-count env (send env st message) key (env.key_in_port key) num_kflows now v port
              (w.1) in
          let short : env.key_in_port key % 2 ^ 16 ≡ env.key_in_port key =
            mod-eq_of_lt (w.4 (env.key_in_port key) num_kflows there) in
          let had = w.2 (env.key_in_port key) num_kflows there in
          let below : leb max_kflows_per_port num_kflows ≡ false = rw measured at room in
          -- The counter is exact below the limit.
          elim (Bool-cases (env.key_in_port key % 2 ^ 16 == port)) [
            | inr other ↦ omega (arith, rw other at more)
            | inl own ↦
                let e : env.key_in_port key ≡ port = sym short ∙ (==_iff _ port).0 own in
                let had' : num_kflows ≡ count st.heap port st.kflows % 2 ^ 32 =
                  had ∙ ap (λ (p : ℕ). count st.heap p st.kflows % 2 ^ 32) e in
                let room' : num_kflows < max_kflows_per_port = ground arith in
                omega (arith, rw own at more)
          ])
