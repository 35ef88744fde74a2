-- ===== src/Kflow/Add.antt =====
-- modules/OVSDriver/module/src/kflow.c: the branches of `ind_ovs_kflow_add`.
use ivs.Base.{
  ℕ, ◌≡◌, inl, inr, refl, false, Option, none, some, Bool-cases, Option-cases, if◌then◌else◌, not,
  ◌&&◌, leb,
}
use ivs.Kflow.{
  Bytes, Message, Error, resource, unknown, pipeline_failed, Verdict, Env, State, flow_new, send,
  link, add_checked, ind_ovs_kflow_add, max_kflows_per_port,
}
use mathlib.Core.Option.{none-ne-some}

module _ (env : Env) where
  open env use {Megaflows, ind_ovs_parse_key, pipeline_process, disable_megaflows, transact}

  -- The branches of ind_ovs_kflow_add: nothing but the trace changes, or a kflow is linked below the limit.
  pub add-cases :
      (P : Option Error × State Megaflows → Type 0) (st : State Megaflows) (key : Bytes) (now : ℕ)
      → ((e : Option Error) → P (e, st))
      → ((message : Message) → P (some unknown, send env st message))
      → ((message : Message) (num_kflows : ℕ) (v : Verdict)
          → st.ports (env.key_in_port key) ≡ some num_kflows
          → pipeline_process (ind_ovs_parse_key key) ≡ some v
          → (not env.benchmark_mode && leb max_kflows_per_port num_kflows) ≡ false
          → P (none, link env (send env st message) key (env.key_in_port key) num_kflows v now))
      → P (ind_ovs_kflow_add env st key now)
  unfolding ind_ovs_kflow_add add_checked
  add-cases P st key now same asked linked =
      let in_port = env.key_in_port key in
      elim (Bool-cases env.hitless) [
        | inl quiet ↦ rw (ind_ovs_kflow_add, quiet) (same none)
        | inr live ↦ elim (Option-cases (st.ports in_port)) [
          | inl gone ↦ rw (ind_ovs_kflow_add, live, gone) (same none)
          | inr (num_kflows, there) ↦
              let limited = not env.benchmark_mode && leb max_kflows_per_port num_kflows in
              elim (Bool-cases limited) [
                | inl full ↦ rw (ind_ovs_kflow_add, live, there, full) (same (some resource))
                | inr room ↦
                    let seen = env.tcam_match st.megaflow_tcam (ind_ovs_parse_key key) in
                    elim (Bool-cases seen) [
                      | inl hit ↦ rw (ind_ovs_kflow_add, live, there, room, hit) (same none)
                      | inr miss ↦
                          rw (ind_ovs_kflow_add, live, there, room, miss)
                            (checked in_port num_kflows there
                              (λ message v says. linked message num_kflows v there says room))
                    ]
              ]
        ]
      ]
    where
      checked :
          (in_port num_kflows : ℕ)
          → st.ports in_port ≡ some num_kflows
          → ((message : Message) (v : Verdict)
              → pipeline_process (ind_ovs_parse_key key) ≡ some v
              → P (none, link env (send env st message) key in_port num_kflows v now))
          → P (add_checked env st key in_port num_kflows now)
      checked in_port num_kflows there put =
          elim (Option-cases (pipeline_process (ind_ovs_parse_key key))) [
            | inl fails ↦ rw (add_checked, fails) (same (some pipeline_failed))
            | inr (v, says) ↦
                let message =
                  flow_new key v.actions (if disable_megaflows then none else some v.mask) in
                elim (Bool-cases (transact st.sent message)) [
                  | inl taken ↦ rw (add_checked, says, taken) (put message v says)
                  | inr refused ↦ rw (add_checked, says, refused) (asked message)
                ]
          ]

  -- Where ind_ovs_kflow_add returns an error - the limit of the port, a failure of the pipeline, a
  -- refusal of the kernel - nothing but the messages sent has changed.
  pub add-error :
      (st : State Megaflows) (key : Bytes) (now : ℕ) (e : Error)
      → (ind_ovs_kflow_add env st key now).0 ≡ some e
      → (ind_ovs_kflow_add env st key now).1
        ≡ record st { sent = (ind_ovs_kflow_add env st key now).1.sent }
  add-error st key now e =
      add-cases (λ r. r.0 ≡ some e → r.1 ≡ record st { sent = r.1.sent }) st key now (λ o h. refl)
        (λ message h. refl) (λ message num_kflows v there says room h. absurd (none-ne-some e h))
