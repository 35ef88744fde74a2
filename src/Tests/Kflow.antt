-- ===== src/Tests/Kflow.antt =====
-- The cache of kernel flows at concrete inputs. A parsed key is the key; the pipeline forwards a packet
-- from port 1 with one action and one stats slot; the kernel takes every request.
use mathlib.Core.Path.{subst}
use ivs.Base.{
  ℕ, ◌≡◌, refl, sym, arith, true, false, List, [], ◌∷◌, none, some, ◌==◌, ==_iff, if◌then◌else◌,
  Bool-cases, inl, inr, get_or, length, ◌<◌, ◌^◌, Bool, Option,
}
use mathlib.Core.Option.{some_inj, none-ne-some}
use ivs.Stats.{Stats, zero_stats}
use ivs.Kflow.{
  Words, Kflow, Verdict, Report, resource, Env, State, ind_ovs_kflow_add,
  ind_ovs_kflow_invalidate_all, kflow_expire, kflow_sync_stats,
}
use ivs.Kflow.Add.{add-error}
use ivs.Kflow.Coherent.{FewHandles, AllAgree, invalidate_all-AllAgree}
use ivs.Kflow.Account.{count}
use ivs.Kflow.Whole.{Whole}
use ivs.Kflow.Steps.{invalidate_all-Whole}
use ivs.Kflow.Limit.{Limited, add-Limited}
use ivs.Kflow.Sound.{Sound, add-Sound, expire-Sound}
use ivs.Kflow.Counted.{report, packets_due, bytes_due, kflow_sync_stats-Counted}

abbrev forwards : Verdict
forwards = record { mask = 255 ∷ 0 ∷ []; stats_handles = 6 ∷ []; actions = 1 ∷ 2 ∷ [] }

abbrev env : Env
env = record {
  Megaflows = List Words;
  tcam_match = λ flows key. false;
  tcam_insert = λ flows id key mask. key ∷ flows;
  tcam_remove = λ flows id key mask. flows;
  ind_ovs_parse_key = λ key. key;
  pipeline_process = λ key. if get_or key 0 0 == 1 then some forwards else none;
  key_in_port = λ key. get_or key 0 0;
  key_hash = λ key. get_or key 1 0;
  transact = λ sent message. true;
  transact_reply = λ sent message. none;
  list_push_front = true;
  stats_writer = 4;
  hitless = false;
  benchmark_mode = false;
  disable_megaflows = false;
}

abbrev counters : ivs.Stats.State
counters = record {
  free_stack = λ i. 0;
  num_free = 0;
  stats_writers = record { id = 4; stats = λ slot. zero_stats } ∷ [];
}

abbrev cached : Kflow
cached = record {
  key = 1 ∷ 9 ∷ [];
  in_port = 1;
  stats = record { packets = 10; bytes = 700 };
  last_used = 50;
  mask = 255 ∷ 0 ∷ [];
  actions = 1 ∷ [];
  stats_handles = 6 ∷ 6 ∷ [];
}

-- No kflow yet; port 1 has none, port 2 claims to be full.
abbrev empty : State (List Words)
empty = record {
  heap = λ id. cached;
  fresh = 0;
  kflows = [];
  buckets = λ bucket. [];
  megaflow_tcam = [];
  ports = λ port. if port == 1 then some 0 else none;
  counters = counters;
  sent = [];
}

one_port : (port n : ℕ) → empty.ports port ≡ some n → (port ≡ 1) × (n ≡ 0)
one_port port n h = elim (Bool-cases (port == 1)) [
  | inl same ↦ ((==_iff port 1).0 same, some_inj.0 (sym (rw same at h)))
  | inr other ↦ absurd (none-ne-some n (rw other at h))
]

empty-Whole : Whole env empty
unfolding count
empty-Whole = (
  tt,
  λ x h. elim h [ ],
  λ port n h. (one_port port n h).1,
  λ bucket x h. elim h [ ],
  λ port n h. let p = (one_port port n h).0 in omega arith,
)

empty-Sound : Sound env empty
empty-Sound = (empty-Whole, λ x h. elim h [ ])

empty-Limited : Limited env empty
unfolding count
empty-Limited port h = omega arith

says-FewHandles :
    (o : Bool) (v : Verdict)
    → (if o then some forwards else none) ≡ some v
    → length v.stats_handles < 2 ^ 16
says-FewHandles true v e = subst Few e (omega arith)
  where
    Few : Option Verdict → Type 0
    Few none = Unit
    Few (some w) = length w.stats_handles < 2 ^ 16
says-FewHandles false v e = absurd (ground arith)

env-FewHandles : FewHandles env
env-FewHandles key v e = says-FewHandles (get_or key 0 0 == 1) v e

add-Sound_example : Sound env ((ind_ovs_kflow_add env empty (1 ∷ 9 ∷ []) 5).1)
add-Sound_example = add-Sound env env-FewHandles empty (1 ∷ 9 ∷ []) 5 empty-Sound

add-Limited_example : Limited env ((ind_ovs_kflow_add env empty (1 ∷ 9 ∷ []) 5).1)
add-Limited_example = add-Limited env empty (1 ∷ 9 ∷ []) 5 refl empty-Whole empty-Limited

one-Sound : Sound env ((ind_ovs_kflow_add env empty (1 ∷ 9 ∷ []) 5).1)
one-Sound = add-Sound env env-FewHandles empty (1 ∷ 9 ∷ []) 5 empty-Sound

abbrev used_at_3000 : Report
used_at_3000 = record { stats = some (record { packets = 3; bytes = 180 }); used = some 3000 }

expire-Sound_example : Sound env (
    kflow_expire env
      ((ind_ovs_kflow_add env empty (1 ∷ 9 ∷ []) 5).1)
      (1 ∷ 9 ∷ [])
      used_at_3000
      9000)
expire-Sound_example =
    expire-Sound env ((ind_ovs_kflow_add env empty (1 ∷ 9 ∷ []) 5).1) (1 ∷ 9 ∷ []) used_at_3000 9000
      one-Sound

invalidate_all-Whole_example :
    Whole env (ind_ovs_kflow_invalidate_all env ((ind_ovs_kflow_add env empty (1 ∷ 9 ∷ []) 5).1))
invalidate_all-Whole_example =
    invalidate_all-Whole env ((ind_ovs_kflow_add env empty (1 ∷ 9 ∷ []) 5).1) (one-Sound.0)

-- One kflow, whose actions are out of date.
abbrev stale : State (List Words)
stale = record empty { fresh = 1; kflows = 0 ∷ [] }

invalidate_all-AllAgree_example : AllAgree env (ind_ovs_kflow_invalidate_all env stale)
invalidate_all-AllAgree_example = invalidate_all-AllAgree env env-FewHandles stale refl

abbrev counted : Stats
counted = record { packets = 12; bytes = 900 }

kflow_sync_stats-Counted_example :
    (((kflow_sync_stats env stale 0 (report counted none)).heap 0).stats ≡ counted)
    × (packets_due env (kflow_sync_stats env stale 0 (report counted none)) 0 6
        ≡ packets_due env stale 0 6)
    × (bytes_due env (kflow_sync_stats env stale 0 (report counted none)) 0 6
        ≡ bytes_due env stale 0 6)
kflow_sync_stats-Counted_example =
    kflow_sync_stats-Counted env stale 0 6 counted none refl (omega arith, omega arith)
      (omega arith, omega arith)

-- A port at its limit.
abbrev crowded : State (List Words)
crowded = record empty { ports = λ port. some 16384 }

add-error_example :
    (ind_ovs_kflow_add env crowded (1 ∷ 9 ∷ []) 5).1
    ≡ record crowded { sent = (ind_ovs_kflow_add env crowded (1 ∷ 9 ∷ []) 5).1.sent }
unfolding ind_ovs_kflow_add
add-error_example = add-error env crowded (1 ∷ 9 ∷ []) 5 resource refl
