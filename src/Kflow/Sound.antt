-- ===== src/Kflow/Sound.antt =====
-- modules/OVSDriver/module/src/kflow.c: the cache is sound, in its lists and in what it holds.
use ivs.Base.{ℕ}
use ivs.Kflow.{Bytes, Report, Env, State, ind_ovs_kflow_add, kflow_expire}
use ivs.Kflow.Coherent.{AllAgree, FewHandles}
use ivs.Kflow.Keeps.{add-Keeps, expire-Keeps}
use ivs.Kflow.Whole.{Whole}
use ivs.Kflow.Limit.{add-Whole, expire-Whole}

module _ (env : Env) where
  open env use {Megaflows}

  -- The lists, buckets and port counters are in order, and every kflow is what the pipeline says.
  abbrev pub Sound : State Megaflows → Type 0
  Sound st = Whole env st × AllAgree env st

  -- Where the pipeline gives at most 65535 stats handles for any key, ind_ovs_kflow_add keeps, on
  -- every branch, that the list has each kflow once, that buckets have only listed kflows, in the
  -- bucket of their keys, that the counter of every port is the number of its kflows up to the
  -- wrap-around, and that every cached kflow is what the pipeline says of its key.
  pub add-Sound :
      FewHandles env
      → (st : State Megaflows) (key : Bytes) (now : ℕ) → Sound st
      → Sound ((ind_ovs_kflow_add env st key now).1)
  add-Sound few st key now s =
      (add-Whole env st key now (s.0), (add-Keeps env few st key now (s.1) (s.0.1)).0)

  -- The handling of one flow of the expiry dump keeps that the lists, the buckets and the port
  -- counters are in order and that every cached kflow is what the pipeline says of its key,
  -- whether the flow expires, stays, or is not in the cache.
  pub expire-Sound :
      (st : State Megaflows) (key : Bytes) (report : Report) (cur_time : ℕ)
      → Sound st
      → Sound (kflow_expire env st key report cur_time)
  expire-Sound st key report cur_time s = (
    expire-Whole env st key report cur_time (s.0),
    (expire-Keeps env st key report cur_time (s.1) (s.0.1)).0,
  )
