-- ===== src/PipelineStandard/Ends.antt =====
-- The turns of the loop of `pipeline_standard_process` (modules/pipeline_standard/module/src/
-- pipeline_standard.c).
use ivs.Base.{
  ◌>>=◌, ℕ, zero, suc, ◌≡◌, ◌<◌, ◌≤◌, ◌+◌, refl, sym, false, Bool, Option, none, some, List, inl,
  inr, Returns, arith, ◌==◌,
}
use mathlib.Core.Path.{subst}
use ivs.Action.{Bytes, Key}
use ivs.PipelineStandard.{Group, Translation}
use ivs.PipelineStandard.OpenFlow.{RefEvent, num_tables}
use ivs.PipelineStandard.Value.{FlowMod, Value, Parsed, parsed, parse_value}
use ivs.PipelineStandard.Goto.{GoesOn, ParsedGoesOn, message_table, parse_value-GoesOn}
use ivs.PipelineStandard.Cfr.{Cfr}
use ivs.PipelineStandard.Process.{
  FlowEntry, Flowtable, Walk, process_hit, process_tables, pipeline_standard_process, start, finish,
}

then-Returns :
    (o : Option Walk) (f : Walk → Translation)
    → Returns {0, 0} o (λ out. Unit)
    → Returns {0, 0} (o >>= λ walk. some (f walk)) (λ out. Unit)
then-Returns o f r = rw (r.1) (f (r.0), refl, tt)

module _ (acquire : ℕ → Option Group) (reason_no_match reason_action : ℕ) where
  -- The value was made by `parse_value` of a message for the table.
  abbrev pub IsInstalled : ℕ → Value → Type 0
  IsInstalled table_id value =
      (miss : Bool) × (message : FlowMod) × (before : List RefEvent) × (after : List RefEvent)
      × (message_table message ≡ table_id)
      × (parse_value acquire reason_no_match reason_action miss message before ≡ parsed value after)

  abbrev pub HoldsInstalled : ℕ → Flowtable → Type 0
  HoldsInstalled table_id flowtable =
      (cfr cfr_mask : Cfr) (entry : FlowEntry)
      → (flowtable.tcam_match_and_mask cfr cfr_mask).0 ≡ some entry
      → IsInstalled table_id entry.value

  -- Each of the 16 tables exists, and its tcam gives only entries installed in it.
  abbrev pub AllInstalled : (ℕ → Option Flowtable) → Type 0
  AllInstalled flowtables =
      (table_id : ℕ)
      → table_id < num_tables
      → Returns (flowtables table_id) (HoldsInstalled table_id)

  at_parsed :
      (table_id : ℕ) (out : Parsed) (value : Value) (after : List RefEvent)
      → out ≡ parsed value after
      → ParsedGoesOn table_id out
      → GoesOn table_id value
  at_parsed table_id out value after e on = subst (ParsedGoesOn table_id) e on

  installed-GoesOn :
      (table_id : ℕ) (value : Value) → IsInstalled table_id value → GoesOn table_id value
  installed-GoesOn table_id value (miss, message, before, after, at, made) =
      let on : ParsedGoesOn table_id
          (parse_value acquire reason_no_match reason_action miss message before) =
        rw (sym at)
          (parse_value-GoesOn acquire reason_no_match reason_action miss message before) in
      at_parsed table_id _ value after made on

  module _ (netlink_port : ℕ) (before_1_3 : Bool) (miss_userdata : ℕ)
      (flowtables : ℕ → Option Flowtable) (hash : ℕ) (installed : AllInstalled flowtables) where
    abbrev Goes : Option Walk → Type 0
    Goes o = Returns o (λ out. Unit)

    abbrev Ends : ℕ → ℕ → Walk → Type 0
    Ends fuel table_id walk =
        Goes
          (process_tables netlink_port before_1_3 miss_userdata flowtables hash fuel table_id walk)

    ended : (fuel table_id : ℕ) (walk : Walk) → 1 ≤ fuel → table_id ≡ 255 → Ends fuel table_id walk
    unfolding process_tables
    ended zero table_id walk h e = absurd (omega (arith, h))
    ended (suc fuel) table_id walk h e = rw e (walk, refl, tt)

    found-Returns :
        (o : Option FlowEntry) (missed : Walk) (hit : FlowEntry → Option Walk)
        → ((entry : FlowEntry) → o ≡ some entry → Goes (hit entry))
        → let out : Option Walk = elim o [ none ↦ some missed | some entry ↦ hit entry ] in Goes out
    found-Returns none missed hit v = (missed, refl, tt)
    found-Returns (some entry) missed hit v = v entry refl

    process_tables-Returns :
        (fuel table_id : ℕ) (walk : Walk)
        → table_id < num_tables
        → num_tables + 1 ≤ fuel + table_id
        → Ends fuel table_id walk
    unfolding process_tables
    process_tables-Returns zero table_id walk below enough = absurd (omega (arith, below, enough))
    process_tables-Returns (suc fuel) table_id walk below enough =
        let (flowtable, at, holds) = installed table_id below in
        let inside : (table_id == 255) ≡ false = ground (arith, below) in
        let found = flowtable.tcam_match_and_mask walk.cfr walk.cfr_mask in
        let onward : FlowEntry → Walk = λ entry.
          process_hit netlink_port before_1_3 miss_userdata flowtables hash flowtable entry
            (found.1) walk in
        rw (process_tables, inside, at)
          ((found-Returns (found.0) _ _ (λ entry e.
            elim (installed-GoesOn table_id entry.value (holds walk.cfr walk.cfr_mask entry e)) [
              | inl last ↦
                  ended fuel entry.value.next_table_id (onward entry) (omega (arith, below, enough))
                    last
              | inr (later, exists) ↦
                  process_tables-Returns fuel entry.value.next_table_id (onward entry) exists
                    (omega (arith, later, enough))
            ])))

  -- Where the 16 tables exist and the tcam of each gives only entries whose values parse_value
  -- made of messages for that table, pipeline_standard_process returns on every packet: its loop
  -- ends within 17 turns, and the assertion that the next table exists never fails.
  pub pipeline_standard_process-Returns :
      (murmur_hash : Bytes → ℕ) (of_port_dest_local of_dl_type_not_eth_type : ℕ) (netlink_port : ℕ)
      (before_1_3 : Bool) (miss_userdata : ℕ) (flowtables : ℕ → Option Flowtable)
      → AllInstalled flowtables
      → (key : Key) (w : Translation)
      → Returns {0, 0}
          (pipeline_standard_process murmur_hash of_port_dest_local of_dl_type_not_eth_type
            netlink_port before_1_3 miss_userdata flowtables key w)
          (λ out. Unit)
  unfolding pipeline_standard_process
  pipeline_standard_process-Returns murmur_hash local no_type netlink_port before miss flowtables
        installed key w =
      let (flowtable, at, holds) = installed 0 (omega arith) in
      let walk = start murmur_hash local no_type netlink_port before miss flowtables key w in
      rw (pipeline_standard_process, at)
        (then-Returns _ (finish murmur_hash local no_type netlink_port before miss flowtables) (
          process_tables-Returns netlink_port before miss flowtables (murmur_hash key.ethernet)
            installed (num_tables + 1) 0 walk (omega arith) (omega arith)))
