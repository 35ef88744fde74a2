-- ===== src/PipelineStandard/Value.antt =====
-- modules/pipeline_standard/module/src/pipeline_standard.c: `parse_value`, which makes the value of a
-- flow entry of an OpenFlow message.
use ivs.Base.{ℕ, ◌-◌, ◌^◌, Bool, true, false, Option, none, some, List, [], ◌∷◌, leb, if◌then◌else◌}
use ivs.PipelineStandard.{Actions, Group, done}
use ivs.PipelineStandard.OpenFlow.{
  OfAction, Error, RefEvent, range, compat, num_tables, cleanup_actions, translate_openflow_actions,
}

pub data Instruction : Type 0 where
  apply_instruction : List OfAction → Instruction
  write_instruction : List OfAction → Instruction
  clear_instruction : Instruction
  goto_instruction : ℕ → Instruction
  meter_instruction : ℕ → Instruction
  unsupported_instruction : Instruction

-- What a flow message holds: the actions of OpenFlow 1.0, or the table and the instructions.
pub data FlowMod : Type 0 where
  flow_mod_1_0 : List OfAction → FlowMod
  flow_mod : ℕ → List Instruction → FlowMod

-- `struct flowtable_value`, but for the metadata, which nothing reads.
pub record Value : Type 0 where
  pub apply_actions : Actions
  pub write_actions : Actions
  pub meter_id : ℕ
  pub next_table_id : ℕ
  pub clear_actions : Bool

-- `parse_value` returns an error, or the value; the trace goes on in both cases.
pub data Parsed : Type 0 where
  failed : Error → List RefEvent → Parsed
  parsed : Value → List RefEvent → Parsed

abbrev pub initial_value : Value
initial_value = record {
  apply_actions = done;
  write_actions = done;
  meter_id = 2 ^ 32 - 1;
  next_table_id = 255;
  clear_actions = false;
}

-- The label `error`.
unfoldable pub parse_error : Error → Value → List RefEvent → Parsed
unfolding cleanup_actions
parse_error err value events =
    failed err (cleanup_actions value.write_actions (cleanup_actions value.apply_actions events))

module _ (acquire : ℕ → Option Group) (reason_no_match reason_action : ℕ) where
  -- The loop over the instructions.
  unfoldable pub parse_instructions : Bool → ℕ → List Instruction → Value → List RefEvent → Parsed
  unfolding translate_openflow_actions parse_error
  parse_instructions table_miss table_id [] value events = parsed value events
  parse_instructions table_miss table_id (apply_instruction actions ∷ insts) value events =
      let out =
        translate_openflow_actions acquire reason_no_match reason_action table_miss actions
          value.apply_actions events in
      let value' = record value { apply_actions = out.actions } in
      elim out.error [
        | some err ↦ parse_error err value' out.events
        | none ↦ parse_instructions table_miss table_id insts value' out.events
      ]
  parse_instructions table_miss table_id (write_instruction actions ∷ insts) value events =
      let out =
        translate_openflow_actions acquire reason_no_match reason_action table_miss actions
          value.write_actions events in
      let value' = record value { write_actions = out.actions } in
      elim out.error [
        | some err ↦ parse_error err value' out.events
        | none ↦ parse_instructions table_miss table_id insts value' out.events
      ]
  parse_instructions table_miss table_id (clear_instruction ∷ insts) value events =
      parse_instructions table_miss table_id insts (record value { clear_actions = true }) events
  parse_instructions table_miss table_id (goto_instruction goto ∷ insts) value events =
      let value' = record value { next_table_id = goto } in
      let rest = parse_instructions table_miss table_id insts value' events in
      if leb goto table_id
      then parse_error range value' events
      else if leb num_tables goto
      then parse_error range value' events
      else rest
  parse_instructions table_miss table_id (meter_instruction meter ∷ insts) value events =
      parse_instructions table_miss table_id insts (record value { meter_id = meter }) events
  parse_instructions table_miss table_id (unsupported_instruction ∷ insts) value events =
      parse_error compat value events

  unfoldable pub parse_value : Bool → FlowMod → List RefEvent → Parsed
  unfolding parse_instructions
  parse_value table_miss (flow_mod_1_0 actions) events =
      let out =
        translate_openflow_actions acquire reason_no_match reason_action table_miss actions done
          events in
      let value = record initial_value { apply_actions = out.actions } in
      elim out.error [
        | some err ↦ parse_error err value out.events
        | none ↦ parsed value out.events
      ]
  parse_value table_miss (flow_mod table_id insts) events =
      parse_instructions table_miss table_id insts initial_value events
