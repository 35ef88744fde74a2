-- ===== src/PipelineStandard/Goto.antt =====
-- The tables of a pipeline are left in order: a value that `parse_value` gives goes on to a later
-- table that exists, or ends the loop.
use ivs.Base.{
  ℕ, ◌<◌, ◌≡◌, refl, ◌⊎◌, inl, inr, Bool, true, Option, none, some, List, [], ◌∷◌, leb,
  if◌then◌else◌, Bool-cases, arith,
}
use ivs.PipelineStandard.{Group, done}
use ivs.PipelineStandard.OpenFlow.{
  Error, RefEvent, range, compat, num_tables, translate_openflow_actions,
}
use ivs.PipelineStandard.Value.{
  Instruction, FlowMod, Value, Parsed, failed, parsed, initial_value, parse_error,
  parse_instructions, parse_value, apply_instruction, write_instruction, clear_instruction,
  goto_instruction, meter_instruction, unsupported_instruction, flow_mod_1_0, flow_mod,
}

abbrev pub message_table : FlowMod → ℕ
message_table (flow_mod_1_0 actions) = 0
message_table (flow_mod table_id insts) = table_id

-- The table that a value goes on to: none (255), or a later one that exists.
abbrev pub GoesOn : ℕ → Value → Type 0
GoesOn table_id value =
    (value.next_table_id ≡ 255)
    ⊎ (table_id < value.next_table_id) × (value.next_table_id < num_tables)

-- The value of a successful parse goes on in order.
abbrev pub ParsedGoesOn : ℕ → Parsed → Type 0
ParsedGoesOn table_id (failed err events) = Unit
ParsedGoesOn table_id (parsed value events) = GoesOn table_id value

module _ (acquire : ℕ → Option Group) (reason_no_match reason_action : ℕ) where
  checked-GoesOn :
      (table_id : ℕ) (o : Option Error) (bad : Error → Parsed) (good : Parsed)
      → ((err : Error) → ParsedGoesOn table_id (bad err))
      → ParsedGoesOn table_id good
      → let out : Parsed = elim o [ some err ↦ bad err | none ↦ good ] in ParsedGoesOn table_id out
  checked-GoesOn table_id none bad good v w = w
  checked-GoesOn table_id (some err) bad good v w = v err

  tested-GoesOn :
      (table_id goto : ℕ) (bad good : Parsed)
      → ParsedGoesOn table_id bad
      → (table_id < goto → goto < num_tables → ParsedGoesOn table_id good)
      → ParsedGoesOn table_id
          (if leb goto table_id then bad else if leb num_tables goto then bad else good)
  tested-GoesOn table_id goto bad good v w = elim (Bool-cases (leb goto table_id)) [
    | inl h ↦ rw h v
    | inr h ↦ elim (Bool-cases (leb num_tables goto)) [
      | inl k ↦ rw h (rw k v)
      | inr k ↦ rw h (rw k (w (ground (arith, h)) (ground (arith, k))))
    ]
  ]

  error-GoesOn :
      (table_id : ℕ) (err : Error) (value : Value) (events : List RefEvent)
      → ParsedGoesOn table_id (parse_error err value events)
  unfolding parse_error
  error-GoesOn table_id err value events = tt

  parse_instructions-GoesOn :
      (miss : Bool) (table_id : ℕ) (insts : List Instruction) (value : Value)
      (events : List RefEvent)
      → GoesOn table_id value
      → ParsedGoesOn table_id (
          parse_instructions acquire reason_no_match reason_action miss table_id insts value events)
  unfolding parse_instructions
  parse_instructions-GoesOn miss table_id [] value events v = v
  parse_instructions-GoesOn miss table_id (apply_instruction actions ∷ insts) value events v =
      let out =
        translate_openflow_actions acquire reason_no_match reason_action miss actions
          value.apply_actions events in
      let value' = record value { apply_actions = out.actions } in
      checked-GoesOn table_id out.error (λ err. parse_error err value' out.events)
        (parse_instructions acquire reason_no_match reason_action miss table_id insts value'
          out.events)
        (λ err. error-GoesOn table_id err value' out.events)
        (parse_instructions-GoesOn miss table_id insts value' out.events v)
  parse_instructions-GoesOn miss table_id (write_instruction actions ∷ insts) value events v =
      let out =
        translate_openflow_actions acquire reason_no_match reason_action miss actions
          value.write_actions events in
      let value' = record value { write_actions = out.actions } in
      checked-GoesOn table_id out.error (λ err. parse_error err value' out.events)
        (parse_instructions acquire reason_no_match reason_action miss table_id insts value'
          out.events)
        (λ err. error-GoesOn table_id err value' out.events)
        (parse_instructions-GoesOn miss table_id insts value' out.events v)
  parse_instructions-GoesOn miss table_id (clear_instruction ∷ insts) value events v =
      parse_instructions-GoesOn miss table_id insts (record value { clear_actions = true }) events v
  parse_instructions-GoesOn miss table_id (goto_instruction goto ∷ insts) value events v =
      let value' = record value { next_table_id = goto } in
      tested-GoesOn table_id goto (parse_error range value' events)
        (parse_instructions acquire reason_no_match reason_action miss table_id insts value' events)
        (error-GoesOn table_id range value' events)
        (λ later exists.
          parse_instructions-GoesOn miss table_id insts value' events (inr (later, exists)))
  parse_instructions-GoesOn miss table_id (meter_instruction meter ∷ insts) value events v =
      parse_instructions-GoesOn miss table_id insts (record value { meter_id = meter }) events v
  parse_instructions-GoesOn miss table_id (unsupported_instruction ∷ insts) value events v =
      error-GoesOn table_id compat value events

  -- Where parse_value succeeds on a message, the value goes on to no table, or to one of the 16
  -- tables that comes after the table of the message.
  pub parse_value-GoesOn :
      (miss : Bool) (message : FlowMod) (events : List RefEvent)
      → ParsedGoesOn
          (message_table message)
          (parse_value acquire reason_no_match reason_action miss message events)
  unfolding parse_value
  parse_value-GoesOn miss (flow_mod_1_0 actions) events =
      let out =
        translate_openflow_actions acquire reason_no_match reason_action miss actions done events in
      let value' = record initial_value { apply_actions = out.actions } in
      checked-GoesOn 0 out.error (λ err. parse_error err value' out.events)
        (parsed value' out.events) (λ err. error-GoesOn 0 err value' out.events) (inl refl)
  parse_value-GoesOn miss (flow_mod table_id insts) events =
      parse_instructions-GoesOn miss table_id insts initial_value events (inl refl)
