-- ===== src/PipelineStandard/Balance.antt =====
-- Every group that a flow message takes is held by the entry's value or given back.
use ivs.Base.{
  ℕ, ◌+◌, ◌≡◌, refl, ◌∙◌, inl, inr, Bool, true, false, Option, none, some, List, [], ◌∷◌, ◌==◌, leb,
  if◌then◌else◌, Option-cases, arith,
}
use ivs.PipelineStandard.{Action, Actions, Group, simple, group, done, next}
use ivs.PipelineStandard.OpenFlow.{
  OfAction, Error, RefEvent, acquired, released, group_id, range, compat, num_tables, append_action,
  note_acquired, cleanup_actions, translate_openflow_action, translate_openflow_actions,
}
use ivs.PipelineStandard.Value.{
  Instruction, FlowMod, Value, Parsed, failed, parsed, initial_value, parse_error,
  parse_instructions, parse_value, apply_instruction, write_instruction, clear_instruction,
  goto_instruction, meter_instruction, unsupported_instruction, flow_mod_1_0, flow_mod,
}

-- How often a group is taken, how often it is given back, and how often a buffer names it.
abbrev pub taken : ℕ → List RefEvent → ℕ
taken id [] = 0
taken id (acquired g ∷ events) = (if g == id then 1 else 0) + taken id events
taken id (released g ∷ events) = taken id events

abbrev pub given_back : ℕ → List RefEvent → ℕ
given_back id [] = 0
given_back id (acquired g ∷ events) = given_back id events
given_back id (released g ∷ events) = (if g == id then 1 else 0) + given_back id events

abbrev pub named : ℕ → Actions → ℕ
named id done = 0
named id (next (simple a) actions) = named id actions
named id (next (group g) actions) = (if group_id g == id then 1 else 0) + named id actions

abbrev named_by : ℕ → Action → ℕ
named_by id (simple a) = 0
named_by id (group g) = if group_id g == id then 1 else 0

named-append_action :
    (id : ℕ) (actions : Actions) (a : Action)
    → named id (append_action actions a) ≡ named id actions + named_by id a
unfolding append_action
named-append_action id done (simple a) = refl
named-append_action id done (group g) = omega arith
named-append_action id (next (simple b) actions) a = named-append_action id actions a
named-append_action id (next (group g) actions) a = omega (arith, named-append_action id actions a)

taken-note_acquired :
    (id : ℕ) (a : Action) (events : List RefEvent)
    → taken id (note_acquired a events) ≡ named_by id a + taken id events
unfolding note_acquired
taken-note_acquired id (simple a) events = omega arith
taken-note_acquired id (group g) events = refl

given_back-note_acquired :
    (id : ℕ) (a : Action) (events : List RefEvent)
    → given_back id (note_acquired a events) ≡ given_back id events
unfolding note_acquired
given_back-note_acquired id (simple a) events = refl
given_back-note_acquired id (group g) events = refl

taken-cleanup_actions :
    (id : ℕ) (actions : Actions) (events : List RefEvent)
    → taken id (cleanup_actions actions events) ≡ taken id events
unfolding cleanup_actions
taken-cleanup_actions id done events = refl
taken-cleanup_actions id (next (simple a) actions) events = taken-cleanup_actions id actions events
taken-cleanup_actions id (next (group g) actions) events =
    taken-cleanup_actions id actions (released (group_id g) ∷ events)

given_back-cleanup_actions :
    (id : ℕ) (actions : Actions) (events : List RefEvent)
    → given_back id (cleanup_actions actions events) ≡ named id actions + given_back id events
unfolding cleanup_actions
given_back-cleanup_actions id done events = omega arith
given_back-cleanup_actions id (next (simple a) actions) events =
    given_back-cleanup_actions id actions events
given_back-cleanup_actions id (next (group g) actions) events =
    omega (arith, given_back-cleanup_actions id actions (released (group_id g) ∷ events))

module _ (acquire : ℕ → Option Group) (reason_no_match reason_action : ℕ) where
  -- On success and on failure, the buffer names what the loop has taken; nothing is given back.
  translate_openflow_actions-taken :
      (id : ℕ) (miss : Bool) (actions : List OfAction) (xbuf : Actions) (events : List RefEvent)
      → let out =
          translate_openflow_actions acquire reason_no_match reason_action miss actions xbuf
            events in
        (taken id out.events + named id xbuf ≡ named id out.actions + taken id events)
        × (given_back id out.events ≡ given_back id events)
  unfolding translate_openflow_actions
  translate_openflow_actions-taken id miss [] xbuf events = (omega arith, refl)
  translate_openflow_actions-taken id miss (a ∷ actions) xbuf events =
      elim (Option-cases (translate_openflow_action acquire reason_no_match reason_action miss a)) [
        | inl bad ↦ rw (translate_openflow_actions, bad) (omega arith, refl)
        | inr (out, good) ↦
            let rest =
              translate_openflow_actions-taken id miss actions (append_action xbuf out)
                (note_acquired out events) in
            rw (translate_openflow_actions, good)
              (
                omega (
                  arith,
                  rest.0,
                  named-append_action id xbuf out,
                  taken-note_acquired id out events,
                ),
                rest.1 ∙ given_back-note_acquired id out events,
              )
      ]

  -- What a value holds of a group.
  abbrev pub held : ℕ → Value → ℕ
  held id value = named id value.apply_actions + named id value.write_actions

  -- Since the trace `before`, what was taken and not given back is what the value holds; with an
  -- error, nothing.
  abbrev pub Settled : ℕ → List RefEvent → Parsed → Type 0
  Settled id before (failed err events) =
      taken id events + given_back id before ≡ given_back id events + taken id before
  Settled id before (parsed value events) =
      taken id events + given_back id before
      ≡ given_back id events + taken id before + held id value

  parse_error-Settled :
      (id : ℕ) (err : Error) (value : Value) (before events : List RefEvent)
      → Settled id before (parsed value events)
      → Settled id before (parse_error err value events)
  unfolding parse_error
  parse_error-Settled id err value before events h =
      let applied = cleanup_actions value.apply_actions events in
      omega (
        arith,
        h,
        taken-cleanup_actions id value.write_actions applied,
        taken-cleanup_actions id value.apply_actions events,
        given_back-cleanup_actions id value.write_actions applied,
        given_back-cleanup_actions id value.apply_actions events,
      )

  either-Settled :
      (id : ℕ) (before : List RefEvent) (b : Bool) (x y : Parsed)
      → Settled id before x
      → Settled id before y
      → Settled id before (if b then x else y)
  either-Settled id before true x y v w = v
  either-Settled id before false x y v w = w

  checked-Settled :
      (id : ℕ) (before : List RefEvent) (o : Option Error) (bad : Error → Parsed) (good : Parsed)
      → ((err : Error) → Settled id before (bad err))
      → Settled id before good
      → let out : Parsed = elim o [ some err ↦ bad err | none ↦ good ] in Settled id before out
  checked-Settled id before none bad good v w = w
  checked-Settled id before (some err) bad good v w = v err

  parse_instructions-Settled :
      (id : ℕ) (miss : Bool) (table_id : ℕ) (insts : List Instruction) (value : Value)
      (before events : List RefEvent)
      → Settled id before (parsed value events)
      → Settled id before (
          parse_instructions acquire reason_no_match reason_action miss table_id insts value events)
  unfolding parse_instructions
  parse_instructions-Settled id miss table_id [] value before events h = h
  parse_instructions-Settled id miss table_id (apply_instruction actions ∷ insts) value before
        events h =
      let out =
        translate_openflow_actions acquire reason_no_match reason_action miss actions
          value.apply_actions events in
      let value' = record value { apply_actions = out.actions } in
      let step = translate_openflow_actions-taken id miss actions value.apply_actions events in
      let settled : Settled id before (parsed value' out.events) =
        omega (arith, h, step.0, step.1) in
      checked-Settled id before out.error (λ err. parse_error err value' out.events)
        (parse_instructions acquire reason_no_match reason_action miss table_id insts value'
          out.events)
        (λ err. parse_error-Settled id err value' before out.events settled)
        (parse_instructions-Settled id miss table_id insts value' before out.events settled)
  parse_instructions-Settled id miss table_id (write_instruction actions ∷ insts) value before
        events h =
      let out =
        translate_openflow_actions acquire reason_no_match reason_action miss actions
          value.write_actions events in
      let value' = record value { write_actions = out.actions } in
      let step = translate_openflow_actions-taken id miss actions value.write_actions events in
      let settled : Settled id before (parsed value' out.events) =
        omega (arith, h, step.0, step.1) in
      checked-Settled id before out.error (λ err. parse_error err value' out.events)
        (parse_instructions acquire reason_no_match reason_action miss table_id insts value'
          out.events)
        (λ err. parse_error-Settled id err value' before out.events settled)
        (parse_instructions-Settled id miss table_id insts value' before out.events settled)
  parse_instructions-Settled id miss table_id (clear_instruction ∷ insts) value before events h =
      parse_instructions-Settled id miss table_id insts (record value { clear_actions = true })
        before events h
  parse_instructions-Settled id miss table_id (goto_instruction goto ∷ insts) value before events
        h =
      let value' = record value { next_table_id = goto } in
      let wrong = parse_error-Settled id range value' before events h in
      let rest = parse_instructions-Settled id miss table_id insts value' before events h in
      either-Settled id before (leb goto table_id) _ _ wrong
        (either-Settled id before (leb num_tables goto) _ _ wrong rest)
  parse_instructions-Settled id miss table_id (meter_instruction meter ∷ insts) value before events
        h =
      parse_instructions-Settled id miss table_id insts (record value { meter_id = meter }) before
        events h
  parse_instructions-Settled id miss table_id (unsupported_instruction ∷ insts) value before events
        h =
      parse_error-Settled id compat value before events h

  -- For every group: where parse_value succeeds, the group was taken as often as the new value
  -- names it, and not given back; where it fails, it was given back as often as it was taken.
  pub parse_value-Settled :
      (id : ℕ) (miss : Bool) (message : FlowMod) (events : List RefEvent)
      → Settled id events (parse_value acquire reason_no_match reason_action miss message events)
  unfolding parse_value
  parse_value-Settled id miss (flow_mod_1_0 actions) events =
      let out =
        translate_openflow_actions acquire reason_no_match reason_action miss actions done events in
      let value' = record initial_value { apply_actions = out.actions } in
      let step = translate_openflow_actions-taken id miss actions done events in
      let settled : Settled id events (parsed value' out.events) = omega (arith, step.0, step.1) in
      checked-Settled id events out.error (λ err. parse_error err value' out.events)
        (parsed value' out.events)
        (λ err. parse_error-Settled id err value' events out.events settled) settled
  parse_value-Settled id miss (flow_mod table_id insts) events =
      parse_instructions-Settled id miss table_id insts initial_value events events (omega arith)
