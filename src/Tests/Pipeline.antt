-- ===== src/Tests/Pipeline.antt =====
-- The pipelines and the uplinks at concrete inputs.
use ivs.Base.{refl, true, none, some, [], ◌∷◌}
use ivs.Pipeline.{State, init_event, pipeline_set}
use ivs.Pipeline.Set.{Runs, pipeline_set-Runs}
use ivs.Uplink.{Port, max_ports, uplink_reselect}
use ivs.Uplink.Choice.{Chosen, uplink_reselect-Chosen}

-- Two pipelines, the first of which is current.
abbrev two_pipelines : State
two_pipelines = record {
  names = some 10 ∷ some 13 ∷ none ∷ none ∷ [];
  current_pipeline = some 0;
  queue_priority_inband = none;
  trace = init_event 0 10 ∷ [];
}

pipeline_set-Runs_example :
    let st' = (pipeline_set (some 13) two_pipelines).1 in Runs st'.trace st'.current_pipeline
pipeline_set-Runs_example = pipeline_set-Runs (some 13) two_pipelines (refl, refl)

-- Port 2 runs and port 1 does not; no uplink has been chosen.
abbrev three_ports : ivs.Uplink.State
three_ports = record {
  uplinks = 5 ∷ [];
  current_uplink = 4294967295;
  ports =
      none
      ∷ some (record { is_uplink = true; ifflags = 1 })
      ∷ some (record { is_uplink = true; ifflags = 65 })
      ∷ [];
  beyond = none;
}

uplink_reselect-Chosen_example :
    Chosen max_ports 4294967295 three_ports (uplink_reselect 4294967295 three_ports).current_uplink
uplink_reselect-Chosen_example = uplink_reselect-Chosen 4294967295 three_ports
