-- ===== src/Pipeline/Set.antt =====
-- Which pipeline is current, and what the pipelines are told.
use ivs.Base.{
  ℕ, ◌≡◌, refl, ap, inl, inr, true, Option, none, some, List, [], ◌∷◌, Bool-cases, Option-cases,
  arith,
}
use ivs.Pipeline.{
  State, Event, init_event, finish_event, find_name, same_pipeline, finish_current, pipeline_set,
}

-- The pipeline that a trace leaves initialised: the last event says it, and an initialisation follows
-- a finish of the one before.
abbrev pub Runs : List Event → Option ℕ → Type 0
Runs [] current = current ≡ none
Runs (init_event i name ∷ trace) current = (current ≡ some i) × Runs trace none
Runs (finish_event i ∷ trace) current = (current ≡ none) × Runs trace (some i)

finish_current-Runs :
    (st : State)
    → Runs st.trace st.current_pipeline
    → Runs (finish_current st).trace none × ((finish_current st).current_pipeline ≡ none)
unfolding finish_current
finish_current-Runs st h = elim (Option-cases st.current_pipeline) [
  | inl idle ↦ rw idle ((rw idle at h), refl)
  | inr (i, running) ↦ rw running ((refl, (rw running at h)), refl)
]

-- Where the trace so far is that of the current pipeline - each initialisation after the finish of
-- the pipeline before, no finish without one, and the last one that of the current pipeline -
-- pipeline_set keeps that, on every branch.
pub pipeline_set-Runs :
    (name : Option ℕ) (st : State)
    → Runs st.trace st.current_pipeline
    → let st' = (pipeline_set name st).1 in Runs st'.trace st'.current_pipeline
unfolding pipeline_set
pipeline_set-Runs none st h =
    let (finished, idle) = finish_current-Runs st h in
    elim (Bool-cases (same_pipeline none st.current_pipeline)) [
      | inl same ↦ rw same h
      | inr other ↦ rw other (rw idle finished)
    ]
pipeline_set-Runs (some name) st h =
    let (finished, idle) = finish_current-Runs st h in
    elim (Option-cases (find_name name 0 st.names none)) [
      | inl missing ↦ rw (pipeline_set, missing) h
      | inr (i, found) ↦ elim (Bool-cases (same_pipeline (some i) st.current_pipeline)) [
        | inl same ↦ rw (pipeline_set, found) (rw same h)
        | inr other ↦ rw (pipeline_set, found) (rw other (refl, finished))
      ]
    ]

same_pipeline-eq :
    (i : ℕ) (current : Option ℕ) → same_pipeline (some i) current ≡ true → current ≡ some i
same_pipeline-eq i none h = absurd (ground (arith, h))
same_pipeline-eq i (some j) h = ap some (ground (arith, h))
