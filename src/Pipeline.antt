-- ===== src/Pipeline.antt =====
-- modules/pipeline/module/src/pipeline.c: the registered pipelines, the current one, and the in-band
-- part of `pipeline_process`; and modules/OVSDriver/module/src/uplink.c: the choice of an uplink.
-- A pipeline is known by the index of its entry and its operations are events of a trace, newest
-- first; a name is a number. `AIM_DIE` is none. The operation `process` of the current pipeline is a
-- parameter of `pipeline_process`.
pub mod Set
use ivs.Base.{
  ℕ, zero, suc, ◌+◌, ◌-◌, ◌^◌, bit_and, Bool, true, false, ◌&&◌, Option, none, some, List, [], ◌∷◌,
  ◌==◌, leb, if◌then◌else◌, ◌>>=◌,
}
use ivs.Action.{
  Key, Context, attr_bitmap_set, key_attr, ethertype_field, ntohs, vlan_vid, action_output,
}
use ivs.Action.SetField.{
  action_pop_vlan, action_push_vlan, action_set_vlan_vid, action_set_priority,
}

abbrev pub max_pipelines : ℕ
max_pipelines = 16

-- What the pipelines are told.
pub data Event : Type 0 where
  init_event : ℕ → ℕ → Event
  finish_event : ℕ → Event

-- The static variables: the name of each of the 16 entries, the index of the current one, and the
-- priority of in-band packets, none for -1.
pub record State : Type 0 where
  pub names : List (Option ℕ)
  pub current_pipeline : Option ℕ
  pub queue_priority_inband : Option ℕ
  pub trace : List Event

pub data Error : Type 0 where
  none_error : Error
  not_found : Error

-- The loop of `pipeline_register`; none is `AIM_DIE`, for a duplicate or a full array.
unfoldable pub register_name : ℕ → List (Option ℕ) → Option (List (Option ℕ))
register_name name [] = none
register_name name (none ∷ names) = some (some name ∷ names)
register_name name (some other ∷ names) =
    let rest = register_name name names in
    if other == name
    then none
    else elim rest [ none ↦ none | some names' ↦ some (some other ∷ names') ]

unfoldable pub pipeline_register : ℕ → State → Option State
unfolding register_name
pipeline_register name st = elim (register_name name st.names) [
  | none ↦ none
  | some names ↦ some (record st { names = names })
]

-- The loop of `pipeline_set` from index `i` on: the last entry of the name.
unfoldable pub find_name : ℕ → ℕ → List (Option ℕ) → Option ℕ → Option ℕ
find_name name i [] found = found
find_name name i (none ∷ names) found = find_name name (i + 1) names found
find_name name i (some other ∷ names) found =
    find_name name (i + 1) names (if other == name then some i else found)

abbrev pub same_pipeline : Option ℕ → Option ℕ → Bool
same_pipeline none none = true
same_pipeline (some i) (some j) = i == j
same_pipeline a b = false

-- `current_pipeline->ops->finish()` and the reset of the variable.
unfoldable pub finish_current : State → State
finish_current st = elim st.current_pipeline [
  | none ↦ st
  | some i ↦ record st { current_pipeline = none; trace = finish_event i ∷ st.trace }
]

-- `pipeline_set`; the name is none for a null pointer.
unfoldable pub pipeline_set : Option ℕ → State → Error × State
unfolding find_name finish_current
pipeline_set none st =
    (none_error, if same_pipeline none st.current_pipeline then st else finish_current st)
pipeline_set (some name) st = elim (find_name name 0 st.names none) [
  | none ↦ (not_found, st)
  | some i ↦
      if same_pipeline (some i) st.current_pipeline
      then (none_error, st)
      else let finished = finish_current st in
        (
          none_error,
          record finished { current_pipeline = some i; trace = init_event i name ∷ finished.trace },
        )
]

-- `pipeline_list`: the names that are there, in the order of the entries.
unfoldable pub pipeline_list : List (Option ℕ) → List ℕ
pipeline_list [] = []
pipeline_list (none ∷ names) = pipeline_list names
pipeline_list (some name ∷ names) = name ∷ pipeline_list names

unfoldable pub pipeline_inband_queue_priority_set : ℕ → State → State
pipeline_inband_queue_priority_set priority st = record st { queue_priority_inband = some priority }

abbrev pub ivs_inband_port : ℕ
ivs_inband_port = 1000

abbrev pub vlan_invalid : ℕ
vlan_invalid = 4095

-- What a packet's processing changes: the mask, and the action context.
pub record Packet : Type 0 where
  pub mask : Key
  pub actx : Context

-- The in-band branch for a packet from the internal port.
unfoldable pub inband_to_uplink : Option ℕ → Option ℕ → ℕ → Context → Context
unfolding action_push_vlan action_set_vlan_vid action_set_priority action_output
inband_to_uplink priority uplink inband_vlan actx = elim uplink [
  | none ↦ actx
  | some port ↦
      let tagged = action_set_vlan_vid inband_vlan (action_push_vlan actx) in
      action_output port (elim priority [ none ↦ tagged | some p ↦ action_set_priority p tagged ])
]

-- `pipeline_process`: `uplink_check` and `uplink` are what `ind_ovs_uplink_check` and
-- `ind_ovs_uplink_select` give; none where no pipeline is current.
unfoldable pub pipeline_process :
    (ℕ → Packet → Packet) → (ℕ → Bool) → Option ℕ → ℕ → State → Key → Packet → Option Packet
unfolding inband_to_uplink action_pop_vlan vlan_vid attr_bitmap_set
pipeline_process process uplink_check uplink inband_vlan st key packet =
    let mask = record packet.mask {
      in_port = 2 ^ 32 - 1;
      populated = attr_bitmap_set key.populated (key_attr ethertype_field);
    } in
    let tagged_mask = record mask { vlan = 255 ∷ 255 ∷ [] } in
    elim st.current_pipeline [
      | none ↦ none
      | some i ↦
          if inband_vlan == vlan_invalid
          then some (process i (record packet { mask = mask }))
          else if uplink_check key.in_port
          then (if vlan_vid (ntohs key.vlan) == inband_vlan
              then some (record {
                mask = tagged_mask;
                actx = action_output ivs_inband_port (action_pop_vlan packet.actx);
              })
              else some (process i (record packet { mask = tagged_mask })))
          else if key.in_port == ivs_inband_port
          then some (record {
            mask = mask;
            actx = inband_to_uplink st.queue_priority_inband uplink inband_vlan packet.actx;
          })
          else some (process i (record packet { mask = mask }))
    ]
