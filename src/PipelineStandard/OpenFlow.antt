-- ===== src/PipelineStandard/OpenFlow.antt =====
-- modules/pipeline_standard/module/src: OpenFlow actions and instructions into the internal form
-- (`pipeline_standard_translate_openflow_actions` and `pipeline_standard_cleanup_actions` of action.c,
-- `parse_value` of pipeline_standard.c).
-- LOCI's objects are data types of what the source reads of them; a port number is given by the
-- `OF_PORT_DEST_*` constant that it is. The group table of Indigo is the parameter `acquire`; that
-- groups are taken and given back is a trace. The reasons of a packet-in are LOCI's constants.
use ivs.Base.{ℕ, ◌*◌, Bool, Option, none, some, List, [], ◌∷◌, ◌==◌, ltb, if◌then◌else◌}
use ivs.Action.{Bytes}
use ivs.PipelineStandard.{
  Simple, Action, Actions, Group, simple, group, done, next, make_group, controller, output, local,
  in_port, set_eth_dst, set_eth_src, set_vlan_vid, set_vlan_pcp, pop_vlan, push_vlan, set_ipv4_dst,
  set_ipv4_src, set_ipv6_dst, set_ipv6_src, set_ipv6_flabel, set_ip_dscp, set_ip_ecn, dec_nw_ttl,
  set_nw_ttl, set_tcp_dst, set_tcp_src, set_udp_dst, set_udp_src, set_tp_dst, set_tp_src,
  set_priority,
}

abbrev pub num_tables : ℕ
num_tables = 16

pub data Port : Type 0 where
  dest_controller : Port
  dest_all : Port
  dest_wildcard : Port
  dest_flood : Port
  dest_use_table : Port
  dest_local : Port
  dest_in_port : Port
  dest_normal : Port
  port_no : ℕ → Port

pub data Oxm : Type 0 where
  oxm_vlan_vid : ℕ → Oxm
  oxm_vlan_pcp : ℕ → Oxm
  oxm_eth_src : Bytes → Oxm
  oxm_eth_dst : Bytes → Oxm
  oxm_ipv4_src : ℕ → Oxm
  oxm_ipv4_dst : ℕ → Oxm
  oxm_ip_dscp : ℕ → Oxm
  oxm_ip_ecn : ℕ → Oxm
  oxm_ipv6_src : Bytes → Oxm
  oxm_ipv6_dst : Bytes → Oxm
  oxm_ipv6_flabel : ℕ → Oxm
  oxm_tcp_src : ℕ → Oxm
  oxm_tcp_dst : ℕ → Oxm
  oxm_udp_src : ℕ → Oxm
  oxm_udp_dst : ℕ → Oxm
  oxm_unsupported : Oxm

pub data OfAction : Type 0 where
  of_output : Port → OfAction
  of_set_field : Oxm → OfAction
  of_set_dl_dst : Bytes → OfAction
  of_set_dl_src : Bytes → OfAction
  of_set_nw_dst : ℕ → OfAction
  of_set_nw_src : ℕ → OfAction
  of_set_nw_tos : ℕ → OfAction
  of_set_tp_dst : ℕ → OfAction
  of_set_tp_src : ℕ → OfAction
  of_set_vlan_vid : ℕ → OfAction
  of_set_vlan_pcp : ℕ → OfAction
  of_pop_vlan : OfAction
  of_strip_vlan : OfAction
  of_push_vlan : ℕ → OfAction
  of_dec_nw_ttl : OfAction
  of_nicira_dec_ttl : OfAction
  of_set_nw_ttl : ℕ → OfAction
  of_set_queue : ℕ → OfAction
  of_group : ℕ → OfAction
  of_unsupported : OfAction

pub data Error : Type 0 where
  bad_action : Error
  range : Error
  compat : Error

-- A group is taken from the group table, or given back.
pub data RefEvent : Type 0 where
  acquired : ℕ → RefEvent
  released : ℕ → RefEvent

abbrev pub group_id : Group → ℕ
group_id (make_group id type content) = id

-- `xbuf_append_attr`
unfoldable pub append_action : Actions → Action → Actions
append_action done a = next a done
append_action (next b actions) a = next b (append_action actions a)

unfoldable pub note_acquired : Action → List RefEvent → List RefEvent
note_acquired (simple a) events = events
note_acquired (group g) events = acquired (group_id g) ∷ events

unfoldable pub cleanup_actions : Actions → List RefEvent → List RefEvent
cleanup_actions done events = events
cleanup_actions (next (simple a) actions) events = cleanup_actions actions events
cleanup_actions (next (group g) actions) events =
    cleanup_actions actions (released (group_id g) ∷ events)

-- What a translation leaves: the error, if there is one, the buffer, and the trace.
pub record Translated : Type 0 where
  pub error : Option Error
  pub actions : Actions
  pub events : List RefEvent

-- The oxm of a set-field action.
unfoldable pub translate_oxm : Oxm → Option Simple
translate_oxm (oxm_vlan_vid v) = some (set_vlan_vid v)
translate_oxm (oxm_vlan_pcp v) = some (set_vlan_pcp v)
translate_oxm (oxm_eth_src v) = some (set_eth_src v)
translate_oxm (oxm_eth_dst v) = some (set_eth_dst v)
translate_oxm (oxm_ipv4_src v) = some (set_ipv4_src v)
translate_oxm (oxm_ipv4_dst v) = some (set_ipv4_dst v)
translate_oxm (oxm_ip_dscp v) = if ltb 63 v then none else some (set_ip_dscp (v * 4))
translate_oxm (oxm_ip_ecn v) = if ltb 3 v then none else some (set_ip_ecn v)
translate_oxm (oxm_ipv6_src v) = some (set_ipv6_src v)
translate_oxm (oxm_ipv6_dst v) = some (set_ipv6_dst v)
translate_oxm (oxm_ipv6_flabel v) = if ltb 1048575 v then none else some (set_ipv6_flabel v)
translate_oxm (oxm_tcp_src v) = some (set_tcp_src v)
translate_oxm (oxm_tcp_dst v) = some (set_tcp_dst v)
translate_oxm (oxm_udp_src v) = some (set_udp_src v)
translate_oxm (oxm_udp_dst v) = some (set_udp_dst v)
translate_oxm oxm_unsupported = none

module _ (acquire : ℕ → Option Group) (reason_no_match reason_action : ℕ) where
  -- The port of an output action.
  unfoldable pub translate_port : Bool → Port → Option Simple
  translate_port table_miss dest_controller =
      some (controller (if table_miss then reason_no_match else reason_action))
  translate_port table_miss dest_local = some local
  translate_port table_miss dest_in_port = some in_port
  translate_port table_miss (port_no n) = some (output n)
  translate_port table_miss dest_all = none
  translate_port table_miss dest_wildcard = none
  translate_port table_miss dest_flood = none
  translate_port table_miss dest_use_table = none
  translate_port table_miss dest_normal = none

  abbrev pub as_simple : Option Simple → Option Action
  as_simple none = none
  as_simple (some a) = some (simple a)

  -- One round of the loop: the attribute that is appended, or the error `BAD_ACTION`.
  unfoldable pub translate_openflow_action : Bool → OfAction → Option Action
  unfolding translate_port translate_oxm
  translate_openflow_action table_miss (of_output port) = as_simple (translate_port table_miss port)
  translate_openflow_action table_miss (of_set_field oxm) = as_simple (translate_oxm oxm)
  translate_openflow_action table_miss (of_set_dl_dst v) = some (simple (set_eth_dst v))
  translate_openflow_action table_miss (of_set_dl_src v) = some (simple (set_eth_src v))
  translate_openflow_action table_miss (of_set_nw_dst v) = some (simple (set_ipv4_dst v))
  translate_openflow_action table_miss (of_set_nw_src v) = some (simple (set_ipv4_src v))
  translate_openflow_action table_miss (of_set_nw_tos v) = some (simple (set_ip_dscp v))
  translate_openflow_action table_miss (of_set_tp_dst v) = some (simple (set_tp_dst v))
  translate_openflow_action table_miss (of_set_tp_src v) = some (simple (set_tp_src v))
  translate_openflow_action table_miss (of_set_vlan_vid v) = some (simple (set_vlan_vid v))
  translate_openflow_action table_miss (of_set_vlan_pcp v) = some (simple (set_vlan_pcp v))
  translate_openflow_action table_miss of_pop_vlan = some (simple pop_vlan)
  translate_openflow_action table_miss of_strip_vlan = some (simple pop_vlan)
  translate_openflow_action table_miss (of_push_vlan eth_type) =
      if eth_type == 33024 then some (simple (push_vlan eth_type)) else none
  translate_openflow_action table_miss of_dec_nw_ttl = some (simple dec_nw_ttl)
  translate_openflow_action table_miss of_nicira_dec_ttl = some (simple dec_nw_ttl)
  translate_openflow_action table_miss (of_set_nw_ttl v) = some (simple (set_nw_ttl v))
  translate_openflow_action table_miss (of_set_queue v) = some (simple (set_priority v))
  translate_openflow_action table_miss (of_group id) = elim (acquire id) [
    | none ↦ none
    | some g ↦ some (group g)
  ]
  translate_openflow_action table_miss of_unsupported = none

  unfoldable pub translate_openflow_actions :
      Bool → List OfAction → Actions → List RefEvent → Translated
  unfolding translate_openflow_action append_action note_acquired
  translate_openflow_actions table_miss [] xbuf events = record {
    error = none;
    actions = xbuf;
    events = events;
  }
  translate_openflow_actions table_miss (a ∷ actions) xbuf events =
      elim (translate_openflow_action table_miss a) [
        | none ↦ record { error = some bad_action; actions = xbuf; events = events }
        | some out ↦
            translate_openflow_actions table_miss actions (append_action xbuf out)
              (note_acquired out events)
      ]
