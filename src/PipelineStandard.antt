-- ===== src/PipelineStandard.antt =====
-- modules/pipeline_standard/module/src: the OpenFlow pipeline. This file models the actions of
-- action.h and group.h and their translation for a packet (`pipeline_standard_translate_actions` of
-- action.c). An xbuf of action attributes is a list; the pointer to a group stands for the group's
-- value while the packet is translated. The netlink port of the packet-in socket is a parameter.
pub mod Fields
pub mod Synced
pub mod Performs
pub mod Performed
pub mod OpenFlow
pub mod Value
pub mod Balance
pub mod Goto
pub mod Cfr
pub mod Process
pub mod Ends
use ivs.Base.{
  ℕ, zero, suc, ◌+◌, ◌-◌, ◌/◌, ◌%◌, Bool, true, false, List, [], ◌∷◌, ◌++◌, ◌==◌, if◌then◌else◌,
  get_or,
}
use ivs.Action.{
  Bytes, Context, attr_bitmap_test, key_attr, ipv4_field, ipv6_field, action_userspace,
  action_output, action_output_local, action_output_in_port,
}
use ivs.Action.SetField.{
  set_if_populated, put_network, action_set_eth_dst, action_set_eth_src, action_set_vlan_vid,
  action_set_vlan_pcp, action_pop_vlan, action_push_vlan, action_set_ipv4_dst, action_set_ipv4_src,
  action_set_ipv4_dscp, action_set_ipv4_ecn, action_set_ipv4_ttl, action_set_ipv6_dst,
  action_set_ipv6_src, action_set_ipv6_dscp, action_set_ipv6_ecn, action_set_ipv6_ttl,
  action_set_ipv6_flabel, action_set_tcp_src, action_set_tcp_dst, action_set_udp_src,
  action_set_udp_dst, action_set_priority,
}

-- The attributes `IND_OVS_ACTION_*`, all but the group action.
pub data Simple : Type 0 where
  controller : ℕ → Simple
  output : ℕ → Simple
  local : Simple
  in_port : Simple
  set_eth_dst : Bytes → Simple
  set_eth_src : Bytes → Simple
  set_vlan_vid : ℕ → Simple
  set_vlan_pcp : ℕ → Simple
  pop_vlan : Simple
  push_vlan : ℕ → Simple
  set_ipv4_dst : ℕ → Simple
  set_ipv4_src : ℕ → Simple
  set_ipv6_dst : Bytes → Simple
  set_ipv6_src : Bytes → Simple
  set_ipv6_flabel : ℕ → Simple
  set_ip_dscp : ℕ → Simple
  set_ip_ecn : ℕ → Simple
  dec_nw_ttl : Simple
  set_nw_ttl : ℕ → Simple
  set_tcp_dst : ℕ → Simple
  set_tcp_src : ℕ → Simple
  set_udp_dst : ℕ → Simple
  set_udp_src : ℕ → Simple
  set_tp_dst : ℕ → Simple
  set_tp_src : ℕ → Simple
  set_priority : ℕ → Simple

-- `struct group`, `struct group_bucket` and lists of action attributes.
mutual
  pub data Action : Type 0 where
    simple : Simple → Action
    group : Group → Action

  pub data Actions : Type 0 where
    done : Actions
    next : Action → Actions → Actions

  pub data Group : Type 0 where
    make_group : ℕ → ℕ → Buckets → Group

  pub data Buckets : Type 0 where
    no_buckets : Buckets
    bucket : Actions → ℕ → Buckets → Buckets

-- `enum of_group_type`
abbrev pub group_type_all : ℕ
group_type_all = 0

abbrev pub group_type_select : ℕ
group_type_select = 1

abbrev pub group_type_indirect : ℕ
group_type_indirect = 2

abbrev pub group_type_ff : ℕ
group_type_ff = 3

unfoldable pub num_buckets : Buckets → ℕ
num_buckets no_buckets = 0
num_buckets (bucket actions handle tail) = num_buckets tail + 1

-- The eight bytes of a `uint64_t` in memory, on a little-endian host.
abbrev pub uint64_bytes : ℕ → Bytes
uint64_bytes v = go 8 v
  where
    go : ℕ → ℕ → Bytes
    go zero v = []
    go (suc n) v = (v % 256) ∷ go n (v / 256)

-- The loop goes on, or the function returns early: the packet is dropped from there on.
pub data Outcome : Type 0 where
  going_on : Context → Outcome
  returned : Context → Outcome

-- `dec_ttl` of one header: the attribute is noted, and the byte at the offset goes down unless it
-- is 0. Where it is or becomes 0, the function returns.
unfoldable pub dec_ttl : Context → Outcome
unfolding attr_bitmap_test set_if_populated
dec_ttl ctx =
    let ttl = get_or ctx.current_key.network 10 0 in
    let ctx4 = set_if_populated ipv4_field (put_network 10 ((ttl - 1) ∷ [])) ctx in
    let hlimit = get_or ctx4.current_key.network 38 0 in
    let ctx6 = set_if_populated ipv6_field (put_network 38 ((hlimit - 1) ∷ [])) ctx4 in
    let expired4 =
      if attr_bitmap_test ctx.current_key.populated (key_attr ipv4_field)
      then ttl - 1 == 0
      else false in
    let expired6 =
      if attr_bitmap_test ctx4.current_key.populated (key_attr ipv6_field)
      then hlimit - 1 == 0
      else false in
    if expired4 then returned ctx4 else if expired6 then returned ctx6 else going_on ctx6

-- What the packet's translation changes: the action context, and the handles of the counters that
-- the packet is to be added to.
pub record Translation : Type 0 where
  pub actx : Context
  pub stats : List ℕ

module _ (netlink_port : ℕ) where
  -- The cases of the `switch`, all but the group action.
  unfoldable pub translate_simple : Simple → Context → Outcome
  unfolding dec_ttl action_userspace action_output action_output_local action_output_in_port
      action_set_eth_dst action_set_eth_src action_set_vlan_vid action_set_vlan_pcp action_pop_vlan
      action_push_vlan action_set_ipv4_dst action_set_ipv4_src action_set_ipv4_dscp
      action_set_ipv4_ecn action_set_ipv4_ttl action_set_ipv6_dst action_set_ipv6_src
      action_set_ipv6_dscp action_set_ipv6_ecn action_set_ipv6_ttl action_set_ipv6_flabel
      action_set_tcp_src action_set_tcp_dst action_set_udp_src action_set_udp_dst
      action_set_priority
  translate_simple (controller userdata) ctx =
      going_on (action_userspace (uint64_bytes userdata) netlink_port ctx)
  translate_simple (output port_no) ctx = going_on (action_output port_no ctx)
  translate_simple local ctx = going_on (action_output_local ctx)
  translate_simple in_port ctx = going_on (action_output_in_port ctx)
  translate_simple (set_eth_dst v) ctx = going_on (action_set_eth_dst v ctx)
  translate_simple (set_eth_src v) ctx = going_on (action_set_eth_src v ctx)
  translate_simple (set_vlan_vid v) ctx = going_on (action_set_vlan_vid v ctx)
  translate_simple (set_vlan_pcp v) ctx = going_on (action_set_vlan_pcp v ctx)
  translate_simple pop_vlan ctx = going_on (action_pop_vlan ctx)
  translate_simple (push_vlan eth_type) ctx = going_on (action_push_vlan ctx)
  translate_simple (set_ipv4_dst v) ctx = going_on (action_set_ipv4_dst v ctx)
  translate_simple (set_ipv4_src v) ctx = going_on (action_set_ipv4_src v ctx)
  translate_simple (set_ipv6_dst v) ctx = going_on (action_set_ipv6_dst v ctx)
  translate_simple (set_ipv6_src v) ctx = going_on (action_set_ipv6_src v ctx)
  translate_simple (set_ipv6_flabel v) ctx = going_on (action_set_ipv6_flabel v ctx)
  translate_simple (set_ip_dscp v) ctx =
      going_on (action_set_ipv6_dscp v (action_set_ipv4_dscp v ctx))
  translate_simple (set_ip_ecn v) ctx = going_on (action_set_ipv6_ecn v (action_set_ipv4_ecn v ctx))
  translate_simple dec_nw_ttl ctx = dec_ttl ctx
  translate_simple (set_nw_ttl v) ctx = going_on (action_set_ipv6_ttl v (action_set_ipv4_ttl v ctx))
  translate_simple (set_tcp_dst v) ctx = going_on (action_set_tcp_dst v ctx)
  translate_simple (set_tcp_src v) ctx = going_on (action_set_tcp_src v ctx)
  translate_simple (set_udp_dst v) ctx = going_on (action_set_udp_dst v ctx)
  translate_simple (set_udp_src v) ctx = going_on (action_set_udp_src v ctx)
  translate_simple (set_tp_dst v) ctx = going_on (action_set_udp_dst v (action_set_tcp_dst v ctx))
  translate_simple (set_tp_src v) ctx = going_on (action_set_udp_src v (action_set_tcp_src v ctx))
  translate_simple (set_priority v) ctx = going_on (action_set_priority v ctx)

  module _ (hash : ℕ) where
    -- `pipeline_standard_translate_actions`, `process_group_bucket` and `process_group`.
    unfoldable mutual
      unfolding translate_simple num_buckets

      pub translate_actions : Actions → Translation → Translation
      translate_actions done w = w
      translate_actions (next (simple a) actions) w = elim (translate_simple a w.actx) [
        | going_on actx ↦ translate_actions actions (record w { actx = actx })
        | returned actx ↦ record w { actx = actx }
      ]
      translate_actions (next (group g) actions) w = translate_actions actions (process_group g w)

      pub process_group : Group → Translation → Translation
      process_group (make_group id type buckets) w =
          if num_buckets buckets == 0
          then w
          else if type == group_type_select
          then process_bucket (hash % num_buckets buckets) buckets w
          else if type == group_type_indirect
          then process_bucket 0 buckets w
          else if type == group_type_all
          then process_buckets buckets w
          else if type == group_type_ff
          then process_bucket 0 buckets w
          else w

      -- The bucket at an index.
      pub process_bucket : ℕ → Buckets → Translation → Translation
      process_bucket i no_buckets w = w
      process_bucket zero (bucket actions handle tail) w =
          let out = translate_actions actions w in record out { stats = out.stats ++ handle ∷ [] }
      process_bucket (suc i) (bucket actions handle tail) w = process_bucket i tail w

      pub process_buckets : Buckets → Translation → Translation
      process_buckets no_buckets w = w
      process_buckets (bucket actions handle tail) w =
          let out = translate_actions actions w in
          process_buckets tail (record out { stats = out.stats ++ handle ∷ [] })
