-- ===== src/PipelineStandard/Synced.antt =====
-- modules/pipeline_standard/module/src/action.c: the actions of a packet, one by one, and the context
-- that is synchronised with the packet.
use ivs.Base.{ℕ, ◌-◌, refl, Bool, true, false, [], ◌∷◌, if◌then◌else◌, get_or, bit_and, bit_or}
use ivs.Action.{
  Context, htons, htonl, vlan_tci, vlan_vid, vlan_pcp, output_attr, userspace_attr,
  commit_set_field_actions, in_port_field, ipv4_field, ipv6_field, action_userspace, action_output,
  action_output_local, action_output_in_port,
}
use ivs.Action.Packet.{Packet}
use ivs.Action.SetField.{
  set_if_populated, put_network, merge_network, current_tci, action_set_eth_dst, action_set_eth_src,
  action_set_vlan_vid, action_set_vlan_pcp, action_pop_vlan, action_push_vlan, action_set_ipv4_dst,
  action_set_ipv4_src, action_set_ipv4_dscp, action_set_ipv4_ecn, action_set_ipv4_ttl,
  action_set_ipv6_dst, action_set_ipv6_src, action_set_ipv6_dscp, action_set_ipv6_ecn,
  action_set_ipv6_ttl, action_set_ipv6_flabel, action_set_tcp_src, action_set_tcp_dst,
  action_set_udp_src, action_set_udp_dst, action_set_priority,
}
use ivs.Action.Tag.{
  IsGood, set_vlan-IsGood, action_pop_vlan-IsGood, action_push_vlan-IsGood,
  action_set_priority-IsGood,
}
use ivs.PipelineStandard.{
  Simple, Outcome, going_on, returned, dec_ttl, translate_simple, uint64_bytes, controller, output,
  local, in_port, set_eth_dst, set_eth_src, set_vlan_vid, set_vlan_pcp, pop_vlan, push_vlan,
  set_ipv4_dst, set_ipv4_src, set_ipv6_dst, set_ipv6_src, set_ipv6_flabel, set_ip_dscp, set_ip_ecn,
  dec_nw_ttl, set_nw_ttl, set_tcp_dst, set_tcp_src, set_udp_dst, set_udp_src, set_tp_dst,
  set_tp_src, set_priority,
}
use ivs.PipelineStandard.Fields.{
  output-IsGood, mask_in-IsGood, set_ethernet-IsGood, set_ipv4-IsGood, set_ipv6-IsGood,
  set_tcp-IsGood, set_udp-IsGood,
}

abbrev pub Keeps : Packet → Outcome → Type 0
Keeps p (going_on ctx) = IsGood p ctx
Keeps p (returned ctx) = IsGood p ctx

merge_ipv4-IsGood :
    (p : Packet) (offset kept value : ℕ) (ctx : Context)
    → IsGood p ctx
    → IsGood p (set_if_populated ipv4_field (merge_network offset kept value) ctx)
unfolding set_if_populated
merge_ipv4-IsGood p offset kept value ctx v =
    set_ipv4-IsGood p offset
      (bit_or (bit_and (get_or ctx.current_key.network offset 0) kept) value ∷ []) ctx v

merge_ipv6-IsGood :
    (p : Packet) (offset kept value : ℕ) (ctx : Context)
    → IsGood p ctx
    → IsGood p (set_if_populated ipv6_field (merge_network offset kept value) ctx)
unfolding set_if_populated
merge_ipv6-IsGood p offset kept value ctx v =
    set_ipv6-IsGood p offset
      (bit_or (bit_and (get_or ctx.current_key.network offset 0) kept) value ∷ []) ctx v

either-Keeps :
    (p : Packet) (four six : Bool) (ctx4 ctx6 : Context)
    → IsGood p ctx4
    → IsGood p ctx6
    → Keeps p (if four then returned ctx4 else if six then returned ctx6 else going_on ctx6)
either-Keeps p true six ctx4 ctx6 a b = a
either-Keeps p false true ctx4 ctx6 a b = b
either-Keeps p false false ctx4 ctx6 a b = b

dec_ttl-IsGood : (p : Packet) (ctx : Context) → IsGood p ctx → Keeps p (dec_ttl ctx)
unfolding dec_ttl
dec_ttl-IsGood p ctx v =
    let ttl = get_or ctx.current_key.network 10 0 in
    let ctx4 = set_if_populated ipv4_field (put_network 10 ((ttl - 1) ∷ [])) ctx in
    let good4 = set_ipv4-IsGood p 10 ((ttl - 1) ∷ []) ctx v in
    let hlimit = get_or ctx4.current_key.network 38 0 in
    let good6 = set_ipv6-IsGood p 38 ((hlimit - 1) ∷ []) ctx4 good4 in
    either-Keeps p _ _ _ _ good4 good6

module _ (netlink_port : ℕ) where
  pub translate_simple-IsGood :
      (p : Packet) (a : Simple) (ctx : Context)
      → IsGood p ctx
      → Keeps p (translate_simple netlink_port a ctx)
  unfolding translate_simple set_if_populated current_tci action_userspace action_output
      action_output_local action_output_in_port action_set_eth_dst action_set_eth_src
      action_set_vlan_vid action_set_vlan_pcp action_pop_vlan action_push_vlan action_set_ipv4_dst
      action_set_ipv4_src action_set_ipv4_dscp action_set_ipv4_ecn action_set_ipv4_ttl
      action_set_ipv6_dst action_set_ipv6_src action_set_ipv6_dscp action_set_ipv6_ecn
      action_set_ipv6_ttl action_set_ipv6_flabel action_set_tcp_src action_set_tcp_dst
      action_set_udp_src action_set_udp_dst action_set_priority
  translate_simple-IsGood p (controller v) ctx g =
      mask_in-IsGood p in_port_field _
        (output-IsGood p (userspace_attr netlink_port (uint64_bytes v)) ctx (λ q. refl) g)
  translate_simple-IsGood p (output v) ctx g = output-IsGood p (output_attr v) ctx (λ q. refl) g
  translate_simple-IsGood p local ctx g = output-IsGood p (output_attr 0) ctx (λ q. refl) g
  translate_simple-IsGood p in_port ctx g = mask_in-IsGood p in_port_field _ (
      output-IsGood p (output_attr (commit_set_field_actions ctx).current_key.in_port) ctx
        (λ q. refl) g)
  translate_simple-IsGood p (set_eth_dst v) ctx g = set_ethernet-IsGood p 6 v ctx g
  translate_simple-IsGood p (set_eth_src v) ctx g = set_ethernet-IsGood p 0 v ctx g
  translate_simple-IsGood p (set_vlan_vid v) ctx g =
      set_vlan-IsGood p (vlan_tci v (vlan_pcp (current_tci ctx.current_key))) ctx g
  translate_simple-IsGood p (set_vlan_pcp v) ctx g =
      set_vlan-IsGood p (vlan_tci (vlan_vid (current_tci ctx.current_key)) v) ctx g
  translate_simple-IsGood p pop_vlan ctx g = action_pop_vlan-IsGood p ctx g
  translate_simple-IsGood p (push_vlan v) ctx g = action_push_vlan-IsGood p ctx g
  translate_simple-IsGood p (set_ipv4_dst v) ctx g = set_ipv4-IsGood p 4 (htonl v) ctx g
  translate_simple-IsGood p (set_ipv4_src v) ctx g = set_ipv4-IsGood p 0 (htonl v) ctx g
  translate_simple-IsGood p (set_ipv6_dst v) ctx g = set_ipv6-IsGood p 16 v ctx g
  translate_simple-IsGood p (set_ipv6_src v) ctx g = set_ipv6-IsGood p 0 v ctx g
  translate_simple-IsGood p (set_ipv6_flabel v) ctx g = set_ipv6-IsGood p 32 (htonl v) ctx g
  translate_simple-IsGood p (set_ip_dscp v) ctx g =
      merge_ipv6-IsGood p 37 3 v (action_set_ipv4_dscp v ctx) (merge_ipv4-IsGood p 9 3 v ctx g)
  translate_simple-IsGood p (set_ip_ecn v) ctx g =
      merge_ipv6-IsGood p 37 252 v (action_set_ipv4_ecn v ctx) (merge_ipv4-IsGood p 9 252 v ctx g)
  translate_simple-IsGood p dec_nw_ttl ctx g = dec_ttl-IsGood p ctx g
  translate_simple-IsGood p (set_nw_ttl v) ctx g =
      set_ipv6-IsGood p 38 (v ∷ []) (action_set_ipv4_ttl v ctx)
        (set_ipv4-IsGood p 10 (v ∷ []) ctx g)
  translate_simple-IsGood p (set_tcp_dst v) ctx g = set_tcp-IsGood p 2 (htons v) ctx g
  translate_simple-IsGood p (set_tcp_src v) ctx g = set_tcp-IsGood p 0 (htons v) ctx g
  translate_simple-IsGood p (set_udp_dst v) ctx g = set_udp-IsGood p 2 (htons v) ctx g
  translate_simple-IsGood p (set_udp_src v) ctx g = set_udp-IsGood p 0 (htons v) ctx g
  translate_simple-IsGood p (set_tp_dst v) ctx g =
      set_udp-IsGood p 2 (htons v) (action_set_tcp_dst v ctx) (set_tcp-IsGood p 2 (htons v) ctx g)
  translate_simple-IsGood p (set_tp_src v) ctx g =
      set_udp-IsGood p 0 (htons v) (action_set_tcp_src v ctx) (set_tcp-IsGood p 0 (htons v) ctx g)
  translate_simple-IsGood p (set_priority v) ctx g = action_set_priority-IsGood p v ctx g
