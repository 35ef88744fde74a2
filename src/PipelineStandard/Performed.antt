-- ===== src/PipelineStandard/Performed.antt =====
-- modules/pipeline_standard/module/src/action.c: the translation does what it is to do.
use mathlib.Core.Path.{subst}
use ivs.Base.{
  ℕ, zero, suc, ◌%◌, ◌≡◌, refl, ap, ◌∙◌, Bool, true, false, [], ◌∷◌, ◌++◌, ◌==◌, if◌then◌else◌,
  arith, get_or, ◌-◌, sym,
}
use ivs.Action.{
  Context, output_attr, userspace_attr, commit_set_field_actions, action_userspace, action_output,
  action_output_local, action_output_in_port, mask_in, htons, htonl, ipv4_field, ipv6_field,
  ethernet_field, tcp_field, udp_field, Key,
}
use ivs.Action.Commit.{commit_set_field_actions-key}
use ivs.Action.Packet.{Packet}
use ivs.Action.Sent.{output-Sent, set_if_populated-msg, action_pop_vlan-msg, action_push_vlan-msg}
use ivs.Action.SetField.{
  set_if_populated, put_ethernet, put_network, put_transport, merge_network, action_set_eth_dst,
  action_set_eth_src, action_set_vlan_vid, action_set_vlan_pcp, action_set_ipv4_dst, set_vlan,
  action_set_ipv4_src, action_set_ipv4_dscp, action_set_ipv4_ecn, action_set_ipv4_ttl,
  action_set_ipv6_dst, action_set_ipv6_src, action_set_ipv6_dscp, action_set_ipv6_ecn,
  action_set_ipv6_ttl, action_set_ipv6_flabel, action_set_tcp_src, action_set_tcp_dst,
  action_set_udp_src, action_set_udp_dst, action_set_priority,
}
use ivs.Action.Tag.{IsGood}
use ivs.PipelineStandard.{
  Simple, Actions, Group, Buckets, Translation, Outcome, going_on, returned, dec_ttl,
  translate_simple, translate_actions, process_group, process_bucket, process_buckets, num_buckets,
  simple, group, done, next, make_group, no_buckets, bucket, uint64_bytes, group_type_select,
  group_type_indirect, group_type_all, group_type_ff, controller, output, local, in_port,
  set_eth_dst, set_eth_src, set_vlan_vid, set_vlan_pcp, pop_vlan, push_vlan, set_ipv4_dst,
  set_ipv4_src, set_ipv6_dst, set_ipv6_src, set_ipv6_flabel, set_ip_dscp, set_ip_ecn, dec_nw_ttl,
  set_nw_ttl, set_tcp_dst, set_tcp_src, set_udp_dst, set_udp_src, set_tp_dst, set_tp_src,
  set_priority,
}
use ivs.PipelineStandard.Synced.{Keeps, translate_simple-IsGood}
use ivs.PipelineStandard.Performs.{Does, Performs, PerformsGroup, PerformsBucket, PerformsBuckets}

module _ (netlink_port : ℕ) where
  dec_ttl-Does : (p : Packet) (ctx : Context) → Does netlink_port p dec_nw_ttl ctx (dec_ttl ctx)
  unfolding dec_ttl
  dec_ttl-Does p ctx =
      let ttl = get_or ctx.current_key.network 10 0 in
      let ctx4 = set_if_populated ipv4_field (put_network 10 ((ttl - 1) ∷ [])) ctx in
      let hlimit = get_or ctx4.current_key.network 38 0 in
      let ctx6 = set_if_populated ipv6_field (put_network 38 ((hlimit - 1) ∷ [])) ctx4 in
      let same4 = set_if_populated-msg ipv4_field (put_network 10 ((ttl - 1) ∷ [])) ctx in
      let same6 = set_if_populated-msg ipv6_field (put_network 38 ((hlimit - 1) ∷ [])) ctx4 in
      either _ _ ctx4 ctx6 same4 (same6 ∙ same4)
    where
      either :
          (four six : Bool) (ctx4 ctx6 : Context)
          → ctx4.msg ≡ ctx.msg
          → ctx6.msg ≡ ctx.msg
          → Does netlink_port p dec_nw_ttl ctx
              (if four then returned ctx4 else if six then returned ctx6 else going_on ctx6)
      either true six ctx4 ctx6 a b = a
      either false true ctx4 ctx6 a b = b
      either false false ctx4 ctx6 a b = b

  translate_simple-Does :
      (p : Packet) (a : Simple) (ctx : Context)
      → IsGood p ctx
      → Does netlink_port p a ctx (translate_simple netlink_port a ctx)
  unfolding translate_simple mask_in action_userspace action_output action_output_local
      action_output_in_port action_set_eth_dst action_set_eth_src action_set_vlan_vid
      action_set_vlan_pcp set_vlan action_set_ipv4_dst action_set_ipv4_src action_set_ipv4_dscp
      action_set_ipv4_ecn action_set_ipv4_ttl action_set_ipv6_dst action_set_ipv6_src
      action_set_ipv6_dscp action_set_ipv6_ecn action_set_ipv6_ttl action_set_ipv6_flabel
      action_set_tcp_dst action_set_tcp_src action_set_udp_dst action_set_udp_src
      action_set_priority
  translate_simple-Does p (controller v) ctx g =
      output-Sent p (userspace_attr netlink_port (uint64_bytes v)) ctx g.synced
  translate_simple-Does p (output v) ctx g = output-Sent p (output_attr v) ctx g.synced
  translate_simple-Does p local ctx g = output-Sent p (output_attr 0) ctx g.synced
  translate_simple-Does p in_port ctx g =
      let (changes, e, quiet, current, same_key) =
        output-Sent p (output_attr (commit_set_field_actions ctx).current_key.in_port) ctx
          g.synced in
      (
        changes,
        e
            ∙ ap (λ (n : ℕ). (ctx.msg ++ changes) ++ output_attr n ∷ [])
                (ap (λ (key : Key). key.in_port) (commit_set_field_actions-key ctx)),
        quiet,
        current,
        same_key,
      )
  translate_simple-Does p (set_eth_dst v) ctx g =
      set_if_populated-msg ethernet_field (put_ethernet 6 v) ctx
  translate_simple-Does p (set_eth_src v) ctx g =
      set_if_populated-msg ethernet_field (put_ethernet 0 v) ctx
  translate_simple-Does p (set_vlan_vid v) ctx g = refl
  translate_simple-Does p (set_vlan_pcp v) ctx g = refl
  translate_simple-Does p pop_vlan ctx g = action_pop_vlan-msg ctx
  translate_simple-Does p (push_vlan v) ctx g = action_push_vlan-msg ctx
  translate_simple-Does p (set_ipv4_dst v) ctx g =
      set_if_populated-msg ipv4_field (put_network 4 (htonl v)) ctx
  translate_simple-Does p (set_ipv4_src v) ctx g =
      set_if_populated-msg ipv4_field (put_network 0 (htonl v)) ctx
  translate_simple-Does p (set_ipv6_dst v) ctx g =
      set_if_populated-msg ipv6_field (put_network 16 v) ctx
  translate_simple-Does p (set_ipv6_src v) ctx g =
      set_if_populated-msg ipv6_field (put_network 0 v) ctx
  translate_simple-Does p (set_ipv6_flabel v) ctx g =
      set_if_populated-msg ipv6_field (put_network 32 (htonl v)) ctx
  translate_simple-Does p (set_ip_dscp v) ctx g =
      set_if_populated-msg ipv6_field (merge_network 37 3 v) (action_set_ipv4_dscp v ctx)
      ∙ set_if_populated-msg ipv4_field (merge_network 9 3 v) ctx
  translate_simple-Does p (set_ip_ecn v) ctx g =
      set_if_populated-msg ipv6_field (merge_network 37 252 v) (action_set_ipv4_ecn v ctx)
      ∙ set_if_populated-msg ipv4_field (merge_network 9 252 v) ctx
  translate_simple-Does p dec_nw_ttl ctx g = dec_ttl-Does p ctx
  translate_simple-Does p (set_nw_ttl v) ctx g =
      set_if_populated-msg ipv6_field (put_network 38 (v ∷ [])) (action_set_ipv4_ttl v ctx)
      ∙ set_if_populated-msg ipv4_field (put_network 10 (v ∷ [])) ctx
  translate_simple-Does p (set_tcp_dst v) ctx g =
      set_if_populated-msg tcp_field (put_transport 2 (htons v)) ctx
  translate_simple-Does p (set_tcp_src v) ctx g =
      set_if_populated-msg tcp_field (put_transport 0 (htons v)) ctx
  translate_simple-Does p (set_udp_dst v) ctx g =
      set_if_populated-msg udp_field (put_transport 2 (htons v)) ctx
  translate_simple-Does p (set_udp_src v) ctx g =
      set_if_populated-msg udp_field (put_transport 0 (htons v)) ctx
  translate_simple-Does p (set_tp_dst v) ctx g =
      set_if_populated-msg udp_field (put_transport 2 (htons v)) (action_set_tcp_dst v ctx)
      ∙ set_if_populated-msg tcp_field (put_transport 2 (htons v)) ctx
  translate_simple-Does p (set_tp_src v) ctx g =
      set_if_populated-msg udp_field (put_transport 0 (htons v)) (action_set_tcp_src v ctx)
      ∙ set_if_populated-msg tcp_field (put_transport 0 (htons v)) ctx
  translate_simple-Does p (set_priority v) ctx g = refl

  module _ (p : Packet) (hash : ℕ) where
    -- The context that is reached is good, and it is the one that the actions lead to.
    abbrev Leads : (Context → Type 0) → Context → Type 0
    Leads To ctx' = IsGood p ctx' × To ctx'

    outcome-Leads :
        (a : Simple) (actions : Actions) (ctx : Context) (o : Outcome)
        (rest : Context → Translation) (dropped : Context → Translation)
        → Keeps p o
        → ((next_ctx : Context)
            → IsGood p next_ctx
            → Leads (Performs netlink_port p hash actions next_ctx) (rest next_ctx).actx)
        → ((last : Context) → (dropped last).actx ≡ last)
        → Leads
            (λ ctx'. elim o [
              | going_on next_ctx ↦ Performs netlink_port p hash actions next_ctx ctx'
              | returned last ↦ ctx' ≡ last
            ])
            (elim o as (λ x. Translation) [ going_on c ↦ rest c | returned c ↦ dropped c ]).actx
    outcome-Leads a actions ctx (going_on c) rest dropped good after stop = after c good
    outcome-Leads a actions ctx (returned c) rest dropped good after stop =
        (subst (IsGood p) (sym (stop c)) good, stop c)

    -- The choice of `process_group`.
    choice-Leads :
        (empty select indirect all ff : Bool) (w one head every : Translation)
        (One Head Every : Context → Type 0)
        → IsGood p w.actx
        → Leads One one.actx
        → Leads Head head.actx
        → Leads Every every.actx
        → (empty ≡ true → One w.actx × Head w.actx × Every w.actx)
        → Leads
            (λ ctx'.
              if select
              then One ctx'
              else if indirect
              then Head ctx'
              else if all
              then Every ctx'
              else if ff
              then Head ctx'
              else ctx' ≡ w.actx)
            (if empty
              then w
              else if select
              then one
              else if indirect
              then head
              else if all
              then every
              else if ff
              then head
              else w).actx
    choice-Leads true true i a f w one head every One Head Every g x y z e = (g, (e refl).0)
    choice-Leads true false true a f w one head every One Head Every g x y z e = (g, (e refl).1)
    choice-Leads true false false true f w one head every One Head Every g x y z e = (g, (e refl).2)
    choice-Leads true false false false true w one head every One Head Every g x y z e =
        (g, (e refl).1)
    choice-Leads true false false false false w one head every One Head Every g x y z e = (g, refl)
    choice-Leads false true i a f w one head every One Head Every g x y z e = x
    choice-Leads false false true a f w one head every One Head Every g x y z e = y
    choice-Leads false false false true f w one head every One Head Every g x y z e = z
    choice-Leads false false false false true w one head every One Head Every g x y z e = y
    choice-Leads false false false false false w one head every One Head Every g x y z e = (g, refl)

    none-bucket :
        (i : ℕ) (buckets : Buckets) (ctx : Context)
        → (num_buckets buckets == 0) ≡ true
        → PerformsBucket netlink_port p hash i buckets ctx ctx
    unfolding PerformsBucket num_buckets
    none-bucket i no_buckets ctx h = refl
    none-bucket i (bucket actions handle tail) ctx h = absurd (ground (arith, h))

    none-buckets :
        (buckets : Buckets) (ctx : Context)
        → (num_buckets buckets == 0) ≡ true
        → PerformsBuckets netlink_port p hash buckets ctx ctx
    unfolding PerformsBuckets num_buckets
    none-buckets no_buckets ctx h = refl
    none-buckets (bucket actions handle tail) ctx h = absurd (ground (arith, h))

    mutual
      unfolding translate_actions Performs

      actions-Leads :
          (actions : Actions) (w : Translation)
          → IsGood p w.actx
          → Leads
              (Performs netlink_port p hash actions w.actx)
              (translate_actions netlink_port hash actions w).actx
      actions-Leads done w g = (g, refl)
      actions-Leads (next (simple a) actions) w g =
          let (good, led) =
            outcome-Leads a actions w.actx (translate_simple netlink_port a w.actx)
              (λ actx. translate_actions netlink_port hash actions (record w { actx = actx }))
              (λ actx. record w { actx = actx }) (translate_simple-IsGood netlink_port p a w.actx g)
              (λ actx good. actions-Leads actions (record w { actx = actx }) good) (λ actx. refl) in
          (good, (translate_simple-Does p a w.actx g, led))
      actions-Leads (next (group g) actions) w good =
          let between = process_group netlink_port hash g w in
          let (there, first) = group-Leads g w good in
          let (last, then_) = actions-Leads actions between there in
          (last, (between.actx, first, then_))

      group-Leads :
          (g : Group) (w : Translation)
          → IsGood p w.actx
          → Leads
              (PerformsGroup netlink_port p hash g w.actx)
              (process_group netlink_port hash g w).actx
      group-Leads (make_group id type buckets) w g =
          let chosen = hash % num_buckets buckets in
          choice-Leads (num_buckets buckets == 0) (type == group_type_select)
            (type == group_type_indirect) (type == group_type_all) (type == group_type_ff) w
            (process_bucket netlink_port hash chosen buckets w)
            (process_bucket netlink_port hash 0 buckets w)
            (process_buckets netlink_port hash buckets w)
            (PerformsBucket netlink_port p hash chosen buckets w.actx)
            (PerformsBucket netlink_port p hash 0 buckets w.actx)
            (PerformsBuckets netlink_port p hash buckets w.actx) g (bucket-Leads chosen buckets w g)
            (bucket-Leads 0 buckets w g) (buckets-Leads buckets w g)
            (λ h. (
              none-bucket chosen buckets w.actx h,
              none-bucket 0 buckets w.actx h,
              none-buckets buckets w.actx h,
            ))

      bucket-Leads :
          (i : ℕ) (buckets : Buckets) (w : Translation)
          → IsGood p w.actx
          → Leads
              (PerformsBucket netlink_port p hash i buckets w.actx)
              (process_bucket netlink_port hash i buckets w).actx
      bucket-Leads i no_buckets w g = (g, refl)
      bucket-Leads zero (bucket actions handle tail) w g = actions-Leads actions w g
      bucket-Leads (suc i) (bucket actions handle tail) w g = bucket-Leads i tail w g

      buckets-Leads :
          (buckets : Buckets) (w : Translation)
          → IsGood p w.actx
          → Leads
              (PerformsBuckets netlink_port p hash buckets w.actx)
              (process_buckets netlink_port hash buckets w).actx
      buckets-Leads no_buckets w g = (g, refl)
      buckets-Leads (bucket actions handle tail) w g =
          let out = translate_actions netlink_port hash actions w in
          let between : Translation = record out { stats = out.stats ++ handle ∷ [] } in
          let (there, first) = actions-Leads actions w g in
          let (last, then_) = buckets-Leads tail between there in
          (last, (between.actx, first, then_))
