-- ===== src/PipelineStandard/Process.antt =====
-- modules/pipeline_standard/module/src/pipeline_standard.c: `pipeline_standard_process`, which takes
-- a packet through the tables, and `translate_cfr_mask`. The tcam of a table is an interface: it gives
-- the entry that matches and the mask with what it looked at. As in kflow.c,
-- the caller gives the mask that the action context points to, so the mask is the one of the context; a
-- context without one is that of upcall.c, which does not read its mask. The loop runs on fuel.
use ivs.Base.{
  ℕ, zero, suc, ◌+◌, ◌-◌, ◌^◌, Bool, true, false, Option, none, some, [], ◌∷◌, ◌++◌, ◌==◌,
  if◌then◌else◌, ◌>>=◌, replicate, take, drop, length,
}
use ivs.Action.{Bytes, Key, ntohs, write, mask_field, ethernet_field, action_userspace}
use ivs.PipelineStandard.{Translation, translate_actions, uint64_bytes}
use ivs.PipelineStandard.OpenFlow.{num_tables}
use ivs.PipelineStandard.Value.{Value}
use ivs.PipelineStandard.Cfr.{
  Cfr, zero_cfr, or_bytes, pipeline_standard_key_to_cfr, pipeline_standard_update_cfr,
}

-- `struct flowtable_entry`, as the loop reads it.
pub record FlowEntry : Type 0 where
  pub table_miss : Bool
  pub stats_handle : ℕ
  pub value : Value

-- `struct flowtable`, with `tcam_match_and_mask` of its tcam.
pub record Flowtable : Type 0 where
  pub tcam_match_and_mask : Cfr → Cfr → Option FlowEntry × Cfr
  pub matched_stats_handle : ℕ
  pub missed_stats_handle : ℕ

-- The macro `MASK`: `memor` at the offset of a field.
abbrev mask_at : ℕ → Bytes → Bytes → Bytes
mask_at offset bytes buffer =
    write offset (or_bytes (take (length bytes) (drop offset buffer)) bytes) buffer

abbrev is_set : Bytes → Bool
is_set [] = false
is_set (b ∷ bytes) = if b == 0 then is_set bytes else true

-- The macro `MASK_EXACT`: a field of some bytes at an offset is all ones where the bytes of the CFR's
-- mask are not zero.
abbrev mask_exact_at : ℕ → ℕ → Bytes → Bytes → Bytes
mask_exact_at offset size bytes buffer =
    if is_set bytes then write offset (replicate size 255) buffer else buffer

unfoldable pub mask_link : Cfr → Key → Key
mask_link cfr_mask mask = record mask {
  in_port = if cfr_mask.in_port == 0 then mask.in_port else 2 ^ 32 - 1;
  ethernet = mask_at 0 cfr_mask.dl_src (mask_at 6 cfr_mask.dl_dst mask.ethernet);
  ethertype = mask_exact_at 0 2 cfr_mask.dl_type mask.ethertype;
  vlan = mask_at 0 cfr_mask.dl_vlan mask.vlan;
}

-- By the type of the frame: IPv4, IPv6, ARP, or none of these.
unfoldable pub mask_network : ℕ → Cfr → Key → Key
mask_network ethertype cfr_mask mask =
    let tos = cfr_mask.nw_tos ∷ [] in
    let proto = cfr_mask.nw_proto ∷ [] in
    if ethertype == 2048
    then record mask {
      network =
          mask_at 4 cfr_mask.nw_dst
            (mask_at 0 cfr_mask.nw_src (mask_exact_at 8 1 proto (mask_at 9 tos mask.network)));
    }
    else if ethertype == 34525
    then record mask {
      network =
          mask_at 16 cfr_mask.ipv6_dst
            (mask_at 0 cfr_mask.ipv6_src (mask_exact_at 36 1 proto (mask_at 37 tos mask.network)));
    }
    else if ethertype == 2054
    then record mask {
      transport =
          mask_at 4 cfr_mask.nw_dst
            (mask_at 0 cfr_mask.nw_src (mask_exact_at 8 2 proto mask.transport));
    }
    else mask

-- By the protocol: TCP, UDP, ICMP, ICMPv6, or none of these.
unfoldable pub mask_transport : ℕ → Cfr → Key → Key
mask_transport proto cfr_mask mask =
    let ports : Key = record mask {
      transport = mask_at 2 cfr_mask.tp_dst (mask_at 0 cfr_mask.tp_src mask.transport);
    } in
    let icmp : Key = record mask {
      transport =
          mask_exact_at 1 1 cfr_mask.tp_dst (mask_exact_at 0 1 cfr_mask.tp_src mask.transport);
    } in
    if proto == 6
    then ports
    else if proto == 17
    then ports
    else if proto == 1
    then icmp
    else if proto == 58
    then icmp
    else mask

unfoldable pub translate_cfr_mask : Cfr → Cfr → Key → Key
unfolding mask_link mask_network mask_transport
translate_cfr_mask cfr cfr_mask mask =
    mask_transport cfr.nw_proto cfr_mask
      (mask_network (ntohs cfr.dl_type) cfr_mask (mask_link cfr_mask mask))

abbrev on_mask : (Key → Key) → Translation → Translation
on_mask f w = record w {
  actx = record (w.actx) { mask = elim w.actx.mask [ none ↦ none | some m ↦ some (f m) ] };
}

-- What the loop works on.
pub record Walk : Type 0 where
  pub cfr : Cfr
  pub cfr_mask : Cfr
  pub translation : Translation

abbrev pub add_stats : ℕ → Translation → Translation
add_stats handle w = record w { stats = w.stats ++ handle ∷ [] }

module _ (netlink_port : ℕ) (before_1_3 : Bool) (miss_userdata : ℕ)
    (flowtables : ℕ → Option Flowtable) where
  -- No entry matches: the packet goes to the controller before OpenFlow 1.3.
  unfoldable pub process_miss : Flowtable → Translation → Translation
  unfolding action_userspace
  process_miss flowtable w =
      let actx =
        if before_1_3
        then action_userspace (uint64_bytes miss_userdata) netlink_port w.actx
        else w.actx in
      add_stats flowtable.missed_stats_handle (record w { actx = actx })

  module _ (hash : ℕ) where
    unfoldable pub process_hit : Flowtable → FlowEntry → Cfr → Walk → Walk
    unfolding translate_actions pipeline_standard_update_cfr
    process_hit flowtable entry cfr_mask walk =
        let handle =
          if entry.table_miss
          then flowtable.missed_stats_handle
          else flowtable.matched_stats_handle in
        let actions = entry.value.apply_actions in
        record {
          cfr =
              if entry.value.next_table_id == 255
              then walk.cfr
              else pipeline_standard_update_cfr actions walk.cfr;
          cfr_mask = cfr_mask;
          translation =
              translate_actions netlink_port hash actions
                (add_stats entry.stats_handle (add_stats handle walk.translation));
        }

    -- The `while` loop; none stands for a failed assertion, and for the end of the fuel.
    unfoldable pub process_tables : ℕ → ℕ → Walk → Option Walk
    unfolding process_miss process_hit
    process_tables zero table_id walk = none
    process_tables (suc fuel) table_id walk = elim (table_id == 255) [
      | true ↦ some walk
      | false ↦ elim (flowtables table_id) [
        | none ↦ none
        | some flowtable ↦
            let found = flowtable.tcam_match_and_mask walk.cfr walk.cfr_mask in
            elim (found.0) [
              | none ↦ some (record walk {
                cfr_mask = found.1;
                translation = process_miss flowtable walk.translation;
              })
              | some entry ↦
                  process_tables fuel entry.value.next_table_id
                    (process_hit flowtable entry (found.1) walk)
            ]
      ]
    ]

module _ (murmur_hash : Bytes → ℕ) (of_port_dest_local of_dl_type_not_eth_type : ℕ)
    (netlink_port : ℕ) (before_1_3 : Bool) (miss_userdata : ℕ)
    (flowtables : ℕ → Option Flowtable) where
  abbrev pub opened : Translation → Translation
  opened = on_mask (mask_field ethernet_field)

  abbrev pub start : Key → Translation → Walk
  start key w = record {
    cfr = pipeline_standard_key_to_cfr of_port_dest_local of_dl_type_not_eth_type key;
    cfr_mask = zero_cfr;
    translation = opened w;
  }

  abbrev pub finish : Walk → Translation
  finish walk = on_mask (translate_cfr_mask walk.cfr walk.cfr_mask) walk.translation

  -- Each turn goes to a later table of the 16, so 17 turns are enough.
  unfoldable pub pipeline_standard_process : Key → Translation → Option Translation
  unfolding process_tables pipeline_standard_key_to_cfr translate_cfr_mask mask_field
  pipeline_standard_process key w = elim (flowtables 0) [
    | none ↦ some (opened w)
    | some flowtable ↦
        process_tables netlink_port before_1_3 miss_userdata flowtables (murmur_hash key.ethernet)
          (num_tables + 1) 0 (start key w)
        >>= λ walk. some (finish walk)
  ]
