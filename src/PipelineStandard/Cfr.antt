-- ===== src/PipelineStandard/Cfr.antt =====
-- modules/pipeline_standard/module/src/cfr.c and cfr.h: the canonical flow representation that the
-- tables match, with `pipeline_standard_update_cfr` and `memor` of pipeline_standard.c. A field
-- of more than a byte is its bytes in memory, the host's words the lowest byte first; `in_port` is a
-- word. The constants of LOCI are parameters.
use ivs.Base.{
  ℕ, zero, suc, ◌/◌, ◌%◌, ◌^◌, bit_and, bit_or, Bool, [], ◌∷◌, leb, ◌==◌, if◌then◌else◌, get_or,
  take, drop, replicate,
}
use ivs.Action.{
  Bytes, Key, attr_bitmap_test, key_attr, Field, ethertype_field, vlan_field, ipv4_field,
  ipv6_field, arp_field, tcp_field, udp_field, icmp_field, icmpv6_field, htons, ntohs, vlan_tci,
  vlan_vid, vlan_pcp,
}
use ivs.PipelineStandard.{
  Simple, Actions, simple, group, done, next, set_eth_dst, set_eth_src, set_ipv4_dst, set_ipv4_src,
  set_ip_dscp, set_ip_ecn, set_tcp_dst, set_udp_dst, set_tp_dst, set_tcp_src, set_udp_src,
  set_tp_src, set_vlan_vid, set_vlan_pcp, set_ipv6_dst, set_ipv6_src,
}

-- `struct pipeline_standard_cfr`, but for its padding, which is always zero.
pub record Cfr : Type 0 where
  pub in_port : ℕ
  pub dl_dst : Bytes
  pub dl_src : Bytes
  pub dl_type : Bytes
  pub dl_vlan : Bytes
  pub nw_tos : ℕ
  pub nw_proto : ℕ
  pub nw_src : Bytes
  pub nw_dst : Bytes
  pub tp_src : Bytes
  pub tp_dst : Bytes
  pub ipv6_src : Bytes
  pub ipv6_dst : Bytes

abbrev pub zeroes : ℕ → Bytes
zeroes n = replicate n 0

-- `memset(&cfr_mask, 0, sizeof(cfr_mask))`, and the fields of the CFR that a packet does not have
abbrev pub zero_cfr : Cfr
zero_cfr = record {
  in_port = 0;
  dl_dst = zeroes 6;
  dl_src = zeroes 6;
  dl_type = zeroes 2;
  dl_vlan = zeroes 2;
  nw_tos = 0;
  nw_proto = 0;
  nw_src = zeroes 4;
  nw_dst = zeroes 4;
  tp_src = zeroes 2;
  tp_dst = zeroes 2;
  ipv6_src = zeroes 16;
  ipv6_dst = zeroes 16;
}

abbrev slice : ℕ → ℕ → Bytes → Bytes
slice offset n bytes = take n (drop offset bytes)

abbrev is_populated : Field → Key → Bool
is_populated field key = attr_bitmap_test key.populated (key_attr field)

-- `memor(dst, src, len)`, byte by byte.
abbrev pub or_bytes : Bytes → Bytes → Bytes
or_bytes (d ∷ ds) (s ∷ ss) = bit_or d s ∷ or_bytes ds ss
or_bytes ds _ = ds

-- The fields of the network header in use: IPv4, IPv6, ARP, or none.
unfoldable pub network_to_cfr : Key → Cfr → Cfr
unfolding attr_bitmap_test
network_to_cfr key cfr =
    if is_populated ipv4_field key
    then record cfr {
      nw_tos = get_or key.network 9 0;
      nw_proto = get_or key.network 8 0;
      nw_src = slice 0 4 key.network;
      nw_dst = slice 4 4 key.network;
    }
    else if is_populated ipv6_field key
    then record cfr {
      nw_tos = get_or key.network 37 0;
      nw_proto = get_or key.network 36 0;
      ipv6_src = slice 0 16 key.network;
      ipv6_dst = slice 16 16 key.network;
    }
    else if is_populated arp_field key
    then record cfr {
      nw_proto = bit_and (ntohs (slice 8 2 key.transport)) 255;
      nw_src = slice 0 4 key.transport;
      nw_dst = slice 4 4 key.transport;
    }
    else cfr

unfoldable pub transport_to_cfr : Key → Cfr → Cfr
unfolding attr_bitmap_test
transport_to_cfr key cfr =
    let ports : Cfr = record cfr {
      tp_src = slice 0 2 key.transport;
      tp_dst = slice 2 2 key.transport;
    } in
    let icmp : Cfr = record cfr {
      tp_src = 0 ∷ get_or key.transport 0 0 ∷ [];
      tp_dst = 0 ∷ get_or key.transport 1 0 ∷ [];
    } in
    if is_populated tcp_field key
    then ports
    else if is_populated udp_field key
    then ports
    else if is_populated icmp_field key
    then icmp
    else if is_populated icmpv6_field key
    then icmp
    else cfr

module _ (of_port_dest_local of_dl_type_not_eth_type : ℕ) where
  unfoldable pub pipeline_standard_key_to_cfr : Key → Cfr
  unfolding network_to_cfr transport_to_cfr attr_bitmap_test
  pipeline_standard_key_to_cfr key =
      let no_type = htons of_dl_type_not_eth_type in
      let dl_type =
        if is_populated ethertype_field key
        then (if leb (ntohs key.ethertype) of_dl_type_not_eth_type then no_type else key.ethertype)
        else no_type in
      let dl_vlan =
        if is_populated vlan_field key then or_bytes key.vlan (htons (2 ^ 12)) else zeroes 2 in
      transport_to_cfr key (
        network_to_cfr key (record zero_cfr {
          in_port = if key.in_port == 0 then of_port_dest_local else key.in_port;
          dl_dst = slice 6 6 key.ethernet;
          dl_src = slice 0 6 key.ethernet;
          dl_type = dl_type;
          dl_vlan = dl_vlan;
        }))

-- A host word as its bytes in memory.
abbrev word_bytes : ℕ → ℕ → Bytes
word_bytes zero v = []
word_bytes (suc n) v = v % 256 ∷ word_bytes n (v / 256)

-- The cases of the `switch` of `pipeline_standard_update_cfr`.
unfoldable pub update_simple : Simple → Cfr → Cfr
unfolding vlan_tci vlan_vid vlan_pcp
update_simple (set_eth_dst v) cfr = record cfr { dl_dst = take 6 v }
update_simple (set_eth_src v) cfr = record cfr { dl_src = take 6 v }
update_simple (set_ipv4_dst v) cfr = record cfr { nw_dst = word_bytes 4 v }
update_simple (set_ipv4_src v) cfr = record cfr { nw_src = word_bytes 4 v }
update_simple (set_ip_dscp v) cfr = record cfr { nw_tos = bit_or (bit_and cfr.nw_tos 3) v }
update_simple (set_ip_ecn v) cfr = record cfr { nw_tos = bit_or (bit_and cfr.nw_tos 252) v }
update_simple (set_tcp_dst v) cfr = record cfr { tp_dst = word_bytes 2 v }
update_simple (set_udp_dst v) cfr = record cfr { tp_dst = word_bytes 2 v }
update_simple (set_tp_dst v) cfr = record cfr { tp_dst = word_bytes 2 v }
update_simple (set_tcp_src v) cfr = record cfr { tp_src = word_bytes 2 v }
update_simple (set_udp_src v) cfr = record cfr { tp_src = word_bytes 2 v }
update_simple (set_tp_src v) cfr = record cfr { tp_src = word_bytes 2 v }
update_simple (set_vlan_vid v) cfr = record cfr {
  dl_vlan = htons (bit_or (vlan_tci v (vlan_pcp (ntohs cfr.dl_vlan))) (2 ^ 12));
}
update_simple (set_vlan_pcp v) cfr = record cfr {
  dl_vlan = htons (bit_or (vlan_tci (vlan_vid (ntohs cfr.dl_vlan)) v) (2 ^ 12));
}
update_simple (set_ipv6_dst v) cfr = record cfr { ipv6_dst = take 16 v }
update_simple (set_ipv6_src v) cfr = record cfr { ipv6_src = take 16 v }
update_simple _ cfr = cfr

unfoldable pub pipeline_standard_update_cfr : Actions → Cfr → Cfr
unfolding update_simple
pipeline_standard_update_cfr done cfr = cfr
pipeline_standard_update_cfr (next (simple a) actions) cfr =
    pipeline_standard_update_cfr actions (update_simple a cfr)
pipeline_standard_update_cfr (next (group g) actions) cfr = pipeline_standard_update_cfr actions cfr
