-- ===== src/Action/SetField.antt =====
-- modules/action/module/src/action.c: the set-field actions, which change the current key and note
-- the attribute in `modified_attrs`.
use ivs.Base.{ℕ, bit_and, bit_or, [], ◌∷◌, if◌then◌else◌, get_or}
use ivs.Action.{
  Bytes, Key, Field, Context, key_attr, attr_bitmap_test, attr_bitmap_set, attr_bitmap_clear,
  vlan_tci, vlan_vid, vlan_pcp, vlan_cfi_bit, htons, htonl, ntohs, write, priority_field,
  ethernet_field, vlan_field, ipv4_field, ipv6_field, tcp_field, udp_field,
}

-- The frame that most set-field actions share: where the attribute is populated, it is noted as
-- modified and the key changes.
unfoldable pub set_if_populated : Field → (Key → Key) → Context → Context
unfolding attr_bitmap_test attr_bitmap_set
set_if_populated f change ctx =
    if attr_bitmap_test ctx.current_key.populated (key_attr f)
    then record ctx {
      modified_attrs = attr_bitmap_set ctx.modified_attrs (key_attr f);
      current_key = change ctx.current_key;
    }
    else ctx

-- Writes to the byte buffers of the key.
abbrev pub put_ethernet : ℕ → Bytes → Key → Key
put_ethernet offset bytes key = record key { ethernet = write offset bytes key.ethernet }

abbrev pub put_network : ℕ → Bytes → Key → Key
put_network offset bytes key = record key { network = write offset bytes key.network }

abbrev pub put_transport : ℕ → Bytes → Key → Key
put_transport offset bytes key = record key { transport = write offset bytes key.transport }

-- `byte &= kept; byte |= value` at an offset of the network header.
abbrev pub merge_network : ℕ → ℕ → ℕ → Key → Key
merge_network offset kept value key =
    put_network offset (bit_or (bit_and (get_or key.network offset 0) kept) value ∷ []) key

unfoldable pub action_set_eth_dst : Bytes → Context → Context
unfolding set_if_populated
action_set_eth_dst mac = set_if_populated ethernet_field (put_ethernet 6 mac)

unfoldable pub action_set_eth_src : Bytes → Context → Context
unfolding set_if_populated
action_set_eth_src mac = set_if_populated ethernet_field (put_ethernet 0 mac)

unfoldable pub action_set_eth_dst_scalar : ℕ → ℕ → Context → Context
unfolding set_if_populated
action_set_eth_dst_scalar mac_lo mac_hi =
    set_if_populated ethernet_field
      (λ key. put_ethernet 6 (htons mac_hi) (put_ethernet 8 (htonl mac_lo) key))

unfoldable pub action_set_eth_src_scalar : ℕ → ℕ → Context → Context
unfolding set_if_populated
action_set_eth_src_scalar mac_lo mac_hi =
    set_if_populated ethernet_field
      (λ key. put_ethernet 0 (htons mac_hi) (put_ethernet 2 (htonl mac_lo) key))

-- The current TCI, and the key with the attribute populated.
unfoldable pub current_tci : Key → ℕ
unfolding attr_bitmap_test
current_tci key =
    if attr_bitmap_test key.populated (key_attr vlan_field) then ntohs key.vlan else vlan_cfi_bit

unfoldable pub populate_vlan : Key → ℕ
unfolding attr_bitmap_test attr_bitmap_set
populate_vlan key =
    if attr_bitmap_test key.populated (key_attr vlan_field)
    then key.populated
    else attr_bitmap_set key.populated (key_attr vlan_field)

unfoldable pub set_vlan : ℕ → Context → Context
unfolding attr_bitmap_set populate_vlan
set_vlan tci ctx = record ctx {
  modified_attrs = attr_bitmap_set ctx.modified_attrs (key_attr vlan_field);
  current_key = record ctx.current_key {
    populated = populate_vlan ctx.current_key;
    vlan = htons (bit_or tci vlan_cfi_bit);
  };
}

unfoldable pub action_set_vlan_vid : ℕ → Context → Context
unfolding vlan_tci vlan_pcp set_vlan current_tci
action_set_vlan_vid vid ctx = set_vlan (vlan_tci vid (vlan_pcp (current_tci ctx.current_key))) ctx

unfoldable pub action_set_vlan_pcp : ℕ → Context → Context
unfolding vlan_tci vlan_vid set_vlan current_tci
action_set_vlan_pcp pcp ctx = set_vlan (vlan_tci (vlan_vid (current_tci ctx.current_key)) pcp) ctx

unfoldable pub action_pop_vlan : Context → Context
unfolding set_if_populated attr_bitmap_clear
action_pop_vlan =
    set_if_populated vlan_field
      (λ key. record key { populated = attr_bitmap_clear key.populated (key_attr vlan_field) })

unfoldable pub action_push_vlan : Context → Context
unfolding attr_bitmap_test attr_bitmap_set
action_push_vlan ctx =
    if attr_bitmap_test ctx.current_key.populated (key_attr vlan_field) then ctx else record ctx {
      modified_attrs = attr_bitmap_set ctx.modified_attrs (key_attr vlan_field);
      current_key = record ctx.current_key {
        populated = attr_bitmap_set ctx.current_key.populated (key_attr vlan_field);
        vlan = htons vlan_cfi_bit;
      };
    }

unfoldable pub action_set_ipv4_dst : ℕ → Context → Context
unfolding set_if_populated
action_set_ipv4_dst ipv4 = set_if_populated ipv4_field (put_network 4 (htonl ipv4))

unfoldable pub action_set_ipv4_src : ℕ → Context → Context
unfolding set_if_populated
action_set_ipv4_src ipv4 = set_if_populated ipv4_field (put_network 0 (htonl ipv4))

unfoldable pub action_set_ipv4_dscp : ℕ → Context → Context
unfolding set_if_populated
action_set_ipv4_dscp ip_dscp = set_if_populated ipv4_field (merge_network 9 3 ip_dscp)

unfoldable pub action_set_ipv4_ecn : ℕ → Context → Context
unfolding set_if_populated
action_set_ipv4_ecn ip_ecn = set_if_populated ipv4_field (merge_network 9 252 ip_ecn)

unfoldable pub action_set_ipv4_ttl : ℕ → Context → Context
unfolding set_if_populated
action_set_ipv4_ttl ttl = set_if_populated ipv4_field (put_network 10 (ttl ∷ []))

unfoldable pub action_set_ipv6_dst : Bytes → Context → Context
unfolding set_if_populated
action_set_ipv6_dst ipv6 = set_if_populated ipv6_field (put_network 16 ipv6)

unfoldable pub action_set_ipv6_src : Bytes → Context → Context
unfolding set_if_populated
action_set_ipv6_src ipv6 = set_if_populated ipv6_field (put_network 0 ipv6)

unfoldable pub action_set_ipv6_dscp : ℕ → Context → Context
unfolding set_if_populated
action_set_ipv6_dscp ip_dscp = set_if_populated ipv6_field (merge_network 37 3 ip_dscp)

unfoldable pub action_set_ipv6_ecn : ℕ → Context → Context
unfolding set_if_populated
action_set_ipv6_ecn ip_ecn = set_if_populated ipv6_field (merge_network 37 252 ip_ecn)

unfoldable pub action_set_ipv6_ttl : ℕ → Context → Context
unfolding set_if_populated
action_set_ipv6_ttl ttl = set_if_populated ipv6_field (put_network 38 (ttl ∷ []))

unfoldable pub action_set_ipv6_flabel : ℕ → Context → Context
unfolding set_if_populated
action_set_ipv6_flabel flabel = set_if_populated ipv6_field (put_network 32 (htonl flabel))

unfoldable pub action_set_tcp_src : ℕ → Context → Context
unfolding set_if_populated
action_set_tcp_src port = set_if_populated tcp_field (put_transport 0 (htons port))

unfoldable pub action_set_tcp_dst : ℕ → Context → Context
unfolding set_if_populated
action_set_tcp_dst port = set_if_populated tcp_field (put_transport 2 (htons port))

unfoldable pub action_set_udp_src : ℕ → Context → Context
unfolding set_if_populated
action_set_udp_src port = set_if_populated udp_field (put_transport 0 (htons port))

unfoldable pub action_set_udp_dst : ℕ → Context → Context
unfolding set_if_populated
action_set_udp_dst port = set_if_populated udp_field (put_transport 2 (htons port))

unfoldable pub action_set_priority : ℕ → Context → Context
unfolding attr_bitmap_set
action_set_priority priority ctx = record ctx {
  modified_attrs = attr_bitmap_set ctx.modified_attrs (key_attr priority_field);
  current_key = record ctx.current_key { priority = priority };
}
