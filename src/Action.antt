-- ===== src/Action.antt =====
-- modules/action/module/src/action.c and inc/action/action.h, with the parsed key and the macros of
-- modules/ivs/module/inc/ivs/ivs.h: the translation of set-field and output actions into a netlink
-- message.
-- A field in network byte order is its list of bytes; the two unions of the key are byte buffers, so
-- that their members share the bytes. A netlink message is the list of its attributes.
pub mod Bitmap
pub mod Packet
pub mod Commit
pub mod SetField
pub mod Sync
pub mod Tag
pub mod Sent
use ivs.Base.{
  ℕ, zero, suc, ◌+◌, ◌-◌, ◌*◌, ◌/◌, ◌%◌, ◌^◌, bit_and, bit_or, Bool, true, false, not, Option, none,
  some, List, [], ◌∷◌, ◌++◌, ◌==◌, if◌then◌else◌, replicate, get_or,
}

abbrev pub Bytes : Type 0
Bytes = List ℕ

abbrev pub vlan_cfi_bit : ℕ
vlan_cfi_bit = 2 ^ 12

unfoldable pub vlan_tci : ℕ → ℕ → ℕ
vlan_tci vid pcp = bit_or (bit_and pcp 7 * 2 ^ 13) (bit_and vid 4095)

unfoldable pub vlan_vid : ℕ → ℕ
vlan_vid tci = bit_and tci 4095

unfoldable pub vlan_pcp : ℕ → ℕ
vlan_pcp tci = tci / 2 ^ 13

-- `ATTR_BITMAP_TEST`, `ATTR_BITMAP_SET` and `ATTR_BITMAP_CLEAR` on a 64-bit bitmap.
unfoldable pub attr_bitmap_test : ℕ → ℕ → Bool
attr_bitmap_test bitmap attr = not (bit_and bitmap (2 ^ attr) == 0)

unfoldable pub attr_bitmap_set : ℕ → ℕ → ℕ
attr_bitmap_set bitmap attr = bit_or bitmap (2 ^ attr)

unfoldable pub attr_bitmap_clear : ℕ → ℕ → ℕ
attr_bitmap_clear bitmap attr = bit_and bitmap (2 ^ 64 - 1 - 2 ^ attr)

abbrev pub htons : ℕ → Bytes
htons v = (v / 256 % 256) ∷ (v % 256) ∷ []

abbrev pub htonl : ℕ → Bytes
htonl v = (v / 2 ^ 24 % 256) ∷ (v / 2 ^ 16 % 256) ∷ (v / 256 % 256) ∷ (v % 256) ∷ []

abbrev pub ntohs : Bytes → ℕ
ntohs (hi ∷ lo ∷ rest) = hi * 256 + lo
ntohs bytes = 0

-- A buffer with some bytes written at its head, and at an offset; and the bytes at an offset.
abbrev pub overlay : Bytes → Bytes → Bytes
overlay [] buffer = buffer
overlay (b ∷ bytes) [] = []
overlay (b ∷ bytes) (x ∷ buffer) = b ∷ overlay bytes buffer

abbrev pub write : ℕ → Bytes → Bytes → Bytes
write zero bytes buffer = overlay bytes buffer
write (suc offset) bytes [] = []
write (suc offset) bytes (x ∷ buffer) = x ∷ write offset bytes buffer

abbrev pub take : ℕ → Bytes → Bytes
take zero buffer = []
take (suc n) [] = []
take (suc n) (x ∷ buffer) = x ∷ take n buffer

-- `struct ind_ovs_parsed_key`; `network` holds the union of `ipv4` and `ipv6`, `transport` that of
-- `tcp`, `udp`, `icmp`, `icmpv6` and `arp`.
pub record Key : Type 0 where
  pub populated : ℕ
  pub priority : ℕ
  pub in_port : ℕ
  pub ethernet : Bytes
  pub vlan : Bytes
  pub ethertype : Bytes
  pub network : Bytes
  pub transport : Bytes
  pub tcp_flags : Bytes
  pub tunnel : Bytes

-- The attributes of `OVS_KEY_FIELDS`, in its order.
pub data Field : Type 0 where
  priority_field : Field
  in_port_field : Field
  ethernet_field : Field
  vlan_field : Field
  ethertype_field : Field
  ipv4_field : Field
  ipv6_field : Field
  tcp_field : Field
  udp_field : Field
  icmp_field : Field
  icmpv6_field : Field
  arp_field : Field
  tcp_flags_field : Field

abbrev pub key_fields : List Field
key_fields =
    priority_field ∷ in_port_field ∷ ethernet_field ∷ vlan_field ∷ ethertype_field ∷ ipv4_field
    ∷ ipv6_field ∷ tcp_field ∷ udp_field ∷ icmp_field ∷ icmpv6_field ∷ arp_field ∷ tcp_flags_field
    ∷ []

-- `enum ovs_key_attr`
abbrev pub key_attr : Field → ℕ
key_attr priority_field = 2
key_attr in_port_field = 3
key_attr ethernet_field = 4
key_attr vlan_field = 5
key_attr ethertype_field = 6
key_attr ipv4_field = 7
key_attr ipv6_field = 8
key_attr tcp_field = 9
key_attr udp_field = 10
key_attr icmp_field = 11
key_attr icmpv6_field = 12
key_attr arp_field = 13
key_attr tcp_flags_field = 18

-- A `uint32_t` in host byte order, or a structure of bytes.
pub data Payload : Type 0 where
  word : ℕ → Payload
  bytes : Bytes → Payload

-- The `sizeof(type)` bytes of a field of the key.
unfoldable pub payload : Field → Key → Payload
payload priority_field key = word key.priority
payload in_port_field key = word key.in_port
payload ethernet_field key = bytes key.ethernet
payload vlan_field key = bytes key.vlan
payload ethertype_field key = bytes key.ethertype
payload ipv4_field key = bytes (take 12 key.network)
payload ipv6_field key = bytes (take 40 key.network)
payload tcp_field key = bytes (take 4 key.transport)
payload udp_field key = bytes (take 4 key.transport)
payload icmp_field key = bytes (take 2 key.transport)
payload icmpv6_field key = bytes (take 2 key.transport)
payload arp_field key = bytes (take 24 key.transport)
payload tcp_flags_field key = bytes key.tcp_flags

-- `memset(&mask->field, 0xff, sizeof(mask->field))`
unfoldable pub mask_field : Field → Key → Key
mask_field priority_field m = record m { priority = 2 ^ 32 - 1 }
mask_field in_port_field m = record m { in_port = 2 ^ 32 - 1 }
mask_field ethernet_field m = record m { ethernet = write 0 (replicate 12 255) m.ethernet }
mask_field vlan_field m = record m { vlan = write 0 (replicate 2 255) m.vlan }
mask_field ethertype_field m = record m { ethertype = write 0 (replicate 2 255) m.ethertype }
mask_field ipv4_field m = record m { network = write 0 (replicate 12 255) m.network }
mask_field ipv6_field m = record m { network = write 0 (replicate 40 255) m.network }
mask_field tcp_field m = record m { transport = write 0 (replicate 4 255) m.transport }
mask_field udp_field m = record m { transport = write 0 (replicate 4 255) m.transport }
mask_field icmp_field m = record m { transport = write 0 (replicate 2 255) m.transport }
mask_field icmpv6_field m = record m { transport = write 0 (replicate 2 255) m.transport }
mask_field arp_field m = record m { transport = write 0 (replicate 24 255) m.transport }
mask_field tcp_flags_field m = record m { tcp_flags = write 0 (replicate 2 255) m.tcp_flags }

-- The action attributes that the file writes.
pub data Attr : Type 0 where
  set_attr : Field → Payload → Attr
  pop_vlan_attr : Attr
  push_vlan_attr : Bytes → Bytes → Attr
  output_attr : ℕ → Attr
  userspace_attr : ℕ → Bytes → Attr
  sample_attr : ℕ → ℕ → Bytes → Attr

-- `struct action_context`; `mask` is none for a null pointer.
pub record Context : Type 0 where
  pub current_key : Key
  pub mask : Option Key
  pub modified_attrs : ℕ
  pub msg : List Attr

unfoldable pub action_context_init : Key → Option Key → List Attr → Context
action_context_init key mask msg = record {
  current_key = key;
  mask = mask;
  modified_attrs = 0;
  msg = msg;
}

abbrev pub append : Attr → Context → Context
append attr ctx = record ctx { msg = ctx.msg ++ attr ∷ [] }

-- `MASK(field)`
unfoldable pub mask_in : Field → Context → Context
unfolding mask_field
mask_in f ctx = record ctx { mask = elim ctx.mask [ none ↦ none | some m ↦ some (mask_field f m) ] }

-- The VLAN part of `commit_set_field_actions`.
unfoldable pub commit_vlan : Context → Context
unfolding attr_bitmap_test attr_bitmap_clear mask_in
commit_vlan ctx =
    if attr_bitmap_test ctx.modified_attrs (key_attr vlan_field)
    then (let popped = append pop_vlan_attr ctx in
        let pushed =
          if attr_bitmap_test ctx.current_key.populated (key_attr vlan_field)
          then append (push_vlan_attr (htons 33024) ctx.current_key.vlan) popped
          else popped in
        mask_in vlan_field (record pushed {
          modified_attrs = attr_bitmap_clear ctx.modified_attrs (key_attr vlan_field);
        }))
    else ctx

-- The expansion of `OVS_KEY_FIELDS` there.
unfoldable pub commit_field : Field → Context → Context
unfolding attr_bitmap_test payload mask_in
commit_field f ctx =
    if attr_bitmap_test ctx.modified_attrs (key_attr f)
    then mask_in f (append (set_attr f (payload f ctx.current_key)) ctx)
    else ctx

unfoldable pub commit_fields : List Field → Context → Context
unfolding commit_field
commit_fields [] ctx = ctx
commit_fields (f ∷ fields) ctx = commit_fields fields (commit_field f ctx)

unfoldable pub commit_set_field_actions : Context → Context
unfolding commit_vlan commit_fields
commit_set_field_actions ctx =
    if ctx.modified_attrs == 0
    then ctx
    else record (commit_fields key_fields (commit_vlan ctx)) { modified_attrs = 0 }

-- Output actions

unfoldable pub action_userspace : Bytes → ℕ → Context → Context
unfolding commit_set_field_actions mask_in
action_userspace userdata netlink_port ctx =
    mask_in in_port_field
      (append (userspace_attr netlink_port userdata) (commit_set_field_actions ctx))

unfoldable pub action_output : ℕ → Context → Context
unfolding commit_set_field_actions
action_output port_no ctx = append (output_attr port_no) (commit_set_field_actions ctx)

unfoldable pub action_output_local : Context → Context
unfolding commit_set_field_actions
action_output_local ctx = append (output_attr 0) (commit_set_field_actions ctx)

unfoldable pub action_output_in_port : Context → Context
unfolding commit_set_field_actions mask_in
action_output_in_port ctx =
    let committed = commit_set_field_actions ctx in
    mask_in in_port_field (append (output_attr committed.current_key.in_port) committed)

unfoldable pub action_sample_to_userspace : Bytes → ℕ → ℕ → Context → Context
unfolding commit_set_field_actions mask_in
action_sample_to_userspace userdata netlink_port probability ctx =
    mask_in in_port_field
      (append (sample_attr probability netlink_port userdata) (commit_set_field_actions ctx))

unfoldable pub action_pop_vlan_raw : Context → Context
unfolding commit_set_field_actions
action_pop_vlan_raw ctx = append pop_vlan_attr (commit_set_field_actions ctx)

unfoldable pub action_push_vlan_raw : ℕ → Context → Context
unfolding commit_set_field_actions
action_push_vlan_raw tci ctx =
    append (push_vlan_attr (htons 33024) (htons tci)) (commit_set_field_actions ctx)
