-- ===== src/Action/Packet.antt =====
-- The packet that the statements speak of: what the attributes of a message do to it, and when a
-- context is synchronised with it.
use ivs.Base.{
  ℕ, ◌≡◌, refl, sym, ap, ◌∙◌, ◌≢◌, ◌<◌, Bool, true, false, List, [], ◌∷◌, ◌++◌, ◌==◌, if◌then◌else◌,
  ==_ne, arith,
}
use ivs.Action.{
  Bytes, Key, Field, Payload, Attr, Context, key_attr, attr_bitmap_test, payload, set_attr,
  pop_vlan_attr, push_vlan_attr, output_attr, userspace_attr, sample_attr, priority_field,
  in_port_field, ethernet_field, vlan_field, ethertype_field, ipv4_field, ipv6_field, tcp_field,
  udp_field, icmp_field, icmpv6_field, arp_field, tcp_flags_field,
}

-- The tags of the VLAN headers, the outermost first.
pub record Packet : Type 0 where
  pub tag : List Bytes
  pub field : Field → Payload

abbrev pub inner : List Bytes → List Bytes
inner [] = []
inner (tag ∷ tags) = tags

-- A push adds an outermost header, and a pop takes the outermost off where there is one.
abbrev pub run_attr : Attr → Packet → Packet
run_attr (set_attr f v) p = record p {
  field = λ g. if key_attr f == key_attr g then v else p.field g;
}
run_attr pop_vlan_attr p = record p { tag = inner p.tag }
run_attr (push_vlan_attr tpid tci) p = record p { tag = tci ∷ p.tag }
run_attr (output_attr port) p = p
run_attr (userspace_attr pid userdata) p = p
run_attr (sample_attr probability pid userdata) p = p

abbrev pub run : List Attr → Packet → Packet
run [] p = p
run (a ∷ attrs) p = run attrs (run_attr a p)

unfoldable pub tag_of : Key → List Bytes
unfolding attr_bitmap_test
tag_of key = if attr_bitmap_test key.populated (key_attr vlan_field) then key.vlan ∷ [] else []

-- An attribute counts where the packet has it; the priority always does.
unfoldable pub is_live : Field → Key → Bool
unfolding attr_bitmap_test
is_live priority_field key = true
is_live f key = attr_bitmap_test key.populated (key_attr f)

-- The message has brought the packet `p` to the current key, but for the attributes noted as
-- modified; the packet has at most one VLAN header.
pub record IsSynced (p : Packet) (ctx : Context) : Type 0 where
  pub one_tag : inner (run ctx.msg p).tag ≡ []
  pub same_tag :
      attr_bitmap_test ctx.modified_attrs (key_attr vlan_field) ≡ false
      → (run ctx.msg p).tag ≡ tag_of ctx.current_key
  pub same_field :
      (f : Field)
      → f ≢ vlan_field
      → is_live f ctx.current_key ≡ true
      → attr_bitmap_test ctx.modified_attrs (key_attr f) ≡ false
      → (run ctx.msg p).field f ≡ payload f ctx.current_key

pub run-append : (xs ys : List Attr) (p : Packet) → run (xs ++ ys) p ≡ run ys (run xs p)
run-append [] ys p = refl
run-append (x ∷ xs) ys p = run-append xs ys (run_attr x p)

abbrev field_of : ℕ → Field
field_of n =
    if n == 2
    then priority_field
    else if n == 3
    then in_port_field
    else if n == 4
    then ethernet_field
    else if n == 5
    then vlan_field
    else if n == 6
    then ethertype_field
    else if n == 7
    then ipv4_field
    else if n == 8
    then ipv6_field
    else if n == 9
    then tcp_field
    else if n == 10
    then udp_field
    else if n == 11
    then icmp_field
    else if n == 12
    then icmpv6_field
    else if n == 13
    then arp_field
    else tcp_flags_field

field_of-key_attr : (f : Field) → field_of (key_attr f) ≡ f
field_of-key_attr priority_field = refl
field_of-key_attr in_port_field = refl
field_of-key_attr ethernet_field = refl
field_of-key_attr vlan_field = refl
field_of-key_attr ethertype_field = refl
field_of-key_attr ipv4_field = refl
field_of-key_attr ipv6_field = refl
field_of-key_attr tcp_field = refl
field_of-key_attr udp_field = refl
field_of-key_attr icmp_field = refl
field_of-key_attr icmpv6_field = refl
field_of-key_attr arp_field = refl
field_of-key_attr tcp_flags_field = refl

pub key_attr-injective : (f g : Field) → key_attr f ≡ key_attr g → f ≡ g
key_attr-injective f g h = sym (field_of-key_attr f) ∙ ap field_of h ∙ field_of-key_attr g

pub key_attr-small : (f : Field) → key_attr f < 64
key_attr-small priority_field = omega arith
key_attr-small in_port_field = omega arith
key_attr-small ethernet_field = omega arith
key_attr-small vlan_field = omega arith
key_attr-small ethertype_field = omega arith
key_attr-small ipv4_field = omega arith
key_attr-small ipv6_field = omega arith
key_attr-small tcp_field = omega arith
key_attr-small udp_field = omega arith
key_attr-small icmp_field = omega arith
key_attr-small icmpv6_field = omega arith
key_attr-small arp_field = omega arith
key_attr-small tcp_flags_field = omega arith

pub key_attr-vlan : (f : Field) → f ≢ vlan_field → (key_attr f == 5) ≡ false
key_attr-vlan f h = ==_ne (key_attr f) 5 (λ e. h (key_attr-injective f vlan_field e))
