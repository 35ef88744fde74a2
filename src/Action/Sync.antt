-- ===== src/Action/Sync.antt =====
-- Every set-field action keeps a context synchronised with its packet: it notes what it changes.
use ivs.Base.{
  ℕ, ◌≡◌, refl, sym, ap, ◌∙◌, ◌≢◌, ◌⊎◌, inl, inr, Bool, true, false, ◌==◌, Bool-cases, ==_refl,
  arith,
}
use ivs.Action.{
  Bytes, Key, Field, Context, key_attr, attr_bitmap_test, attr_bitmap_set, payload, priority_field,
  in_port_field, ethernet_field, vlan_field, ethertype_field, ipv4_field, ipv6_field, tcp_field,
  udp_field, icmp_field, icmpv6_field, arp_field, tcp_flags_field,
}
use ivs.Action.Bitmap.{test-set}
use ivs.Action.Packet.{Packet, tag_of, is_live, IsSynced}
use ivs.Action.SetField.{set_if_populated, put_ethernet, put_network, put_transport}

abbrev pub is_transport : Field → Bool
is_transport tcp_field = true
is_transport udp_field = true
is_transport icmp_field = true
is_transport icmpv6_field = true
is_transport arp_field = true
is_transport f = false

-- The key has at most one network header, and with TCP or UDP no other transport header.
pub record IsLayered (key : Key) : Type 0 where
  pub one_network :
      attr_bitmap_test key.populated (key_attr ipv4_field) ≡ true
      → attr_bitmap_test key.populated (key_attr ipv6_field) ≡ false
  pub one_transport :
      (f g : Field)
      → (f ≡ tcp_field) ⊎ (f ≡ udp_field)
      → f ≢ g
      → is_transport g ≡ true
      → attr_bitmap_test key.populated (key_attr f) ≡ true
      → attr_bitmap_test key.populated (key_attr g) ≡ false

-- The change shows only in an attribute that is noted, or that the packet does not have.
Local : Field → (Key → Key) → Key → Type 0
Local f change key =
    ((change key).populated ≡ key.populated)
    × ((change key).vlan ≡ key.vlan)
    × ((g : Field) → f ≢ g → is_live g key ≡ true → payload g (change key) ≡ payload g key)

pub is_live-populated :
    (g : Field) (a b : Key) → a.populated ≡ b.populated → is_live g a ≡ is_live g b
unfolding is_live
is_live-populated priority_field a b h = refl
is_live-populated in_port_field a b h = ap (λ n. attr_bitmap_test n (key_attr in_port_field)) h
is_live-populated ethernet_field a b h = ap (λ n. attr_bitmap_test n (key_attr ethernet_field)) h
is_live-populated vlan_field a b h = ap (λ n. attr_bitmap_test n (key_attr vlan_field)) h
is_live-populated ethertype_field a b h = ap (λ n. attr_bitmap_test n (key_attr ethertype_field)) h
is_live-populated ipv4_field a b h = ap (λ n. attr_bitmap_test n (key_attr ipv4_field)) h
is_live-populated ipv6_field a b h = ap (λ n. attr_bitmap_test n (key_attr ipv6_field)) h
is_live-populated tcp_field a b h = ap (λ n. attr_bitmap_test n (key_attr tcp_field)) h
is_live-populated udp_field a b h = ap (λ n. attr_bitmap_test n (key_attr udp_field)) h
is_live-populated icmp_field a b h = ap (λ n. attr_bitmap_test n (key_attr icmp_field)) h
is_live-populated icmpv6_field a b h = ap (λ n. attr_bitmap_test n (key_attr icmpv6_field)) h
is_live-populated arp_field a b h = ap (λ n. attr_bitmap_test n (key_attr arp_field)) h
is_live-populated tcp_flags_field a b h = ap (λ n. attr_bitmap_test n (key_attr tcp_flags_field)) h

pub same_tag_of : (a b : Key) → b.populated ≡ a.populated → b.vlan ≡ a.vlan → tag_of b ≡ tag_of a
unfolding tag_of
same_tag_of a b populated vlan = rw populated (rw vlan refl)

-- What was not noted after a note was not noted before, and is another attribute.
pub unnoted :
    (m : ℕ) (f g : Field)
    → attr_bitmap_test (attr_bitmap_set m (key_attr f)) (key_attr g) ≡ false
    → (attr_bitmap_test m (key_attr g) ≡ false) × (f ≢ g)
unnoted m f g h =
    let both = sym (test-set m (key_attr f) (key_attr g)) ∙ h in
    (
      ground (arith, both),
      λ e.
          let same = ==_refl (key_attr g) ∙ refl in
          let equal : (key_attr f == key_attr g) ≡ true =
            ap (λ x. key_attr x == key_attr g) e ∙ same in
          absurd (ground (arith, both, equal)),
    )

set_if_populated-IsSynced :
    (p : Packet) (f : Field) (change : Key → Key) (ctx : Context)
    → f ≢ vlan_field
    → (attr_bitmap_test ctx.current_key.populated (key_attr f) ≡ true
        → Local f change ctx.current_key)
    → IsSynced p ctx
    → IsSynced p (set_if_populated f change ctx)
unfolding set_if_populated Local
set_if_populated-IsSynced p f change ctx other local v =
    elim (Bool-cases (attr_bitmap_test ctx.current_key.populated (key_attr f))) [
      | inl on ↦
          let (populated, vlan, payloads) = local on in
          rw on record {
            one_tag = v.one_tag;
            same_tag = λ h.
                v.same_tag ((unnoted ctx.modified_attrs f vlan_field h).0)
                ∙ sym (same_tag_of ctx.current_key (change ctx.current_key) populated vlan);
            same_field = λ g not_vlan live h.
                let (before, apart) = unnoted ctx.modified_attrs f g h in
                let live_before =
                  sym (is_live-populated g (change ctx.current_key) ctx.current_key populated)
                  ∙ live in
                v.same_field g not_vlan live_before before ∙ sym (payloads g apart live_before);
          }
      | inr off ↦ rw off v
    ]

ethernet-Local :
    (offset : ℕ) (bytes : Bytes) (key : Key)
    → IsLayered key
    → attr_bitmap_test key.populated (key_attr ethernet_field) ≡ true
    → (g : Field) → ethernet_field ≢ g
    → is_live g key ≡ true
    → payload g (put_ethernet offset bytes key) ≡ payload g key
unfolding payload is_live
ethernet-Local offset bytes key w on priority_field apart live = refl
ethernet-Local offset bytes key w on in_port_field apart live = refl
ethernet-Local offset bytes key w on ethernet_field apart live = absurd (apart refl)
ethernet-Local offset bytes key w on vlan_field apart live = refl
ethernet-Local offset bytes key w on ethertype_field apart live = refl
ethernet-Local offset bytes key w on ipv4_field apart live = refl
ethernet-Local offset bytes key w on ipv6_field apart live = refl
ethernet-Local offset bytes key w on tcp_field apart live = refl
ethernet-Local offset bytes key w on udp_field apart live = refl
ethernet-Local offset bytes key w on icmp_field apart live = refl
ethernet-Local offset bytes key w on icmpv6_field apart live = refl
ethernet-Local offset bytes key w on arp_field apart live = refl
ethernet-Local offset bytes key w on tcp_flags_field apart live = refl

ipv4-Local :
    (offset : ℕ) (bytes : Bytes) (key : Key)
    → IsLayered key
    → attr_bitmap_test key.populated (key_attr ipv4_field) ≡ true
    → (g : Field) → ipv4_field ≢ g
    → is_live g key ≡ true
    → payload g (put_network offset bytes key) ≡ payload g key
unfolding payload is_live
ipv4-Local offset bytes key w on priority_field apart live = refl
ipv4-Local offset bytes key w on in_port_field apart live = refl
ipv4-Local offset bytes key w on ethernet_field apart live = refl
ipv4-Local offset bytes key w on vlan_field apart live = refl
ipv4-Local offset bytes key w on ethertype_field apart live = refl
ipv4-Local offset bytes key w on ipv4_field apart live = absurd (apart refl)
ipv4-Local offset bytes key w on ipv6_field apart live =
    absurd (ground (arith, w.one_network on, live))
ipv4-Local offset bytes key w on tcp_field apart live = refl
ipv4-Local offset bytes key w on udp_field apart live = refl
ipv4-Local offset bytes key w on icmp_field apart live = refl
ipv4-Local offset bytes key w on icmpv6_field apart live = refl
ipv4-Local offset bytes key w on arp_field apart live = refl
ipv4-Local offset bytes key w on tcp_flags_field apart live = refl

ipv6-Local :
    (offset : ℕ) (bytes : Bytes) (key : Key)
    → IsLayered key
    → attr_bitmap_test key.populated (key_attr ipv6_field) ≡ true
    → (g : Field) → ipv6_field ≢ g
    → is_live g key ≡ true
    → payload g (put_network offset bytes key) ≡ payload g key
unfolding payload is_live
ipv6-Local offset bytes key w on priority_field apart live = refl
ipv6-Local offset bytes key w on in_port_field apart live = refl
ipv6-Local offset bytes key w on ethernet_field apart live = refl
ipv6-Local offset bytes key w on vlan_field apart live = refl
ipv6-Local offset bytes key w on ethertype_field apart live = refl
ipv6-Local offset bytes key w on ipv4_field apart live =
    absurd (ground (arith, w.one_network live, on))
ipv6-Local offset bytes key w on ipv6_field apart live = absurd (apart refl)
ipv6-Local offset bytes key w on tcp_field apart live = refl
ipv6-Local offset bytes key w on udp_field apart live = refl
ipv6-Local offset bytes key w on icmp_field apart live = refl
ipv6-Local offset bytes key w on icmpv6_field apart live = refl
ipv6-Local offset bytes key w on arp_field apart live = refl
ipv6-Local offset bytes key w on tcp_flags_field apart live = refl

tcp-Local :
    (offset : ℕ) (bytes : Bytes) (key : Key)
    → IsLayered key
    → attr_bitmap_test key.populated (key_attr tcp_field) ≡ true
    → (g : Field) → tcp_field ≢ g
    → is_live g key ≡ true
    → payload g (put_transport offset bytes key) ≡ payload g key
unfolding payload is_live
tcp-Local offset bytes key w on priority_field apart live = refl
tcp-Local offset bytes key w on in_port_field apart live = refl
tcp-Local offset bytes key w on ethernet_field apart live = refl
tcp-Local offset bytes key w on vlan_field apart live = refl
tcp-Local offset bytes key w on ethertype_field apart live = refl
tcp-Local offset bytes key w on ipv4_field apart live = refl
tcp-Local offset bytes key w on ipv6_field apart live = refl
tcp-Local offset bytes key w on tcp_field apart live = absurd (apart refl)
tcp-Local offset bytes key w on udp_field apart live =
    absurd (ground (arith, w.one_transport tcp_field udp_field (inl refl) apart refl on, live))
tcp-Local offset bytes key w on icmp_field apart live =
    absurd (ground (arith, w.one_transport tcp_field icmp_field (inl refl) apart refl on, live))
tcp-Local offset bytes key w on icmpv6_field apart live =
    absurd (ground (arith, w.one_transport tcp_field icmpv6_field (inl refl) apart refl on, live))
tcp-Local offset bytes key w on arp_field apart live =
    absurd (ground (arith, w.one_transport tcp_field arp_field (inl refl) apart refl on, live))
tcp-Local offset bytes key w on tcp_flags_field apart live = refl

udp-Local :
    (offset : ℕ) (bytes : Bytes) (key : Key)
    → IsLayered key
    → attr_bitmap_test key.populated (key_attr udp_field) ≡ true
    → (g : Field) → udp_field ≢ g
    → is_live g key ≡ true
    → payload g (put_transport offset bytes key) ≡ payload g key
unfolding payload is_live
udp-Local offset bytes key w on priority_field apart live = refl
udp-Local offset bytes key w on in_port_field apart live = refl
udp-Local offset bytes key w on ethernet_field apart live = refl
udp-Local offset bytes key w on vlan_field apart live = refl
udp-Local offset bytes key w on ethertype_field apart live = refl
udp-Local offset bytes key w on ipv4_field apart live = refl
udp-Local offset bytes key w on ipv6_field apart live = refl
udp-Local offset bytes key w on tcp_field apart live =
    absurd (ground (arith, w.one_transport udp_field tcp_field (inr refl) apart refl on, live))
udp-Local offset bytes key w on udp_field apart live = absurd (apart refl)
udp-Local offset bytes key w on icmp_field apart live =
    absurd (ground (arith, w.one_transport udp_field icmp_field (inr refl) apart refl on, live))
udp-Local offset bytes key w on icmpv6_field apart live =
    absurd (ground (arith, w.one_transport udp_field icmpv6_field (inr refl) apart refl on, live))
udp-Local offset bytes key w on arp_field apart live =
    absurd (ground (arith, w.one_transport udp_field arp_field (inr refl) apart refl on, live))
udp-Local offset bytes key w on tcp_flags_field apart live = refl

pub set_ethernet-IsSynced :
    (p : Packet) (offset : ℕ) (bytes : Bytes) (ctx : Context)
    → IsLayered ctx.current_key
    → IsSynced p ctx
    → IsSynced p (set_if_populated ethernet_field (put_ethernet offset bytes) ctx)
unfolding Local
set_ethernet-IsSynced p offset bytes ctx w v =
    set_if_populated-IsSynced p ethernet_field (put_ethernet offset bytes) ctx
      (λ e. absurd (ground (arith, ap key_attr e)))
      (λ on. (refl, refl, ethernet-Local offset bytes ctx.current_key w on)) v

pub set_ipv4-IsSynced :
    (p : Packet) (offset : ℕ) (bytes : Bytes) (ctx : Context)
    → IsLayered ctx.current_key
    → IsSynced p ctx
    → IsSynced p (set_if_populated ipv4_field (put_network offset bytes) ctx)
unfolding Local
set_ipv4-IsSynced p offset bytes ctx w v =
    set_if_populated-IsSynced p ipv4_field (put_network offset bytes) ctx
      (λ e. absurd (ground (arith, ap key_attr e)))
      (λ on. (refl, refl, ipv4-Local offset bytes ctx.current_key w on)) v

pub set_ipv6-IsSynced :
    (p : Packet) (offset : ℕ) (bytes : Bytes) (ctx : Context)
    → IsLayered ctx.current_key
    → IsSynced p ctx
    → IsSynced p (set_if_populated ipv6_field (put_network offset bytes) ctx)
unfolding Local
set_ipv6-IsSynced p offset bytes ctx w v =
    set_if_populated-IsSynced p ipv6_field (put_network offset bytes) ctx
      (λ e. absurd (ground (arith, ap key_attr e)))
      (λ on. (refl, refl, ipv6-Local offset bytes ctx.current_key w on)) v

pub set_tcp-IsSynced :
    (p : Packet) (offset : ℕ) (bytes : Bytes) (ctx : Context)
    → IsLayered ctx.current_key
    → IsSynced p ctx
    → IsSynced p (set_if_populated tcp_field (put_transport offset bytes) ctx)
unfolding Local
set_tcp-IsSynced p offset bytes ctx w v =
    set_if_populated-IsSynced p tcp_field (put_transport offset bytes) ctx
      (λ e. absurd (ground (arith, ap key_attr e)))
      (λ on. (refl, refl, tcp-Local offset bytes ctx.current_key w on)) v

pub set_udp-IsSynced :
    (p : Packet) (offset : ℕ) (bytes : Bytes) (ctx : Context)
    → IsLayered ctx.current_key
    → IsSynced p ctx
    → IsSynced p (set_if_populated udp_field (put_transport offset bytes) ctx)
unfolding Local
set_udp-IsSynced p offset bytes ctx w v =
    set_if_populated-IsSynced p udp_field (put_transport offset bytes) ctx
      (λ e. absurd (ground (arith, ap key_attr e)))
      (λ on. (refl, refl, udp-Local offset bytes ctx.current_key w on)) v
