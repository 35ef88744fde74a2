-- ===== src/Action/Tag.antt =====
-- The VLAN actions and the priority keep a context synchronised with its packet.
use ivs.Base.{
  ℕ, ◌≡◌, refl, sym, ap, ◌∙◌, ◌≢◌, ◌⊎◌, inl, inr, true, false, bit_or, Bool-cases, ==_ne, arith,
}
use ivs.Action.{
  Bytes, Key, Field, Context, key_attr, attr_bitmap_test, attr_bitmap_set, attr_bitmap_clear,
  payload, htons, vlan_cfi_bit, priority_field, in_port_field, ethernet_field, vlan_field,
  ethertype_field, ipv4_field, ipv6_field, tcp_field, udp_field, icmp_field, icmpv6_field,
  arp_field, tcp_flags_field,
}
use ivs.Action.Bitmap.{test-set, test-clear}
use ivs.Action.Packet.{Packet, is_live, IsSynced, key_attr-injective, key_attr-vlan, key_attr-small}
use ivs.Action.SetField.{
  set_if_populated, populate_vlan, set_vlan, action_pop_vlan, action_push_vlan, action_set_priority,
}
use ivs.Action.Sync.{is_transport, IsLayered, unnoted, is_live-populated, same_tag_of}

-- The context after a change of the tag: the attribute is noted.
abbrev pub note_vlan : ℕ → Bytes → Context → Context
unfolding attr_bitmap_set
note_vlan populated vlan ctx = record ctx {
  modified_attrs = attr_bitmap_set ctx.modified_attrs (key_attr vlan_field);
  current_key = record ctx.current_key { populated = populated; vlan = vlan };
}

-- Two bitmaps that differ in the bit of the tag only.
abbrev pub SameButVlan : ℕ → ℕ → Type 0
SameButVlan a b =
    (g : Field) → g ≢ vlan_field → attr_bitmap_test a (key_attr g) ≡ attr_bitmap_test b (key_attr g)

set_vlan_bit-SameButVlan : (a : ℕ) → SameButVlan (attr_bitmap_set a 5) a
set_vlan_bit-SameButVlan a g other = ground (
  arith,
  test-set a 5 (key_attr g),
  ==_ne 5 (key_attr g) (λ e. other (key_attr-injective g vlan_field (sym e))),
)

clear_vlan_bit-SameButVlan : (a : ℕ) → SameButVlan (attr_bitmap_clear a 5) a
clear_vlan_bit-SameButVlan a g other =
    test-clear a 5 (key_attr g) (omega arith) (key_attr-small g) ∙ rw (key_attr-vlan g other) refl

is_live-SameButVlan :
    (g : Field) (a b : Key)
    → g ≢ vlan_field
    → SameButVlan a.populated b.populated
    → is_live g a ≡ is_live g b
unfolding is_live
is_live-SameButVlan priority_field a b other same = refl
is_live-SameButVlan in_port_field a b other same = same in_port_field other
is_live-SameButVlan ethernet_field a b other same = same ethernet_field other
is_live-SameButVlan vlan_field a b other same = same vlan_field other
is_live-SameButVlan ethertype_field a b other same = same ethertype_field other
is_live-SameButVlan ipv4_field a b other same = same ipv4_field other
is_live-SameButVlan ipv6_field a b other same = same ipv6_field other
is_live-SameButVlan tcp_field a b other same = same tcp_field other
is_live-SameButVlan udp_field a b other same = same udp_field other
is_live-SameButVlan icmp_field a b other same = same icmp_field other
is_live-SameButVlan icmpv6_field a b other same = same icmpv6_field other
is_live-SameButVlan arp_field a b other same = same arp_field other
is_live-SameButVlan tcp_flags_field a b other same = same tcp_flags_field other

payload-vlan :
    (g : Field) (key : Key) (populated : ℕ) (vlan : Bytes)
    → g ≢ vlan_field
    → payload g (record key { populated = populated; vlan = vlan }) ≡ payload g key
unfolding payload
payload-vlan priority_field key populated vlan other = refl
payload-vlan in_port_field key populated vlan other = refl
payload-vlan ethernet_field key populated vlan other = refl
payload-vlan vlan_field key populated vlan other = absurd (other refl)
payload-vlan ethertype_field key populated vlan other = refl
payload-vlan ipv4_field key populated vlan other = refl
payload-vlan ipv6_field key populated vlan other = refl
payload-vlan tcp_field key populated vlan other = refl
payload-vlan udp_field key populated vlan other = refl
payload-vlan icmp_field key populated vlan other = refl
payload-vlan icmpv6_field key populated vlan other = refl
payload-vlan arp_field key populated vlan other = refl
payload-vlan tcp_flags_field key populated vlan other = refl

-- A change of the tag that is noted keeps the rest synchronised.
note_vlan-IsSynced :
    (p : Packet) (populated : ℕ) (vlan : Bytes) (ctx : Context)
    → SameButVlan populated ctx.current_key.populated
    → IsSynced p ctx
    → IsSynced p (note_vlan populated vlan ctx)
unfolding note_vlan
note_vlan-IsSynced p populated vlan ctx same v = record {
  one_tag = v.one_tag;
  same_tag = λ h. absurd (ground (arith, test-set ctx.modified_attrs 5 5, h));
  same_field = λ g not_vlan live h.
      let (before, apart) = unnoted ctx.modified_attrs vlan_field g h in
      let key = ctx.current_key in
      let after = record key { populated = populated; vlan = vlan } in
      v.same_field g not_vlan (sym (is_live-SameButVlan g after key not_vlan same) ∙ live) before
      ∙ sym (payload-vlan g key populated vlan not_vlan);
}

no_vlan : (f : Field) → (f ≡ tcp_field) ⊎ (f ≡ udp_field) → f ≢ vlan_field
no_vlan f (inl h) e = ground (arith, ap key_attr h, ap key_attr e)
no_vlan f (inr h) e = ground (arith, ap key_attr h, ap key_attr e)

transport_no_vlan : (g : Field) → is_transport g ≡ true → g ≢ vlan_field
transport_no_vlan g h e = ground (arith, h, ap is_transport e)

-- The key after the change has the same headers.
note_vlan-IsLayered : (a b : Key) → SameButVlan b.populated a.populated → IsLayered a → IsLayered b
note_vlan-IsLayered a b same w = record {
  one_network = λ h.
      same ipv6_field (λ e. ground (arith, ap key_attr e))
      ∙ w.one_network (sym (same ipv4_field (λ e. ground (arith, ap key_attr e))) ∙ h);
  one_transport = λ f g kind apart other h.
      same g (transport_no_vlan g other)
      ∙ w.one_transport f g kind apart other (sym (same f (no_vlan f kind)) ∙ h);
}

-- The context is synchronised with its packet, and its key has at most one header of a layer.
pub record IsGood (p : Packet) (ctx : Context) : Type 0 where
  pub synced : IsSynced p ctx
  pub layered : IsLayered ctx.current_key

note_vlan-IsGood :
    (p : Packet) (populated : ℕ) (vlan : Bytes) (ctx : Context)
    → SameButVlan populated ctx.current_key.populated
    → IsGood p ctx
    → IsGood p (note_vlan populated vlan ctx)
unfolding note_vlan
note_vlan-IsGood p populated vlan ctx same v = record {
  synced = note_vlan-IsSynced p populated vlan ctx same v.synced;
  layered =
      note_vlan-IsLayered ctx.current_key
        (record ctx.current_key { populated = populated; vlan = vlan }) same v.layered;
}

pub set_vlan-IsGood :
    (p : Packet) (tci : ℕ) (ctx : Context) → IsGood p ctx → IsGood p (set_vlan tci ctx)
unfolding set_vlan note_vlan populate_vlan
set_vlan-IsGood p tci ctx v =
    let populated : (attr_bitmap_test ctx.current_key.populated 5 ≡ true)
          ⊎ (attr_bitmap_test ctx.current_key.populated 5 ≡ false)
        → SameButVlan (populate_vlan ctx.current_key) ctx.current_key.populated =
      λ c. elim c [
        | inl on ↦ rw on (λ g other. refl)
        | inr off ↦ rw off (set_vlan_bit-SameButVlan ctx.current_key.populated)
      ] in
    note_vlan-IsGood p (populate_vlan ctx.current_key) (htons (bit_or tci vlan_cfi_bit)) ctx
      (populated (Bool-cases (attr_bitmap_test ctx.current_key.populated (key_attr vlan_field)))) v

pub action_pop_vlan-IsGood :
    (p : Packet) (ctx : Context) → IsGood p ctx → IsGood p (action_pop_vlan ctx)
unfolding action_pop_vlan note_vlan set_if_populated
action_pop_vlan-IsGood p ctx v =
    elim (Bool-cases (attr_bitmap_test ctx.current_key.populated (key_attr vlan_field))) [
      | inl on ↦ rw on (
          note_vlan-IsGood p (attr_bitmap_clear ctx.current_key.populated 5) ctx.current_key.vlan
            ctx (clear_vlan_bit-SameButVlan ctx.current_key.populated) v)
      | inr off ↦ rw off v
    ]

pub action_push_vlan-IsGood :
    (p : Packet) (ctx : Context) → IsGood p ctx → IsGood p (action_push_vlan ctx)
unfolding action_push_vlan note_vlan
action_push_vlan-IsGood p ctx v =
    elim (Bool-cases (attr_bitmap_test ctx.current_key.populated (key_attr vlan_field))) [
      | inl on ↦ rw on v
      | inr off ↦ rw off (
          note_vlan-IsGood p (attr_bitmap_set ctx.current_key.populated 5) (htons vlan_cfi_bit) ctx
            (set_vlan_bit-SameButVlan ctx.current_key.populated) v)
    ]

payload-priority :
    (g : Field) (key : Key) (priority : ℕ)
    → priority_field ≢ g
    → payload g key ≡ payload g (record key { priority = priority })
unfolding payload
payload-priority priority_field key priority apart = absurd (apart refl)
payload-priority in_port_field key priority apart = refl
payload-priority ethernet_field key priority apart = refl
payload-priority vlan_field key priority apart = refl
payload-priority ethertype_field key priority apart = refl
payload-priority ipv4_field key priority apart = refl
payload-priority ipv6_field key priority apart = refl
payload-priority tcp_field key priority apart = refl
payload-priority udp_field key priority apart = refl
payload-priority icmp_field key priority apart = refl
payload-priority icmpv6_field key priority apart = refl
payload-priority arp_field key priority apart = refl
payload-priority tcp_flags_field key priority apart = refl

pub action_set_priority-IsGood :
    (p : Packet) (priority : ℕ) (ctx : Context)
    → IsGood p ctx
    → IsGood p (action_set_priority priority ctx)
unfolding action_set_priority
action_set_priority-IsGood p priority ctx v =
    let key = record ctx.current_key { priority = priority } in
    record {
      synced = record {
        one_tag = v.synced.one_tag;
        same_tag = λ h.
            v.synced.same_tag ((unnoted ctx.modified_attrs priority_field vlan_field h).0)
            ∙ same_tag_of key ctx.current_key refl refl;
        same_field = λ g not_vlan live h.
            let (before, apart) = unnoted ctx.modified_attrs priority_field g h in
            v.synced.same_field g not_vlan (is_live-populated g ctx.current_key key refl ∙ live)
              before
            ∙ payload-priority g ctx.current_key priority apart;
      };
      layered = record {
        one_network = v.layered.one_network;
        one_transport = v.layered.one_transport;
      };
    }
