-- ===== src/Action/Commit.antt =====
-- What the message of an action context does to a packet. A packet is abstract: the value of each
-- attribute and the tag. The set-field actions only change the current key; at every commit the
-- message has brought the packet to the current key.
use ivs.Base.{
  ℕ, ◌≡◌, refl, ap, ◌∙◌, ◌≢◌, inl, inr, Bool, true, false, ◌||◌, ◌&&◌, List, [], ◌∷◌, ◌++◌, ◌==◌,
  if◌then◌else◌, Bool-cases, ==_iff, arith,
}
use ivs.Action.{
  Key, htons, Field, Context, key_fields, key_attr, attr_bitmap_test, payload, set_attr,
  pop_vlan_attr, push_vlan_attr, mask_in, commit_vlan, commit_field, commit_fields,
  commit_set_field_actions, priority_field, in_port_field, ethernet_field, vlan_field,
  ethertype_field, ipv4_field, ipv6_field, tcp_field, udp_field, icmp_field, icmpv6_field,
  arp_field, tcp_flags_field,
}
use ivs.Action.Bitmap.{test-clear, zero-test}
use ivs.Action.Packet.{
  Packet, run, tag_of, is_live, IsSynced, run-append, key_attr-injective, key_attr-small,
  key_attr-vlan, inner,
}

commit_vlan-key : (ctx : Context) → (commit_vlan ctx).current_key ≡ ctx.current_key
unfolding commit_vlan mask_in
commit_vlan-key ctx = ground arith

commit_vlan-tag :
    (p : Packet) (ctx : Context)
    → IsSynced p ctx
    → (run (commit_vlan ctx).msg p).tag ≡ tag_of ctx.current_key
unfolding commit_vlan mask_in tag_of
commit_vlan-tag p ctx v = ground (
  arith,
  v.same_tag,
  v.one_tag,
  run-append ctx.msg (pop_vlan_attr ∷ []) p,
  run-append (ctx.msg ++ pop_vlan_attr ∷ [])
      (push_vlan_attr (htons 33024) ctx.current_key.vlan ∷ []) p,
)

commit_vlan-field :
    (p : Packet) (ctx : Context) → (run (commit_vlan ctx).msg p).field ≡ (run ctx.msg p).field
unfolding commit_vlan mask_in
commit_vlan-field p ctx = ground (
  arith,
  run-append ctx.msg (pop_vlan_attr ∷ []) p,
  run-append (ctx.msg ++ pop_vlan_attr ∷ [])
      (push_vlan_attr (htons 33024) ctx.current_key.vlan ∷ []) p,
)

commit_vlan-modified :
    (ctx : Context) (f : Field)
    → f ≢ vlan_field
    → attr_bitmap_test (commit_vlan ctx).modified_attrs (key_attr f)
      ≡ attr_bitmap_test ctx.modified_attrs (key_attr f)
unfolding commit_vlan mask_in
commit_vlan-modified ctx f h =
    elim (Bool-cases (attr_bitmap_test ctx.modified_attrs (key_attr vlan_field))) [
      | inl on ↦ rw on (
          test-clear ctx.modified_attrs 5 (key_attr f) (omega arith) (key_attr-small f)
          ∙ rw (key_attr-vlan f h) refl)
      | inr off ↦ rw off refl
    ]

commit_field-key : (f : Field) (ctx : Context) → (commit_field f ctx).current_key ≡ ctx.current_key
unfolding commit_field mask_in
commit_field-key f ctx = ground arith

commit_field-modified :
    (f : Field) (ctx : Context) → (commit_field f ctx).modified_attrs ≡ ctx.modified_attrs
unfolding commit_field mask_in
commit_field-modified f ctx = ground arith

commit_field-tag :
    (p : Packet) (f : Field) (ctx : Context)
    → (run (commit_field f ctx).msg p).tag ≡ (run ctx.msg p).tag
unfolding commit_field mask_in
commit_field-tag p f ctx =
    ground (arith, run-append ctx.msg (set_attr f (payload f ctx.current_key) ∷ []) p)

commit_field-field :
    (p : Packet) (f g : Field) (ctx : Context)
    → (run (commit_field f ctx).msg p).field g ≡ (
        if attr_bitmap_test ctx.modified_attrs (key_attr f)
        then (if key_attr f == key_attr g
            then payload f ctx.current_key
            else (run ctx.msg p).field g)
        else (run ctx.msg p).field g)
unfolding commit_field mask_in
commit_field-field p f g ctx =
    elim (Bool-cases (attr_bitmap_test ctx.modified_attrs (key_attr f))) [
      | inl on ↦ rw on (
          ap (λ (q : Packet). q.field g)
            (run-append ctx.msg (set_attr f (payload f ctx.current_key) ∷ []) p))
      | inr off ↦ rw off refl
    ]

commit_fields-key :
    (fs : List Field) (ctx : Context) → (commit_fields fs ctx).current_key ≡ ctx.current_key
unfolding commit_fields
commit_fields-key [] ctx = refl
commit_fields-key (f ∷ fs) ctx = commit_fields-key fs (commit_field f ctx) ∙ commit_field-key f ctx

commit_fields-tag :
    (p : Packet) (fs : List Field) (ctx : Context)
    → (run (commit_fields fs ctx).msg p).tag ≡ (run ctx.msg p).tag
unfolding commit_fields
commit_fields-tag p [] ctx = refl
commit_fields-tag p (f ∷ fs) ctx =
    commit_fields-tag p fs (commit_field f ctx) ∙ commit_field-tag p f ctx

abbrev listed : Field → List Field → Bool
listed g [] = false
listed g (f ∷ fs) = (key_attr f == key_attr g) || listed g fs

key_fields-listed : (f : Field) → listed f key_fields ≡ true
key_fields-listed priority_field = refl
key_fields-listed in_port_field = refl
key_fields-listed ethernet_field = refl
key_fields-listed vlan_field = refl
key_fields-listed ethertype_field = refl
key_fields-listed ipv4_field = refl
key_fields-listed ipv6_field = refl
key_fields-listed tcp_field = refl
key_fields-listed udp_field = refl
key_fields-listed icmp_field = refl
key_fields-listed icmpv6_field = refl
key_fields-listed arp_field = refl
key_fields-listed tcp_flags_field = refl

-- A listed attribute that is noted as modified is written; the others stay.
commit_fields-field :
    (p : Packet) (g : Field) (fs : List Field) (ctx : Context)
    → (run (commit_fields fs ctx).msg p).field g ≡ (
        if listed g fs && attr_bitmap_test ctx.modified_attrs (key_attr g)
        then payload g ctx.current_key
        else (run ctx.msg p).field g)
unfolding commit_fields
commit_fields-field p g [] ctx = refl
commit_fields-field p g (f ∷ fs) ctx =
    let next = commit_field f ctx in
    let step = commit_fields-field p g fs next in
    let moved : (if listed g fs && attr_bitmap_test next.modified_attrs (key_attr g)
          then payload g next.current_key
          else (run next.msg p).field g)
        ≡ (if listed g fs && attr_bitmap_test ctx.modified_attrs (key_attr g)
            then payload g ctx.current_key
            else (run next.msg p).field g) =
      rw (commit_field-modified f ctx, commit_field-key f ctx) refl in
    let own = commit_field-field p f g ctx in
    elim (Bool-cases (key_attr f == key_attr g)) [
      | inl same ↦
          let equal : f ≡ g = key_attr-injective f g ((==_iff (key_attr f) (key_attr g)).0 same) in
          let e2 : payload f ctx.current_key ≡ payload g ctx.current_key =
            ap (λ h. payload h ctx.current_key) equal in
          let e3 = ap (λ h. attr_bitmap_test ctx.modified_attrs (key_attr h)) equal in
          step ∙ moved ∙ ground (arith, own, e2, e3, same)
      | inr other ↦ step ∙ moved ∙ ground (arith, own, other)
    ]

-- The packet is what the current key says.
pub record IsCurrent (q : Packet) (key : Key) : Type 0 where
  pub tag_current : q.tag ≡ tag_of key
  pub field_current :
      (f : Field) → f ≢ vlan_field → is_live f key ≡ true → q.field f ≡ payload f key

pub commit_set_field_actions-key :
    (ctx : Context) → (commit_set_field_actions ctx).current_key ≡ ctx.current_key
unfolding commit_set_field_actions
commit_set_field_actions-key ctx =
    ground (arith, commit_fields-key key_fields (commit_vlan ctx), commit_vlan-key ctx)

pub commit_set_field_actions-modified :
    (ctx : Context) → (commit_set_field_actions ctx).modified_attrs ≡ 0
unfolding commit_set_field_actions
commit_set_field_actions-modified ctx = ground arith

-- Where the context is synchronised with a packet of at most one VLAN header, but for the
-- attributes noted as modified, after commit_set_field_actions its message brings the packet to
-- the current key: the one tag or none, where a push adds an outermost header and a pop takes one
-- off, and every attribute that the packet has. The key stays and no attribute is noted any more.
pub commit_set_field_actions-IsCurrent :
    (p : Packet) (ctx : Context)
    → IsSynced p ctx
    → let ctx' = commit_set_field_actions ctx in
      IsCurrent (run ctx'.msg p) ctx.current_key
      × (ctx'.current_key ≡ ctx.current_key)
      × (ctx'.modified_attrs ≡ 0)
unfolding commit_set_field_actions
commit_set_field_actions-IsCurrent p ctx v = (
  elim (Bool-cases (ctx.modified_attrs == 0)) [
    | inl none_modified ↦
        let zero_modified = (==_iff ctx.modified_attrs 0).0 none_modified in
        let unmodified : (k : ℕ) → attr_bitmap_test ctx.modified_attrs k ≡ false =
          λ k. rw zero_modified (zero-test k) in
        rw none_modified record {
          tag_current = v.same_tag (unmodified (key_attr vlan_field));
          field_current = λ f other live. v.same_field f other live (unmodified (key_attr f));
        }
    | inr some_modified ↦ rw some_modified record {
      tag_current = commit_fields-tag p key_fields (commit_vlan ctx) ∙ commit_vlan-tag p ctx v;
      field_current = λ f other live.
          commit_fields-field p f key_fields (commit_vlan ctx)
          ∙ rw
              (
                key_fields-listed f,
                commit_vlan-modified ctx f other,
                commit_vlan-key ctx,
                commit_vlan-field p ctx,
              )
              ground (arith, v.same_field f other live);
    }
  ],
  commit_set_field_actions-key ctx,
  commit_set_field_actions-modified ctx,
)

inner-tag_of : (key : Key) → inner (tag_of key) ≡ []
unfolding tag_of
inner-tag_of key = ground arith

-- A context that is current, with nothing noted, is synchronised.
pub IsCurrent-IsSynced :
    (p : Packet) (ctx : Context) → IsCurrent (run ctx.msg p) ctx.current_key → IsSynced p ctx
IsCurrent-IsSynced p ctx v = record {
  one_tag = ap inner v.tag_current ∙ inner-tag_of ctx.current_key;
  same_tag = λ h. v.tag_current;
  same_field = λ f other live h. v.field_current f other live;
}
