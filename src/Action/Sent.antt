-- ===== src/Action/Sent.antt =====
-- modules/action/module/src/action.c: what an action adds to the message of a context.
use ivs.Base.{
  ◌≡◌, refl, sym, ap, ◌∙◌, inl, inr, Bool, true, false, Option, none, some, List, [], ◌∷◌, ◌++◌,
  ◌==◌, Bool-cases, append_assoc, append_nil, arith,
}
use ivs.Action.{
  Key, Field, Attr, Context, append, key_fields, key_attr, attr_bitmap_test, payload, set_attr,
  pop_vlan_attr, push_vlan_attr, output_attr, userspace_attr, sample_attr, htons, mask_in,
  vlan_field, commit_vlan, commit_field, commit_fields, commit_set_field_actions,
}
use ivs.Action.Packet.{Packet, run, IsSynced}
use ivs.Action.Commit.{IsCurrent, commit_set_field_actions-IsCurrent}
use ivs.Action.SetField.{set_if_populated, action_pop_vlan, action_push_vlan}

-- The attributes only change the packet: none of them sends it.
abbrev pub is_quiet : List Attr → Bool
is_quiet [] = true
is_quiet (set_attr f v ∷ attrs) = is_quiet attrs
is_quiet (pop_vlan_attr ∷ attrs) = is_quiet attrs
is_quiet (push_vlan_attr tpid tci ∷ attrs) = is_quiet attrs
is_quiet (output_attr port ∷ attrs) = false
is_quiet (userspace_attr pid userdata ∷ attrs) = false
is_quiet (sample_attr probability pid userdata ∷ attrs) = false

-- The message grew by changes of the packet.
abbrev pub Grows : Context → Context → Type 0
Grows ctx ctx' = (changes : List Attr) × (ctx'.msg ≡ ctx.msg ++ changes) × (is_quiet changes ≡ true)

-- The message grew by changes that bring the packet to the current key, and by the attribute that
-- sends it; or, where there is none to send it, not at all.
abbrev pub Sent : Packet → Option Attr → Context → Context → Type 0
Sent p none ctx ctx' = ctx'.msg ≡ ctx.msg
Sent p (some attr) ctx ctx' =
    (changes : List Attr) × (ctx'.msg ≡ (ctx.msg ++ changes) ++ attr ∷ [])
    × (is_quiet changes ≡ true)
    × IsCurrent (run (ctx.msg ++ changes) p) ctx.current_key
    × (ctx'.current_key ≡ ctx.current_key)

quiet-++ :
    (xs ys : List Attr) → is_quiet xs ≡ true → is_quiet ys ≡ true → is_quiet (xs ++ ys) ≡ true
quiet-++ [] ys h k = k
quiet-++ (set_attr f v ∷ xs) ys h k = quiet-++ xs ys h k
quiet-++ (pop_vlan_attr ∷ xs) ys h k = quiet-++ xs ys h k
quiet-++ (push_vlan_attr tpid tci ∷ xs) ys h k = quiet-++ xs ys h k
quiet-++ (output_attr port ∷ xs) ys h k = h
quiet-++ (userspace_attr pid userdata ∷ xs) ys h k = h
quiet-++ (sample_attr probability pid userdata ∷ xs) ys h k = h

Grows-trans : (a b c : Context) → Grows a b → Grows b c → Grows a c
Grows-trans a b c (xs, e, h) (ys, f, k) =
    (xs ++ ys, f ∙ ap (λ zs. zs ++ ys) e ∙ append_assoc a.msg xs ys, quiet-++ xs ys h k)

Grows-refl : (a : Context) → Grows a a
Grows-refl a = ([], sym (append_nil a.msg), refl)

commit_vlan-Grows : (ctx : Context) → Grows ctx (commit_vlan ctx)
unfolding commit_vlan mask_in
commit_vlan-Grows ctx =
    let tpid = htons 33024 in
    elim (Bool-cases (attr_bitmap_test ctx.modified_attrs (key_attr vlan_field))) [
      | inl on ↦
          elim (Bool-cases (attr_bitmap_test ctx.current_key.populated (key_attr vlan_field))) [
            | inl tagged ↦
                rw (on, tagged)
                  (
                    pop_vlan_attr ∷ push_vlan_attr tpid ctx.current_key.vlan ∷ [],
                    append_assoc ctx.msg (pop_vlan_attr ∷ [])
                        (push_vlan_attr tpid ctx.current_key.vlan ∷ []),
                    refl,
                  )
            | inr untagged ↦ rw (on, untagged) (pop_vlan_attr ∷ [], refl, refl)
          ]
      | inr off ↦ rw off (Grows-refl ctx)
    ]

commit_field-Grows : (f : Field) (ctx : Context) → Grows ctx (commit_field f ctx)
unfolding commit_field mask_in
commit_field-Grows f ctx = elim (Bool-cases (attr_bitmap_test ctx.modified_attrs (key_attr f))) [
  | inl on ↦ rw on (set_attr f (payload f ctx.current_key) ∷ [], refl, refl)
  | inr off ↦ rw off (Grows-refl ctx)
]

commit_fields-Grows : (fs : List Field) (ctx : Context) → Grows ctx (commit_fields fs ctx)
unfolding commit_fields
commit_fields-Grows [] ctx = Grows-refl ctx
commit_fields-Grows (f ∷ fs) ctx =
    Grows-trans ctx (commit_field f ctx) (commit_fields fs (commit_field f ctx))
      (commit_field-Grows f ctx) (commit_fields-Grows fs (commit_field f ctx))

commit-Grows : (ctx : Context) → Grows ctx (commit_set_field_actions ctx)
unfolding commit_set_field_actions
commit-Grows ctx = elim (Bool-cases (ctx.modified_attrs == 0)) [
  | inl unmodified ↦ rw unmodified (Grows-refl ctx)
  | inr modified ↦ rw modified (
      Grows-trans ctx (commit_vlan ctx) (commit_fields key_fields (commit_vlan ctx))
        (commit_vlan-Grows ctx) (commit_fields-Grows key_fields (commit_vlan ctx)))
]

-- A commit and an attribute that sends.
pub output-Sent :
    (p : Packet) (a : Attr) (ctx : Context)
    → IsSynced p ctx
    → Sent p (some a) ctx (append a (commit_set_field_actions ctx))
output-Sent p a ctx v =
    let (changes, e, quiet) = commit-Grows ctx in
    let (current, same_key, unmodified) = commit_set_field_actions-IsCurrent p ctx v in
    (changes, ap (λ (msg : List Attr). msg ++ a ∷ []) e, quiet, rw e at current, same_key)

pub set_if_populated-msg :
    (f : Field) (change : Key → Key) (ctx : Context) → (set_if_populated f change ctx).msg ≡ ctx.msg
unfolding set_if_populated
set_if_populated-msg f change ctx = ground arith

pub action_pop_vlan-msg : (ctx : Context) → (action_pop_vlan ctx).msg ≡ ctx.msg
unfolding action_pop_vlan
action_pop_vlan-msg ctx = ground arith

pub action_push_vlan-msg : (ctx : Context) → (action_push_vlan ctx).msg ≡ ctx.msg
unfolding action_push_vlan
action_push_vlan-msg ctx = ground arith
