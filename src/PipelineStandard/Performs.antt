-- ===== src/PipelineStandard/Performs.antt =====
-- modules/pipeline_standard/module/src/action.c: what the translation of actions is to do, told
-- apart from its code: which actions are performed on which context, in which order, and what each
-- of them adds to the message.
use ivs.Base.{ℕ, zero, suc, ◌%◌, ◌≡◌, Option, none, some, ◌==◌, if◌then◌else◌}
use ivs.Action.{Attr, Context, output_attr, userspace_attr}
use ivs.Action.Packet.{Packet}
use ivs.Action.Sent.{Sent}
use ivs.PipelineStandard.{
  Simple, Actions, Group, Buckets, Outcome, going_on, returned, translate_simple, num_buckets,
  simple, group, done, next, make_group, no_buckets, bucket, uint64_bytes, group_type_select,
  group_type_indirect, group_type_all, group_type_ff, controller, output, local, in_port,
}

module _ (netlink_port : ℕ) where
  -- The attribute by which an action sends the packet.
  abbrev pub sends : Simple → Context → Option Attr
  sends (controller userdata) ctx = some (userspace_attr netlink_port (uint64_bytes userdata))
  sends (output port_no) ctx = some (output_attr port_no)
  sends local ctx = some (output_attr 0)
  sends in_port ctx = some (output_attr ctx.current_key.in_port)
  sends _ ctx = none

  -- An action sends the current packet, or it leaves the message alone; where it drops the packet it
  -- leaves the message alone.
  abbrev pub Does : Packet → Simple → Context → Outcome → Type 0
  Does p a ctx (going_on ctx') = Sent p (sends a ctx) ctx ctx'
  Does p a ctx (returned ctx') = ctx'.msg ≡ ctx.msg

  module _ (p : Packet) (hash : ℕ) where
    -- The actions lead from one context to another: each does what it is to do on the context that
    -- the ones before it left, and one that drops the packet ends its list. A group performs the
    -- bucket that the hash selects, its first one, or all, by its type.
    unfoldable mutual
      unfolding translate_simple num_buckets

      pub Performs : Actions → Context → Context → Type 0
      Performs done ctx ctx' = ctx' ≡ ctx
      Performs (next (simple a) actions) ctx ctx' =
          Does p a ctx (translate_simple netlink_port a ctx)
          × elim (translate_simple netlink_port a ctx) [
            | going_on next_ctx ↦ Performs actions next_ctx ctx'
            | returned last ↦ ctx' ≡ last
          ]
      Performs (next (group g) actions) ctx ctx' =
          (between : Context) × PerformsGroup g ctx between × Performs actions between ctx'

      pub PerformsGroup : Group → Context → Context → Type 0
      PerformsGroup (make_group id type buckets) ctx ctx' =
          if type == group_type_select
          then PerformsBucket (hash % num_buckets buckets) buckets ctx ctx'
          else if type == group_type_indirect
          then PerformsBucket 0 buckets ctx ctx'
          else if type == group_type_all
          then PerformsBuckets buckets ctx ctx'
          else if type == group_type_ff
          then PerformsBucket 0 buckets ctx ctx'
          else ctx' ≡ ctx

      pub PerformsBucket : ℕ → Buckets → Context → Context → Type 0
      PerformsBucket i no_buckets ctx ctx' = ctx' ≡ ctx
      PerformsBucket zero (bucket actions handle tail) ctx ctx' = Performs actions ctx ctx'
      PerformsBucket (suc i) (bucket actions handle tail) ctx ctx' = PerformsBucket i tail ctx ctx'

      pub PerformsBuckets : Buckets → Context → Context → Type 0
      PerformsBuckets no_buckets ctx ctx' = ctx' ≡ ctx
      PerformsBuckets (bucket actions handle tail) ctx ctx' =
          (between : Context) × Performs actions ctx between × PerformsBuckets tail between ctx'
