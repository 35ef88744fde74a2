-- ===== src/Barrier.antt =====
-- modules/OVSDriver/module/src/barrier.c: kernel flow revalidation that waits for a barrier.
-- The calls of other parts (blocking and unblocking a connection's barrier, the timer, invalidating
-- the kernel flows and respawning the upcall threads) are the events of a trace, newest first.
-- `INDIGO_CXN_ID_UNSPECIFIED` and `INDIGO_CXN_INVALID` belong to Indigo and are parameters.
pub mod Defer
use ivs.Base.{
  ℕ, zero, suc, ◌+◌, Bool, true, false, Option, none, some, List, [], ◌∷◌, ◌++◌, ◌==◌,
  if◌then◌else◌, set, replicate,
}

abbrev pub max_blocked_cxns : ℕ
max_blocked_cxns = 8

pub data Event : Type 0 where
  block_barrier : ℕ → Event
  unblock_barrier : ℕ → Event
  register_timer : ℕ → Event
  unregister_timer : Event
  invalidate_all : Event
  upcall_respawn : Event

-- The static variables of the file: the connection of each blocker, whether the timer runs, and
-- the two counters.
pub record State : Type 0 where
  pub blocked_cxns : List ℕ
  pub timer_active : Bool
  pub blocked_cxns_full : ℕ
  pub timer_expired : ℕ
  pub trace : List Event

-- What the `for` of `ind_ovs_barrier_defer_revalidation` finds.
pub data Search : Type 0 where
  already_blocked : Search
  chosen : Option ℕ → Search

-- `if (!barrier_timer_active) { register; barrier_timer_active = true; }`
unfoldable pub arm_timer : ℕ → State → State
arm_timer ms st =
    if st.timer_active
    then st
    else record st { timer_active = true; trace = register_timer ms ∷ st.trace }

-- `ind_ovs_barrier_defer_revalidation_internal`
unfoldable pub defer_revalidation_internal : State → State
unfolding arm_timer
defer_revalidation_internal st = arm_timer 100 st

unfoldable pub barrier_init : ℕ → State → State
barrier_init unspecified st = record st { blocked_cxns = replicate max_blocked_cxns unspecified }

module _ (unspecified : ℕ) (cxn_invalid : ℕ → Bool) where
  -- The loop from index `i` on: a later free place replaces an earlier one.
  unfoldable pub search : ℕ → ℕ → List ℕ → Option ℕ → Search
  search cxn_id i [] place = chosen place
  search cxn_id i (c ∷ cs) place =
      if c == cxn_id
      then already_blocked
      else search cxn_id (i + 1) cs (if c == unspecified then some i else place)

  -- The loop of `revalidate`: the events, and the array that it leaves.
  unfoldable pub unblock_events : List ℕ → List Event → List Event
  unblock_events [] trace = trace
  unblock_events (c ∷ cs) trace =
      unblock_events cs (if c == unspecified then trace else unblock_barrier c ∷ trace)

  unfoldable pub unblocked : List ℕ → List ℕ
  unblocked [] = []
  unblocked (c ∷ cs) = (if c == unspecified then c else unspecified) ∷ unblocked cs

  unfoldable pub revalidate : State → State
  unfolding unblock_events unblocked
  revalidate st =
      let trace = unblock_events st.blocked_cxns (upcall_respawn ∷ invalidate_all ∷ st.trace) in
      record st {
        blocked_cxns = unblocked st.blocked_cxns;
        timer_active = if st.timer_active then false else st.timer_active;
        trace = if st.timer_active then unregister_timer ∷ trace else trace;
      }

  -- The end of `ind_ovs_barrier_defer_revalidation`, where a place is free.
  unfoldable pub block_at : ℕ → ℕ → State → State
  unfolding arm_timer
  block_at cxn_id i st = arm_timer 1000 (record st {
    blocked_cxns = set st.blocked_cxns i cxn_id;
    trace = block_barrier cxn_id ∷ st.trace;
  })

  -- `ind_ovs_barrier_defer_revalidation` calls itself after a revalidation; the number bounds how
  -- deep.
  unfoldable pub defer_revalidation : ℕ → ℕ → State → Option State
  defer_revalidation zero cxn_id st = none
  defer_revalidation (suc depth) cxn_id st =
      let retry =
        defer_revalidation depth cxn_id
          (revalidate (record st { blocked_cxns_full = st.blocked_cxns_full + 1 })) in
      if cxn_invalid cxn_id
      then some (defer_revalidation_internal st)
      else elim (search cxn_id 0 st.blocked_cxns none) [
        | already_blocked ↦ some st
        | chosen place ↦ elim place [ none ↦ retry | some i ↦ some (block_at cxn_id i st) ]
      ]

  unfoldable pub barrier_timer : State → State
  barrier_timer st = revalidate (record st { timer_expired = st.timer_expired + 1 })

  -- The loop of `barrier_received`.
  unfoldable pub is_blocked : ℕ → List ℕ → Bool
  is_blocked cxn_id [] = false
  is_blocked cxn_id (c ∷ cs) = if c == cxn_id then true else is_blocked cxn_id cs

  unfoldable pub barrier_received : ℕ → State → State
  unfolding is_blocked
  barrier_received cxn_id st = if is_blocked cxn_id st.blocked_cxns then revalidate st else st
