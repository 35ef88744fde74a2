-- ===== src/Tests/Barrier.antt =====
-- The barrier code at concrete inputs: eight places, two of which are taken, and a full array.
use ivs.Base.{ℕ, ◌≡◌, refl, Bool, true, [], ◌∷◌, ◌==◌, Returns, arith}
use ivs.Barrier.{
  State, defer_revalidation, barrier_received, is_blocked, register_timer, block_barrier,
}
use ivs.Barrier.Defer.{
  IsArmed, IsWaiting, IsReleased, is_held, defer_revalidation-IsWaiting, barrier_received-IsArmed,
}

abbrev full : State
full = record {
  blocked_cxns = 1 ∷ 2 ∷ 3 ∷ 4 ∷ 5 ∷ 6 ∷ 7 ∷ 8 ∷ [];
  timer_active = true;
  blocked_cxns_full = 0;
  timer_expired = 0;
  trace =
      block_barrier 8
      ∷ block_barrier 7
      ∷ block_barrier 6
      ∷ block_barrier 5
      ∷ block_barrier 4
      ∷ block_barrier 3
      ∷ block_barrier 2
      ∷ register_timer 1000
      ∷ block_barrier 1
      ∷ [];
}

abbrev two_blocked : State
two_blocked = record full { blocked_cxns = 0 ∷ 2 ∷ 0 ∷ 4 ∷ 0 ∷ 0 ∷ 0 ∷ 0 ∷ [] }

abbrev cxn_99_invalid : ℕ → Bool
cxn_99_invalid cxn = cxn == 99

full-held :
    (c : ℕ)
    → is_blocked 0 cxn_99_invalid c full.blocked_cxns ≡ true
    → is_held 0 cxn_99_invalid c full.trace ≡ true
unfolding is_blocked
full-held c h = ground arith

defer_revalidation-IsWaiting_example :
    Returns (defer_revalidation 0 cxn_99_invalid 2 9 full) (IsWaiting 0 cxn_99_invalid 9)
defer_revalidation-IsWaiting_example =
    defer_revalidation-IsWaiting 0 cxn_99_invalid 0 9 full
      (record { places = refl; armed = λ h. refl; runs = refl; held = λ c named h. full-held c h })
      refl (omega arith)

barrier_received-IsArmed_example :
    let st' = barrier_received 0 cxn_99_invalid 4 two_blocked in
    IsArmed 0 cxn_99_invalid st' × IsReleased 0 cxn_99_invalid two_blocked st'
unfolding is_blocked
barrier_received-IsArmed_example =
    barrier_received-IsArmed 0 cxn_99_invalid 4 two_blocked
      (record { places = refl; armed = λ h. refl; runs = refl; held = λ c named h. ground arith })
