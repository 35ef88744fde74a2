-- ===== src/Stats/Slots.antt =====
-- The free stack: a slot is handed out at most once until it comes back.
use native.Mathlib.Numerals.{add-one}
use ivs.Base.{
  ℕ, zero, suc, ◌+◌, ◌-◌, ◌≤◌, ◌<◌, ◌≡◌, refl, true, List, [], ◌∷◌, arith, ◌==◌, ltb, leb, length,
  if◌then◌else◌, Returns,
}
use ivs.Stats.{
  State, max_stats, update, init_loop, module_init, stats_alloc, stats_free, stats_clear,
}

-- How often a slot stands among the first `n` places of the stack.
unfoldable pub count_below : (ℕ → ℕ) → ℕ → ℕ → ℕ
count_below stack zero s = 0
count_below stack (suc n) s = (if stack n == s then 1 else 0) + count_below stack n s

-- How often a slot is among the live handles.
unfoldable pub count_live : ℕ → List ℕ → ℕ
count_live s [] = 0
count_live s (x ∷ xs) = (if x == s then 1 else 0) + count_live s xs

pred_lem : (n : ℕ) → suc n - 1 ≡ n
pred_lem n = omega arith

-- Every slot is free or live, and once; and there are no other slots.
pub record IsBalanced (live : List ℕ) (st : State) : Type 0 where
  pub total : st.num_free + length live ≡ max_stats
  pub once :
      (s : ℕ) → s < max_stats → count_below st.free_stack st.num_free s + count_live s live ≡ 1
  pub inside : (i : ℕ) → i < st.num_free → st.free_stack i < max_stats

lt→ltb : (a b : ℕ) → a < b → ltb a b ≡ true
lt→ltb a b h = ground arith

count_below-pred :
    (stack : ℕ → ℕ) (n s : ℕ)
    → 0 < n
    → count_below stack n s ≡ (if stack (n - 1) == s then 1 else 0) + count_below stack (n - 1) s
unfolding count_below
count_below-pred stack zero s h = absurd (omega arith)
count_below-pred stack (suc n) s h = rw (pred_lem n)

count_below-update :
    (stack : ℕ → ℕ) (n v s i : ℕ)
    → n ≤ i
    → count_below (update stack i v) n s ≡ count_below stack n s
unfolding count_below update
count_below-update stack zero v s i h = refl
count_below-update stack (suc n) v s i h =
    ground (arith, count_below-update stack n v s i (omega arith))

-- Where every slot is free or live once and some slot is free, stats_alloc returns a slot of the
-- array that no live handle has, and every slot is free or live once with the new handle.
pub stats_alloc-fresh :
    (live : List ℕ) (st : State)
    → IsBalanced live st
    → 0 < st.num_free
    → Returns
        (stats_alloc st)
        λ r. (r.0 < max_stats) × (count_live r.0 live ≡ 0) × IsBalanced (r.0 ∷ live) r.1
unfolding stats_alloc count_live stats_clear
stats_alloc-fresh live st b h =
    let n : ℕ = st.num_free - 1 in
    let slot = st.free_stack n in
    let lt : slot < max_stats = b.inside n (omega arith) in
    let split = λ (s : ℕ). count_below-pred st.free_stack st.num_free s h in
    (
      (slot, stats_clear (record st { num_free = n }) slot),
      rw (lt→ltb _ _ h),
      (
        lt,
        ground (arith, split slot, b.once slot),
        record {
          total = omega (arith, b.total);
          once = λ s hs. ground (arith, split s, b.once s);
          inside = λ i hi. b.inside i (omega arith);
        },
      ),
    )

-- Where every slot is free or live once, stats_free of a live slot returns, and every slot is free
-- or live once without that handle.
pub stats_free-IsBalanced :
    (live : List ℕ) (st : State) (slot : ℕ)
    → IsBalanced (slot ∷ live) st
    → slot < max_stats
    → Returns (stats_free st slot) λ st'. IsBalanced live st'
unfolding stats_free update count_below count_live
stats_free-IsBalanced live st slot b h =
    let room : st.num_free < max_stats = omega (arith, b.total) in
    (
      record st { free_stack = update st.free_stack st.num_free slot; num_free = st.num_free + 1 },
      rw (lt→ltb _ _ room),
      record {
        total = omega (arith, b.total);
        once = λ s hs. rw add-one (
            ground (
              arith,
              count_below-update st.free_stack st.num_free slot s st.num_free (omega arith),
              b.once s,
            ));
        inside = λ i hi. ground (arith, b.inside i);
      },
    )

-- What the loop has written below `num_free`.
Descending : (ℕ → ℕ) → ℕ → Type 0
Descending stack n = (i : ℕ) → i < n → stack i ≡ max_stats - i - 1

init_loop-Descending :
    (rounds : ℕ) (stack : ℕ → ℕ) (n : ℕ)
    → Descending stack n
    → ((init_loop rounds stack n).1 ≡ n + rounds)
      × Descending (init_loop rounds stack n).0 (n + rounds)
unfolding init_loop update Descending
init_loop-Descending zero stack n h = (omega arith, λ i lt. h i (omega arith))
init_loop-Descending (suc rounds) stack n h =
    let (e, p) =
      init_loop-Descending rounds (update stack n (max_stats - n - 1)) (n + 1)
        (λ i lt. ground (arith, h i)) in
    (omega arith, λ i lt. p i (omega arith))

count_below-Descending :
    (stack : ℕ → ℕ) (n s : ℕ)
    → Descending stack n
    → n ≤ max_stats
    → s < max_stats
    → count_below stack n s ≡ (if leb max_stats (s + n) then 1 else 0)
unfolding count_below Descending
count_below-Descending stack zero s h le lt = ground arith
count_below-Descending stack (suc n) s h le lt = ground (
  arith,
  h n (omega arith),
  count_below-Descending stack n s (λ i less. h i (omega arith)) (omega arith) lt,
)

-- After the initialisation every slot is free once, and none is live.
pub module_init-IsBalanced : IsBalanced [] module_init
unfolding module_init count_live Descending
module_init-IsBalanced =
    let (e, p) = init_loop-Descending max_stats (λ i. 0) 0 (λ i lt. absurd (omega arith)) in
    record {
      total = omega (arith, e);
      once = λ s hs. rw e (
          ground (
            arith,
            count_below-Descending (init_loop max_stats (λ i. 0) 0).0 max_stats s p (omega arith)
                hs,
          ));
      inside = λ i hi. omega (arith, p i (omega (arith, e)));
    }
