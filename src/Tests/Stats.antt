-- ===== src/Tests/Stats.antt =====
-- The statistics at concrete inputs: the initial state and a state with one writer.
use ivs.Base.{◌+◌, ◌%◌, ◌^◌, ◌<◌, ◌≡◌, refl, [], ◌∷◌, Returns, arith}
use ivs.Stats.{
  State, zero_stats, max_stats, module_init, stats_alloc, stats_free, stats_get, stats_inc,
  stats_clear, add_stats,
}
use ivs.Stats.Slots.{
  IsBalanced, count_live, stats_alloc-fresh, stats_free-IsBalanced, module_init-IsBalanced,
}
use ivs.Stats.Count.{
  total, packets_of, bytes_of, stats_get-total, stats_get-stats_inc, stats_get-stats_clear,
}

abbrev one_writer : State
one_writer = record {
  free_stack = λ i. i;
  num_free = 3;
  stats_writers = record { id = 9; stats = λ slot. record { packets = slot + 1; bytes = 64 } } ∷ [];
}

module_init-free : 0 < module_init.num_free
module_init-free = omega (arith, module_init-IsBalanced.total)

stats_alloc-fresh_example :
    Returns
      (stats_alloc module_init)
      λ r. (r.0 < max_stats) × (count_live r.0 [] ≡ 0) × IsBalanced (r.0 ∷ []) r.1
stats_alloc-fresh_example = stats_alloc-fresh [] module_init module_init-IsBalanced module_init-free

abbrev allocated : State
allocated = stats_alloc-fresh_example.0.1

stats_free-IsBalanced_example :
    Returns (stats_free allocated stats_alloc-fresh_example.0.0) λ st'. IsBalanced [] st'
stats_free-IsBalanced_example =
    stats_free-IsBalanced [] allocated stats_alloc-fresh_example.0.0 stats_alloc-fresh_example.2.2
      stats_alloc-fresh_example.2.0

stats_get-total_example : stats_get one_writer 2 ≡ record {
  packets = total packets_of 2 one_writer.stats_writers % 2 ^ 64;
  bytes = total bytes_of 2 one_writer.stats_writers % 2 ^ 64;
}
stats_get-total_example = stats_get-total one_writer 2

stats_get-stats_inc_example :
    stats_get (stats_inc one_writer 9 2 1 60) 2 ≡ add_stats (stats_get one_writer 2) 1 60
stats_get-stats_inc_example = stats_get-stats_inc one_writer 9 2 1 60 2 refl

stats_get-stats_clear_example : stats_get (stats_clear one_writer 2) 2 ≡ zero_stats
stats_get-stats_clear_example = stats_get-stats_clear one_writer 2 2
