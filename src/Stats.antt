-- ===== src/Stats.antt =====
-- modules/stats/module/src/stats.c and inc/stats/stats.h: lazily aggregated statistics.
-- An array is the function from its indices; the guards of the code keep every index in range.
-- A writer's `id` stands for its address. `list_push` belongs to another repository: the end at
-- which it links is a parameter. A failing `mmap` ends the process, as `AIM_TRUE_OR_DIE` does: that
-- is `none`.
pub mod Slots
pub mod Count
use ivs.Base.{
  ℕ, zero, suc, ◌+◌, ◌-◌, ◌%◌, ◌^◌, Bool, true, false, Option, none, some, List, [], ◌∷◌, ◌++◌, ltb,
  ◌==◌, if◌then◌else◌,
}

abbrev pub max_stats : ℕ
max_stats = 262144

-- `struct stats`
pub record Stats : Type 0 where
  pub packets : ℕ
  pub bytes : ℕ

-- `struct stats_writer`
pub record Writer : Type 0 where
  pub id : ℕ
  pub stats : ℕ → Stats

-- The static variables of the file.
pub record State : Type 0 where
  pub free_stack : ℕ → ℕ
  pub num_free : ℕ
  pub stats_writers : List Writer

abbrev pub zero_stats : Stats
zero_stats = record { packets = 0; bytes = 0 }

-- A write to an array.
unfoldable pub update {ℓ} : {A : Type ℓ} → (ℕ → A) → ℕ → A → ℕ → A
update f i v j = if j == i then v else f j

-- The `for` of `__stats_module_init__`, with the rounds that are left.
unfoldable pub init_loop : ℕ → (ℕ → ℕ) → ℕ → (ℕ → ℕ) × ℕ
init_loop zero stack num_free = (stack, num_free)
init_loop (suc rounds) stack num_free =
    init_loop rounds (update stack num_free (max_stats - num_free - 1)) (num_free + 1)

unfoldable pub module_init : State
module_init = record {
  free_stack = (init_loop max_stats (λ i. 0) 0).0;
  num_free = (init_loop max_stats (λ i. 0) 0).1;
  stats_writers = [];
}

-- The writer's slot becomes zero.
abbrev pub clear_writer : ℕ → Writer → Writer
clear_writer slot w = record w { stats = update w.stats slot zero_stats }

-- The `LIST_FOREACH` of `stats_clear`.
unfoldable pub clear_all : ℕ → List Writer → List Writer
clear_all slot [] = []
clear_all slot (w ∷ ws) = clear_writer slot w ∷ clear_all slot ws

unfoldable pub stats_clear : State → ℕ → State
unfolding clear_all
stats_clear st slot = record st { stats_writers = clear_all slot st.stats_writers }

unfoldable pub stats_alloc : State → Option (ℕ × State)
unfolding stats_clear
stats_alloc st =
    let slot = st.free_stack (st.num_free - 1) in
    if ltb 0 st.num_free
    then some (slot, stats_clear (record st { num_free = st.num_free - 1 }) slot)
    else none

unfoldable pub stats_free : State → ℕ → Option State
unfolding update
stats_free st slot =
    if ltb st.num_free max_stats
    then some (record st {
      free_stack = update st.free_stack st.num_free slot;
      num_free = st.num_free + 1;
    })
    else none

-- `stats->packets += packets; stats->bytes += bytes;` on 64-bit counters.
abbrev pub add_stats : Stats → ℕ → ℕ → Stats
add_stats s packets bytes = record {
  packets = (s.packets + packets) % 2 ^ 64;
  bytes = (s.bytes + bytes) % 2 ^ 64;
}

unfoldable pub inc_writer : Writer → ℕ → ℕ → ℕ → Writer
unfolding update
inc_writer w slot packets bytes = record w {
  stats = update w.stats slot (add_stats (w.stats slot) packets bytes);
}

-- The writer at an address is changed where it stands in the list.
unfoldable pub inc_in : ℕ → ℕ → ℕ → ℕ → List Writer → List Writer
inc_in id slot packets bytes [] = []
inc_in id slot packets bytes (w ∷ ws) =
    if w.id == id then inc_writer w slot packets bytes ∷ ws else w ∷ inc_in id slot packets bytes ws

unfoldable pub stats_inc : State → ℕ → ℕ → ℕ → ℕ → State
unfolding inc_in inc_writer
stats_inc st id slot packets bytes = record st {
  stats_writers = inc_in id slot packets bytes st.stats_writers;
}

-- The `LIST_FOREACH` of `stats_get`, with the sums so far.
unfoldable pub sum_writers : ℕ → Stats → List Writer → Stats
sum_writers slot result [] = result
sum_writers slot result (w ∷ ws) =
    sum_writers slot (add_stats result (w.stats slot).packets (w.stats slot).bytes) ws

unfoldable pub stats_get : State → ℕ → Stats
unfolding sum_writers
stats_get st slot = sum_writers slot zero_stats st.stats_writers

-- `mmap` gives zeroed memory.
unfoldable pub stats_writer_create : Bool → State → ℕ → State
stats_writer_create list_push_front st id =
    let w : Writer = record { id = id; stats = λ slot. zero_stats } in
    record st {
      stats_writers = if list_push_front then w ∷ st.stats_writers else st.stats_writers ++ w ∷ [];
    }

unfoldable pub drop_writer : ℕ → List Writer → List Writer
drop_writer id [] = []
drop_writer id (w ∷ ws) = if w.id == id then ws else w ∷ drop_writer id ws

unfoldable pub stats_writer_destroy : State → ℕ → State
unfolding drop_writer
stats_writer_destroy st id = record st { stats_writers = drop_writer id st.stats_writers }
