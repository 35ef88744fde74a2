-- ===== src/Stats/Count.antt =====
-- Aggregation: what the writers add is what a reader gets, modulo the width of the counters.
use ivs.Base.{
  ℕ, ◌+◌, ◌%◌, ◌^◌, ◌<◌, ◌≡◌, refl, Bool, true, false, List, [], ◌∷◌, arith, ◌==◌, if◌then◌else◌,
}
use ivs.Stats.{
  Stats, Writer, State, zero_stats, add_stats, update, clear_all, stats_clear, inc_writer, inc_in,
  stats_inc, sum_writers, stats_get,
}

-- The sum over the writers, with no bound.
unfoldable pub total : (Stats → ℕ) → ℕ → List Writer → ℕ
total field slot [] = 0
total field slot (w ∷ ws) = field (w.stats slot) + total field slot ws

abbrev pub packets_of : Stats → ℕ
packets_of s = s.packets

abbrev pub bytes_of : Stats → ℕ
bytes_of s = s.bytes

-- Some writer has the address.
abbrev pub has_writer : ℕ → List Writer → Bool
has_writer id [] = false
has_writer id (w ∷ ws) = if w.id == id then true else has_writer id ws

sum_writers-total :
    (slot : ℕ) (r : Stats) (ws : List Writer)
    → r.packets < 2 ^ 64
    → r.bytes < 2 ^ 64
    → sum_writers slot r ws ≡ record {
      packets = (r.packets + total packets_of slot ws) % 2 ^ 64;
      bytes = (r.bytes + total bytes_of slot ws) % 2 ^ 64;
    }
unfolding sum_writers total
sum_writers-total slot r [] hp hb = ground arith
sum_writers-total slot r (w ∷ ws) hp hb = ground (
  arith,
  sum_writers-total slot (add_stats r (w.stats slot).packets (w.stats slot).bytes) ws (omega arith)
      (omega arith),
)

-- stats_get gives the sums over all writers of the packets and of the bytes of the slot, modulo
-- 2^64.
pub stats_get-total :
    (st : State) (slot : ℕ)
    → stats_get st slot ≡ record {
      packets = total packets_of slot st.stats_writers % 2 ^ 64;
      bytes = total bytes_of slot st.stats_writers % 2 ^ 64;
    }
unfolding stats_get
stats_get-total st slot =
    ground (arith, sum_writers-total slot zero_stats st.stats_writers (omega arith) (omega arith))

total-inc_in :
    (id slot packets bytes other : ℕ) (ws : List Writer)
    → has_writer id ws ≡ true
    → (total packets_of other (inc_in id slot packets bytes ws) % 2 ^ 64
        ≡ (total packets_of other ws + (if other == slot then packets else 0)) % 2 ^ 64)
      × (total bytes_of other (inc_in id slot packets bytes ws) % 2 ^ 64
          ≡ (total bytes_of other ws + (if other == slot then bytes else 0)) % 2 ^ 64)
unfolding total inc_in inc_writer update
total-inc_in id slot packets bytes other [] h = cc
total-inc_in id slot packets bytes other (w ∷ ws) h =
    ground (arith, total-inc_in id slot packets bytes other ws)

-- stats_inc at a writer that exists adds to what stats_get gives for its slot, with the wrap-
-- around of the counters, and changes no other slot.
pub stats_get-stats_inc :
    (st : State) (id slot packets bytes other : ℕ)
    → has_writer id st.stats_writers ≡ true
    → stats_get (stats_inc st id slot packets bytes) other
      ≡ (if other == slot then add_stats (stats_get st other) packets bytes else stats_get st other)
unfolding stats_inc
stats_get-stats_inc st id slot packets bytes other h = ground (
  arith,
  stats_get-total (stats_inc st id slot packets bytes) other,
  stats_get-total st other,
  total-inc_in id slot packets bytes other st.stats_writers h,
)

total-clear_all :
    (field : Stats → ℕ) (slot other : ℕ) (ws : List Writer)
    → field zero_stats ≡ 0
    → total field other (clear_all slot ws) ≡ (if other == slot then 0 else total field other ws)
unfolding total clear_all update
total-clear_all field slot other [] e = ground arith
total-clear_all field slot other (w ∷ ws) e = ground (arith, total-clear_all field slot other ws e)

-- After stats_clear, stats_get gives zero for its slot, and what it gave before for every other.
pub stats_get-stats_clear :
    (st : State) (slot other : ℕ)
    → stats_get (stats_clear st slot) other
      ≡ (if other == slot then zero_stats else stats_get st other)
unfolding stats_clear
stats_get-stats_clear st slot other = ground (
  arith,
  stats_get-total (stats_clear st slot) other,
  stats_get-total st other,
  total-clear_all packets_of slot other st.stats_writers refl,
  total-clear_all bytes_of slot other st.stats_writers refl,
)
