-- ===== src/Kflow/Counted.antt =====
-- modules/OVSDriver/module/src/kflow.c with modules/stats: the packets that the kernel reports reach the
-- counters of the kflow's handles once.
use ivs.Base.{
  ℕ, ◌+◌, ◌-◌, ◌%◌, ◌^◌, ◌<◌, ◌≡◌, refl, ap, ◌∙◌, arith, true, false, ◌||◌, Option, none, some,
  List, [], ◌∷◌, ◌==◌, ==_refl, Bool-cases, inl, inr, if◌then◌else◌, ltb,
}
use ivs.Stats.{Stats, Writer, add_stats, update, inc_in, stats_inc, stats_get}
use ivs.Stats.Count.{has_writer, stats_get-total, stats_get-stats_inc}
use ivs.Kflow.{Report, Env, State, inc_handles, sync_counters, sync_used, kflow_sync_stats}

-- What a slot gets when every handle of a list gets an amount.
unfoldable pub share : List ℕ → ℕ → ℕ → ℕ
share [] slot amount = 0
share (h ∷ hs) slot amount = (if slot == h then amount else 0) + share hs slot amount

has_writer-inc_in :
    (id writer slot packets bytes : ℕ) (ws : List Writer)
    → has_writer id (inc_in writer slot packets bytes ws) ≡ has_writer id ws
unfolding inc_in ivs.Stats.inc_writer
has_writer-inc_in id writer slot packets bytes [] = refl
has_writer-inc_in id writer slot packets bytes (w ∷ ws) =
    ground (arith, has_writer-inc_in id writer slot packets bytes ws)

add_mod : (a b c : ℕ) → ((a + b) % 2 ^ 64 + c) % 2 ^ 64 ≡ (a + (b + c)) % 2 ^ 64
add_mod a b c = omega arith

get_small :
    (st : ivs.Stats.State) (slot : ℕ)
    → ((stats_get st slot).packets % 2 ^ 64 ≡ (stats_get st slot).packets)
      × ((stats_get st slot).bytes % 2 ^ 64 ≡ (stats_get st slot).bytes)
get_small st slot = ground (arith, stats_get-total st slot)

has_writer-stats_inc :
    (counters : ivs.Stats.State) (writer slot packets bytes : ℕ)
    → has_writer writer counters.stats_writers ≡ true
    → has_writer writer (stats_inc counters writer slot packets bytes).stats_writers ≡ true
unfolding stats_inc
has_writer-stats_inc counters writer slot packets bytes h =
    has_writer-inc_in writer writer slot packets bytes counters.stats_writers ∙ h

inc_handles-get :
    (counters : ivs.Stats.State) (writer slot packets bytes : ℕ) (handles : List ℕ)
    → has_writer writer counters.stats_writers ≡ true
    → ((stats_get (inc_handles counters writer handles packets bytes) slot).packets
        ≡ ((stats_get counters slot).packets + share handles slot packets) % 2 ^ 64)
      × ((stats_get (inc_handles counters writer handles packets bytes) slot).bytes
          ≡ ((stats_get counters slot).bytes + share handles slot bytes) % 2 ^ 64)
unfolding inc_handles share
inc_handles-get counters writer slot packets bytes [] h =
    let s = get_small counters slot in (omega (arith, s.0), omega (arith, s.1))
inc_handles-get counters writer slot packets bytes (x ∷ xs) h =
    let one = stats_get-stats_inc counters writer x packets bytes slot h in
    let rest =
      inc_handles-get (stats_inc counters writer x packets bytes) writer slot packets bytes xs
        (has_writer-stats_inc counters writer x packets bytes h) in
    elim (Bool-cases (slot == x)) [
      | inl same ↦
          let value = rw same at one in
          let p = ap (λ s. s.packets) value in
          let b = ap (λ s. s.bytes) value in
          rw same (omega (arith, rest.0, p), omega (arith, rest.1, b))
      | inr other ↦
          let value = rw other at one in
          let p = ap (λ s. s.packets) value in
          let b = ap (λ s. s.bytes) value in
          rw other (omega (arith, rest.0, p), omega (arith, rest.1, b))
    ]

-- The difference of a counter of 64 bits.
abbrev diff : ℕ → ℕ → ℕ
diff new old = (new + (2 ^ 64 - old)) % 2 ^ 64

share_law :
    (handles : List ℕ) (slot a new old : ℕ)
    → new < 2 ^ 64
    → old < 2 ^ 64
    → (a + (share handles slot (diff new old) + share handles slot (2 ^ 64 - new))) % 2 ^ 64
      ≡ (a + share handles slot (2 ^ 64 - old)) % 2 ^ 64
unfolding share
share_law [] slot a new old p q = refl
share_law (x ∷ xs) slot a new old p q = elim (Bool-cases (slot == x)) [
  | inr other ↦ let ih = share_law xs slot a new old p q in rw other (omega (arith, ih))
  | inl same ↦
      let ih = share_law xs slot (a + (2 ^ 64 - old)) new old p q in rw same (omega (arith, ih))
]

abbrev pub IsStats : Stats → Type 0
IsStats s = (s.packets < 2 ^ 64) × (s.bytes < 2 ^ 64)

not_moved : (p b : ℕ) → (ltb 0 p || ltb 0 b) ≡ false → (p ≡ 0) × (b ≡ 0)
not_moved p b h = ground arith

stats_equal : (s t : Stats) → s.packets ≡ t.packets → s.bytes ≡ t.bytes → s ≡ t
stats_equal s t p b = λ i. record { packets = p i; bytes = b i }

abbrev pub report : Stats → Option ℕ → Report
report stats used = record { stats = some stats; used = used }

module _ (env : Env) where
  open env use {Megaflows}

  -- What the counters of a slot stand at, less what the kflow has counted for it, on 64 bits.
  abbrev pub packets_due : State Megaflows → ℕ → ℕ → ℕ
  packets_due st id slot =
      ((stats_get st.counters slot).packets
        + share (st.heap id).stats_handles slot (2 ^ 64 - (st.heap id).stats.packets))
      % 2 ^ 64

  abbrev pub bytes_due : State Megaflows → ℕ → ℕ → ℕ
  bytes_due st id slot =
      ((stats_get st.counters slot).bytes
        + share (st.heap id).stats_handles slot (2 ^ 64 - (st.heap id).stats.bytes))
      % 2 ^ 64

  pub sync_counters-Counted :
      (st : State Megaflows) (id slot : ℕ) (stats : Stats)
      → has_writer env.stats_writer st.counters.stats_writers ≡ true
      → IsStats (st.heap id).stats
      → IsStats stats
      → (((sync_counters env st id (some stats)).heap id).stats ≡ stats)
        × (packets_due (sync_counters env st id (some stats)) id slot ≡ packets_due st id slot)
        × (bytes_due (sync_counters env st id (some stats)) id slot ≡ bytes_due st id slot)
  unfolding sync_counters update
  sync_counters-Counted st id slot stats writer old new =
      let k = st.heap id in
      let packets = diff stats.packets k.stats.packets in
      let bytes = diff stats.bytes k.stats.bytes in
      elim (Bool-cases (ltb 0 packets || ltb 0 bytes)) [
        | inr still ↦
            let zeros = not_moved packets bytes still in
            let same : k.stats ≡ stats =
              stats_equal k.stats stats (omega (arith, zeros.0, old.0, new.0))
                (omega (arith, zeros.1, old.1, new.1)) in
            rw (sync_counters, still) (same, refl, refl)
        | inl moved ↦
            let got =
              inc_handles-get st.counters env.stats_writer slot packets bytes k.stats_handles
                writer in
            let p =
              share_law k.stats_handles slot (stats_get st.counters slot).packets stats.packets
                k.stats.packets (new.0) (old.0) in
            let b =
              share_law k.stats_handles slot (stats_get st.counters slot).bytes stats.bytes
                k.stats.bytes (new.1) (old.1) in
            rw (sync_counters, moved, ==_refl id)
              (refl, omega (arith, got.0, p), omega (arith, got.1, b))
      ]

  -- The time of the last use is no part of the statistics.
  sync_used-Counted :
      (st : State Megaflows) (id : ℕ) (used : Option ℕ)
      → ((sync_used env st id used).counters ≡ st.counters)
        × (((sync_used env st id used).heap id).stats ≡ (st.heap id).stats)
        × (((sync_used env st id used).heap id).stats_handles ≡ (st.heap id).stats_handles)
  unfolding sync_used update
  sync_used-Counted st id none = (refl, refl, refl)
  sync_used-Counted st id (some used) = elim (Bool-cases (ltb (st.heap id).last_used used)) [
    | inl later ↦ rw (sync_used, later, ==_refl id) (refl, refl, refl)
    | inr earlier ↦ rw (sync_used, earlier) (refl, refl, refl)
  ]

  -- Where the writer exists and the counters have 64 bits, kflow_sync_stats with statistics of the
  -- kernel notes them in the kflow, and for every slot the packets and bytes counted, less what
  -- the kflow notes once for each handle of that slot, are the same before and after, modulo 2^64:
  -- nothing is lost or counted twice.
  pub kflow_sync_stats-Counted :
      (st : State Megaflows) (id slot : ℕ) (stats : Stats) (used : Option ℕ)
      → has_writer env.stats_writer st.counters.stats_writers ≡ true
      → IsStats (st.heap id).stats
      → IsStats stats
      → (((kflow_sync_stats env st id (report stats used)).heap id).stats ≡ stats)
        × (packets_due (kflow_sync_stats env st id (report stats used)) id slot
            ≡ packets_due st id slot)
        × (bytes_due (kflow_sync_stats env st id (report stats used)) id slot
            ≡ bytes_due st id slot)
  unfolding kflow_sync_stats
  kflow_sync_stats-Counted st id slot stats used writer old new =
      let first = sync_counters-Counted st id slot stats writer old new in
      let kept = sync_used-Counted (sync_counters env st id (some stats)) id used in
      (
        kept.1 ∙ first.0,
        rw (kept.0, kept.1, kept.2) (first.1),
        rw (kept.0, kept.1, kept.2) (first.2),
      )
