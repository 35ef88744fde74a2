-- ===== src/Kflow.antt =====
-- modules/OVSDriver/module/src/kflow.c: the cache of kernel flows.
-- An address is a number; `heap` holds the kflow at each address, and a list of kflows is the list of
-- their addresses, so a kflow is on a list at most once and `list_remove` drops its address. The
-- memory that `aim_malloc` gives is new. The messages that were sent to the kernel are the trace
-- `sent`, on which its replies depend. The megaflow TCAM enters by its operations, the current pipeline
-- by what it gives for a parsed key: its mask, the stats handles and the actions. Logs and debug
-- counters are left out, as is `test_kflow_mask`, whose loop has no rounds in a release build.
pub mod Member
pub mod Cache
pub mod Add
pub mod Coherent
pub mod Keeps
pub mod Account
pub mod Whole
pub mod Link
pub mod Steps
pub mod Limit
pub mod Sound
pub mod Counted
use ivs.Base.{
  ℕ, zero, suc, ◌+◌, ◌-◌, ◌%◌, ◌^◌, Bool, true, false, not, ◌&&◌, ◌||◌, Option, none, some, List,
  [], ◌∷◌, ◌++◌, ltb, leb, ◌==◌, if◌then◌else◌, length, take,
}
use ivs.Stats.{Stats, zero_stats, stats_inc, update}

abbrev pub Bytes : Type 0
Bytes = List ℕ

abbrev pub Words : Type 0
Words = List ℕ

-- `memcmp` of two blocks, and of their lengths.
unfoldable pub bytes_eq : List ℕ → List ℕ → Bool
bytes_eq [] [] = true
bytes_eq (a ∷ xs) (b ∷ ys) = (a == b) && bytes_eq xs ys
bytes_eq _ _ = false

-- The handles that `num_stats_handles`, which has 16 bits, counts.
abbrev pub counted_handles : List ℕ → List ℕ
counted_handles handles = take (length handles % 2 ^ 16) handles

-- `struct ind_ovs_kflow`; `stats_handles` holds as many handles as `num_stats_handles` says.
pub record Kflow : Type 0 where
  pub key : Bytes
  pub in_port : ℕ
  pub stats : Stats
  pub last_used : ℕ
  pub mask : Words
  pub actions : Bytes
  pub stats_handles : List ℕ

-- What `pipeline_process` leaves where it succeeds.
pub record Verdict : Type 0 where
  pub mask : Words
  pub stats_handles : List ℕ
  pub actions : Bytes

-- The requests to the kernel's flow table.
pub data Message : Type 0 where
  flow_new : Bytes → Bytes → Option Words → Message
  flow_set : Bytes → Bytes → Option Words → Message
  flow_get : Bytes → Message
  flow_del : Bytes → Message
  flow_del_all : Message

-- The attributes of the kernel's report on a flow.
pub record Report : Type 0 where
  pub stats : Option Stats
  pub used : Option ℕ

pub data Error : Type 0 where
  resource unknown pipeline_failed : Error

pub record Env : Type 1 where
  pub Megaflows : Type 0
  pub tcam_match : Megaflows → Words → Bool
  pub tcam_insert : Megaflows → ℕ → Words → Words → Megaflows
  pub tcam_remove : Megaflows → ℕ → Words → Words → Megaflows
  pub ind_ovs_parse_key : Bytes → Words
  pub pipeline_process : Words → Option Verdict
  pub key_in_port : Bytes → ℕ
  pub key_hash : Bytes → ℕ
  pub transact : List Message → Message → Bool
  pub transact_reply : List Message → Message → Option Report
  pub list_push_front : Bool
  pub stats_writer : ℕ
  pub hitless : Bool
  pub benchmark_mode : Bool
  pub disable_megaflows : Bool

-- `ports` has the `num_kflows` of every port there is.
pub record State (Megaflows : Type 0) : Type 0 where
  pub heap : ℕ → Kflow
  pub fresh : ℕ
  pub kflows : List ℕ
  pub buckets : ℕ → List ℕ
  pub megaflow_tcam : Megaflows
  pub ports : ℕ → Option ℕ
  pub counters : ivs.Stats.State
  pub sent : List Message

abbrev pub num_kflow_buckets : ℕ
num_kflow_buckets = 8192

abbrev pub max_kflows_per_port : ℕ
max_kflows_per_port = 16384

abbrev pub expiration_ms : ℕ
expiration_ms = 2345

unfoldable pub list_remove : ℕ → List ℕ → List ℕ
list_remove id [] = []
list_remove id (x ∷ xs) = if x == id then list_remove id xs else x ∷ list_remove id xs

-- The loop of `kflow_sync_stats` over the handles.
unfoldable pub inc_handles : ivs.Stats.State → ℕ → List ℕ → ℕ → ℕ → ivs.Stats.State
inc_handles counters writer [] packets bytes = counters
inc_handles counters writer (h ∷ hs) packets bytes =
    inc_handles (stats_inc counters writer h packets bytes) writer hs packets bytes

module _ (env : Env) where
  open env use {
    Megaflows, tcam_match, tcam_insert, tcam_remove, ind_ovs_parse_key, pipeline_process,
    key_in_port, key_hash, transact, transact_reply, list_push_front, stats_writer, hitless,
    benchmark_mode, disable_megaflows,
  }

  abbrev pub list_push : List ℕ → ℕ → List ℕ
  list_push l x = if list_push_front then x ∷ l else l ++ x ∷ []

  abbrev pub send : State Megaflows → Message → State Megaflows
  send st message = record st { sent = st.sent ++ message ∷ [] }

  abbrev pub bucket_of : Bytes → ℕ
  bucket_of key = key_hash key % num_kflow_buckets

  -- The `LIST_FOREACH` of `kflow_lookup`.
  unfoldable pub lookup_in : (ℕ → Kflow) → Bytes → List ℕ → Option ℕ
  lookup_in heap key [] = none
  lookup_in heap key (id ∷ ids) =
      if bytes_eq (heap id).key key then some id else lookup_in heap key ids

  unfoldable pub kflow_lookup : State Megaflows → Bytes → Option ℕ
  unfolding lookup_in
  kflow_lookup st key = lookup_in st.heap key (st.buckets (bucket_of key))

  -- The increments of a report on the flow at an address.
  unfoldable pub sync_counters : State Megaflows → ℕ → Option Stats → State Megaflows
  unfolding inc_handles
  sync_counters st id none = st
  sync_counters st id (some stats) =
      let kflow = st.heap id in
      let packet_diff = (stats.packets + (2 ^ 64 - kflow.stats.packets)) % 2 ^ 64 in
      let byte_diff = (stats.bytes + (2 ^ 64 - kflow.stats.bytes)) % 2 ^ 64 in
      if ltb 0 packet_diff || ltb 0 byte_diff
      then record st {
        counters = inc_handles st.counters stats_writer kflow.stats_handles packet_diff byte_diff;
        heap = update st.heap id (record kflow { stats = stats });
      }
      else st

  unfoldable pub sync_used : State Megaflows → ℕ → Option ℕ → State Megaflows
  sync_used st id none = st
  sync_used st id (some used) =
      if ltb (st.heap id).last_used used
      then record st { heap = update st.heap id (record (st.heap id) { last_used = used }) }
      else st

  unfoldable pub kflow_sync_stats : State Megaflows → ℕ → Report → State Megaflows
  unfolding sync_counters sync_used
  kflow_sync_stats st id report = sync_used (sync_counters st id report.stats) id report.used

  unfoldable pub ind_ovs_kflow_sync_stats : State Megaflows → ℕ → State Megaflows
  unfolding kflow_sync_stats
  ind_ovs_kflow_sync_stats st id =
      let message = flow_get (st.heap id).key in
      elim (transact_reply st.sent message) [
        | none ↦ send st message
        | some report ↦ kflow_sync_stats (send st message) id report
      ]

  -- `num_kflows--` on 32 bits.
  unfoldable pub release_port : State Megaflows → ℕ → State Megaflows
  release_port st port = elim (st.ports port) [
    | none ↦ st
    | some num_kflows ↦ record st {
      ports = update st.ports port (some ((num_kflows + (2 ^ 32 - 1)) % 2 ^ 32));
    }
  ]

  -- The kflow leaves the list, its bucket and the TCAM.
  unfoldable pub unlink : State Megaflows → ℕ → State Megaflows
  unfolding list_remove
  unlink st id =
      let kflow = st.heap id in
      record st {
        kflows = list_remove id st.kflows;
        buckets =
            update st.buckets (bucket_of kflow.key)
              (list_remove id (st.buckets (bucket_of kflow.key)));
        megaflow_tcam = tcam_remove st.megaflow_tcam id (ind_ovs_parse_key kflow.key) kflow.mask;
      }

  unfoldable pub ind_ovs_kflow_delete : State Megaflows → ℕ → State Megaflows
  unfolding release_port ind_ovs_kflow_sync_stats unlink
  ind_ovs_kflow_delete st id =
      let synced = ind_ovs_kflow_sync_stats (release_port st (st.heap id).in_port) id in
      unlink (send synced (flow_del (st.heap id).key)) id

  abbrev mask_attr : Words → Option Words
  mask_attr mask = if disable_megaflows then none else some mask

  -- The new kflow in its lists. `now` is the time in ms.
  unfoldable pub link : State Megaflows → Bytes → ℕ → ℕ → Verdict → ℕ → State Megaflows
  link st key in_port num_kflows verdict now =
      let id = st.fresh in
      let kflow : Kflow = record {
        key = key;
        in_port = in_port % 2 ^ 16;
        stats = zero_stats;
        last_used = now;
        mask = verdict.mask;
        actions = verdict.actions;
        stats_handles = counted_handles verdict.stats_handles;
      } in
      record st {
        heap = update st.heap id kflow;
        fresh = st.fresh + 1;
        kflows = list_push st.kflows id;
        buckets = update st.buckets (bucket_of key) (list_push (st.buckets (bucket_of key)) id);
        megaflow_tcam = tcam_insert st.megaflow_tcam id (ind_ovs_parse_key key) verdict.mask;
        ports = update st.ports in_port (some ((num_kflows + 1) % 2 ^ 32));
      }

  -- `ind_ovs_kflow_add` behind its checks.
  unfoldable pub add_checked : State Megaflows → Bytes → ℕ → ℕ → ℕ → Option Error × State Megaflows
  unfolding link
  add_checked st key in_port num_kflows now = elim (pipeline_process (ind_ovs_parse_key key)) [
    | none ↦ (some pipeline_failed, st)
    | some verdict ↦
        let message = flow_new key verdict.actions (mask_attr verdict.mask) in
        if transact st.sent message
        then (none, link (send st message) key in_port num_kflows verdict now)
        else (some unknown, send st message)
  ]

  unfoldable pub ind_ovs_kflow_add : State Megaflows → Bytes → ℕ → Option Error × State Megaflows
  unfolding add_checked
  ind_ovs_kflow_add st key now =
      let in_port = key_in_port key in
      if hitless then (none, st) else elim (st.ports in_port) [
        | none ↦ (none, st)
        | some num_kflows ↦
            if not benchmark_mode && leb max_kflows_per_port num_kflows
            then (some resource, st)
            else if tcam_match st.megaflow_tcam (ind_ovs_parse_key key)
            then (none, st)
            else add_checked st key in_port num_kflows now
      ]

  -- The stats of the flow go to the flows it used before, where these change.
  unfoldable pub refresh_handles : State Megaflows → ℕ → List ℕ → State Megaflows
  unfolding ind_ovs_kflow_sync_stats bytes_eq
  refresh_handles st id handles =
      let synced = ind_ovs_kflow_sync_stats st id in
      if bytes_eq handles (st.heap id).stats_handles then st else record synced {
        heap =
            update synced.heap id
              (record (synced.heap id) { stats_handles = counted_handles handles });
      }

  unfoldable pub refresh_actions : State Megaflows → ℕ → Verdict → State Megaflows
  unfolding ind_ovs_kflow_delete bytes_eq
  refresh_actions st id verdict =
      let message = flow_set (st.heap id).key verdict.actions (mask_attr verdict.mask) in
      let asked = send st message in
      if bytes_eq verdict.actions (st.heap id).actions
      then st
      else if transact st.sent message
      then record asked {
        heap = update asked.heap id (record (asked.heap id) { actions = verdict.actions });
      }
      else ind_ovs_kflow_delete asked id

  unfoldable pub ind_ovs_kflow_invalidate : State Megaflows → ℕ → State Megaflows
  unfolding ind_ovs_kflow_delete refresh_handles refresh_actions bytes_eq
  ind_ovs_kflow_invalidate st id = elim (pipeline_process (ind_ovs_parse_key (st.heap id).key)) [
    | none ↦ ind_ovs_kflow_delete st id
    | some verdict ↦
        if bytes_eq verdict.mask (st.heap id).mask
        then refresh_actions (refresh_handles st id verdict.stats_handles) id verdict
        else ind_ovs_kflow_delete st id
  ]

  -- The `LIST_FOREACH_SAFE` of `ind_ovs_kflow_invalidate_all`.
  unfoldable pub invalidate_each : State Megaflows → List ℕ → State Megaflows
  unfolding ind_ovs_kflow_invalidate
  invalidate_each st [] = st
  invalidate_each st (id ∷ ids) = invalidate_each (ind_ovs_kflow_invalidate st id) ids

  unfoldable pub ind_ovs_kflow_invalidate_all : State Megaflows → State Megaflows
  unfolding invalidate_each
  ind_ovs_kflow_invalidate_all st = if hitless then st else invalidate_each st st.kflows

  -- One flow of the kernel's dump. The time difference is unsigned.
  unfoldable pub kflow_expire : State Megaflows → Bytes → Report → ℕ → State Megaflows
  unfolding kflow_lookup kflow_sync_stats ind_ovs_kflow_delete
  kflow_expire st key report cur_time = elim (kflow_lookup st key) [
    | none ↦ st
    | some id ↦
        let synced = kflow_sync_stats st id report in
        let idle = (cur_time + (2 ^ 64 - (synced.heap id).last_used)) % 2 ^ 64 in
        if leb expiration_ms idle then ind_ovs_kflow_delete synced id else synced
  ]

  -- Only where no kflow is cached; the assertion is the caller's duty.
  unfoldable pub ind_ovs_kflow_flush : State Megaflows → Option (State Megaflows)
  ind_ovs_kflow_flush st = elim st.kflows [ [] ↦ some (send st flow_del_all) | (_ ∷ _) ↦ none ]
