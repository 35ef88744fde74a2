-- ===== src/Tcam.antt =====
-- modules/tcam/module/src/tcam.c and inc/tcam/tcam.h: the software TCAM.
-- A key is the list of its 32-bit words. An entry's `id` stands for the address of the caller's
-- `struct tcam_entry`; a bucket's chain of `next` pointers is a list. The code of other
-- repositories enters as `Env`: the murmur rounds, the bloom filter, the walk of `bighash` over the
-- entries of one hash, and the end at which `list_push` links.
pub mod Mask
pub mod Chain
pub mod Best
pub mod Insert
pub mod Grow
pub mod Filed
pub mod Members
pub mod Present
use ivs.Base.{
  ℕ, zero, suc, ◌+◌, ◌-◌, ◌*◌, ◌%◌, ◌^◌, bit_and, bit_or, bit_xor, Bool, true, false, not, ◌&&◌,
  Option, none, some, List, [], ◌∷◌, ◌++◌, ltb, leb, ◌==◌, if◌then◌else◌, ◌>>=◌, get_or, set,
  replicate,
}

abbrev pub Words : Type 0
Words = List ℕ

-- `struct tcam_entry`; `next` is the entry behind it in its chain.
pub record Entry : Type 0 where
  pub id : ℕ
  pub hash : ℕ
  pub priority : ℕ
  pub key : Words
  pub mask : Words

-- `struct tcam_shard`; `table_hash` is the hash under which `bighash_insert` filed it.
pub record Shard (Bloom : Type 0) : Type 0 where
  pub mask : Words
  pub table_hash : ℕ
  pub count : ℕ
  pub buckets_size : ℕ
  pub buckets : List (List Entry)
  pub bloom_filter : Bloom

-- The code that is not in the repository.
pub record Env : Type 1 where
  pub murmur_round : ℕ → ℕ → ℕ
  pub murmur_finish : ℕ → ℕ → ℕ
  pub Bloom : Type 0
  pub bloom_filter_create : ℕ → Bloom
  pub bloom_filter_add : Bloom → ℕ → Bloom
  pub bloom_filter_remove : Bloom → ℕ → Bloom
  pub bloom_filter_lookup : Bloom → ℕ → Bool
  -- The entries that `bighash_first` and `bighash_next` walk for a hash, of those filed.
  pub bighash_walk : ℕ → List (Shard Bloom) → List (Shard Bloom)
  pub list_push_front : Bool

-- `struct tcam`: the shards of `shard_list`, which `shard_hashtable` holds too.
pub record Tcam (Bloom : Type 0) : Type 0 where
  pub shards : List (Shard Bloom)
  pub key_size : ℕ
  pub salt : ℕ

abbrev pub tcam_initial_entry_buckets : ℕ
tcam_initial_entry_buckets = 16

abbrev pub tcam_bloom_bits_per_entry : ℕ
tcam_bloom_bits_per_entry = 8

-- `memcmp(a, b, len) == 0`
unfoldable pub words_eq : Words → Words → Bool
words_eq [] [] = true
words_eq (a ∷ as_) (b ∷ bs) = (a == b) && words_eq as_ bs
words_eq _ _ = false

-- `!memcmp_masked(a, b, mask, len)`: the loop leaves at the first word that differs.
unfoldable pub equal_masked : Words → Words → Words → Bool
equal_masked (a ∷ as_) (b ∷ bs) (m ∷ ms) =
    if bit_and (bit_xor a b) m == 0 then equal_masked as_ bs ms else false
equal_masked _ _ _ = true

-- `memor(dst, src, len)`
unfoldable pub memor : Words → Words → Words
memor (d ∷ ds) (s ∷ ss) = bit_or d s ∷ memor ds ss
memor ds _ = ds

module _ (env : Env) where
  open env use {
    murmur_round, murmur_finish, Bloom, bloom_filter_create, bloom_filter_add, bloom_filter_remove,
    bloom_filter_lookup, bighash_walk, list_push_front,
  }

  -- The loop of `hash_key` from word `i` on.
  unfoldable pub hash_words : ℕ → ℕ → Words → Words → ℕ
  hash_words i state (k ∷ ks) (m ∷ ms) =
      hash_words (i + 1) (if m == 0 then state else murmur_round state (bit_xor (bit_and k m) i)) ks
        ms
  hash_words i state _ _ = state

  unfoldable pub hash_key : Tcam Bloom → Words → Words → ℕ
  hash_key t key mask = murmur_finish (hash_words 0 t.salt key mask) t.key_size % 2 ^ 32

  -- `hash & (buckets_size - 1)`
  unfoldable pub bucket_index : Shard Bloom → ℕ → ℕ
  bucket_index s hash = bit_and hash (s.buckets_size - 1)

  abbrev pub bucket : Shard Bloom → ℕ → List Entry
  bucket s hash = get_or s.buckets (bucket_index s hash) []

  abbrev pub list_push : {A : Type 0} → List A → A → List A
  list_push l x = if list_push_front then x ∷ l else l ++ x ∷ []

  unfoldable pub tcam_create : ℕ → ℕ → Tcam Bloom
  tcam_create key_size salt = record { shards = []; key_size = key_size; salt = salt }

  -- The first shard of a walk whose mask is the one wanted.
  pub first_with_mask : Words → List (Shard Bloom) → Option (Shard Bloom)
  first_with_mask mask [] = none
  first_with_mask mask (s ∷ ss) = if words_eq s.mask mask then some s else first_with_mask mask ss

  unfoldable pub find_shard : Tcam Bloom → Words → Option (Shard Bloom)
  unfolding first_with_mask
  find_shard t mask = first_with_mask mask (bighash_walk (hash_key t mask mask) t.shards)

  -- `tcam_shard_create` returns the shard that it also links and files.
  unfoldable pub shard_create : Tcam Bloom → Words → Shard Bloom
  shard_create t mask = record {
    mask = mask;
    table_hash = hash_key t mask mask;
    count = 0;
    buckets_size = tcam_initial_entry_buckets;
    buckets = replicate tcam_initial_entry_buckets [];
    bloom_filter = bloom_filter_create (tcam_initial_entry_buckets * tcam_bloom_bits_per_entry);
  }

  -- The insertion point: behind the entries of higher priority.
  unfoldable pub chain_insert : Entry → List Entry → List Entry
  chain_insert e [] = e ∷ []
  chain_insert e (x ∷ xs) = if ltb e.priority x.priority then x ∷ chain_insert e xs else e ∷ x ∷ xs

  -- The inner loop of `tcam_shard_grow`: the two chains that a chain is split into, in order.
  unfoldable pub split_lo : ℕ → List Entry → List Entry
  split_lo bit [] = []
  split_lo bit (x ∷ xs) = if bit_and x.hash bit == 0 then x ∷ split_lo bit xs else split_lo bit xs

  unfoldable pub split_hi : ℕ → List Entry → List Entry
  split_hi bit [] = []
  split_hi bit (x ∷ xs) = if bit_and x.hash bit == 0 then split_hi bit xs else x ∷ split_hi bit xs

  unfoldable pub map_split : (List Entry → List Entry) → List (List Entry) → List (List Entry)
  map_split f [] = []
  map_split f (b ∷ bs) = f b ∷ map_split f bs

  unfoldable pub add_chain : Bloom → List Entry → Bloom
  add_chain filter [] = filter
  add_chain filter (x ∷ xs) = add_chain (bloom_filter_add filter x.hash) xs

  unfoldable pub add_chains : Bloom → List (List Entry) → Bloom
  add_chains filter [] = filter
  add_chains filter (b ∷ bs) = add_chains (add_chain filter b) bs

  -- `buckets_size` is a `uint32_t`; its double goes through an `int`, of the same 32 bits.
  unfoldable pub shard_grow : Shard Bloom → Shard Bloom
  unfolding map_split split_lo split_hi add_chains add_chain
  shard_grow s = record s {
    buckets_size = s.buckets_size * 2 % 2 ^ 32;
    buckets =
        map_split (split_lo s.buckets_size) s.buckets
        ++ map_split (split_hi s.buckets_size) s.buckets;
    bloom_filter =
        add_chains
          (bloom_filter_create (s.buckets_size * 2 % 2 ^ 32 * tcam_bloom_bits_per_entry % 2 ^ 32))
          s.buckets;
  }

  -- `tcam_insert` on the entry's shard; `TCAM_LOAD_FACTOR` is one half, and the comparison is one of
  -- floats, which are exact for a shard of at most 2^24 chains.
  unfoldable pub shard_insert : Shard Bloom → Entry → Shard Bloom
  unfolding chain_insert shard_grow
  shard_insert s e =
      let i = bucket_index s e.hash in
      let s' : Shard Bloom = record s {
        buckets = set s.buckets i (chain_insert e (bucket s e.hash));
        count = (s.count + 1) % 2 ^ 32;
        bloom_filter = bloom_filter_add s.bloom_filter e.hash;
      } in
      if ltb s'.buckets_size (s'.count * 2) then shard_grow s' else s'

  -- A change of the shard with a mask, where it stands in the list.
  unfoldable pub update_shard :
      Words → (Shard Bloom → Shard Bloom) → List (Shard Bloom) → List (Shard Bloom)
  update_shard mask f [] = []
  update_shard mask f (s ∷ ss) =
      if words_eq s.mask mask then f s ∷ ss else s ∷ update_shard mask f ss

  unfoldable pub new_entry : Tcam Bloom → ℕ → Words → Words → ℕ → Entry
  new_entry t id key mask priority = record {
    id = id;
    hash = hash_key t key mask;
    priority = priority;
    key = key;
    mask = mask;
  }

  unfoldable pub tcam_insert : Tcam Bloom → ℕ → Words → Words → ℕ → Tcam Bloom
  unfolding update_shard new_entry shard_insert
  tcam_insert t id key mask priority =
      let shards : List (Shard Bloom) = elim (find_shard t mask) [
        | none ↦ list_push t.shards (shard_create t mask)
        | some s ↦ t.shards
      ] in
      record t {
        shards = update_shard mask (λ s. shard_insert s (new_entry t id key mask priority)) shards;
      }

  -- The walk of `tcam_remove` and the unlinking; `none` where it would run off the chain's end.
  unfoldable pub chain_remove : ℕ → List Entry → Option (List Entry)
  chain_remove id [] = none
  chain_remove id (x ∷ xs) =
      if x.id == id
      then some xs
      else elim (chain_remove id xs) [ none ↦ none | some rest ↦ some (x ∷ rest) ]

  unfoldable pub remove_shard : Words → List (Shard Bloom) → List (Shard Bloom)
  remove_shard mask [] = []
  remove_shard mask (s ∷ ss) = if words_eq s.mask mask then ss else s ∷ remove_shard mask ss

  unfoldable pub tcam_remove : Tcam Bloom → Entry → Option (Tcam Bloom)
  unfolding chain_remove remove_shard update_shard
  tcam_remove t e = do
    s ← find_shard t e.mask
    chain ← chain_remove e.id (bucket s (hash_key t e.key e.mask))
    let s' : Shard Bloom = record s {
      buckets = set s.buckets (bucket_index s (hash_key t e.key e.mask)) chain;
      count = (s.count + (2 ^ 32 - 1)) % 2 ^ 32;
      bloom_filter = bloom_filter_remove s.bloom_filter e.hash;
    }
    some (record t {
      shards =
          if s'.count == 0
          then remove_shard e.mask t.shards
          else update_shard e.mask (λ _. s') t.shards;
    })

  -- The `while` over one chain: the entry at which it breaks.
  unfoldable pub chain_match : ℕ → Words → Words → ℕ → List Entry → Option Entry
  chain_match hash key mask cur_priority [] = none
  chain_match hash key mask cur_priority (x ∷ xs) =
      if leb cur_priority x.priority
      then (if (x.hash == hash) && equal_masked key x.key mask
          then some x
          else chain_match hash key mask cur_priority xs)
      else none

  -- The `LIST_FOREACH` of `tcam_match_and_mask`, with what it has found and the mask so far.
  unfoldable pub match_shards :
      Tcam Bloom → Words → List (Shard Bloom) → Option Entry → ℕ → Words → Option Entry × Words
  match_shards t key [] found cur_priority mask = (found, mask)
  match_shards t key (s ∷ ss) found cur_priority mask =
      let hash = hash_key t key s.mask in
      let hit =
        if bloom_filter_lookup s.bloom_filter hash
        then chain_match hash key s.mask cur_priority (bucket s hash)
        else none in
      match_shards t key ss (elim hit [ none ↦ found | some e ↦ some e ])
        (elim hit [ none ↦ cur_priority | some e ↦ e.priority ]) (memor mask s.mask)

  unfoldable pub tcam_match_and_mask : Tcam Bloom → Words → Words → Option Entry × Words
  unfolding match_shards
  tcam_match_and_mask t key mask = match_shards t key t.shards none 0 mask

  -- `tcam_match` passes no mask; the entry that is found does not depend on it.
  unfoldable pub tcam_match : Tcam Bloom → Words → Option Entry
  unfolding match_shards
  tcam_match t key = (match_shards t key t.shards none 0 []).0
