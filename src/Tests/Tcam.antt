-- ===== src/Tests/Tcam.antt =====
-- The TCAM at a concrete input: two shards, one of which has an entry. The hash adds, the bloom filter
-- lets all pass, and a walk comes to every shard.
use ivs.Base.{ℕ, ◌+◌, ◌≡◌, refl, true, [], ◌∷◌, arith}
use ivs.Tcam.{
  Words, Entry, Shard, Env, Tcam, hash_key, tcam_match_and_mask, tcam_insert, tcam_create,
  find_shard, update_shard, shard_insert, shard_create, words_eq,
}
use ivs.Tcam.{tcam_match, new_entry}
use ivs.Tcam.Best.{Matched, tcam_match-Matched}
use ivs.Tcam.Insert.{Remembers}
use ivs.Tcam.Filed.{AllSmall, AllSound, tcam_insert-AllSound}
use ivs.Tcam.Present.{MatchedWith, AllSound-AllFiled, tcam_insert-MatchedWith}
use ivs.Tcam.Mask.{hash_key-Agree, tcam_match_and_mask-Agree}

abbrev env : Env
env = record {
  murmur_round = λ state word. state + word;
  murmur_finish = λ state size. state + size;
  Bloom = ℕ;
  bloom_filter_create = λ size. 0;
  bloom_filter_add = λ bloom hash. bloom + 1;
  bloom_filter_remove = λ bloom hash. bloom;
  bloom_filter_lookup = λ bloom hash. true;
  bighash_walk = λ hash shards. shards;
  list_push_front = true;
}

abbrev two_shards : Tcam ℕ
two_shards = record {
  shards =
      record {
        mask = 255 ∷ 0 ∷ [];
        table_hash = 0;
        count = 1;
        buckets_size = 1;
        buckets =
            (record { id = 1; hash = 15; priority = 7; key = 7 ∷ 0 ∷ []; mask = 255 ∷ 0 ∷ [] } ∷ [])
            ∷ [];
        bloom_filter = 1;
      }
      ∷ record {
        mask = 0 ∷ 15 ∷ [];
        table_hash = 0;
        count = 0;
        buckets_size = 1;
        buckets = [] ∷ [];
        bloom_filter = 0;
      }
      ∷ [];
  key_size = 8;
  salt = 0;
}

hash_key-Agree_example :
    hash_key env two_shards (263 ∷ 5 ∷ []) (255 ∷ 0 ∷ [])
    ≡ hash_key env two_shards (7 ∷ 6 ∷ []) (255 ∷ 0 ∷ [])
hash_key-Agree_example =
    hash_key-Agree env two_shards (263 ∷ 5 ∷ []) (7 ∷ 6 ∷ []) (255 ∷ 0 ∷ []) refl (refl, (refl, tt))

tcam_match_and_mask-Agree_example :
    tcam_match_and_mask env two_shards (7 ∷ 21 ∷ []) (0 ∷ 0 ∷ [])
    ≡ tcam_match_and_mask env two_shards (263 ∷ 5 ∷ []) (0 ∷ 0 ∷ [])
unfolding tcam_match_and_mask ivs.Tcam.memor
tcam_match_and_mask-Agree_example =
    tcam_match_and_mask-Agree env 2 two_shards (263 ∷ 5 ∷ []) (7 ∷ 21 ∷ []) (0 ∷ 0 ∷ []) refl refl
      (refl, (refl, tt)) (refl, (refl, tt))

-- The table with one entry, in which the second insertion finds a shard.
abbrev one_entry : Tcam ℕ
one_entry = tcam_insert env (tcam_create env 8 0) 1 (7 ∷ 0 ∷ []) (255 ∷ 0 ∷ []) 7

env-Remembers : Remembers env
env-Remembers filter h = (refl, λ other p. refl)

one_entry-AllSound : AllSound env env-Remembers one_entry 2 one_entry.shards
unfolding tcam_create
one_entry-AllSound =
    tcam_insert-AllSound env env-Remembers (tcam_create env 8 0) 2 1 (7 ∷ 0 ∷ []) (255 ∷ 0 ∷ []) 7
      tt tt refl

one_entry-AllSmall : AllSmall env env-Remembers one_entry.shards
unfolding tcam_create tcam_insert find_shard update_shard shard_insert shard_create words_eq
one_entry-AllSmall = (omega arith, tt)

tcam_insert-AllSound_example :
    let after = tcam_insert env one_entry 2 (7 ∷ 5 ∷ []) (255 ∷ 0 ∷ []) 9 in
    AllSound env env-Remembers after 2 after.shards
tcam_insert-AllSound_example =
    tcam_insert-AllSound env env-Remembers one_entry 2 2 (7 ∷ 5 ∷ []) (255 ∷ 0 ∷ []) 9
      one_entry-AllSmall one_entry-AllSound refl

tcam_match-Matched_example :
    Matched env (7 ∷ 21 ∷ []) one_entry.shards (tcam_match env one_entry (7 ∷ 21 ∷ []))
tcam_match-Matched_example =
    tcam_match-Matched env one_entry 2 (7 ∷ 21 ∷ [])
      (AllSound-AllFiled env env-Remembers one_entry 2 one_entry.shards one_entry-AllSound) refl

tcam_insert-MatchedWith_example :
    MatchedWith env env-Remembers
      (7 ∷ 21 ∷ [])
      (new_entry env one_entry 2 (7 ∷ 5 ∷ []) (255 ∷ 0 ∷ []) 9)
      one_entry.shards
      (tcam_match env (tcam_insert env one_entry 2 (7 ∷ 5 ∷ []) (255 ∷ 0 ∷ []) 9) (7 ∷ 21 ∷ []))
tcam_insert-MatchedWith_example =
    tcam_insert-MatchedWith env env-Remembers one_entry 2 2 (7 ∷ 5 ∷ []) (255 ∷ 0 ∷ []) 9
      (7 ∷ 21 ∷ []) (λ hash ss s h. h) one_entry-AllSmall one_entry-AllSound refl refl
