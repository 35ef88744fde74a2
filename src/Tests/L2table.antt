-- ===== src/Tests/L2table.antt =====
-- The MAC/VLAN table at concrete inputs, with a hash that is always 0: an empty table, and a table of
-- four slots with one entry.
use ivs.Base.{ℕ, zero, suc, ◌≡◌, refl, ◌⊎◌, inl, inr, none, some, List, [], ◌∷◌, Returns, arith}
use ivs.L2table.{
  Mac, Table, free_entry, encode_key, decode_key, create, lookup, remove, insert, probe_index, hash,
}
use ivs.L2table.Key.{IsMac, encode_key-lt, decode_key-encode_key, encode_key-decode_key}
use ivs.L2table.Probe.{step_size}
use ivs.L2table.Scan.{scan, IsOccupied, count_occupied, count_deleted}
use ivs.L2table.Valid.{IsAddress, IsValid, Reachable, home}
use ivs.L2table.Update.{answer, Removes, Inserts, lookup-scan, remove-Removed}
use ivs.L2table.Insert.{insert-Inserts, create-IsValid}

abbrev no_hash : List ℕ → ℕ → ℕ
no_hash content salt = 0

abbrev host : Mac
host = record { m0 = 0; m1 = 17; m2 = 34; m3 = 51; m4 = 68; m5 = 85 }

host-IsMac : IsMac host
host-IsMac = record {
  b0 = omega arith;
  b1 = omega arith;
  b2 = omega arith;
  b3 = omega arith;
  b4 = omega arith;
  b5 = omega arith;
}

host-IsAddress : IsAddress host 10
host-IsAddress = record { is_mac = host-IsMac; is_vlan = omega arith }

-- The table that holds the host's entry in its first slot.
abbrev one_entry : Table
one_entry = record {
  entries =
      record { key = encode_key host 10; out_port = 3; metadata = 7 }
      ∷ free_entry
      ∷ free_entry
      ∷ free_entry
      ∷ [];
  size = 4;
  num_occupied = 1;
  num_deleted = 0;
  salt = 5;
}

one_entry-reach : Reachable no_hash one_entry.entries 5 2
unfolding encode_key home hash probe_index step_size
one_entry-reach zero lt o = (0, refl, λ m h. elim h [ ])
one_entry-reach (suc zero) lt o = absurd (ground (arith, o))
one_entry-reach (suc (suc zero)) lt o = absurd (ground (arith, o))
one_entry-reach (suc (suc (suc zero))) lt o = absurd (ground (arith, o))
one_entry-reach (suc (suc (suc (suc j)))) lt o = absurd (omega arith)

one_entry-IsValid : IsValid no_hash 2 one_entry
unfolding encode_key count_occupied count_deleted home hash probe_index step_size scan
one_entry-IsValid = record {
  width = omega arith;
  sized = refl;
  slots = refl;
  keys = (
    inl (encode_key-lt host 10 host-IsMac (omega arith)),
    (inr (inl refl), (inr (inl refl), (inr (inl refl), tt))),
  );
  distinct = (
    λ o. refl,
    (
      λ o. absurd (ground (arith, o)),
      (λ o. absurd (ground (arith, o)), (λ o. absurd (ground (arith, o)), tt)),
    ),
  );
  occupied = refl;
  deleted = refl;
  load = omega arith;
  reach = λ j lt o. one_entry-reach j lt o;
}

decode_key-encode_key_example : decode_key (encode_key host 10) ≡ (host, 10)
decode_key-encode_key_example = decode_key-encode_key host 10 host-IsMac (omega arith)

encode_key-decode_key_example :
    encode_key (decode_key 2814749767106570).0 (decode_key 2814749767106570).1 ≡ 2814749767106570
encode_key-decode_key_example = encode_key-decode_key 2814749767106570 (omega arith)

create-IsValid_example :
    IsValid no_hash 0 (create 5) × ((q : ℕ) → IsOccupied q → scan q (create 5).entries ≡ none)
create-IsValid_example = create-IsValid no_hash 5

lookup-scan_example :
    lookup no_hash one_entry host 10 ≡ some (answer (scan (encode_key host 10) one_entry.entries))
lookup-scan_example = lookup-scan no_hash one_entry-IsValid host 10 host-IsAddress

remove-Removed_example :
    Returns
      (remove no_hash one_entry host 10)
      λ r. IsValid no_hash 2 r.1 × Removes one_entry host 10 r
remove-Removed_example = remove-Removed no_hash one_entry-IsValid host 10 host-IsAddress

insert-Inserts_example :
    Returns
      (insert no_hash 2 one_entry host 11 4 8)
      λ r. (IsValid no_hash 2 r.1 ⊎ IsValid no_hash 3 r.1) × Inserts one_entry host 11 (4, 8) r
insert-Inserts_example =
    insert-Inserts no_hash 0 2 one_entry one_entry-IsValid host 11
      (record { is_mac = host-IsMac; is_vlan = omega arith }) 4 8 (omega arith)
