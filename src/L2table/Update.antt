-- ===== src/L2table/Update.antt =====
-- One write into the entry array: what `l2table_remove` and the end of `l2table_insert` do.
use native.Mathlib.Decide.{ℕ_discrete}
use mathlib.Core.Path.{subst}
use ivs.Base.{
  ℕ, ◌+◌, ◌*◌, ◌^◌, ◌≤◌, ◌<◌, ◌≡◌, refl, ◌∙◌, ap, ◌≢◌, inl, inr, true, Option, none, some, List,
  arith, ◌==◌, if◌then◌else◌, length, set, length-set, Returns, get_or-set_self, get_or-set_ne,
  Bool-cases,
}
use ivs.L2table.{
  Mac, Entry, Table, Error, none_error, not_found, param, encode_key, entry_at, key_at, key_free,
  key_deleted, free_entry, lookup, remove, place, lookup_found, remove_found, place_found,
}
use ivs.L2table.Find.{slot, NoFree}
use ivs.L2table.Probe.{probe_index-lt}
use ivs.L2table.Scan.{
  scan, IsOccupied, count_occupied-set, count_deleted-set, AllKeys-set, scan-set_ne, scan-set_self,
  scan-set_gone, scan-at, Distinct-set,
}
use ivs.L2table.Key.{encode_key-lt}
use ivs.L2table.Valid.{
  IsAddress, IsValid, Reachable, home, encode_key-IsOccupied, free-not-occupied,
  find_internal-Found, find_internal-FoundVacant, Found, FoundVacant,
}

eq_of_test : (a b : ℕ) → (a == b) ≡ true → a ≡ b
eq_of_test a b h = ground arith

deleted-not-occupied : (q : ℕ) → IsOccupied q → key_deleted ≢ q
deleted-not-occupied q o e = ground arith

key_at-set_self :
    (es : List Entry) (j : ℕ) (e : Entry) → j < length es → key_at (set es j e) j ≡ e.key
key_at-set_self es j e h = ap (λ (x : Entry). x.key) (get_or-set_self es j e free_entry h)

key_at-set_ne :
    (es : List Entry) (j m : ℕ) (e : Entry) → j ≢ m → key_at (set es j e) m ≡ key_at es m
key_at-set_ne es j m e h = ap (λ (x : Entry). x.key) (get_or-set_ne es j m e free_entry h)

-- A write of a key that is not the free mark frees no slot.
NoFree-set :
    (es : List Entry) (k q h n j : ℕ) (e : Entry)
    → j < length es
    → e.key ≢ key_free
    → NoFree es k q h n
    → NoFree (set es j e) k q h n
NoFree-set es k q h n j e lt ne before m less = elim (ℕ_discrete j (slot es k q h m)) [
  | yes same ↦ rw (← same, key_at-set_self es j e lt) ne
  | no other ↦ rw (key_at-set_ne es j _ e other) (before m less)
]

-- The outcome of a lookup that reads `v` from the map.
abbrev pub answer : Option (ℕ × ℕ) → Error × Option (ℕ × ℕ)
answer none = (not_found, none)
answer (some v) = (none_error, some v)

-- The map without the key, and the error that says whether it was there.
abbrev pub Removes : Table → Mac → ℕ → Error × Table → Type 0
Removes t mac vlan_id (err, t') =
    (err ≡ (answer (scan (encode_key mac vlan_id) t.entries)).0)
    × ((q : ℕ)
        → IsOccupied q
        → scan q t'.entries ≡ (if q == encode_key mac vlan_id then none else scan q t.entries))

-- What is stored under the key after an insertion: an old value stays.
abbrev pub kept : ℕ × ℕ → Option (ℕ × ℕ) → Option (ℕ × ℕ)
kept new none = some new
kept new (some old) = some old

abbrev pub insert_error : Option (ℕ × ℕ) → Error
insert_error none = none_error
insert_error (some old) = param

-- The map with the key, unless it was there, and the error that says so.
abbrev pub Inserts : Table → Mac → ℕ → ℕ × ℕ → Error × Table → Type 0
Inserts t mac vlan_id new (err, t') =
    (err ≡ insert_error (scan (encode_key mac vlan_id) t.entries))
    × ((q : ℕ)
        → IsOccupied q
        → scan q t'.entries ≡ (
            if q == encode_key mac vlan_id
            then kept new (scan (encode_key mac vlan_id) t.entries)
            else scan q t.entries))

module _ (murmur_hash : List ℕ → ℕ → ℕ) where
  Reachable-set :
      (es : List Entry) (salt k j : ℕ) (e : Entry)
      → j < length es
      → e.key ≢ key_free
      → (IsOccupied e.key
          → (i : ℕ) × (slot es k e.key (home murmur_hash salt e.key) i ≡ j)
            × NoFree es k e.key (home murmur_hash salt e.key) i)
      → Reachable murmur_hash es salt k
      → Reachable murmur_hash (set es j e) salt k
  Reachable-set es salt k j e lt ne new old m small = elim (ℕ_discrete j m) [
    | yes same ↦
        rw (← same, key_at-set_self es j e lt)
          (λ o. let (i, at, before) = new o in (i, at, NoFree-set es k e.key _ i j e lt ne before))
    | no other ↦ rw (key_at-set_ne es j m e other) (λ o.
        let (i, at, before) = old m small o in
        (i, at, NoFree-set es k (key_at es m) _ i j e lt ne before))
  ]

  module _ {k : ℕ} {t : Table} (valid : IsValid murmur_hash k t) (mac : Mac) (vlan_id : ℕ)
      (a : IsAddress mac vlan_id) where
    lookup_found-answer :
        (r : Option ℕ)
        → Found murmur_hash valid mac vlan_id a r
        → lookup_found t r ≡ answer (scan (encode_key mac vlan_id) t.entries)
    unfolding lookup_found
    lookup_found-answer none out = rw out
    lookup_found-answer (some j) (lt, e) =
        let o : IsOccupied (key_at t.entries j) = rw e (encode_key-IsOccupied mac vlan_id a) in
        let at = scan-at t.entries j valid.distinct (omega (arith, valid.slots)) o in rw (← e, at)

    -- On a well-formed table, l2table_lookup of an address returns, and gives what a linear scan
    -- of the entry array for the key gives.
    pub lookup-scan :
        lookup murmur_hash t mac vlan_id ≡ some (answer (scan (encode_key mac vlan_id) t.entries))
    unfolding lookup
    lookup-scan =
        let (r, run, out) = find_internal-Found murmur_hash valid mac vlan_id a in
        rw run (ap some (lookup_found-answer r out))

    remove_found-Removed :
        (r : Option ℕ)
        → Found murmur_hash valid mac vlan_id a r
        → IsValid murmur_hash k (remove_found t r).1 × Removes t mac vlan_id (remove_found t r)
    unfolding remove_found
    remove_found-Removed none out = (
      valid,
      (
        rw out,
        λ q o. elim (Bool-cases (q == encode_key mac vlan_id)) [
          | inl e ↦ rw (e, eq_of_test _ _ e, out)
          | inr ne ↦ rw ne
        ],
      ),
    )
    remove_found-Removed (some j) (lt, e) =
        let es = t.entries in
        let o : IsOccupied (key_at es j) = rw e (encode_key-IsOccupied mac vlan_id a) in
        let inside : j < length es = omega (arith, valid.slots) in
        let mark : Entry = record (entry_at es j) { key = key_deleted } in
        let at = scan-at es j valid.distinct inside o in
        (
          record {
            width = valid.width;
            sized = valid.sized;
            slots = length-set es j mark ∙ valid.slots;
            keys = AllKeys-set es j mark valid.keys (inr (inr refl));
            distinct = Distinct-set es j mark valid.distinct (λ h. cc);
            occupied = ground (arith, count_occupied-set es j mark inside, valid.occupied);
            deleted = ground (arith, count_deleted-set es j mark inside, valid.deleted);
            load = ground (arith, count_occupied-set es j mark inside, valid.occupied, valid.load);
            reach =
                Reachable-set es t.salt k j mark inside (λ h. absurd (omega arith)) (λ h. cc)
                  valid.reach;
          },
          (
            rw (← e, at),
            λ q oq. elim (Bool-cases (q == encode_key mac vlan_id)) [
              | inl same ↦
                  rw (same, eq_of_test _ _ same, ← e)
                    (scan-set_gone es j mark valid.distinct inside o (deleted-not-occupied _ o))
              | inr ne ↦
                  rw ne (scan-set_ne es j mark q (deleted-not-occupied q oq) (λ h. ground arith))
            ],
          ),
        )

    -- On a well-formed table, l2table_remove of an address returns, keeps the table well-formed,
    -- takes the key out of the map and says whether it was there; no other key changes.
    pub remove-Removed :
        Returns
          (remove murmur_hash t mac vlan_id)
          λ r. IsValid murmur_hash k r.1 × Removes t mac vlan_id r
    unfolding remove
    remove-Removed =
        let (r, run, out) = find_internal-Found murmur_hash valid mac vlan_id a in
        (remove_found t r, rw run, remove_found-Removed r out)

    module _ (out_port metadata : ℕ) where
      abbrev pub Placed : Error × Table → Type 0
      Placed r =
          IsValid murmur_hash k r.1
          × (r.1.num_occupied + r.1.num_deleted ≤ t.num_occupied + t.num_deleted + 1)
          × (r.1.salt ≡ t.salt)
          × Inserts t mac vlan_id (out_port, metadata) r

      place_found-Placed :
          2 * (t.num_occupied + t.num_deleted + 1) ≤ 2 ^ k
          → (r : Option ℕ) → FoundVacant murmur_hash valid mac vlan_id a r
          → Placed (
              place_found t
                (record { key = encode_key mac vlan_id; out_port = out_port; metadata = metadata })
                r)
      unfolding place_found
      place_found-Placed room none (j, lt, e) =
          let es = t.entries in
          let o : IsOccupied (key_at es j) = rw e (encode_key-IsOccupied mac vlan_id a) in
          let at = scan-at es j valid.distinct (omega (arith, valid.slots)) o in
          (
            valid,
            omega arith,
            refl,
            (
              rw (← e, at),
              λ q oq. elim (Bool-cases (q == encode_key mac vlan_id)) [
                | inl same ↦ rw (same, eq_of_test _ _ same, ← e, at)
                | inr ne ↦ rw ne
              ],
            ),
          )
      place_found-Placed room (some j) ((m, at, open_slot, before), absent) =
          let es = t.entries in
          let small : j < 2 ^ k = subst (λ x. x < 2 ^ k) at (probe_index-lt k _ _) in
          let inside : j < length es = omega (arith, valid.slots) in
          let new : Entry = record {
            key = encode_key mac vlan_id;
            out_port = out_port;
            metadata = metadata;
          } in
          let o : IsOccupied new.key = encode_key-IsOccupied mac vlan_id a in
          (
            record {
              width = valid.width;
              sized = valid.sized;
              slots = length-set es j new ∙ valid.slots;
              keys =
                  AllKeys-set es j new valid.keys
                    (inl (encode_key-lt mac vlan_id a.is_mac a.is_vlan));
              distinct = Distinct-set es j new valid.distinct (λ h. absent);
              occupied = ground (arith, count_occupied-set es j new inside, valid.occupied);
              deleted = ground (arith, count_deleted-set es j new inside, valid.deleted);
              load = ground (arith, valid.load);
              reach =
                  Reachable-set es t.salt k j new inside (λ h. free-not-occupied _ o h)
                    (λ h. (m, at, before)) valid.reach;
            },
            ground arith,
            refl,
            (
              rw absent,
              λ q oq. elim (Bool-cases (q == encode_key mac vlan_id)) [
                | inl same ↦
                    rw (same, eq_of_test _ _ same, absent) (scan-set_self es j new inside absent)
                | inr ne ↦ rw ne (scan-set_ne es j new q (λ h. ground arith) (λ h. ground arith))
              ],
            ),
          )

      -- The end of `l2table_insert` returns; where one more entry leaves half of the slots free, it
      -- keeps the table well formed and adds the key to the map.
      pub place-Placed :
          2 * (t.num_occupied + t.num_deleted + 1) ≤ 2 ^ k
          → Returns (place murmur_hash t mac vlan_id out_port metadata) Placed
      unfolding place
      place-Placed room =
          let (r, run, out) = find_internal-FoundVacant murmur_hash valid mac vlan_id a in
          (place_found t _ r, rw run, place_found-Placed room r out)
