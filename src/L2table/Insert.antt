-- ===== src/L2table/Insert.antt =====
-- `l2table_insert` with its resize.
use native.Mathlib.Nat.{pow-le-pow_right}
use ivs.Base.{
  ℕ, suc, ◌+◌, ◌*◌, ◌^◌, ◌≤◌, ◌≡◌, refl, sym, ◌∙◌, ap, ◌⊎◌, inl, inr, true, none, some, List, arith,
  ltb, replicate, length-replicate, get_or-replicate, Returns, Bool-cases,
}
use ivs.Base.Bits.{two_pow-pos, two_pow-suc}
use ivs.L2table.{
  Mac, Entry, Table, Error, none_error, encode_key, free_entry, place, resize, insert, create,
}
use ivs.L2table.Scan.{scan, IsOccupied}
use ivs.L2table.Update.{Inserts, insert_error, place-Placed}
use ivs.L2table.Valid.{IsAddress, IsValid, encode_key-IsOccupied, free-not-occupied}
use ivs.L2table.Reinsert.{
  all_free, Distinct-free, none_counted, none_found, or_else-none, insert-place, Moved,
  reinsert-Moved,
}

module _ (murmur_hash : List ℕ → ℕ → ℕ) where
  -- The fresh array of `l2table_resize__`.
  fresh_table : ℕ → Table → Table
  fresh_table k t = record t {
    size = 2 ^ k;
    entries = replicate (2 ^ k) free_entry;
    num_occupied = 0;
    num_deleted = 0;
  }

  fresh_table-IsValid : (k : ℕ) (t : Table) → k ≤ 31 → IsValid murmur_hash k (fresh_table k t)
  unfolding fresh_table
  fresh_table-IsValid k t h = record {
    width = h;
    sized = refl;
    slots = length-replicate (2 ^ k) free_entry;
    keys = all_free (2 ^ k);
    distinct = Distinct-free (2 ^ k);
    occupied = sym (none_counted (2 ^ k)).0;
    deleted = sym (none_counted (2 ^ k)).1;
    load = omega arith;
    reach = λ j lt o.
        absurd (
          free-not-occupied _ o
            (ap (λ (x : Entry). x.key) (get_or-replicate (2 ^ k) j free_entry)));
  }

  -- A table of the next size with the same map.
  resize-Moved :
      (depth k : ℕ) (t : Table)
      → IsValid murmur_hash k t
      → k ≤ 29
      → Returns
          (resize (insert murmur_hash (suc depth)) t)
          λ r. (r.0 ≡ none_error) × Moved murmur_hash (suc k) t.entries (fresh_table (suc k) t) r.1
  unfolding resize fresh_table
  resize-Moved depth k t valid small =
      let e : t.size * 2 ≡ 2 ^ suc k = rw (two_pow-suc k) (omega (arith, valid.sized)) in
      let below : 2 ^ suc k ≤ 2 ^ 30 = pow-le-pow_right (omega arith) {j = 30} (omega arith) in
      let fits : ltb (2 ^ suc k) (2 ^ 31) ≡ true = ground (arith, below) in
      let start = fresh_table-IsValid (suc k) t (omega arith) in
      let (t', run, m) =
        reinsert-Moved murmur_hash depth (suc k) t.entries (fresh_table (suc k) t) start valid.keys
          valid.distinct (rw (two_pow-suc k) (omega (arith, valid.load, valid.occupied)))
          (λ q v o at. none_found (2 ^ suc k) q o) in
      ((none_error, t'), rw (e, fits, run), (refl, m))

  insert-resize :
      (depth : ℕ) (t t' : Table) (err : Error) (mac : Mac) (vlan_id out_port metadata : ℕ)
      → ltb t.size (2 * (t.num_occupied + t.num_deleted + 1)) ≡ true
      → resize (insert murmur_hash depth) t ≡ some (err, t')
      → err ≡ none_error
      → insert murmur_hash (suc depth) t mac vlan_id out_port metadata
        ≡ place murmur_hash t' mac vlan_id out_port metadata
  unfolding insert
  insert-resize depth t t' err mac vlan_id out_port metadata full run ok = rw (full, run, ok)

  Moved-scan :
      (k : ℕ) (t t' : Table) (q : ℕ)
      → Moved murmur_hash (suc k) t.entries (fresh_table (suc k) t) t'
      → IsOccupied q
      → scan q t'.entries ≡ scan q t.entries
  unfolding fresh_table
  Moved-scan k t t' q m o =
      m.reads q o ∙ rw (none_found (2 ^ suc k) q o) (or_else-none (scan q t.entries))

  -- Twice the size leaves room for one more entry.
  Moved-room :
      (k : ℕ) (t t' : Table)
      → IsValid murmur_hash k t
      → Moved murmur_hash (suc k) t.entries (fresh_table (suc k) t) t'
      → 2 * (t'.num_occupied + t'.num_deleted + 1) ≤ 2 ^ suc k
  unfolding fresh_table
  Moved-room k t t' valid m =
      rw (two_pow-suc k) (omega (arith, two_pow-pos k, m.used, valid.occupied, valid.load))

  Inserts-moved :
      (t t' : Table) (mac : Mac) (vlan_id : ℕ) (new : ℕ × ℕ) (r : Error × Table)
      → IsAddress mac vlan_id
      → ((q : ℕ) → IsOccupied q → scan q t'.entries ≡ scan q t.entries)
      → Inserts t' mac vlan_id new r
      → Inserts t mac vlan_id new r
  Inserts-moved t t' mac vlan_id new r a same (err, reads) =
      let at = same (encode_key mac vlan_id) (encode_key-IsOccupied mac vlan_id a) in
      (err ∙ ap insert_error at, λ q o. reads q o ∙ rw (at, same q o))

  -- On a well-formed table of at most 2^29 slots, l2table_insert of an address returns, whether it
  -- resizes or not: the table is well-formed, of the same size or of the next; the key is bound to
  -- the new value, or it was bound, keeps its value and the error says so; no other key changes.
  pub insert-Inserts :
      (depth k : ℕ) (t : Table) (valid : IsValid murmur_hash k t) (mac : Mac) (vlan_id : ℕ)
      (a : IsAddress mac vlan_id) (out_port metadata : ℕ)
      → k ≤ 29
      → Returns (insert murmur_hash (suc (suc depth)) t mac vlan_id out_port metadata) λ r.
        (IsValid murmur_hash k r.1 ⊎ IsValid murmur_hash (suc k) r.1)
        × Inserts t mac vlan_id (out_port, metadata) r
  insert-Inserts depth k t valid mac vlan_id a out_port metadata small =
      let need : ℕ = 2 * (t.num_occupied + t.num_deleted + 1) in
      elim (Bool-cases (ltb t.size need)) [
        | inl full ↦
            let (r1, run1, (ok, m)) = resize-Moved depth k t valid small in
            let (r, run, (valid', used, salt, out)) =
              place-Placed murmur_hash m.valid mac vlan_id a out_port metadata
                (Moved-room k t r1.1 valid m) in
            (
              r,
              insert-resize (suc depth) t r1.1 r1.0 mac vlan_id out_port metadata full run1 ok
                  ∙ run,
              (
                inr valid',
                Inserts-moved t r1.1 mac vlan_id (out_port, metadata) r a
                    (λ q o. Moved-scan k t r1.1 q m o) out,
              ),
            )
        | inr space ↦
            let room : need ≤ 2 ^ k = ground (arith, valid.sized) in
            let (r, run, (valid', used, salt, out)) =
              place-Placed murmur_hash valid mac vlan_id a out_port metadata room in
            (
              r,
              insert-place murmur_hash (suc depth) k t mac vlan_id out_port metadata valid.sized
                    room
                  ∙ run,
              (inl valid', out),
            )
      ]

  -- l2table_create gives a well-formed table in which no key is bound.
  pub create-IsValid :
      (salt : ℕ)
      → IsValid murmur_hash 0 (create salt)
        × ((q : ℕ) → IsOccupied q → scan q (create salt).entries ≡ none)
  unfolding create fresh_table
  create-IsValid salt = (fresh_table-IsValid 0 (create salt) (omega arith), λ q o. none_found 1 q o)
