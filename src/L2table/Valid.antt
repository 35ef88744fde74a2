-- ===== src/L2table/Valid.antt =====
-- The well-formed tables, and what the probe finds in one.
use native.Mathlib.Decide.{dec_lt}
use mathlib.Core.Path.{subst}
use ivs.Base.{
  ℕ, ◌+◌, ◌*◌, ◌^◌, ◌≤◌, ◌<◌, ◌≡◌, sym, ◌∙◌, ap, ◌≢◌, true, false, Option, none, some, List, arith,
  length, Returns,
}
use ivs.Base.Bits.{two_pow-pos}
use ivs.L2table.{Mac, Entry, Table, encode_key, decode_key, hash, find_internal, key_at, key_free}
use ivs.L2table.Find.{
  slot, NoFree, Absent, Vacant, LookupOutcome, InsertOutcome, find_loop-lookup, find_loop-insert,
}
use ivs.L2table.Key.{IsMac, decode_key-encode_key, encode_key-lt, key_is_unoccupied-lt}
use ivs.L2table.Probe.{step_size, probe_index-surj}
use ivs.L2table.Scan.{
  scan, IsOccupied, Distinct, AllKeys, count_occupied, count_deleted, free_exists, scan-eq-none,
}

-- A MAC address and a 12-bit VLAN id, as packets carry them.
pub record IsAddress (mac : Mac) (vlan_id : ℕ) : Type 0 where
  pub is_mac : IsMac mac
  pub is_vlan : vlan_id < 2 ^ 12

pub free-not-occupied : (q : ℕ) → IsOccupied q → q ≢ key_free
free-not-occupied q o e = ground arith

pub encode_key-IsOccupied :
    (mac : Mac) (vlan_id : ℕ) → IsAddress mac vlan_id → IsOccupied (encode_key mac vlan_id)
encode_key-IsOccupied mac vlan_id a =
    key_is_unoccupied-lt _ (encode_key-lt mac vlan_id a.is_mac a.is_vlan)

module _ (murmur_hash : List ℕ → ℕ → ℕ) where
  -- The hash of the address that a key stands for.
  unfoldable pub home : ℕ → ℕ → ℕ
  home salt q = hash murmur_hash salt (decode_key q).0 (decode_key q).1

  -- Every occupied slot is on the probe sequence of its key, before any free slot.
  abbrev pub Reachable : List Entry → (salt k : ℕ) → Type 0
  Reachable es salt k =
      (j : ℕ)
      → j < 2 ^ k
      → IsOccupied (key_at es j)
      → (i : ℕ) × (slot es k (key_at es j) (home salt (key_at es j)) i ≡ j)
        × NoFree es k (key_at es j) (home salt (key_at es j)) i

  -- A table of `2 ^ k` slots, at most half of which are occupied or deleted.
  pub record IsValid (k : ℕ) (t : Table) : Type 0 where
    pub width : k ≤ 31
    pub sized : t.size ≡ 2 ^ k
    pub slots : length t.entries ≡ 2 ^ k
    pub keys : AllKeys t.entries
    pub distinct : Distinct t.entries
    pub occupied : t.num_occupied ≡ count_occupied t.entries
    pub deleted : t.num_deleted ≡ count_deleted t.entries
    pub load : 2 * (t.num_occupied + t.num_deleted) ≤ 2 ^ k
    pub reach : Reachable t.entries t.salt k

  pub home-encode_key :
      (salt : ℕ) (mac : Mac) (vlan_id : ℕ)
      → IsAddress mac vlan_id
      → home salt (encode_key mac vlan_id) ≡ hash murmur_hash salt mac vlan_id
  unfolding home
  home-encode_key salt mac vlan_id a =
      ap (λ (p : Mac × ℕ). hash murmur_hash salt p.0 p.1)
        (decode_key-encode_key mac vlan_id a.is_mac (omega (arith, a.is_vlan)))

  module _ {k : ℕ} {t : Table} (valid : IsValid k t) where
    -- Some step of every walk comes to a free slot.
    pub walk-ends :
        (q h : ℕ) → (i : ℕ) × (i < 2 ^ k) × (key_at t.entries (slot t.entries k q h i) ≡ key_free)
    walk-ends q h =
        let (j, lt, e) =
          free_exists t.entries valid.keys (
            omega (arith, valid.load, valid.slots, valid.occupied, valid.deleted, two_pow-pos k)) in
        let (i, small, at) =
          probe_index-surj k h j (omega (arith, valid.width)) (omega (arith, valid.slots)) in
        (i, small, ap (key_at t.entries) at ∙ e)

    -- A walk to a free slot that does not meet the key shows that no slot holds it.
    pub Absent-scan :
        (q : ℕ) → IsOccupied q → Absent t.entries k q (home t.salt q) → scan q t.entries ≡ none
    Absent-scan q o (m, free, no_key) =
        let es = t.entries in
        let h = home t.salt q in
        scan-eq-none es q (λ j lt e.
          let small : j < 2 ^ k = omega (arith, valid.slots) in
          let (i, at, no_free) =
            subst
              (λ p. (i : ℕ) × (slot es k p (home t.salt p) i ≡ j) × NoFree es k p (home t.salt p) i)
              e (valid.reach j small (rw e o)) in
          let here : key_at es (slot es k q h i) ≡ q = ap (key_at es) at ∙ e in
          elim (dec_lt i m) [
            | yes before ↦ no_key i before here
            | no p ↦ elim (dec_lt m i) [
              | yes after ↦ no_free m after free
              | no r ↦
                  let same : i ≡ m = omega arith in
                  free-not-occupied q o
                    (sym here ∙ ap (λ n. key_at es (slot es k q h n)) same ∙ free)
            ]
          ])

  module _ {k : ℕ} {t : Table} (valid : IsValid k t) (mac : Mac) (vlan_id : ℕ)
      (a : IsAddress mac vlan_id) where
    abbrev pub Found : Option ℕ → Type 0
    Found none = scan (encode_key mac vlan_id) t.entries ≡ none
    Found (some j) = (j < 2 ^ k) × (key_at t.entries j ≡ encode_key mac vlan_id)

    abbrev pub FoundVacant : Option ℕ → Type 0
    FoundVacant none = (j : ℕ) × (j < 2 ^ k) × (key_at t.entries j ≡ encode_key mac vlan_id)
    FoundVacant (some j) =
        Vacant t.entries k (encode_key mac vlan_id) (home t.salt (encode_key mac vlan_id)) j
        × (scan (encode_key mac vlan_id) t.entries ≡ none)

    found :
        (r : Option ℕ)
        → LookupOutcome t.entries k
            (encode_key mac vlan_id)
            (home t.salt (encode_key mac vlan_id))
            r
        → Found r
    found none out = Absent-scan valid _ (encode_key-IsOccupied mac vlan_id a) out
    found (some j) out = out

    found_vacant :
        (r : Option ℕ)
        → InsertOutcome t.entries k
            (encode_key mac vlan_id)
            (home t.salt (encode_key mac vlan_id))
            r
        → FoundVacant r
    found_vacant none out = out
    found_vacant (some j) (vacant, absent) =
        (vacant, Absent-scan valid _ (encode_key-IsOccupied mac vlan_id a) absent)

    pub find_internal-Found : Returns (find_internal murmur_hash t mac vlan_id false) Found
    unfolding find_internal step_size
    find_internal-Found =
        let q = encode_key mac vlan_id in
        let h = home t.salt q in
        let (i, lt, free) = walk-ends valid q h in
        let (r, run, out) =
          find_loop-lookup t.entries k q h (2 ^ k) 0 i (omega arith) (omega arith) free
            (λ m before. absurd (omega arith)) in
        (r, rw (valid.sized, ← home-encode_key t.salt mac vlan_id a) run, found r out)

    pub find_internal-FoundVacant :
        Returns (find_internal murmur_hash t mac vlan_id true) FoundVacant
    unfolding find_internal step_size
    find_internal-FoundVacant =
        let q = encode_key mac vlan_id in
        let h = home t.salt q in
        let (i, lt, free) = walk-ends valid q h in
        let (r, run, out) =
          find_loop-insert t.entries k q h (2 ^ k) 0 i none (omega arith) (omega arith) free
            (λ m before. absurd (omega arith)) (λ m before. absurd (omega arith)) tt in
        (r, rw (valid.sized, ← home-encode_key t.salt mac vlan_id a) run, found_vacant r out)
