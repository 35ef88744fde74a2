-- ===== src/L2table.antt =====
-- modules/l2table/module/src/l2table.c: the MAC/VLAN hash table, open addressing with quadratic
-- probing. `murmur_hash` is not part of the repository and enters as a parameter, a function of
-- the hashed bytes and the salt of which nothing is assumed.
-- A probe is a function of the step number. `step_size` wraps at 32 bits where it is added to the
-- hash, and so does the sum. A resize whose new size is beyond an `int` has no result. `uint64_t` keys are read in little-endian order, the
-- order that the comment "Key format (MSB to LSB)" describes.
pub mod Key
pub mod Probe
pub mod Scan
pub mod Find
pub mod Valid
pub mod Update
pub mod Reinsert
pub mod Insert
use ivs.Base.{
  ℕ, zero, suc, ◌+◌, ◌-◌, ◌*◌, ◌/◌, ◌%◌, ◌^◌, bit_and, Bool, true, false, ◌&&◌, Option, none, some,
  List, [], ◌∷◌, ltb, ◌==◌, if◌then◌else◌, ◌>>=◌, get_or, set, replicate,
}

-- `uint8_t mac[L2TABLE_MAC_LEN]`, its first byte first.
pub record Mac : Type 0 where
  pub m0 : ℕ
  pub m1 : ℕ
  pub m2 : ℕ
  pub m3 : ℕ
  pub m4 : ℕ
  pub m5 : ℕ

abbrev pub key_free : ℕ
key_free = 2 ^ 63

abbrev pub key_deleted : ℕ
key_deleted = 3 * 2 ^ 62

-- The bit of `KEY_FREE` in a 64-bit key.
abbrev pub key_is_unoccupied : ℕ → Bool
key_is_unoccupied key = key / 2 ^ 63 % 2 == 1

pub record Entry : Type 0 where
  pub key : ℕ
  pub out_port : ℕ
  pub metadata : ℕ

pub record Table : Type 0 where
  pub entries : List Entry
  pub size : ℕ
  pub num_occupied : ℕ
  pub num_deleted : ℕ
  pub salt : ℕ

pub data Error : Type 0 where
  none_error : Error
  not_found : Error
  param : Error

-- A slot as `l2table_create` and `l2table_resize__` leave it; the code sets the key alone.
abbrev pub free_entry : Entry
free_entry = record { key = key_free; out_port = 0; metadata = 0 }

unfoldable pub encode_key : Mac → ℕ → ℕ
encode_key mac vlan_id =
    mac.m0
    + mac.m1 * 2 ^ 8
    + mac.m2 * 2 ^ 16
    + mac.m3 * 2 ^ 24
    + mac.m4 * 2 ^ 32
    + mac.m5 * 2 ^ 40
    + vlan_id % 256 * 2 ^ 48
    + vlan_id / 256 * 2 ^ 56

-- Byte `i` of the key in memory.
abbrev pub key_byte : ℕ → ℕ → ℕ
key_byte key i = key / 2 ^ (8 * i) % 256

unfoldable pub decode_key : ℕ → Mac × ℕ
decode_key key = (
  record {
    m0 = key_byte key 0;
    m1 = key_byte key 1;
    m2 = key_byte key 2;
    m3 = key_byte key 3;
    m4 = key_byte key 4;
    m5 = key_byte key 5;
  },
  key_byte key 6 + key_byte key 7 * 256,
)

unfoldable pub create : ℕ → Table
create salt = record {
  entries = replicate 1 free_entry;
  size = 1;
  num_occupied = 0;
  num_deleted = 0;
  salt = salt;
}

-- The entry at an index; the probe stays inside the array.
abbrev pub entry_at : List Entry → ℕ → Entry
entry_at es i = get_or es i free_entry

abbrev pub key_at : List Entry → ℕ → ℕ
key_at es i = (entry_at es i).key

-- `(h + step_size) & mask`, with `mask = t->size - 1`. The sum of the steps so far has wrapped at
-- 32 bits.
unfoldable pub probe_index : ℕ → ℕ → ℕ → ℕ
probe_index size h step_size = bit_and ((h + step_size % 2 ^ 32) % 2 ^ 32) (size - 1)

-- `if (!found) found = e`
abbrev pub found_or : Option ℕ → ℕ → ℕ
found_or none idx = idx
found_or (some first) idx = first

-- The `while (1)` of `l2table_find_internal__`, on fuel: `none` is fuel that ran out, `some r` the
-- pointer that is returned, as an index, or NULL.
pub find_loop : List Entry → (size key h : ℕ) → Bool → ℕ → Option ℕ → ℕ → ℕ → Option (Option ℕ)
find_loop es size key h find_unoccupied zero found step_size step_num = none
find_loop es size key h find_unoccupied (suc fuel) found step_size step_num =
    let idx = probe_index size h step_size in
    let k = key_at es idx in
    let found' =
      if find_unoccupied && key_is_unoccupied k then some (found_or found idx) else found in
    let rest =
      find_loop es size key h find_unoccupied fuel found' (step_size + (step_num + 1))
        (step_num + 1) in
    let hit = if find_unoccupied then none else some idx in
    if k == key then some hit else if k == key_free then some found' else rest

-- `l2table_lookup` behind the probe: the error, and what is stored through `out_port` and
-- `metadata`.
pub lookup_found : Table → Option ℕ → Error × Option (ℕ × ℕ)
lookup_found t none = (not_found, none)
lookup_found t (some i) =
    (none_error, some ((entry_at t.entries i).out_port, (entry_at t.entries i).metadata))

-- `l2table_remove` behind the probe.
pub remove_found : Table → Option ℕ → Error × Table
remove_found t none = (not_found, t)
remove_found t (some i) = (
  none_error,
  record t {
    num_deleted = t.num_deleted + 1;
    num_occupied = t.num_occupied - 1;
    entries = set t.entries i (record (entry_at t.entries i) { key = key_deleted });
  },
)

-- `l2table_insert` behind the probe.
pub place_found : Table → Entry → Option ℕ → Error × Table
place_found t new none = (param, t)
place_found t new (some i) = (
  none_error,
  record t {
    num_deleted = if key_at t.entries i == key_deleted then t.num_deleted - 1 else t.num_deleted;
    num_occupied = t.num_occupied + 1;
    entries = set t.entries i new;
  },
)

-- `murmur_hash` takes the eight hashed bytes and the salt.
module _ (murmur_hash : List ℕ → ℕ → ℕ) where
  -- `buf.u16[0] = vlan_id`, and the six bytes of the address behind it.
  unfoldable pub hash : ℕ → Mac → ℕ → ℕ
  hash salt mac vlan_id =
      murmur_hash
        (vlan_id % 256 ∷ vlan_id / 256 ∷ mac.m0 ∷ mac.m1 ∷ mac.m2 ∷ mac.m3 ∷ mac.m4 ∷ mac.m5 ∷ [])
        salt
      % 2 ^ 32

  unfoldable pub find_internal : Table → Mac → ℕ → Bool → Option (Option ℕ)
  unfolding find_loop
  find_internal t mac vlan_id find_unoccupied =
      find_loop t.entries t.size (encode_key mac vlan_id) (hash t.salt mac vlan_id) find_unoccupied
        t.size none 0 0

  unfoldable pub lookup : Table → Mac → ℕ → Option (Error × Option (ℕ × ℕ))
  unfolding lookup_found
  lookup t mac vlan_id = do e ← find_internal t mac vlan_id false; some (lookup_found t e)

  unfoldable pub remove : Table → Mac → ℕ → Option (Error × Table)
  unfolding remove_found
  remove t mac vlan_id = do e ← find_internal t mac vlan_id false; some (remove_found t e)

  -- `l2table_insert` behind its resize.
  unfoldable pub place : Table → Mac → ℕ → ℕ → ℕ → Option (Error × Table)
  unfolding place_found
  place t mac vlan_id out_port metadata = do
    e ← find_internal t mac vlan_id true
    let new : Entry = record {
      key = encode_key mac vlan_id;
      out_port = out_port;
      metadata = metadata;
    }
    some (place_found t new e)

-- The second loop of `l2table_resize__` over the old entries, with the call of `l2table_insert`
-- handed in; `none` also where `AIM_TRUE_OR_DIE` dies.
pub reinsert :
    (Table → Mac → ℕ → ℕ → ℕ → Option (Error × Table)) → List Entry → Table → Option Table
reinsert insert_one [] t = some t
reinsert insert_one (e ∷ es) t =
    let skip = reinsert insert_one es t in
    let (mac, vlan_id) = decode_key e.key in
    let move = (do
      (err, t') ← insert_one t mac vlan_id e.out_port e.metadata
      elim err [ none_error ↦ reinsert insert_one es t' | _ ↦ none ]) in
    if key_is_unoccupied e.key then skip else move

-- `int new_size = t->size * 2`, of which nothing is known where it is beyond an `int`.
unfoldable pub resize :
    (Table → Mac → ℕ → ℕ → ℕ → Option (Error × Table)) → Table → Option (Error × Table)
unfolding reinsert
resize insert_one t = do
  new_size ← if ltb (t.size * 2) (2 ^ 31) then some (t.size * 2) else none
  t' ← reinsert insert_one t.entries (record t {
    size = new_size;
    entries = replicate new_size free_entry;
    num_occupied = 0;
    num_deleted = 0;
  })
  some (none_error, t')

module _ (murmur_hash : List ℕ → ℕ → ℕ) where
  -- `l2table_insert` calls `l2table_resize__`, which calls it again; the number bounds how deep
  -- the calls nest.
  unfoldable pub insert : ℕ → Table → Mac → ℕ → ℕ → ℕ → Option (Error × Table)
  insert zero t mac vlan_id out_port metadata = none
  insert (suc depth) t mac vlan_id out_port metadata =
      let grown = resize (insert depth) t in
      if ltb t.size (2 * (t.num_occupied + t.num_deleted + 1))
      then (do
        (err, t') ← grown
        elim err [
          | none_error ↦ place murmur_hash t' mac vlan_id out_port metadata
          | other ↦ some (other, t')
        ])
      else place murmur_hash t mac vlan_id out_port metadata
