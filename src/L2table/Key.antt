-- ===== src/L2table/Key.antt =====
-- `l2table_encode_key__` and `l2table_decode_key__`.
use ivs.Base.{ℕ, ◌^◌, ◌<◌, ◌≡◌, false, arith}
use ivs.L2table.{Mac, encode_key, decode_key, key_is_unoccupied}

pub record IsMac (mac : Mac) : Type 0 where
  pub b0 : mac.m0 < 256
  pub b1 : mac.m1 < 256
  pub b2 : mac.m2 < 256
  pub b3 : mac.m3 < 256
  pub b4 : mac.m4 < 256
  pub b5 : mac.m5 < 256

-- A MAC address of six bytes and a 16-bit VLAN id come back from the key that is made of them.
pub decode_key-encode_key :
    (mac : Mac) (vlan_id : ℕ)
    → IsMac mac
    → vlan_id < 2 ^ 16
    → decode_key (encode_key mac vlan_id) ≡ (mac, vlan_id)
unfolding decode_key encode_key
decode_key-encode_key mac vlan_id h v = ground arith

-- A 64-bit key is made again of its parts.
pub encode_key-decode_key :
    (key : ℕ) → key < 2 ^ 64 → encode_key (decode_key key).0 (decode_key key).1 ≡ key
unfolding decode_key encode_key
encode_key-decode_key key h = omega arith

pub encode_key-lt :
    (mac : Mac) (vlan_id : ℕ) → IsMac mac → vlan_id < 2 ^ 12 → encode_key mac vlan_id < 2 ^ 60
unfolding encode_key
encode_key-lt mac vlan_id h v = omega arith

-- A key below the flag bits is occupied.
pub key_is_unoccupied-lt : (key : ℕ) → key < 2 ^ 60 → key_is_unoccupied key ≡ false
key_is_unoccupied-lt key h = ground arith
