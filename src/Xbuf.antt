-- ===== src/Xbuf.antt =====
-- modules/xbuf/module: the expandable buffer of xbuf.h and xbuf.c, and the Netlink attributes in it.
-- The field `data` is `memory` here, the allocated bytes. A call that dies, or that touches a byte outside of that memory,
-- gives `none`. `aim_realloc` is the allocator's; it gives `none` where C has NULL. Words are stored
-- the lowest byte first. The header of an attribute has 4 bytes and attributes are aligned to 4.
pub mod Power
pub mod Tail
pub mod Bounds
pub mod Nest
pub mod Attrs
pub mod Ops
use ivs.Base.{
  ℕ, zero, suc, ◌+◌, ◌-◌, ◌*◌, ◌/◌, ◌%◌, ◌^◌, bit_or, Bool, true, false, ltb, leb, ◌==◌,
  if◌then◌else◌, List, [], ◌∷◌, ◌++◌, Option, none, some, ◌>>=◌, length, get_or, take, drop,
  replicate,
}

abbrev pub Bytes : Type 0
Bytes = List ℕ

pub record Xbuf : Type 0 where
  pub memory : Bytes
  pub length : ℕ
  pub allocated : ℕ

-- `memcpy(data + offset, src, len)` into an allocation.
abbrev pub memcpy : Bytes → ℕ → Bytes → Option Bytes
memcpy memory offset src =
    if leb (offset + length src) (length memory)
    then some (take offset memory ++ (src ++ drop (offset + length src) memory))
    else none

abbrev pub word16 : ℕ → Bytes
word16 w = w % 256 ∷ w / 256 % 256 ∷ []

abbrev pub nla_align : ℕ → ℕ
nla_align len = (len + 3) / 4 * 4

abbrev pub smear : ℕ → ℕ → ℕ
smear x shift = bit_or x (x / 2 ^ shift)

-- The 32 bits of the `int` that it returns, which the caller stores in a `uint32_t`.
unfoldable pub next_pow2 : ℕ → ℕ
next_pow2 x =
    let y = (x + (2 ^ 32 - 1)) % 2 ^ 32 in
    (smear (smear (smear (smear (smear y 1) 2) 4) 8) 16 + 1) % 2 ^ 32

abbrev pub xbuf_steal : Xbuf → Bytes × Xbuf
xbuf_steal buf = (buf.memory, record { memory = []; length = 0; allocated = 0 })

abbrev pub xbuf_reset : Xbuf → Xbuf
xbuf_reset buf = record { memory = buf.memory; length = 0; allocated = buf.allocated }

abbrev pub xbuf_cleanup : Xbuf → Xbuf
xbuf_cleanup buf = record { memory = []; length = 0; allocated = 0 }

-- The tail is an offset into the memory.
abbrev pub xbuf_reserve_tail : Xbuf → ℕ → ℕ × Xbuf
xbuf_reserve_tail buf len = (
  buf.length,
  record { memory = buf.memory; length = (buf.length + len) % 2 ^ 32; allocated = buf.allocated },
)

unfoldable pub xbuf_append_tail : Xbuf → Bytes → Option Xbuf
xbuf_append_tail buf src =
    let reserved = xbuf_reserve_tail buf (length src) in
    memcpy buf.memory (reserved.0) src >>= λ memory.
    some (record { memory = memory; length = reserved.1.length; allocated = reserved.1.allocated })

abbrev pub xbuf_append_zeroes_tail : Xbuf → ℕ → Option Xbuf
xbuf_append_zeroes_tail buf len = xbuf_append_tail buf (replicate len 0)

-- `struct nlattr`
abbrev pub nlattr : ℕ → ℕ → Bytes
nlattr nla_len nla_type = word16 nla_len ++ word16 nla_type

-- What `xbuf_append_attr` writes behind the header.
unfoldable pub xbuf_append_payload : Xbuf → Bytes → Option Xbuf
xbuf_append_payload headed payload =
    let filled = xbuf_append_tail headed payload >>= λ filled.
    xbuf_append_zeroes_tail filled (nla_align (length payload) - length payload) in
    if ltb 0 (length payload) then filled else some headed

module _ (aim_realloc : Bytes → ℕ → Option Bytes) where
  unfoldable pub xbuf_resize : Xbuf → ℕ → Option Xbuf
  xbuf_resize buf new_len =
      let allocated = next_pow2 new_len in
      aim_realloc buf.memory allocated >>= λ memory.
      some (record { memory = memory; length = buf.length; allocated = allocated })

  abbrev pub xbuf_init : Option Xbuf
  xbuf_init = xbuf_resize (record { memory = []; length = 0; allocated = 0 }) 64

  unfoldable pub xbuf_resize_check : Xbuf → ℕ → Option Xbuf
  xbuf_resize_check buf new_len =
      if ltb buf.allocated new_len then xbuf_resize buf new_len else some buf

  -- A NULL of the allocator is accepted for an empty buffer.
  unfoldable pub xbuf_compact : Xbuf → Option Xbuf
  xbuf_compact buf = elim (aim_realloc buf.memory buf.length) [
    | some memory ↦ some (record { memory = memory; length = buf.length; allocated = buf.length })
    | none ↦
        if buf.length == 0
        then some (record { memory = []; length = buf.length; allocated = buf.length })
        else none
  ]

  abbrev pub xbuf_reserve : Xbuf → ℕ → Option (ℕ × Xbuf)
  xbuf_reserve buf len = xbuf_resize_check buf ((buf.length + len) % 2 ^ 32) >>= λ grown.
      some (xbuf_reserve_tail grown len)

  unfoldable pub xbuf_append : Xbuf → Bytes → Option Xbuf
  xbuf_append buf src = xbuf_resize_check buf ((buf.length + length src) % 2 ^ 32) >>= λ grown.
      xbuf_append_tail grown src

  unfoldable pub xbuf_append_zeroes : Xbuf → ℕ → Option Xbuf
  xbuf_append_zeroes buf len = xbuf_resize_check buf ((buf.length + len) % 2 ^ 32) >>= λ grown.
      xbuf_append_zeroes_tail grown len

  unfoldable pub xbuf_append_attr : Xbuf → ℕ → Bytes → Option Xbuf
  xbuf_append_attr buf type payload =
      xbuf_resize_check buf ((buf.length + 4 + nla_align (length payload)) % 2 ^ 32) >>= λ grown.
      xbuf_append_tail grown (nlattr ((4 + length payload) % 2 ^ 16) type) >>= λ headed.
      xbuf_append_payload headed payload

  unfoldable pub xbuf_start_nest : Xbuf → ℕ → Option (ℕ × Xbuf)
  xbuf_start_nest buf type = xbuf_resize_check buf ((buf.length + 4) % 2 ^ 32) >>= λ grown.
      xbuf_append_tail grown (nlattr 0 type) >>= λ headed.
      some ((headed.length + (2 ^ 32 - 4)) % 2 ^ 32, headed)

unfoldable pub xbuf_end_nest : Xbuf → ℕ → Option Xbuf
xbuf_end_nest buf offset =
    memcpy buf.memory offset (word16 ((buf.length + (2 ^ 32 - offset)) % 2 ^ 16)) >>= λ memory.
    some (record { memory = memory; length = buf.length; allocated = buf.allocated })

-- What a loop body sees of an attribute: its type and its payload.
abbrev pub Attr : Type 0
Attr = ℕ × Bytes

abbrev read16 : Bytes → ℕ → ℕ
read16 buf offset = get_or buf offset 0 + 256 * get_or buf (suc offset) 0

-- `XBUF_FOREACH` over what is left of the buffer, a round for each unit of fuel.
unfoldable pub xbuf_foreach : ℕ → Bytes → Option (List Attr)
xbuf_foreach fuel [] = some []
xbuf_foreach zero (x ∷ rest) = none
xbuf_foreach (suc fuel) (x ∷ rest) =
    let nla_len = read16 (x ∷ rest) 0 in
    let next = drop (nla_align nla_len) (x ∷ rest) in
    xbuf_foreach fuel next >>= λ attrs.
    some ((read16 (x ∷ rest) 2, take (nla_len - 4) (drop 4 (x ∷ rest))) ∷ attrs)

-- `XBUF_FOREACH2`: over the whole buffer.
abbrev pub xbuf_foreach_whole : Xbuf → Option (List Attr)
xbuf_foreach_whole buf = xbuf_foreach buf.length (take buf.length buf.memory)

-- `xbuf_payload_check`: the assertion fails on another length than the caller expects.
abbrev pub xbuf_payload_check : Attr → ℕ → Option Bytes
xbuf_payload_check attr len = if length (attr.1) == len then some (attr.1) else none
