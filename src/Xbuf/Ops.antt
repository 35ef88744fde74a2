-- ===== src/Xbuf/Ops.antt =====
-- modules/xbuf: the operations of xbuf.h and xbuf.c together.
use ivs.Base.{
  ℕ, ◌+◌, ◌^◌, ◌≤◌, ◌<◌, ◌≡◌, refl, sym, ap, ◌∙◌, arith, [], ◌++◌, Option, some, Option-cases, inl,
  inr, ◌>>=◌, Returns, Returns-bind, Returns-weaken, length, take, replicate,
}
use native.Mathlib.Decide.{dec_lt}
use ivs.Xbuf.{
  Bytes, Xbuf, nla_align, nlattr, xbuf_reset, xbuf_resize_check, xbuf_compact, xbuf_append,
  xbuf_append_zeroes, xbuf_append_attr, xbuf_start_nest,
}
use ivs.Xbuf.Tail.{Valid, contents, attr_bytes}
use ivs.Xbuf.Bounds.{
  Allocates, Holds, Grown, xbuf_resize_check-Grown, xbuf_append-Holds, xbuf_append_zeroes-Holds,
  xbuf_append_attr-Holds, xbuf_start_nest-Holds,
}

pub data Op : Type 0 where
  resize_check : ℕ → Op
  compact : Op
  reset : Op
  append : Bytes → Op
  append_zeroes : ℕ → Op
  append_attr : ℕ → Bytes → Op
  start_nest : ℕ → Op

-- The bytes behind an operation, and the room it asks for.
abbrev pub effect : Op → Bytes → Bytes
effect (resize_check size) held = held
effect compact held = held
effect reset held = []
effect (append src) held = held ++ src
effect (append_zeroes len) held = held ++ replicate len 0
effect (append_attr type payload) held = held ++ attr_bytes type payload
effect (start_nest type) held = held ++ nlattr 0 type

-- Sizes stay inside of 2^31 bytes, and a payload inside of the 16 bits of its header.
abbrev pub Room : Op → Xbuf → Type 0
Room (resize_check size) buf = size ≤ 2 ^ 31
Room compact buf = Unit
Room reset buf = Unit
Room (append src) buf = buf.length + length src ≤ 2 ^ 31
Room (append_zeroes len) buf = buf.length + len ≤ 2 ^ 31
Room (append_attr type payload) buf =
    (4 + length payload < 2 ^ 16) × (buf.length + 4 + nla_align (length payload) ≤ 2 ^ 31)
Room (start_nest type) buf = buf.length + 4 ≤ 2 ^ 31

module _ (aim_realloc : Bytes → ℕ → Option Bytes) where
  abbrev pub run : Op → Xbuf → Option Xbuf
  run (resize_check size) buf = xbuf_resize_check aim_realloc buf size
  run compact buf = xbuf_compact aim_realloc buf
  run reset buf = some (xbuf_reset buf)
  run (append src) buf = xbuf_append aim_realloc buf src
  run (append_zeroes len) buf = xbuf_append_zeroes aim_realloc buf len
  run (append_attr type payload) buf = xbuf_append_attr aim_realloc buf type payload
  run (start_nest type) buf = xbuf_start_nest aim_realloc buf type >>= λ result. some (result.1)

  compact-Valid :
      (buf : Xbuf)
      → Valid buf
      → Allocates aim_realloc
      → Returns
          (xbuf_compact aim_realloc buf)
          (λ after. Valid after × (contents after ≡ contents buf))
  unfolding xbuf_compact
  compact-Valid buf v allocates = elim (dec_lt 0 buf.length) [
    | yes some_bytes ↦
        let block = allocates.0 buf.memory buf.length some_bytes in
        let keep = block.2.1 buf.length (omega arith) (omega (arith, v.0, v.1)) in
        rw (xbuf_compact, block.1) (_, refl, ((omega arith, block.2.0), keep))
    | no empty ↦
        let e : buf.length ≡ 0 = omega arith in
        let o = aim_realloc buf.memory 0 in
        elim (Option-cases o) [
          | inl null ↦ rw (xbuf_compact, e, null, e) (_, refl, ((omega arith, refl), refl))
          | inr (moved, given) ↦
              let none_left = allocates.1 buf.memory moved given in
              rw (xbuf_compact, e, given)
                (
                  _,
                  refl,
                  ((omega arith, ap length none_left ∙ sym e), ap (λ (n : ℕ). take n moved) e),
                )
        ]
  ]

  -- With an allocator that gives the memory asked for, on a buffer whose length is within its
  -- allocation and with sizes that stay within 2^31 bytes (and a payload within the 16 bits of its
  -- header), each of resize_check, compact, reset, append, append_zeroes, append_attr and
  -- start_nest returns, with no byte written outside of the allocation, a buffer whose length is
  -- within its allocation and whose contents are the old ones followed by what was appended (none,
  -- for a reset).
  pub run-Valid :
      Allocates aim_realloc
      → (op : Op) (buf : Xbuf) → Valid buf
      → Room op buf
      → Returns (run op buf) (λ after. Valid after × (contents after ≡ effect op (contents buf)))
  unfolding Holds Grown
  run-Valid allocates (resize_check size) buf v room =
      Returns-weaken (xbuf_resize_check-Grown aim_realloc allocates buf size v room)
        (λ after made. (made.0, made.1))
  run-Valid allocates compact buf v room = compact-Valid buf v allocates
  run-Valid allocates reset buf v room = (_, refl, ((omega arith, v.1), refl))
  run-Valid allocates (append src) buf v room =
      xbuf_append-Holds aim_realloc allocates buf src v room
  run-Valid allocates (append_zeroes len) buf v room =
      xbuf_append_zeroes-Holds aim_realloc allocates buf len v room
  run-Valid allocates (append_attr type payload) buf v room =
      xbuf_append_attr-Holds aim_realloc allocates buf type payload v (room.0) (room.1)
  run-Valid allocates (start_nest type) buf v room =
      Returns-bind (xbuf_start_nest-Holds aim_realloc allocates buf type v room)
        (λ result begun. (_, refl, begun.1))
