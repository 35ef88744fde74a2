-- ===== src/Xbuf/Bounds.antt =====
-- modules/xbuf: no operation touches a byte outside of the allocation, and what a buffer holds after
-- each operation.
use ivs.Base.{
  ℕ, ◌+◌, ◌%◌, ◌^◌, ◌≤◌, ◌<◌, ◌≡◌, refl, sym, ap, ◌∙◌, arith, [], ◌++◌, true, false, Option, some,
  Returns, ltb, length, take, replicate, ◌>>=◌, length-append, length-replicate, Returns-bind,
  Returns-weaken,
}
use ivs.Xbuf.{
  Bytes, Xbuf, nla_align, next_pow2, nlattr, xbuf_append_tail, xbuf_resize, xbuf_resize_check,
  xbuf_append, xbuf_append_zeroes, xbuf_append_attr, xbuf_start_nest,
}
use ivs.Xbuf.Power.{next_pow2-word}
use ivs.Base.Bits.{mod_unique}
use native.Mathlib.Decide.{dec_lt}
use native.Mathlib.Nat.{mod-eq_of_lt}
use ivs.Xbuf.Tail.{
  Valid, contents, length-contents, Appended, xbuf_append_tail-Appended, Appended-trans, attr_bytes,
  xbuf_append_payload-Appended,
}

-- The allocator gives every block it is asked for, with the size asked for, and keeps what the old
-- block held as far as the new one reaches. A block of no bytes may be NULL.
abbrev pub Allocates : (Bytes → ℕ → Option Bytes) → Type 0
Allocates aim_realloc =
    ((block : Bytes)
      → (size : ℕ) → 0 < size
      → Returns (aim_realloc block size) (λ moved.
        (length moved ≡ size)
        × ((n : ℕ) → n ≤ size → n ≤ length block → take n moved ≡ take n block)))
    × ((block moved : Bytes) → aim_realloc block 0 ≡ some moved → moved ≡ [])

unfoldable pub Grown : Xbuf → ℕ → Xbuf → Type 0
Grown buf size after =
    Valid after
    × (contents after ≡ contents buf)
    × (after.length ≡ buf.length)
    × (size ≤ after.allocated)

-- The buffer after more bytes were put behind what it held.
unfoldable pub Holds : Xbuf → Bytes → Xbuf → Type 0
Holds buf src after = Valid after × (contents after ≡ contents buf ++ src)

pub Holds-length :
    (buf : Xbuf) (src : Bytes) (after : Xbuf)
    → Valid buf
    → Holds buf src after
    → after.length ≡ buf.length + length src
unfolding Holds
Holds-length buf src after v h =
    sym (length-contents after (h.0))
    ∙ ap length (h.1)
    ∙ omega (arith, length-append (contents buf) src, length-contents buf v)

Grown-Appended :
    (buf grown after : Xbuf) (size : ℕ) (src : Bytes)
    → Grown buf size grown
    → Appended grown src after
    → Holds buf src after
unfolding Grown Appended Holds
Grown-Appended buf grown after size src made put = (put.0, put.1 ∙ ap (λ t. t ++ src) (made.1))

module _ (aim_realloc : Bytes → ℕ → Option Bytes) (allocates : Allocates aim_realloc) where
  pub xbuf_resize_check-Grown :
      (buf : Xbuf) (size : ℕ)
      → Valid buf
      → size ≤ 2 ^ 31
      → Returns (xbuf_resize_check aim_realloc buf size) (Grown buf size)
  unfolding xbuf_resize_check xbuf_resize Grown
  xbuf_resize_check-Grown buf size v small = elim (dec_lt buf.allocated size) [
    | no enough ↦
        let e : ltb buf.allocated size ≡ false = ground arith in
        rw e (buf, refl, (v, refl, refl, omega arith))
    | yes more ↦
        let e : ltb buf.allocated size ≡ true = ground arith in
        let power = next_pow2-word size (omega arith) small in
        let fits : buf.length ≤ next_pow2 size = omega (arith, power.1, power.2, v.0) in
        rw e (
          Returns-bind (allocates.0 buf.memory (next_pow2 size) (omega (arith, power.1, power.2)))
            (λ moved made. (
              _,
              refl,
              (
                (fits, made.0),
                made.1 buf.length fits (omega (arith, v.0, v.1)),
                refl,
                omega (arith, power.1, power.2),
              ),
            )))
  ]

  -- Room for more first, then the bytes.
  append_sized :
      (buf : Xbuf) (src : Bytes) (len : ℕ)
      → length src ≡ len
      → Valid buf
      → buf.length + len ≤ 2 ^ 31
      → Returns
          (xbuf_resize_check aim_realloc buf ((buf.length + len) % 2 ^ 32) >>= λ grown.
            xbuf_append_tail grown src)
          (Holds buf src)
  unfolding Grown
  append_sized buf src len size v small =
      let wraps : (buf.length + len) % 2 ^ 32 ≡ buf.length + len = mod-eq_of_lt (omega arith) in
      rw wraps (
        Returns-bind (xbuf_resize_check-Grown buf (buf.length + len) v small) (λ grown made.
          Returns-weaken
            (xbuf_append_tail-Appended grown src (made.0) (omega (arith, made.2, made.3))
              (omega (arith, made.2)))
            (λ after. Grown-Appended buf grown after (buf.length + len) src made)))

  pub xbuf_append-Holds :
      (buf : Xbuf) (src : Bytes)
      → Valid buf
      → buf.length + length src ≤ 2 ^ 31
      → Returns (xbuf_append aim_realloc buf src) (Holds buf src)
  unfolding xbuf_append
  xbuf_append-Holds buf src v small = append_sized buf src (length src) refl v small

  pub xbuf_append_zeroes-Holds :
      (buf : Xbuf) (len : ℕ)
      → Valid buf
      → buf.length + len ≤ 2 ^ 31
      → Returns (xbuf_append_zeroes aim_realloc buf len) (Holds buf (replicate len 0))
  unfolding xbuf_append_zeroes
  xbuf_append_zeroes-Holds buf len v small =
      append_sized buf (replicate len 0) len (length-replicate len 0) v small

  pub xbuf_append_attr-Holds :
      (buf : Xbuf) (type : ℕ) (payload : Bytes)
      → Valid buf
      → 4 + length payload < 2 ^ 16
      → buf.length + 4 + nla_align (length payload) ≤ 2 ^ 31
      → Returns
          (xbuf_append_attr aim_realloc buf type payload)
          (Holds buf (attr_bytes type payload))
  unfolding xbuf_append_attr Grown Appended
  xbuf_append_attr-Holds buf type payload v short small =
      let size = buf.length + 4 + nla_align (length payload) in
      let wraps : size % 2 ^ 32 ≡ size = mod-eq_of_lt (omega arith) in
      let wraps_len : (4 + length payload) % 2 ^ 16 ≡ 4 + length payload = mod-eq_of_lt short in
      let header = nlattr (4 + length payload) type in
      rw (wraps, wraps_len)
        (Returns-bind (xbuf_resize_check-Grown buf size v small) (λ grown made.
          Returns-bind
            (xbuf_append_tail-Appended grown header (made.0) (omega (arith, made.2, made.3))
              (omega (arith, made.2)))
            (λ headed put.
              Returns-weaken
                (xbuf_append_payload-Appended headed payload (put.0)
                  (omega (arith, put.2, put.3, made.2, made.3)) (omega (arith, put.3, made.2)))
                (λ after rest.
                  Grown-Appended buf grown after size _ made
                    (Appended-trans grown headed after header _ put rest)))))

  -- A nest that is started: an attribute of length 0 at the offset given back.
  pub xbuf_start_nest-Holds :
      (buf : Xbuf) (type : ℕ)
      → Valid buf
      → buf.length + 4 ≤ 2 ^ 31
      → Returns
          (xbuf_start_nest aim_realloc buf type)
          (λ result. (result.0 ≡ buf.length) × Holds buf (nlattr 0 type) (result.1))
  unfolding xbuf_start_nest Grown Appended
  xbuf_start_nest-Holds buf type v small =
      let wraps : (buf.length + 4) % 2 ^ 32 ≡ buf.length + 4 = mod-eq_of_lt (omega arith) in
      rw wraps (
        Returns-bind (xbuf_resize_check-Grown buf (buf.length + 4) v small) (λ grown made.
          Returns-bind
            (xbuf_append_tail-Appended grown (nlattr 0 type) (made.0)
              (omega (arith, made.2, made.3)) (omega (arith, made.2)))
            (λ headed put. (
              _,
              refl,
              (
                mod_unique _ (2 ^ 32) 1 buf.length (omega (arith, put.3, made.2)) (omega arith),
                Grown-Appended buf grown headed (buf.length + 4) (nlattr 0 type) made put,
              ),
            ))))
