-- ===== src/Xbuf/Tail.antt =====
-- modules/xbuf: writes at the tail of a buffer that has room for them.
use ivs.Base.{
  ℕ, suc, ◌+◌, ◌-◌, ◌%◌, ◌^◌, ◌≤◌, ◌<◌, ◌≡◌, refl, sym, ap, ◌∙◌, arith, [], ◌∷◌, ◌++◌, true,
  Returns, ltb, leb, length, take, drop, replicate, length-take, length-drop, take-append_left,
  length-append, take-append, append_assoc, append_nil, length-replicate, Returns-bind,
  Returns-weaken,
}
use ivs.Xbuf.{Bytes, Xbuf, memcpy, nla_align, nlattr, xbuf_append_tail, xbuf_append_payload}
use native.Mathlib.Nat.{mod-eq_of_lt}

-- The length stays inside of the allocation, whose size is the one noted.
abbrev pub Valid : Xbuf → Type 0
Valid buf = (buf.length ≤ buf.allocated) × (length buf.memory ≡ buf.allocated)

abbrev pub contents : Xbuf → Bytes
contents buf = take buf.length buf.memory

pub length-contents : (buf : Xbuf) → Valid buf → length (contents buf) ≡ buf.length
length-contents buf v = length-take buf.length buf.memory (omega (arith, v.0, v.1))

memcpy-inside :
    (block : Bytes) (offset : ℕ) (src : Bytes)
    → offset + length src ≤ length block
    → Returns (memcpy block offset src) (λ copied.
      (length copied ≡ length block)
      × (take (offset + length src) copied ≡ take offset block ++ src))
memcpy-inside block offset src h =
    let inside : leb (offset + length src) (length block) ≡ true = ground arith in
    let front = length-take offset block (omega arith) in
    let rest = drop (offset + length src) block in
    let reach : take (offset + length src) (take offset block ++ (src ++ rest))
        ≡ take offset block ++ take (length src) (src ++ rest) =
      ap (λ (k : ℕ). take (k + length src) (take offset block ++ (src ++ rest))) (sym front)
      ∙ take-append (take offset block) (src ++ rest) (length src) in
    let size : length (take offset block ++ (src ++ rest)) ≡ length block = omega (
      arith,
      length-append (take offset block) (src ++ rest),
      length-append src rest,
      length-drop (offset + length src) block,
      front,
      h,
    ) in
    rw inside
      (_, refl, (size, reach ∙ ap (λ t. take offset block ++ t) (take-append_left src rest)))

-- One write at the tail, in the memory that is there.
unfoldable pub Appended : Xbuf → Bytes → Xbuf → Type 0
Appended buf src after =
    Valid after
    × (contents after ≡ contents buf ++ src)
    × (after.allocated ≡ buf.allocated)
    × (after.length ≡ buf.length + length src)

pub xbuf_append_tail-Appended :
    (buf : Xbuf) (src : Bytes)
    → Valid buf
    → buf.length + length src ≤ buf.allocated
    → buf.length + length src < 2 ^ 32
    → Returns (xbuf_append_tail buf src) (Appended buf src)
unfolding xbuf_append_tail Appended
xbuf_append_tail-Appended buf src v fits word =
    let wraps : (buf.length + length src) % 2 ^ 32 ≡ buf.length + length src = mod-eq_of_lt word in
    Returns-bind (memcpy-inside buf.memory buf.length src (omega (arith, v.1)))
      (λ copied made. rw wraps (_, refl, ((fits, made.0 ∙ v.1), made.1, refl, refl)))

pub Appended-trans :
    (buf mid after : Xbuf) (xs ys : Bytes)
    → Appended buf xs mid
    → Appended mid ys after
    → Appended buf (xs ++ ys) after
unfolding Appended
Appended-trans buf mid after xs ys p q = (
  q.0,
  q.1 ∙ ap (λ t. t ++ ys) (p.1) ∙ append_assoc (contents buf) xs ys,
  q.2 ∙ p.2,
  omega (arith, p.3, q.3, length-append xs ys),
)

-- The bytes of an attribute: its header, its payload and the padding.
abbrev pub attr_bytes : ℕ → Bytes → Bytes
attr_bytes type payload =
    nlattr (4 + length payload) type
    ++ (payload ++ replicate (nla_align (length payload) - length payload) 0)

pub xbuf_append_payload-Appended :
    (buf : Xbuf) (payload : Bytes)
    → Valid buf
    → buf.length + nla_align (length payload) ≤ buf.allocated
    → buf.length + nla_align (length payload) < 2 ^ 32
    → Returns
        (xbuf_append_payload buf payload)
        (Appended buf (payload ++ replicate (nla_align (length payload) - length payload) 0))
unfolding xbuf_append_payload Appended
xbuf_append_payload-Appended buf [] v fits word =
    (buf, refl, (v, sym (append_nil (contents buf)), refl, omega arith))
xbuf_append_payload-Appended buf (x ∷ xs) v fits word =
    let len = length (x ∷ xs) in
    let pad = nla_align len - len in
    let size = length-replicate {A = ℕ} pad 0 in
    let filled : ltb 0 (suc (length xs)) ≡ true = ground arith in
    rw filled (
      Returns-bind
        (xbuf_append_tail-Appended buf (x ∷ xs) v (omega (arith, fits)) (omega (arith, word)))
        (λ filled put.
          Returns-weaken
            (xbuf_append_tail-Appended filled (replicate pad 0) (put.0)
              (omega (arith, put.2, put.3, size, fits)) (omega (arith, put.3, size, word)))
            (λ after more. Appended-trans buf filled after (x ∷ xs) (replicate pad 0) put more)))
