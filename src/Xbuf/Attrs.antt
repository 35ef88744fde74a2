-- ===== src/Xbuf/Attrs.antt =====
-- modules/xbuf: the attributes that are read back with `XBUF_FOREACH` are those that were appended.
use ivs.Base.{
  ℕ, zero, suc, ◌+◌, ◌-◌, ◌*◌, ◌/◌, ◌%◌, ◌^◌, ◌≤◌, ◌<◌, ◌≡◌, refl, sym, ap, ◌∙◌, arith, List, [],
  ◌∷◌, ◌++◌, Option, some, ◌>>=◌, Returns, Returns-bind, Returns-weaken, length, take, drop,
  replicate, length-append, append_assoc, append_nil, length-replicate, take-append_left,
  drop-append_sized,
}
use ivs.Xbuf.{Bytes, Xbuf, Attr, nla_align, xbuf_append_attr, xbuf_foreach, xbuf_foreach_whole}
use ivs.Xbuf.Tail.{Valid, contents, length-contents, attr_bytes}
use ivs.Xbuf.Bounds.{Allocates, Holds, Holds-length, xbuf_append_attr-Holds}

-- A type and a payload that the 16-bit fields of the header hold.
abbrev pub Fits : Attr → Type 0
Fits attr = (attr.0 < 2 ^ 16) × (4 + length (attr.1) < 2 ^ 16)

abbrev pub AllFit : List Attr → Type 0
AllFit [] = Unit
AllFit (attr ∷ attrs) = Fits attr × AllFit attrs

abbrev pub attrs_bytes : List Attr → Bytes
attrs_bytes [] = []
attrs_bytes (attr ∷ attrs) = attr_bytes (attr.0) (attr.1) ++ attrs_bytes attrs

word16-read : (w : ℕ) → w < 2 ^ 16 → w % 256 + 256 * (w / 256 % 256) ≡ w
word16-read w h = omega arith

pub length-padded :
    (payload : Bytes)
    → length (payload ++ replicate (nla_align (length payload) - length payload) 0)
      ≡ nla_align (length payload)
length-padded payload =
    let pad = nla_align (length payload) - length payload in
    omega (arith, length-append payload (replicate pad 0), length-replicate {A = ℕ} pad 0)

foreach_one :
    (fuel : ℕ) (attr : Attr) (rest : Bytes)
    → Fits attr
    → xbuf_foreach (suc fuel) (attr_bytes (attr.0) (attr.1) ++ rest)
      ≡ xbuf_foreach fuel rest >>= λ attrs. some (attr ∷ attrs)
unfolding xbuf_foreach
foreach_one fuel (type, payload) rest h =
    let len : (4 + length payload) % 256 + 256 * ((4 + length payload) / 256 % 256)
        ≡ 4 + length payload =
      word16-read (4 + length payload) (h.1) in
    let kind : type % 256 + 256 * (type / 256 % 256) ≡ type = word16-read type (h.0) in
    let align : (4 + length payload + 3) / 4 * 4
        ≡ suc (suc (suc (suc (nla_align (length payload))))) =
      omega arith in
    let short : 4 + length payload - 4 ≡ length payload = omega arith in
    let zeroes = replicate (nla_align (length payload) - length payload) 0 in
    let next : drop (nla_align (length payload)) ((payload ++ zeroes) ++ rest) ≡ rest =
      drop-append_sized _ (payload ++ zeroes) rest (length-padded payload) in
    let read : take (length payload) ((payload ++ zeroes) ++ rest) ≡ payload =
      ap (take (length payload)) (append_assoc payload zeroes rest)
      ∙ take-append_left payload (zeroes ++ rest) in
    rw (len, align, next, kind, short, read) refl

foreach_all :
    (fuel : ℕ) (attrs : List Attr)
    → AllFit attrs
    → length attrs ≤ fuel
    → xbuf_foreach fuel (attrs_bytes attrs) ≡ some attrs
unfolding xbuf_foreach
foreach_all zero [] fit enough = refl
foreach_all (suc fuel) [] fit enough = refl
foreach_all zero (attr ∷ attrs) fit enough = elim enough [ ]
foreach_all (suc fuel) (attr ∷ attrs) fit enough =
    foreach_one fuel attr (attrs_bytes attrs) (fit.0)
    ∙ ap (λ o. o >>= λ rest. some (attr ∷ rest)) (foreach_all fuel attrs (fit.1) (omega arith))

-- Every attribute takes bytes, so as many rounds as there are bytes are enough.
length-attrs_bytes : (attrs : List Attr) → length attrs ≤ length (attrs_bytes attrs)
length-attrs_bytes [] = omega arith
length-attrs_bytes ((type, payload) ∷ attrs) =
    let padded = payload ++ replicate (nla_align (length payload) - length payload) 0 in
    omega (arith, length-append padded (attrs_bytes attrs), length-attrs_bytes attrs)

pub foreach-contents :
    (buf : Xbuf) (attrs : List Attr)
    → Valid buf
    → AllFit attrs
    → contents buf ≡ attrs_bytes attrs
    → xbuf_foreach_whole buf ≡ some attrs
foreach-contents buf attrs v fit held =
    let size : buf.length ≡ length (attrs_bytes attrs) =
      sym (length-contents buf v) ∙ ap length held in
    rw held (foreach_all buf.length attrs fit (omega (arith, size, length-attrs_bytes attrs)))

pub AllFit-append : (xs ys : List Attr) → AllFit xs → AllFit ys → AllFit (xs ++ ys)
AllFit-append [] ys p q = q
AllFit-append (x ∷ xs) ys p q = (p.0, AllFit-append xs ys (p.1) q)

pub attrs_bytes-append :
    (xs ys : List Attr) → attrs_bytes (xs ++ ys) ≡ attrs_bytes xs ++ attrs_bytes ys
attrs_bytes-append [] ys = refl
attrs_bytes-append ((type, payload) ∷ xs) ys =
    ap (λ t. attr_bytes type payload ++ t) (attrs_bytes-append xs ys)
    ∙ sym (append_assoc (attr_bytes type payload) (attrs_bytes xs) (attrs_bytes ys))

-- One call of xbuf_append_attr after the other.
abbrev pub append_attrs : (Bytes → ℕ → Option Bytes) → Xbuf → List Attr → Option Xbuf
append_attrs aim_realloc buf [] = some buf
append_attrs aim_realloc buf (attr ∷ attrs) =
    xbuf_append_attr aim_realloc buf (attr.0) (attr.1) >>= λ after.
    append_attrs aim_realloc after attrs

module _ (aim_realloc : Bytes → ℕ → Option Bytes) (allocates : Allocates aim_realloc) where
  pub append_attrs-Holds :
      (buf : Xbuf) (attrs : List Attr)
      → Valid buf
      → AllFit attrs
      → buf.length + length (attrs_bytes attrs) ≤ 2 ^ 31
      → Returns (append_attrs aim_realloc buf attrs) (Holds buf (attrs_bytes attrs))
  unfolding Holds
  append_attrs-Holds buf [] v fit small = (buf, refl, (v, sym (append_nil (contents buf))))
  append_attrs-Holds buf ((type, payload) ∷ attrs) v fit small =
      let padded = payload ++ replicate (nla_align (length payload) - length payload) 0 in
      let one = length-padded payload in
      let total = length-append padded (attrs_bytes attrs) in
      Returns-bind
        (xbuf_append_attr-Holds aim_realloc allocates buf type payload v (fit.0.1)
          (omega (arith, small, one, total)))
        (λ mid put.
          let size = Holds-length buf (attr_bytes type payload) mid v put in
          Returns-weaken
            (append_attrs-Holds mid attrs (put.0) (fit.1) (omega (arith, small, size, total)))
            (λ after rest. (
              rest.0,
              rest.1
                  ∙ ap (λ t. t ++ attrs_bytes attrs) (put.1)
                  ∙ append_assoc (contents buf) (attr_bytes type payload) (attrs_bytes attrs),
            )))

  -- With an allocator that gives the memory asked for, where a valid buffer holds some attributes,
  -- appending more with xbuf_append_attr returns a valid buffer from which XBUF_FOREACH2 reads
  -- back the types and payloads of the old and the new ones in order, if types and lengths fit the
  -- 16 bits of the header and the buffer stays within 2^31 bytes.
  pub append_attrs-foreach :
      (buf : Xbuf) (before attrs : List Attr)
      → Valid buf
      → contents buf ≡ attrs_bytes before
      → AllFit before
      → AllFit attrs
      → buf.length + length (attrs_bytes attrs) ≤ 2 ^ 31
      → Returns
          (append_attrs aim_realloc buf attrs)
          (λ after. Valid after × (xbuf_foreach_whole after ≡ some (before ++ attrs)))
  unfolding Holds
  append_attrs-foreach buf before attrs v held fit fit' small =
      Returns-weaken (append_attrs-Holds buf attrs v fit' small) (λ after put. (
        put.0,
        foreach-contents after (before ++ attrs) (put.0) (AllFit-append before attrs fit fit')
            (put.1 ∙ ap (λ t. t ++ attrs_bytes attrs) held ∙ sym (attrs_bytes-append before attrs)),
      ))
