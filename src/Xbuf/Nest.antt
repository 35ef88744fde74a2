-- ===== src/Xbuf/Nest.antt =====
-- modules/xbuf: `xbuf_end_nest`, which writes into the middle of a buffer.
use ivs.Base.{
  ℕ, ◌+◌, ◌-◌, ◌%◌, ◌^◌, ◌≤◌, ◌<◌, ◌≡◌, refl, sym, ap, ◌∙◌, arith, List, [], ◌∷◌, ◌++◌, true,
  Option, some, Returns, leb, length, take, drop, replicate, ◌>>=◌, take-drop, drop-append,
  drop-append_at, take-append_left, length-append, append_assoc, append_nil, Returns-bind,
  Returns-weaken,
}
use ivs.Xbuf.{
  Attr, xbuf_foreach_whole, Bytes, Xbuf, memcpy, word16, nla_align, nlattr, xbuf_start_nest,
  xbuf_end_nest,
}
use ivs.Base.Bits.{mod_unique}
use ivs.Xbuf.Attrs.{
  AllFit, attrs_bytes, append_attrs, append_attrs-Holds, foreach-contents, AllFit-append,
  attrs_bytes-append, length-padded,
}
use ivs.Xbuf.Bounds.{Allocates, Holds, Holds-length, xbuf_start_nest-Holds}
use ivs.Xbuf.Tail.{Valid, contents, length-contents}

overwrite :
    (xs old ys src : Bytes)
    → length src ≡ length old
    → memcpy (xs ++ (old ++ ys)) (length xs) src ≡ some (xs ++ (src ++ ys))
overwrite xs old ys src size =
    let total = length-append xs (old ++ ys) in
    let part = length-append old ys in
    let inside : leb (length xs + length src) (length (xs ++ (old ++ ys))) ≡ true = ground arith in
    let rest : drop (length xs + length src) (xs ++ (old ++ ys)) ≡ ys =
      drop-append_at xs (old ++ ys) (length src)
      ∙ ap (λ (n : ℕ). drop n (old ++ ys)) size
      ∙ drop-append old ys in
    rw (inside, take-append_left xs (old ++ ys), rest) refl

-- A nest that is ended: its header gets the length of what was appended since.
pub xbuf_end_nest-Holds :
    (buf : Xbuf) (front : Bytes) (type : ℕ) (children : Bytes)
    → Valid buf
    → buf.length < 2 ^ 32
    → contents buf ≡ front ++ (nlattr 0 type ++ children)
    → 4 + length children < 2 ^ 16
    → Returns (xbuf_end_nest buf (length front)) (λ after.
      Valid after × (contents after ≡ front ++ (nlattr (4 + length children) type ++ children)))
unfolding xbuf_end_nest
xbuf_end_nest-Holds buf front type children v word held short =
    let size : buf.length ≡ length front + (4 + length children) =
      sym (length-contents buf v)
      ∙ ap length held
      ∙ omega (arith, length-append front (nlattr 0 type ++ children)) in
    let tail = drop buf.length buf.memory in
    let after_header = word16 type ++ (children ++ tail) in
    let memory : buf.memory ≡ front ++ (word16 0 ++ after_header) =
      sym (take-drop buf.length buf.memory)
      ∙ ap (λ t. t ++ tail) held
      ∙ append_assoc front (nlattr 0 type ++ children) tail in
    let nla_len : (buf.length + (2 ^ 32 - length front)) % 2 ^ 16 ≡ 4 + length children =
      mod_unique _ (2 ^ 16) (2 ^ 16) (4 + length children) (omega (arith, size, word)) short in
    let header = nlattr (4 + length children) type in
    let whole : front ++ (word16 (4 + length children) ++ after_header)
        ≡ (front ++ (header ++ children)) ++ tail =
      sym (append_assoc front (header ++ children) tail) in
    let keep : length (front ++ (word16 (4 + length children) ++ after_header)) ≡ buf.allocated =
      length-append front (word16 (4 + length children) ++ after_header)
      ∙ sym (length-append front (word16 0 ++ after_header))
      ∙ sym (ap length memory)
      ∙ v.1 in
    let reach : length (front ++ (header ++ children)) ≡ buf.length =
      omega (arith, length-append front (header ++ children), size) in
    let written : memcpy buf.memory (length front) (word16 (4 + length children))
        ≡ some (front ++ (word16 (4 + length children) ++ after_header)) =
      ap (λ block. memcpy block (length front) (word16 (4 + length children))) memory
      ∙ overwrite front (word16 0) after_header (word16 (4 + length children)) refl in
    rw (nla_len, written)
      (
        _,
        refl,
        (
          (v.0, keep),
          ap (take buf.length) whole
              ∙ ap (λ (n : ℕ). take n ((front ++ (header ++ children)) ++ tail)) (sym reach)
              ∙ take-append_left (front ++ (header ++ children)) tail,
        ),
      )

-- Attributes end at a multiple of their alignment.
nla_align-attrs_bytes :
    (attrs : List Attr) → nla_align (length (attrs_bytes attrs)) ≡ length (attrs_bytes attrs)
nla_align-attrs_bytes [] = refl
nla_align-attrs_bytes ((type, payload) ∷ attrs) =
    let padded = payload ++ replicate (nla_align (length payload) - length payload) 0 in
    omega (
      arith,
      length-append padded (attrs_bytes attrs),
      length-padded payload,
      nla_align-attrs_bytes attrs,
    )

-- A caller's use of a nest.
abbrev pub nested : (Bytes → ℕ → Option Bytes) → Xbuf → ℕ → List Attr → Option Xbuf
nested aim_realloc buf type children = do
  (offset, started) ← xbuf_start_nest aim_realloc buf type
  filled ← append_attrs aim_realloc started children
  xbuf_end_nest filled offset

module _ (aim_realloc : Bytes → ℕ → Option Bytes) (allocates : Allocates aim_realloc) where
  -- With an allocator that gives the memory asked for, where a valid buffer holds some attributes,
  -- a nest that is started, filled with attributes and ended is read back by XBUF_FOREACH2 behind
  -- the old attributes, as one attribute of its type whose payload is the bytes of its children,
  -- if types and lengths fit the 16 bits of the header and the buffer stays within 2^31 bytes.
  pub nested-foreach :
      (buf : Xbuf) (before : List Attr) (type : ℕ) (children : List Attr)
      → Valid buf
      → contents buf ≡ attrs_bytes before
      → AllFit before
      → AllFit children
      → type < 2 ^ 16
      → 4 + length (attrs_bytes children) < 2 ^ 16
      → buf.length + 4 + length (attrs_bytes children) ≤ 2 ^ 31
      → Returns (nested aim_realloc buf type children) (λ after.
        Valid after
        × (xbuf_foreach_whole after ≡ some (before ++ ((type, attrs_bytes children) ∷ []))))
  unfolding Holds
  nested-foreach buf before type children v held fit fit' kind short small =
      let payload = attrs_bytes children in
      let single : List Attr = (type, payload) ∷ [] in
      Returns-bind (xbuf_start_nest-Holds aim_realloc allocates buf type v (omega arith))
        (λ started begun.
          let size : started.1.length ≡ buf.length + 4 =
            Holds-length buf (nlattr 0 type) (started.1) v (begun.1) in
          Returns-bind
            (append_attrs-Holds aim_realloc allocates (started.1) children (begun.1.0) fit'
              (omega (arith, size, small)))
            (λ filled put.
              let whole : contents filled ≡ contents buf ++ (nlattr 0 type ++ payload) =
                put.1
                ∙ ap (λ t. t ++ payload) (begun.1.1)
                ∙ append_assoc (contents buf) (nlattr 0 type) payload in
              let total = Holds-length (started.1) payload filled (begun.1.0) put in
              let at : started.0 ≡ length (contents buf) = begun.0 ∙ sym (length-contents buf v) in
              let exact : nla_align (length payload) - length payload ≡ 0 =
                omega (arith, nla_align-attrs_bytes children) in
              let one : nlattr (4 + length payload) type ++ payload ≡ attrs_bytes single =
                rw exact (
                  ap (λ t. nlattr (4 + length payload) type ++ t)
                    (sym (append_nil (payload ++ []) ∙ append_nil payload))) in
              rw at (
                Returns-weaken
                  (xbuf_end_nest-Holds filled (contents buf) type payload (put.0)
                    (omega (arith, total, size, small)) whole short)
                  (λ after ended. (
                    ended.0,
                    foreach-contents after (before ++ single) (ended.0)
                        (AllFit-append before single fit ((kind, short), tt))
                        (ended.1
                          ∙ ap (λ t. t ++ (nlattr (4 + length payload) type ++ payload)) held
                          ∙ ap (λ t. attrs_bytes before ++ t) one
                          ∙ sym (attrs_bytes-append before single)),
                  )))))
