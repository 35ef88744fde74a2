-- ===== src/Tests/Xbuf.antt =====
-- The buffers at concrete inputs: an allocator that fills new memory with zeroes, an empty buffer of
-- eight bytes, and two attributes.
use ivs.Base.{
  ℕ, zero, suc, ◌^◌, ◌≤◌, ◌<◌, ◌*◌, ◌≡◌, refl, sym, ap, arith, List, [], ◌∷◌, ◌++◌, Option, some,
  Returns, length, take,
}
use mathlib.Core.Option.{some_inj}
use ivs.Xbuf.{Bytes, Xbuf, Attr, next_pow2, xbuf_foreach_whole}
use ivs.Xbuf.Power.{next_pow2-least}
use ivs.Xbuf.Tail.{Valid, contents}
use ivs.Xbuf.Bounds.{Allocates}
use ivs.Xbuf.Ops.{append_attr, run, effect, run-Valid}
use ivs.Xbuf.Attrs.{append_attrs, append_attrs-foreach, attrs_bytes}
use ivs.Xbuf.Nest.{nested, nested-foreach}

resized : ℕ → Bytes → Bytes
resized zero block = []
resized (suc n) [] = 0 ∷ resized n []
resized (suc n) (x ∷ block) = x ∷ resized n block

abbrev zeroing_realloc : Bytes → ℕ → Option Bytes
zeroing_realloc block size = some (resized size block)

length-resized : (n : ℕ) (block : Bytes) → length (resized n block) ≡ n
unfolding resized
length-resized zero block = refl
length-resized (suc n) [] = ap suc (length-resized n [])
length-resized (suc n) (x ∷ block) = ap suc (length-resized n block)

take-resized :
    (size : ℕ) (block : Bytes) (n : ℕ)
    → n ≤ size
    → n ≤ length block
    → take n (resized size block) ≡ take n block
unfolding resized
take-resized size block zero p q = refl
take-resized zero block (suc n) p q = elim p [ ]
take-resized (suc size) [] (suc n) p q = elim q [ ]
take-resized (suc size) (x ∷ block) (suc n) p q =
    ap (λ t. x ∷ t) (take-resized size block n (omega arith) (omega arith))

zeroing_realloc-Allocates : Allocates zeroing_realloc
unfolding resized
zeroing_realloc-Allocates = (
  λ block size positive. (_, refl, (length-resized size block, take-resized size block)),
  λ block moved given. sym (some_inj.0 given),
)

abbrev empty : Xbuf
empty = record { memory = 1 ∷ 2 ∷ 3 ∷ 4 ∷ 5 ∷ 6 ∷ 7 ∷ 8 ∷ []; length = 0; allocated = 8 }

abbrev two_attrs : List Attr
two_attrs = (3, 10 ∷ 20 ∷ 30 ∷ []) ∷ (7, []) ∷ []

next_pow2-least_example :
    (k : ℕ) × (next_pow2 65 ≡ 2 ^ k) × (65 ≤ 2 ^ k) × (2 ^ k < 2 * 65) × (next_pow2 65 < 2 ^ 31)
next_pow2-least_example = next_pow2-least 65 (omega arith) (omega arith)

run-Valid_example :
    Returns
      (run zeroing_realloc (append_attr 3 (10 ∷ [])) empty)
      (λ after. Valid after × (contents after ≡ effect (append_attr 3 (10 ∷ [])) (contents empty)))
run-Valid_example =
    run-Valid zeroing_realloc zeroing_realloc-Allocates (append_attr 3 (10 ∷ [])) empty
      (omega arith, refl) (omega arith, omega arith)

append_attrs-foreach_example :
    Returns
      (append_attrs zeroing_realloc empty two_attrs)
      (λ after. Valid after × (xbuf_foreach_whole after ≡ some ([] ++ two_attrs)))
append_attrs-foreach_example =
    append_attrs-foreach zeroing_realloc zeroing_realloc-Allocates empty [] two_attrs
      (omega arith, refl) refl tt ((omega arith, omega arith), ((omega arith, omega arith), tt))
      (omega arith)

nested-foreach_example : Returns (nested zeroing_realloc empty 9 two_attrs) (λ after.
    Valid after × (xbuf_foreach_whole after ≡ some ([] ++ ((9, attrs_bytes two_attrs) ∷ []))))
nested-foreach_example =
    nested-foreach zeroing_realloc zeroing_realloc-Allocates empty [] 9 two_attrs
      (omega arith, refl) refl tt ((omega arith, omega arith), ((omega arith, omega arith), tt))
      (omega arith) (omega arith) (omega arith)
