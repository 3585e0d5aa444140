-- ===== src/Tunnel/Frame/Layout.antt =====
-- The bytes that `encode` produces, whatever the buffer held.
use zbproxy_a.Base.{
  ℕ, zero, suc, ◌+◌, ◌≤◌, ◌≡◌, refl, sym, ap, ◌∙◌, List, [], ◌∷◌, ◌++◌, arith, length, drop, get_or,
  copy_at, ltb, Bool-cases, inl, inr, length-take, length-replicate, drop_all, append-nil,
  copy_at_next, ltb→le, le→ltb, lt→ltb, length-drop, ◌<◌,
}
use zbproxy_a.Base.Bytes.{put_le}
use zbproxy_a.Tunnel.Limits.{magic, version, max_payload}
use zbproxy_a.Tunnel.Frame.{Frame, ok, err, too_long, fill, encode}

-- The first `n` elements from index `i` on spelled out.
abbrev cells : ℕ → ℕ → List ℕ → List ℕ
cells i zero xs = drop i xs
cells i (suc n) xs = get_or xs i 0 ∷ cells (suc i) n xs

drop_cons : (i : ℕ) (xs : List ℕ) → suc i ≤ length xs → drop i xs ≡ get_or xs i 0 ∷ drop (suc i) xs
drop_cons i [] h = absurd (omega arith)
drop_cons zero (x ∷ xs) h = refl
drop_cons (suc i) (x ∷ xs) h = drop_cons i xs (omega arith)

drop-cells : (i n : ℕ) (xs : List ℕ) → i + n ≤ length xs → drop i xs ≡ cells i n xs
drop-cells i zero xs h = refl
drop-cells i (suc n) xs h =
    drop_cons i xs (omega arith)
    ∙ ap (λ t. get_or xs i 0 ∷ t) (drop-cells (suc i) n xs (omega arith))

unfoldable pub header : Frame → List ℕ
header f =
    put_le 2 magic
    ++ (version ∷ f.typ ∷ [])
    ++ put_le 8 f.session_id
    ++ put_le 4 f.seq
    ++ put_le 4 f.ack
    ++ put_le 2 (length f.payload)

both_empty : (xs ys : List ℕ) → length xs ≡ length ys → length ys ≤ 0 → xs ≡ ys
both_empty [] [] e h = refl
both_empty (x ∷ xs) [] e h = absurd (omega arith)
both_empty xs (y ∷ ys) e h = absurd (omega arith)

copy_at_all : (src dst : List ℕ) → length src ≡ length dst → copy_at 0 src dst ≡ src
copy_at_all src dst h =
    copy_at_next 0 [] src dst refl (omega arith)
    ∙ ap (λ t. src ++ t) (drop_all (length src) dst (omega arith))
    ∙ append-nil src

-- On spelled-out cells the writes compute, and leave the payload's.
fill-cells :
    (dst : List ℕ) (f : Frame)
    → length (drop 22 dst) ≡ length f.payload
    → fill (cells 0 22 dst) f ≡ header f ++ f.payload
unfolding fill header
fill-cells dst f h = elim (Bool-cases (ltb 0 (length f.payload))) [
  | inl more ↦ rw more (ap (λ t. header f ++ t) (copy_at_all f.payload (drop 22 dst) (sym h)))
  | inr none_left ↦
      rw none_left
        (ap (λ t. header f ++ t) (both_empty (drop 22 dst) f.payload h (ltb→le _ _ none_left)))
]

fill-header :
    (dst : List ℕ) (f : Frame)
    → length dst ≡ 22 + length f.payload
    → fill dst f ≡ header f ++ f.payload
fill-header dst f h =
    ap (λ d. fill d f) (drop-cells 0 22 dst (omega arith))
    ∙ fill-cells dst f (omega (arith, length-drop 22 dst))

-- A frame whose payload fits is the header and the payload, whatever the buffer held and whatever
-- its capacity.
pub encode-header :
    (dst : List ℕ) (f : Frame)
    → length f.payload ≤ max_payload
    → encode dst f ≡ ok (header f ++ f.payload)
unfolding encode
encode-header dst f h = rw (le→ltb _ _ h) (
    ap ok (elim (Bool-cases (ltb (length dst) (22 + length f.payload))) [
      | inl small ↦ rw small (fill-header _ f (length-replicate _ _))
      | inr room ↦ rw room (
          fill-header _ f (omega (arith, length-take (22 + length f.payload) dst, ltb→le _ _ room)))
    ]))

pub encode-too_long :
    (dst : List ℕ) (f : Frame) → max_payload < length f.payload → encode dst f ≡ err too_long
unfolding encode
encode-too_long dst f h = rw (lt→ltb _ _ h)
