-- ===== src/Buf/Queue/Methods.antt =====
-- common/buf/buffer.go: what each method does to a buffer whose positions are in order, as what the
-- bounded queue does.
use zbproxy_a.Base.{
  ℕ, zero, suc, ◌+◌, ◌-◌, ◌≤◌, min, List, [], ◌∷◌, ◌++◌, leb, ◌==◌, length, take, drop, ◌≡◌, ◌≢◌,
  refl, ap, ◌∙◌, sym, arith, ==-apart, false, set, copy_at, inl, inr, length-take, length-drop,
  length-copy_at, length-set, le→ltb, lt→ltb, leb→le, leb→lt, drop_all, Bool-cases,
}
use zbproxy_a.Buf.{Buffer, IsValid, write_byte, read, read_byte, peek, unread, put, to, bytes}
use zbproxy_a.Buf.Slices.{
  take_as, drop_as, drop-take, take-take, drop-drop, drop_append_le, take-copy_at, take-set,
  slice_lem, get_elem?-drop,
}
use zbproxy_a.Buf.Queue.{Answer, wrote, gave, Queue, view, outcome, outcome_byte, give, append}

-- A call agrees with the queue's, and leaves the positions in order.
abbrev pub Agrees : Answer × Queue → Answer × Buffer → Type 0
Agrees (a, q) (a1, c) = (a ≡ a1) × (q.contents ≡ unread c) × (q.room ≡ c.size - c.end) × IsValid c

take-min : (r : ℕ) (xs : List ℕ) → take (min (length xs) r) xs ≡ take r xs
take-min zero [] = refl
take-min zero (x ∷ xs) = take_as {n = 0} (omega arith) (x ∷ xs)
take-min (suc r) [] = take_as {n = 0} (omega arith) []
take-min (suc r) (x ∷ xs) =
    take_as {n = suc (min (length xs) r)} (omega arith) (x ∷ xs) ∙ ap (◌∷◌ x) (take-min r xs)

pub length-unread : (b : Buffer) → IsValid b → length (unread b) ≡ b.end - b.start
length-unread b (p, q, r) =
    omega (arith, length-drop b.start (take b.end b.content), length-take b.end b.content, p, q, r)

-- A copy of `n` bytes behind the unread ones.
pub copied :
    (s e n : ℕ) (src c : List ℕ)
    → s ≤ e
    → e + n ≤ length c
    → n ≡ length src
    → drop s (take e c) ++ src ≡ drop s (take (e + n) (copy_at e src c))
copied s e n src c p q h = sym (
    ap (drop s) (
      take_as {n = e + length src} (omega arith) (copy_at e src c)
      ∙ take-copy_at e src c (omega arith))
    ∙ drop_append_le s (take e c) src (omega (arith, length-take e c)))

pub put_lem :
    (bs : List ℕ) (b : Buffer)
    → IsValid b
    → Agrees (append (take (b.size - b.end) bs) (view b)) (outcome wrote b (put bs b))
unfolding put append outcome
put_lem bs b (p, q, r) =
    let room = b.size - b.end in
    let n = min (length bs) room in
    rw (le→ltb b.size b.end q) (
      ap wrote (omega (arith, length-take room bs)),
      ap (◌++◌ (unread b)) (sym (take-min room bs))
          ∙ copied b.start b.end n (take n bs) b.content p (omega arith)
              (omega (arith, length-take n bs)),
      omega (arith, length-take room bs),
      (omega (arith, p), omega arith, omega (arith, length-copy_at b.end (take n bs) b.content)),
    )

pub write_byte_lem :
    (d : ℕ) (b : Buffer)
    → IsValid b
    → b.size - b.end ≢ 0
    → Agrees (append (d ∷ []) (view b)) (outcome_byte b (write_byte d b))
unfolding write_byte append outcome_byte
write_byte_lem d b (p, q, r) h =
    rw (==-apart b.end b.size (λ e. h (omega arith)), lt→ltb b.end b.size (omega (arith, h)))
      (
        refl,
        sym (
            ap (drop b.start) (
              take_as {n = suc b.end} (omega arith) (set b.content b.end d)
              ∙ take-set b.end d b.content (omega (arith, h)))
            ∙ drop_append_le b.start (take b.end b.content) (d ∷ [])
                (omega (arith, length-take b.end b.content))),
        omega arith,
        (omega arith, omega (arith, h), omega (arith, length-set b.content b.end d)),
      )

apart : (b : Buffer) → IsValid b → length (unread b) ≢ 0 → (b.end == b.start) ≡ false
apart b v h = ==-apart b.end b.start (λ e. h (omega (arith, length-unread b v)))

given :
    (b : Buffer) (n k : ℕ)
    → IsValid b
    → k ≡ min n (length (unread b))
    → (drop n (unread b) ≡ drop (b.start + k) (take b.end b.content)) × (b.start + k ≤ b.end)
given b n k (p, q, r) e = (
  elim (Bool-cases (leb n (length (unread b)))) [
    | inl x ↦
        drop-drop b.start n (take b.end b.content)
        ∙ drop_as (omega (arith, leb→le n (length (unread b)) x)) (take b.end b.content)
    | inr x ↦
        drop_all n (unread b) (omega (arith, leb→lt n (length (unread b)) x))
        ∙ sym (
            drop_all (b.start + k) (take b.end b.content) (
              omega (
                arith,
                length-unread b (p, q, r),
                leb→lt n (length (unread b)) x,
                length-take b.end b.content,
              )))
  ],
  omega (arith, length-unread b (p, q, r)),
)

pub read_lem :
    (n : ℕ) (b : Buffer)
    → IsValid b
    → length (unread b) ≢ 0
    → Agrees (give n (view b)) (outcome gave b (read n b))
unfolding read bytes give outcome
read_lem n b (p, q, r) h =
    let g = given b n (min n (length (unread b))) (p, q, r) refl in
    rw (apart b (p, q, r) h, slice_lem b.content b.start b.end p (omega arith))
      (refl, g.0, refl, (g.1, q, r))

pub read_byte_lem :
    (b : Buffer)
    → IsValid b
    → length (unread b) ≢ 0
    → Agrees (give 1 (view b)) (outcome (λ x. gave (x ∷ [])) b (read_byte b))
unfolding read_byte give outcome
read_byte_lem b (p, q, r) h =
    let (x, e, f) =
      get_elem?-drop b.start b.end b.content (omega (arith, length-unread b (p, q, r), h))
        (omega arith) in
    rw (apart b (p, q, r) h, lt→ltb b.start b.size (omega (arith, length-unread b (p, q, r), h)), e)
      (
        ap (λ xs. gave (take 1 xs)) f,
        drop-drop b.start 1 (take b.end b.content),
        refl,
        (omega (arith, length-unread b (p, q, r), h), q, r),
      )

pub peek_lem :
    (n : ℕ) (b : Buffer)
    → IsValid b
    → n ≤ length (unread b)
    → Agrees (give n (view b)) (outcome gave b (peek n b))
unfolding peek to give outcome
peek_lem n b (p, q, r) h =
    rw
      (
        le→ltb b.end (b.start + n) (omega (arith, length-unread b (p, q, r))),
        slice_lem b.content b.start (b.start + n) (omega arith)
            (omega (arith, length-unread b (p, q, r))),
      )
      (
        ap gave (
            ap (take n) (drop-take b.start b.end b.content)
            ∙ take-take n (b.end - b.start) (drop b.start b.content)
                (omega (arith, length-unread b (p, q, r)))
            ∙ take_as (omega arith) (drop b.start b.content)
            ∙ sym (drop-take b.start (b.start + n) b.content)),
        drop-drop b.start n (take b.end b.content),
        refl,
        (omega (arith, length-unread b (p, q, r)), q, r),
      )
