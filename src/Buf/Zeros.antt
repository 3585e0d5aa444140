-- ===== src/Buf/Zeros.antt =====
-- common/buf/buffer.go: `WriteZeroN`, whose loop runs while `i <= b.end+n`.
use zbproxy_a.Base.{
  ℕ, zero, suc, ◌+◌, ◌≤◌, ◌<◌, List, [], ◌∷◌, ltb, ◌≡◌, refl, ap, ◌∙◌, sym, arith, set, copy_at,
  replicate, lt→ltb, ltb→lt, ltb→le, Bool-cases, ◌⊎◌, inl, inr,
}
use zbproxy_a.Buf.{short_buffer, ok, err, panic, Buffer, zero_from, write_zero_n}

copy_at-set :
    (i x : ℕ) (src xs : List ℕ) → copy_at (suc i) src (set xs i x) ≡ copy_at i (x ∷ src) xs
copy_at-set zero x src [] = refl
copy_at-set zero x src (y ∷ xs) = refl
copy_at-set (suc i) x src [] = refl
copy_at-set (suc i) x src (y ∷ xs) = ap (◌∷◌ y) (copy_at-set i x src xs)

copy_at_none : (i : ℕ) (xs : List ℕ) → copy_at i [] xs ≡ xs
copy_at_none zero xs = refl
copy_at_none (suc i) [] = refl
copy_at_none (suc i) (x ∷ xs) = ap (◌∷◌ x) (copy_at_none i xs)

zero_from-fits :
    (k i size : ℕ) (xs : List ℕ)
    → i + k ≤ size
    → zero_from k i size xs ≡ ok (copy_at i (replicate k 0) xs)
unfolding zero_from
zero_from-fits zero i size xs h = ap ok (sym (copy_at_none i xs))
zero_from-fits (suc k) i size xs h =
    rw (zero_from, lt→ltb i size (omega arith))
      (zero_from-fits k (i + 1) size (set xs i 0) (omega arith)
        ∙ ap ok (
            ap (λ j. copy_at j (replicate k 0) (set xs i 0)) {x = i + 1} {y = suc i} (omega arith)
            ∙ copy_at-set i 0 (replicate k 0) xs))

zero_from-panics :
    (k i size : ℕ) (xs : List ℕ) → i ≤ size → size < i + k → zero_from k i size xs ≡ panic
unfolding zero_from
zero_from-panics zero i size xs p h = absurd (omega arith)
zero_from-panics (suc k) i size xs p h = elim (Bool-cases (ltb i size)) [
  | inl e ↦
      rw (zero_from, e)
        (zero_from-panics k (i + 1) size (set xs i 0) (omega (arith, ltb→lt i size e))
          (omega arith))
  | inr e ↦ rw (zero_from, e) refl
]

-- For a buffer that ends within its slice, the outcome of WriteZeroN(n): an error where the room is
-- less than n bytes, a panic where it is just n bytes, and else n + 1 zeros behind the unread bytes,
-- of which the end counts n.
pub write_zero_n_lem :
    (n : ℕ) (b : Buffer)
    → b.end ≤ b.size
    → ((b.size < b.end + n) × (write_zero_n n b ≡ err short_buffer))
      ⊎ ((b.end + n ≡ b.size) × (write_zero_n n b ≡ panic))
      ⊎ ((b.end + n < b.size)
          × (write_zero_n n b
              ≡ ok (record b {
                content = copy_at b.end (replicate (suc n) 0) b.content;
                end = b.end + n;
              })))
unfolding write_zero_n
write_zero_n_lem n b h = elim (Bool-cases (ltb b.size (b.end + n))) [
  | inl e ↦ inl (ltb→lt b.size (b.end + n) e, rw e refl)
  | inr e ↦ elim (Bool-cases (ltb (b.end + n) b.size)) [
    | inl f ↦ inr (
        inr (
          ltb→lt (b.end + n) b.size f,
          rw
              (
                e,
                zero_from-fits (suc n) b.end b.size b.content
                    (omega (arith, ltb→lt (b.end + n) b.size f)),
              )
              refl,
        ))
    | inr f ↦ inr (
        inl (
          omega (arith, ltb→le b.size (b.end + n) e, ltb→le (b.end + n) b.size f),
          rw
              (
                e,
                zero_from-panics (suc n) b.end b.size b.content h
                    (omega (arith, ltb→le (b.end + n) b.size f)),
              )
              refl,
        ))
  ]
]
