-- ===== src/Buf/Pool/Classes.antt =====
-- common/buf/alloc.go: a buffer's class fits it, and is the class it is given back to.
use zbproxy_a.Base.{
  ℕ, zero, suc, ◌+◌, ◌-◌, ◌*◌, ◌/◌, ◌%◌, ◌^◌, ◌≤◌, ◌<◌, ltb, ◌==◌, if◌then◌else◌, ◌≡◌, refl, ap,
  ◌∙◌, sym, arith, Bool-cases, inl, inr, ==→eq, ==→ne, false, leb, leb→le, leb→lt, ltb→lt, ltb→le,
  ◌⊎◌, ==_refl, ==-apart, lt→ltb, le→ltb,
}
use native.Mathlib.Nat.{pow-suc, mod-eq_of_lt, pow-le-pow_right, one-le-pow}
use zbproxy_a.Buf.Pool.{len32, msb, get_at, put_back_at, get, got, put_back, stored}

len32-zero : (fuel : ℕ) → len32 fuel 0 ≡ 0
unfolding len32
len32-zero zero = refl
len32-zero (suc fuel) = refl

-- The number of digits is one above the place of the highest.
len32_lem :
    (fuel n : ℕ)
    → 0 < n
    → n < 2 ^ fuel
    → (m : ℕ) × (len32 fuel n ≡ suc m) × (2 ^ m ≤ n) × (n < 2 ^ suc m) × (m < fuel)
unfolding len32
len32_lem zero n p q = absurd (omega arith)
len32_lem (suc fuel) zero p q = absurd (omega arith)
len32_lem (suc fuel) (suc zero) p q =
    (0, ap suc (len32-zero fuel), omega arith, omega arith, omega arith)
len32_lem (suc fuel) (suc (suc n)) p q =
    let half = suc (suc n) / 2 in
    let (m, e, low, high, small) =
      len32_lem fuel half (omega arith) (omega (arith, pow-suc 2 fuel)) in
    let more : (suc (suc n) == 0) ≡ false = ground arith in
    (
      suc m,
      rw more (ap suc e),
      omega (arith, pow-suc 2 m),
      omega (arith, pow-suc 2 (suc m)),
      omega arith,
    )

msb_lem : (n : ℕ) → 0 < n → n < 2 ^ 32 → (2 ^ msb n ≤ n) × (n < 2 ^ suc (msb n)) × (msb n < 32)
unfolding msb
msb_lem n p q =
    let (m, e, low, high, small) = len32_lem 32 n p q in
    let at : msb n ≡ m =
      omega (arith, ap (λ x. (len32 32 x + 2 ^ 16 - 1) % 2 ^ 16) (mod-eq_of_lt q), e) in
    rw at (low, high, small)

-- Powers of two keep their order.
pow_le : (k m : ℕ) → 2 ^ k ≤ 2 ^ m → k ≤ m
pow_le k m h = elim (Bool-cases (leb k m)) [
  | inl e ↦ leb→le k m e
  | inr e ↦ absurd (
      omega (
        arith,
        pow-le-pow_right {n = 2} (omega arith) {i = suc m} {j = k} (leb→lt k m e),
        pow-suc 2 m,
        one-le-pow m 2 (omega arith),
      ))
]

pow_lt : (k m : ℕ) → 2 ^ k < 2 ^ m → k < m
pow_lt k m h = elim (Bool-cases (ltb k m)) [
  | inl e ↦ ltb→lt k m e
  | inr e ↦
      absurd (omega (arith, pow-le-pow_right {n = 2} (omega arith) {i = m} {j = k} (ltb→le k m e)))
]

msb-pow : (k : ℕ) → k < 32 → msb (2 ^ k) ≡ k
msb-pow k h =
    let (low, high, small) = msb_lem (2 ^ k) (one-le-pow k 2 (omega arith)) (pow_below k h) in
    omega (arith, pow_le (msb (2 ^ k)) k low, pow_lt k (suc (msb (2 ^ k))) high)
  where
    pow_below : (k : ℕ) → k < 32 → 2 ^ k < 2 ^ 32
    pow_below k h = omega (
      arith,
      pow-le-pow_right {n = 2} (omega arith) {i = suc k} {j = 32} h,
      pow-suc 2 k,
      one-le-pow k 2 (omega arith),
    )

put_back-pow : (i : ℕ) → i ≤ 10 → put_back (2 ^ (i + 6)) ≡ stored i
unfolding put_back put_back_at
put_back-pow i h =
    let below : 2 ^ (i + 6) ≤ 65536 =
      pow-le-pow_right {n = 2} (omega arith) {i = i + 6} {j = 16} (omega arith) in
    let some : 1 ≤ 2 ^ (i + 6) = one-le-pow (i + 6) 2 (omega arith) in
    rw
      (
        msb-pow (i + 6) (omega arith),
        ==-apart (2 ^ (i + 6)) 0 (λ e. absurd (omega (arith, some, e))),
        le→ltb 65536 (2 ^ (i + 6)) below,
        ==_refl (2 ^ (i + 6)),
        le→ltb 10 ((i + 6 + 2 ^ 16 - 6) % 2 ^ 16) (omega arith),
      )
      (ap stored (omega arith))

-- Above 64 bytes, with the index that the highest bit gives.
get_at_lem :
    (size m i : ℕ)
    → 64 < size
    → size ≤ 65536
    → (if size == 2 ^ m then m else m + 1) ≡ i + 6
    → i ≤ 10
    → get_at m size ≡ got i
unfolding get_at
get_at_lem size m i p q e h =
    rw
      (
        ==-apart size 0 (λ z. absurd (omega (arith, p, z))),
        le→ltb 65536 size q,
        lt→ltb 64 size p,
        e,
        le→ltb 10 (i + 6 - 6) (omega arith),
      )
      (ap got (omega arith))

-- For a size from 1 to 65536 Get has a class, and no panic: its capacity holds the size and, above
-- 64 bytes, is less than twice the size, and Put of a slice of this capacity stores it in the class
-- that it came from.
pub get-put_back :
    (size : ℕ)
    → 0 < size
    → size ≤ 65536
    → (i : ℕ) × (get size ≡ got i)
      × (size ≤ 2 ^ (i + 6))
      × ((2 ^ (i + 6) < 2 * size) ⊎ (size ≤ 64))
      × (put_back (2 ^ (i + 6)) ≡ stored i)
unfolding get get_at
get-put_back size p q = elim (Bool-cases (ltb 64 size)) [
  | inr e ↦ (
    0,
    rw (get_at, ==-apart size 0 (λ z. absurd (omega (arith, p, z))), le→ltb 65536 size q, e) refl,
    ltb→le 64 size e,
    inr (ltb→le 64 size e),
    put_back-pow 0 (omega arith),
  )
  | inl e ↦ large (ltb→lt 64 size e)
]
  where
    large :
        64 < size
        → (i : ℕ) × (get size ≡ got i)
          × (size ≤ 2 ^ (i + 6))
          × ((2 ^ (i + 6) < 2 * size) ⊎ (size ≤ 64))
          × (put_back (2 ^ (i + 6)) ≡ stored i)
    large l =
        let m = msb size in
        let (low, high, small) = msb_lem size p (omega arith) in
        let six : 6 < suc m = pow_lt 6 (suc m) (omega (arith, high)) in
        let top : m ≤ 16 = pow_le m 16 (omega arith) in
        elim (Bool-cases (size == 2 ^ m)) [
          | inl e ↦
              let at : m - 6 + 6 ≡ m = omega (arith, six) in
              let cap : 2 ^ (m - 6 + 6) ≡ size = ap (λ k. 2 ^ k) at ∙ sym (==→eq size (2 ^ m) e) in
              (
                m - 6,
                get_at_lem size m (m - 6) l q (rw e (sym at)) (omega (arith, top)),
                omega (arith, cap),
                inl (omega (arith, cap, l)),
                put_back-pow (m - 6) (omega (arith, top)),
              )
          | inr e ↦
              let five : m < 16 = pow_lt m 16 (omega (arith, low, q, ==→ne size (2 ^ m) e)) in
              let at : m - 5 + 6 ≡ m + 1 = omega (arith, six) in
              let cap : 2 ^ (m - 5 + 6) ≡ 2 ^ m * 2 =
                ap (λ k. 2 ^ k) {x = m - 5 + 6} {y = suc m} (omega (arith, at)) ∙ pow-suc 2 m in
              (
                m - 5,
                get_at_lem size m (m - 5) l q (rw e (sym at)) (omega (arith, five)),
                omega (arith, cap, high, pow-suc 2 m),
                inl (omega (arith, cap, low, ==→ne size (2 ^ m) e)),
                put_back-pow (m - 5) (omega (arith, five)),
              )
        ]
