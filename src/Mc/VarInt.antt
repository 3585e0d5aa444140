-- ===== src/Mc/VarInt.antt =====
-- common/mcprotocol/varint.go: the branches of `PutVarInt` against the encoding by groups of 7 bits.
use zbproxy_a.Base.{
  ℕ, zero, suc, ◌+◌, ◌-◌, ◌*◌, ◌/◌, ◌%◌, ◌^◌, ◌<◌, ◌≤◌, List, [], ◌∷◌, ◌++◌, ltb, ◌==◌,
  if◌then◌else◌, ◌≡◌, ap, ap₂, ◌∙◌, sym, arith, lt→ltb, le→ltb, Bool-cases, inl, inr, ltb→lt,
  ltb→le,
}
use zbproxy_a.Base.Bits.{bit_or_apart, bit_and_low, bit_and_high}
use zbproxy_a.Base.Bytes.{put_le}
use native.Mathlib.Nat.{mod-eq_of_lt}
use Prim.Native.Nat.{bit_and, bit_or}
use zbproxy_a.Mc.{group, var_int_bytes}

-- The encoding: 7 bits to a byte, the lowest first, with the top bit set on each but the last.
unfoldable pub groups : ℕ → ℕ → List ℕ
groups zero v = v ∷ []
groups (suc k) v =
    let rest = groups k (v / 128) in if ltb v 128 then v ∷ [] else (v % 128 + 128) ∷ rest

pub group_eq : (num s : ℕ) → group num s ≡ num / 2 ^ s % 128 + 128
group_eq num s =
    ap (λ x. bit_or x 128) (bit_and_low 7 (num / 2 ^ s))
    ∙ bit_or_apart 7 (num / 2 ^ s % 128) 1 (omega arith)

mask_eq : (j k a : ℕ) → a / 2 ^ k < 2 ^ j → bit_and a ((2 ^ j - 1) * 2 ^ k) ≡ a / 2 ^ k * 2 ^ k
mask_eq j k a h =
    bit_and_high k a (2 ^ j - 1)
    ∙ ap (λ x. x * 2 ^ k) (bit_and_low j (a / 2 ^ k) ∙ omega (arith, h, mod-eq_of_lt h))

test7 : (a : ℕ) → a < 2 ^ 32 → (bit_and a 4294967168 == 0) ≡ ltb a (2 ^ 7)
test7 a h = rw (mask_eq 25 7 a (omega arith)) ground arith

test14 : (a : ℕ) → a < 2 ^ 32 → (bit_and a 4294950912 == 0) ≡ ltb a (2 ^ 14)
test14 a h = rw (mask_eq 18 14 a (omega arith)) ground arith

test21 : (a : ℕ) → a < 2 ^ 32 → (bit_and a 4292870144 == 0) ≡ ltb a (2 ^ 21)
test21 a h = rw (mask_eq 11 21 a (omega arith)) ground arith

test28 : (a : ℕ) → a < 2 ^ 32 → (bit_and a 4026531840 == 0) ≡ ltb a (2 ^ 28)
test28 a h = rw (mask_eq 4 28 a (omega arith)) ground arith

word1 : (a : ℕ) → bit_or (group a 0) (a / 2 ^ 7 * 2 ^ 8) ≡ a % 128 + 128 + a / 128 * 256
word1 a =
    ap (λ x. bit_or x (a / 2 ^ 7 * 2 ^ 8)) (group_eq a 0)
    ∙ ap (λ x. bit_or (x % 128 + 128) (a / 2 ^ 7 * 2 ^ 8)) {y = a} (omega arith)
    ∙ bit_or_apart 8 (a % 128 + 128) (a / 128) (omega arith)

word2 :
    (a : ℕ) → bit_or (group a 0) (group a 7 * 2 ^ 8) ≡ a % 128 + 128 + (a / 128 % 128 + 128) * 256
word2 a =
    ap₂ (λ x y. bit_or x (y * 2 ^ 8)) (group_eq a 0 ∙ omega arith) (group_eq a 7)
    ∙ bit_or_apart 8 (a % 128 + 128) (a / 128 % 128 + 128) (omega arith)

word3 :
    (a : ℕ)
    → bit_or (bit_or (group a 0) (group a 7 * 2 ^ 8)) (group a 14 * 2 ^ 16)
      ≡ a % 128 + 128 + (a / 128 % 128 + 128) * 256 + (a / 16384 % 128 + 128) * 65536
word3 a =
    ap₂ (λ x y. bit_or x (y * 2 ^ 16)) (word2 a) (group_eq a 14)
    ∙ bit_or_apart 16 (a % 128 + 128 + (a / 128 % 128 + 128) * 256) (a / 16384 % 128 + 128)
        (omega arith)

word_top : (z : ℕ) → z < 256 → z * 2 ^ 24 % 2 ^ 32 ≡ z * 2 ^ 24
word_top z h = omega arith

word4 :
    (a z : ℕ)
    → z < 256
    → bit_or
        (bit_or (bit_or (group a 0) (group a 7 * 2 ^ 8)) (group a 14 * 2 ^ 16))
        (z * 2 ^ 24 % 2 ^ 32)
      ≡ a % 128 + 128 + (a / 128 % 128 + 128) * 256 + (a / 16384 % 128 + 128) * 65536 + z * 16777216
word4 a z h =
    ap₂ bit_or (word3 a) (word_top z h)
    ∙ bit_or_apart 24
        (a % 128 + 128 + (a / 128 % 128 + 128) * 256 + (a / 16384 % 128 + 128) * 65536) z
        (omega arith)

le2 : (w x y : ℕ) → x < 256 → y < 256 → w ≡ x + y * 256 → put_le 2 w ≡ x ∷ (y ∷ [])
le2 w x y p q e = ap₂ (λ a b. a ∷ (b ∷ [])) (omega arith) (omega arith)

le4 :
    (w x y z u : ℕ)
    → x < 256
    → y < 256
    → z < 256
    → u < 256
    → w ≡ x + y * 256 + z * 65536 + u * 16777216
    → put_le 4 w ≡ x ∷ (y ∷ (z ∷ (u ∷ [])))
le4 w x y z u p q r s e = ap₂ (◌∷◌) {x = w % 256} {y = x} (omega arith) (
    ap₂ (◌∷◌) {x = w / 256 % 256} {y = y} (omega arith) (le2 (w / 256 / 256) z u r s (omega arith)))

-- The bytes of each branch.
bytes1 : (a : ℕ) → a < 2 ^ 7 → groups 4 a ≡ (a % 256) ∷ []
unfolding groups
bytes1 a h = rw (lt→ltb a 128 h) (ap (λ x. x ∷ []) {x = a} {y = a % 256} (omega arith))

bytes2 :
    (a : ℕ)
    → 2 ^ 7 ≤ a
    → a < 2 ^ 14
    → put_le 2 (bit_or (group a 0) (a / 2 ^ 7 * 2 ^ 8) % 2 ^ 16) ≡ groups 4 a
unfolding groups
bytes2 a p q =
    rw (le→ltb a 128 p, lt→ltb (a / 128) 128 (omega arith))
      (le2 (bit_or (group a 0) (a / 2 ^ 7 * 2 ^ 8) % 2 ^ 16) (a % 128 + 128) (a / 128) (omega arith)
        (omega arith) (omega (arith, word1 a)))

bytes3 :
    (a : ℕ)
    → 2 ^ 14 ≤ a
    → a < 2 ^ 21
    → put_le 2 (bit_or (group a 0) (group a 7 * 2 ^ 8) % 2 ^ 16) ++ ((a / 2 ^ 14 % 256) ∷ [])
      ≡ groups 4 a
unfolding groups
bytes3 a p q =
    rw
      (
        le→ltb a 128 (omega arith),
        le→ltb (a / 128) 128 (omega arith),
        lt→ltb (a / 128 / 128) 128 (omega arith),
      )
      (ap₂ (◌++◌)
        (le2 (bit_or (group a 0) (group a 7 * 2 ^ 8) % 2 ^ 16) (a % 128 + 128) (a / 128 % 128 + 128)
          (omega arith) (omega arith) (omega (arith, word2 a)))
        (ap (λ x. x ∷ []) {x = a / 16384 % 256} {y = a / 128 / 128} (omega arith)))

unfoldable word : ℕ → ℕ → ℕ
word a z =
    bit_or (bit_or (bit_or (group a 0) (group a 7 * 2 ^ 8)) (group a 14 * 2 ^ 16))
      (z * 2 ^ 24 % 2 ^ 32)

bytes4 : (a : ℕ) → 2 ^ 21 ≤ a → a < 2 ^ 28 → put_le 4 (word a (a / 2 ^ 21)) ≡ groups 4 a
unfolding groups word
bytes4 a p q =
    rw
      (
        le→ltb a 128 (omega arith),
        le→ltb (a / 128) 128 (omega arith),
        le→ltb (a / 128 / 128) 128 (omega arith),
        lt→ltb (a / 128 / 128 / 128) 128 (omega arith),
      )
      (le4 (word a (a / 2 ^ 21)) (a % 128 + 128) (a / 128 % 128 + 128) (a / 16384 % 128 + 128)
          (a / 2097152) (omega arith) (omega arith) (omega arith) (omega arith)
          (word4 a (a / 2 ^ 21) (omega arith))
        ∙ ap₂ (λ x y. (a % 128 + 128) ∷ ((a / 128 % 128 + 128) ∷ (x ∷ (y ∷ [])))) (omega arith)
            (omega arith))

bytes5 :
    (a : ℕ)
    → 2 ^ 28 ≤ a
    → a < 2 ^ 32
    → put_le 4 (word a (group a 21)) ++ ((a / 2 ^ 28 % 256) ∷ []) ≡ groups 4 a
unfolding groups word
bytes5 a p q =
    rw
      (
        le→ltb a 128 (omega arith),
        le→ltb (a / 128) 128 (omega arith),
        le→ltb (a / 128 / 128) 128 (omega arith),
        le→ltb (a / 128 / 128 / 128) 128 (omega arith),
      )
      (ap₂ (◌++◌)
          (le4 (word a (group a 21)) (a % 128 + 128) (a / 128 % 128 + 128) (a / 16384 % 128 + 128)
            (a / 2097152 % 128 + 128) (omega arith) (omega arith) (omega arith) (omega arith)
            (word4 a (group a 21) (omega (arith, group_eq a 21)) ∙ omega (arith, group_eq a 21)))
          (ap (λ x. x ∷ []) {x = a / 268435456 % 256} {y = a / 128 / 128 / 128 / 128} (omega arith))
        ∙ ap₂
            (λ x y.
              (a % 128 + 128)
              ∷ ((a / 128 % 128 + 128) ∷ (x ∷ (y ∷ ((a / 128 / 128 / 128 / 128) ∷ [])))))
            (omega arith) (omega arith))

-- `PutVarInt`, which writes its bytes by masks and shifts of whole words, writes each 32-bit number as
-- its groups of 7 bits, the lowest first.
pub var_int_bytes-groups : (a : ℕ) → a < 2 ^ 32 → var_int_bytes a ≡ groups 4 a
unfolding var_int_bytes word
var_int_bytes-groups a h = elim (Bool-cases (ltb a (2 ^ 7))) [
  | inl e ↦ rw (test7 a h, e) (sym (bytes1 a (ltb→lt a (2 ^ 7) e)))
  | inr e ↦ elim (Bool-cases (ltb a (2 ^ 14))) [
    | inl f ↦ rw (test7 a h, e, test14 a h, f) (bytes2 a (ltb→le a (2 ^ 7) e) (ltb→lt a (2 ^ 14) f))
    | inr f ↦ elim (Bool-cases (ltb a (2 ^ 21))) [
      | inl g ↦
          rw (test7 a h, e, test14 a h, f, test21 a h, g)
            (bytes3 a (ltb→le a (2 ^ 14) f) (ltb→lt a (2 ^ 21) g))
      | inr g ↦ elim (Bool-cases (ltb a (2 ^ 28))) [
        | inl i ↦
            rw (test7 a h, e, test14 a h, f, test21 a h, g, test28 a h, i)
              (bytes4 a (ltb→le a (2 ^ 21) g) (ltb→lt a (2 ^ 28) i))
        | inr i ↦
            rw (test7 a h, e, test14 a h, f, test21 a h, g, test28 a h, i)
              (bytes5 a (ltb→le a (2 ^ 28) i) h)
      ]
    ]
  ]
]
