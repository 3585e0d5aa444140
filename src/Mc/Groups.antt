-- ===== src/Mc/Groups.antt =====
-- common/mcprotocol/varint.go: the arithmetic of the loop of `ReadVarIntFrom`: a group of 7 bits and its
-- place in the value.
use zbproxy_a.Base.{
  ℕ, suc, ◌+◌, ◌*◌, ◌/◌, ◌%◌, ◌^◌, ◌<◌, true, false, ◌==◌, ◌≡◌, ap, ◌∙◌, arith, eq→==, ==-apart,
}
use zbproxy_a.Base.Bits.{bit_or_apart, bit_and_low, bit_and_high}
use native.Mathlib.Nat.{pow-suc, mul-le-mul_right, mod-eq_of_lt}
use Prim.Native.Nat.{bit_and, bit_or}

-- One step of the loop, on a byte that is not the last and on the last.
pub more : (x : ℕ) → x < 128 → (bit_and (x + 128) 127 ≡ x) × ((bit_and (x + 128) 128 == 0) ≡ false)
more x h = (
  bit_and_low 7 (x + 128) ∙ omega arith,
  ==-apart (bit_and (x + 128) 128) 0
      (λ e. absurd (omega (arith, e, bit_and_high 7 (x + 128) 1, bit_and_low 1 ((x + 128) / 128)))),
)

pub last : (x : ℕ) → x < 128 → (bit_and x 127 ≡ x) × ((bit_and x 128 == 0) ≡ true)
last x h = (
  bit_and_low 7 x ∙ omega arith,
  eq→== (bit_and x 128) 0 (omega (arith, bit_and_high 7 x 1, bit_and_low 1 (x / 128))),
)

pub merge :
    (n v x : ℕ)
    → v < 2 ^ (7 * n)
    → v + x * 2 ^ (7 * n) < 2 ^ 32
    → bit_or v (x * 2 ^ (7 * n) % 2 ^ 32) ≡ v + x * 2 ^ (7 * n)
merge n v x p q = ap (bit_or v) (mod-eq_of_lt (omega arith)) ∙ bit_or_apart (7 * n) v x p

-- The value after a byte of value `x` in its low bits.
abbrev pub merged : ℕ → ℕ → ℕ → ℕ
merged n v x = bit_or v (bit_and x 127 * 2 ^ (7 * n) % 2 ^ 32)

-- The place of the next group, and the value split at its 7 bits.
pub pow_next_suc : (n : ℕ) → 2 ^ (7 * suc n) ≡ 128 * 2 ^ (7 * n)
pow_next_suc n =
    let m = 7 * n in
    ap (λ i. 2 ^ i) {y = suc (suc (suc (suc (suc (suc (suc m))))))} (omega arith)
    ∙ omega (
      arith,
      pow-suc 2 m,
      pow-suc 2 (suc m),
      pow-suc 2 (suc (suc m)),
      pow-suc 2 (suc (suc (suc m))),
      pow-suc 2 (suc (suc (suc (suc m)))),
      pow-suc 2 (suc (suc (suc (suc (suc m))))),
      pow-suc 2 (suc (suc (suc (suc (suc (suc m)))))),
    )

pub pow_next : (n : ℕ) → 2 ^ (7 * (n + 1)) ≡ 128 * 2 ^ (7 * n)
pow_next n = ap (λ m. 2 ^ (7 * m)) {x = n + 1} {y = suc n} (omega arith) ∙ pow_next_suc n

pub below : (n v x : ℕ) → v < 2 ^ (7 * n) → x < 128 → v + x * 2 ^ (7 * n) < 2 ^ (7 * (n + 1))
below n v x p q =
    omega (arith, pow_next n, mul-le-mul_right {m = x + 1} {n = 128} (2 ^ (7 * n)) (omega arith))

pub split : (a n : ℕ) → a * 2 ^ (7 * n) ≡ a % 128 * 2 ^ (7 * n) + a / 128 * 2 ^ (7 * (n + 1))
split a n = omega (
  arith,
  pow_next n,
  ap (λ x. x * 2 ^ (7 * n)) {x = a} {y = a % 128 + 128 * (a / 128)} (omega arith),
  ap (λ x. a / 128 * x) (pow_next n),
)
