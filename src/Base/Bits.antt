-- ===== src/Base/Bits.antt =====
-- The bit operations that the codecs use, as arithmetic: masks of low bits, and `|` of values whose
-- bits lie apart.
use Prim.Native.Nat.{bit_and, bit_or, digits, bit_and-bitwise, bit_or-bitwise, max}
use native.Mathlib.Nat.{pow-suc, mul_assoc, div-div-eq-div-mul, div-add-mod'}
use zbproxy_a.Base.{
  ℕ, zero, suc, ◌+◌, ◌-◌, ◌*◌, ◌/◌, ◌%◌, ◌^◌, ◌≤◌, ◌<◌, ◌≡◌, refl, ◌∙◌, ap, sym, min, arith,
}

-- Two operations by binary digits, with the value at a first operand of 0.
module _ (rest : ℕ → ℕ) (op : ℕ → ℕ → ℕ) where
  -- Room beyond the first operand changes nothing.
  digits_room :
      (x y room spare : ℕ)
      → x ≤ room
      → x ≤ spare
      → digits rest op room x y ≡ digits rest op spare x y
  digits_room zero y zero zero p q = refl
  digits_room zero y zero (suc spare) p q = refl
  digits_room zero y (suc room) zero p q = refl
  digits_room zero y (suc room) (suc spare) p q = refl
  digits_room (suc x) y zero spare p q = absurd (omega arith)
  digits_room (suc x) y (suc room) zero p q = absurd (omega arith)
  digits_room (suc x) y (suc room) (suc spare) p q =
      ap (λ d. d * 2 + op (suc x % 2) (y % 2))
        (digits_room (suc x / 2) (y / 2) room spare (omega arith) (omega arith))

  digits_step :
      (x y : ℕ)
      → digits rest op (suc x) (suc x) y
        ≡ digits rest op (suc x / 2) (suc x / 2) (y / 2) * 2 + op (suc x % 2) (y % 2)
  digits_step x y =
      ap (λ d. d * 2 + op (suc x % 2) (y % 2))
        (digits_room (suc x / 2) (y / 2) x (suc x / 2) (omega arith) (omega arith))

zero-bit_or : (y : ℕ) → bit_or 0 y ≡ y
zero-bit_or y = bit_or-bitwise 0 y

-- The law of the lowest bit.
bit_and_step : (x y : ℕ) → bit_and x y ≡ bit_and (x / 2) (y / 2) * 2 + min (x % 2) (y % 2)
bit_and_step zero y = omega (arith, bit_and-bitwise 0 y, bit_and-bitwise 0 (y / 2))
bit_and_step (suc x) y =
    bit_and-bitwise (suc x) y
    ∙ digits_step (λ _. zero) min x y
    ∙ ap (λ d. d * 2 + min (suc x % 2) (y % 2)) (sym (bit_and-bitwise (suc x / 2) (y / 2)))

bit_or_step : (x y : ℕ) → bit_or x y ≡ bit_or (x / 2) (y / 2) * 2 + max (x % 2) (y % 2)
bit_or_step zero y = omega (arith, zero-bit_or y, zero-bit_or (y / 2))
bit_or_step (suc x) y =
    bit_or-bitwise (suc x) y
    ∙ digits_step (λ z. z) max x y
    ∙ ap (λ d. d * 2 + max (suc x % 2) (y % 2)) (sym (bit_or-bitwise (suc x / 2) (y / 2)))

pow_split : (k b : ℕ) → b * 2 ^ suc k ≡ b * 2 ^ k * 2
pow_split k b = omega (arith, pow-suc 2 k, mul_assoc b (2 ^ k) 2, ap (λ m. b * m) (pow-suc 2 k))

half_split : (k b : ℕ) → b * 2 ^ suc k / 2 ≡ b * 2 ^ k
half_split k b = omega (arith, pow_split k b)

pow_pos : (k : ℕ) → 1 ≤ 2 ^ k
pow_pos zero = omega arith
pow_pos (suc k) = omega (arith, pow_pos k, pow-suc 2 k)

div_step : (k a : ℕ) → a / 2 / 2 ^ k ≡ a / 2 ^ suc k
div_step k a = div-div-eq-div-mul a 2 (2 ^ k) ∙ ap (λ m. a / m) (omega (arith, pow-suc 2 k))

mod_step : (k a : ℕ) → a / 2 % 2 ^ k * 2 + a % 2 ≡ a % 2 ^ suc k
mod_step k a = omega (
  arith,
  div-add-mod' (a / 2) (2 ^ k),
  div-add-mod' a (2 ^ suc k),
  ap (λ m. m * 2 ^ k) (div_step k a),
  pow_split k (a / 2 ^ suc k),
)

mod_split : (k b : ℕ) → b * 2 ^ suc k % 2 ≡ 0
mod_split k b = omega (arith, pow_split k b)

-- Two values whose bits lie apart.
pub bit_or_apart : (k a b : ℕ) → a < 2 ^ k → bit_or a (b * 2 ^ k) ≡ a + b * 2 ^ k
bit_or_apart zero zero b h = zero-bit_or (b * 1) ∙ omega arith
bit_or_apart zero (suc a) b h = absurd (omega arith)
bit_or_apart (suc k) a b h = omega (
  arith,
  bit_or_step a (b * 2 ^ suc k),
  ap (bit_or (a / 2)) (half_split k b),
  mod_split k b,
  pow_split k b,
  bit_or_apart k (a / 2) b (omega (arith, pow-suc 2 k)),
)

bit_and-zero : (room x : ℕ) → x ≤ room → bit_and x 0 ≡ 0
bit_and-zero zero zero p = refl
bit_and-zero (suc room) zero p = refl
bit_and-zero zero (suc x) p = absurd (omega arith)
bit_and-zero (suc room) (suc x) p =
    bit_and_step (suc x) 0
    ∙ ap (λ d. d * 2 + min (suc x % 2) 0) (bit_and-zero room (suc x / 2) (omega arith))
    ∙ omega arith

mask_half : (k : ℕ) → (2 ^ suc k - 1) / 2 ≡ 2 ^ k - 1
mask_half k = omega (arith, pow-suc 2 k)

mask_mod : (k : ℕ) → (2 ^ suc k - 1) % 2 ≡ 1
mask_mod k = omega (arith, pow-suc 2 k, pow_pos k)

-- A mask of the `k` lowest bits.
pub bit_and_low : (k a : ℕ) → bit_and a (2 ^ k - 1) ≡ a % 2 ^ k
bit_and_low zero a = bit_and-zero a a (omega arith) ∙ omega arith
bit_and_low (suc k) a = omega (
  arith,
  bit_and_step a (2 ^ suc k - 1),
  ap (bit_and (a / 2)) (mask_half k),
  mask_mod k,
  bit_and_low k (a / 2),
  mod_step k a,
)

-- A mask that leaves the `k` lowest bits out.
pub bit_and_high : (k a m : ℕ) → bit_and a (m * 2 ^ k) ≡ bit_and (a / 2 ^ k) m * 2 ^ k
bit_and_high zero a m = omega (
  arith,
  ap (bit_and a) {x = m * 1} {y = m} (omega arith),
  ap (λ x. bit_and x m) {x = a / 1} {y = a} (omega arith),
)
bit_and_high (suc k) a m = omega (
  arith,
  bit_and_step a (m * 2 ^ suc k),
  ap (bit_and (a / 2)) (half_split k m),
  mod_split k m,
  pow_split k (bit_and (a / 2 ^ suc k) m),
  bit_and_high k (a / 2) m,
  ap (λ x. bit_and x m * 2 ^ k) (div_step k a),
)
