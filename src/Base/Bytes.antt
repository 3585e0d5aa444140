-- ===== src/Base/Bytes.antt =====
-- Go's `encoding/binary`: fixed-width integers in little and big endian order.
use zbproxy_a.Base.{
  ℕ, zero, suc, ◌+◌, ◌*◌, ◌/◌, ◌%◌, ◌^◌, ◌<◌, ◌≡◌, refl, ap, List, [], ◌∷◌, ◌++◌, arith, length,
  All, length-append,
}

abbrev pub IsByte : ℕ → Type 0
IsByte b = b < 256

-- `binary.LittleEndian.PutUint{8n}`
abbrev pub put_le : ℕ → ℕ → List ℕ
put_le zero v = []
put_le (suc n) v = (v % 256) ∷ put_le n (v / 256)

-- `binary.LittleEndian.Uint{8n}`
abbrev pub uint_le : List ℕ → ℕ
uint_le [] = 0
uint_le (b ∷ bs) = b + 256 * uint_le bs

-- `binary.BigEndian.PutUint{8n}`
abbrev pub put_be : ℕ → ℕ → List ℕ
put_be zero v = []
put_be (suc n) v = put_be n (v / 256) ++ ((v % 256) ∷ [])

-- `binary.BigEndian.Uint{8n}`, from the value of the bytes read before
abbrev pub uint_be_from : ℕ → List ℕ → ℕ
uint_be_from acc [] = acc
uint_be_from acc (b ∷ bs) = uint_be_from (acc * 256 + b) bs

abbrev pub uint_be : List ℕ → ℕ
uint_be = uint_be_from 0

pub length-put_le : (n v : ℕ) → length (put_le n v) ≡ n
length-put_le zero v = refl
length-put_le (suc n) v = ap suc (length-put_le n (v / 256))

pub length-put_be : (n v : ℕ) → length (put_be n v) ≡ n
length-put_be zero v = refl
length-put_be (suc n) v =
    omega (arith, length-append (put_be n (v / 256)) ((v % 256) ∷ []), length-put_be n (v / 256))

div_below : (v n : ℕ) → v < 256 ^ suc n → v / 256 < 256 ^ n
div_below v n h = omega arith

pub uint_le-put_le : (n v : ℕ) → v < 256 ^ n → uint_le (put_le n v) ≡ v
uint_le-put_le zero v h = omega arith
uint_le-put_le (suc n) v h = omega (arith, uint_le-put_le n (v / 256) (div_below v n h))

pub put_le-IsByte : (n v : ℕ) → All IsByte (put_le n v)
put_le-IsByte zero v = tt
put_le-IsByte (suc n) v = (omega arith, put_le-IsByte n (v / 256))

uint_be_from-append :
    (acc : ℕ) (xs : List ℕ) (b : ℕ)
    → uint_be_from acc (xs ++ (b ∷ [])) ≡ uint_be_from acc xs * 256 + b
uint_be_from-append acc [] b = refl
uint_be_from-append acc (x ∷ xs) b = uint_be_from-append (acc * 256 + x) xs b

pub uint_be-put_be : (n v : ℕ) → v < 256 ^ n → uint_be (put_be n v) ≡ v
uint_be-put_be zero v h = omega arith
uint_be-put_be (suc n) v h = omega (
  arith,
  uint_be_from-append 0 (put_be n (v / 256)) (v % 256),
  uint_be-put_be n (v / 256) (div_below v n h),
)
