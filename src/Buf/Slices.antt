-- ===== src/Buf/Slices.antt =====
-- The laws of slices that the buffer's methods need.
use zbproxy_a.Base.{
  ℕ, zero, suc, ◌+◌, ◌-◌, ◌≤◌, ◌<◌, List, [], ◌∷◌, ◌++◌, length, take, drop, get_elem?, set,
  copy_at, some, ◌≡◌, refl, ap, arith, take_all, drop_all, le→leb, ◌∙◌, sym,
}
use zbproxy_a.Buf.{ok, slice}

pub take_as {ℓ} : {A : Type ℓ} {m n : ℕ} → m ≡ n → (xs : List A) → take m xs ≡ take n xs
take_as e xs = ap (λ n. take n xs) e

pub drop_as {ℓ} : {A : Type ℓ} {m n : ℕ} → m ≡ n → (xs : List A) → drop m xs ≡ drop n xs
drop_as e xs = ap (λ n. drop n xs) e

pub drop-take {ℓ} :
    {A : Type ℓ} (i j : ℕ) (xs : List A) → drop i (take j xs) ≡ take (j - i) (drop i xs)
drop-take zero j xs = take_as (omega arith) xs
drop-take (suc i) zero xs = take_as {m = 0} (omega arith) (drop (suc i) xs)
drop-take (suc i) (suc j) [] = sym (take_all (suc j - suc i) [] (omega arith))
drop-take (suc i) (suc j) (x ∷ xs) = drop-take i j xs ∙ take_as (omega arith) (drop i xs)

pub drop-drop {ℓ} : {A : Type ℓ} (i j : ℕ) (xs : List A) → drop j (drop i xs) ≡ drop (i + j) xs
drop-drop zero j xs = drop_as (omega arith) xs
drop-drop (suc i) j [] = drop_all j [] (omega arith) ∙ sym (drop_all (suc i + j) [] (omega arith))
drop-drop (suc i) j (x ∷ xs) =
    drop-drop i j xs ∙ drop_as {m = suc (i + j)} {n = suc i + j} (omega arith) (x ∷ xs)

pub take-take {ℓ} : {A : Type ℓ} (m n : ℕ) (xs : List A) → m ≤ n → take m (take n xs) ≡ take m xs
take-take zero n xs h = refl
take-take (suc m) zero xs h = absurd (omega arith)
take-take (suc m) (suc n) [] h = refl
take-take (suc m) (suc n) (x ∷ xs) h = ap (◌∷◌ x) (take-take m n xs (omega arith))

pub drop_append_le {ℓ} :
    {A : Type ℓ} (i : ℕ) (xs ys : List A) → i ≤ length xs → drop i (xs ++ ys) ≡ drop i xs ++ ys
drop_append_le zero xs ys h = refl
drop_append_le (suc i) [] ys h = absurd (omega arith)
drop_append_le (suc i) (x ∷ xs) ys h = drop_append_le i xs ys (omega arith)

-- What `copy` at `i` leaves up to its end.
pub take-copy_at {ℓ} :
    {A : Type ℓ} (i : ℕ) (src dst : List A)
    → i + length src ≤ length dst
    → take (i + length src) (copy_at i src dst) ≡ take i dst ++ src
take-copy_at zero [] dst h = refl
take-copy_at zero (x ∷ src) [] h = absurd (omega arith)
take-copy_at zero (x ∷ src) (d ∷ dst) h =
    take_as {n = suc (0 + length src)} (omega arith) (x ∷ copy_at 0 src dst)
    ∙ ap (◌∷◌ x) (take-copy_at zero src dst (omega arith))
take-copy_at (suc i) src [] h = absurd (omega arith)
take-copy_at (suc i) src (d ∷ dst) h =
    take_as {n = suc (i + length src)} (omega arith) (d ∷ copy_at i src dst)
    ∙ ap (◌∷◌ d) (take-copy_at i src dst (omega arith))

pub take-set {ℓ} :
    {A : Type ℓ} (i : ℕ) (x : A) (xs : List A)
    → i < length xs
    → take (suc i) (set xs i x) ≡ take i xs ++ (x ∷ [])
take-set i x [] h = absurd (omega arith)
take-set zero x (y ∷ xs) h = refl
take-set (suc i) x (y ∷ xs) h = ap (◌∷◌ y) (take-set i x xs (omega arith))

pub slice_lem :
    (xs : List ℕ) (i j : ℕ) → i ≤ j → j ≤ length xs → slice xs i j ≡ ok (drop i (take j xs))
unfolding slice
slice_lem xs i j p q = rw (le→leb i j p, le→leb j (length xs) q, drop-take i j xs) refl

-- The first unread byte.
pub get_elem?-drop {ℓ} :
    {A : Type ℓ} (i j : ℕ) (xs : List A)
    → i < j
    → j ≤ length xs
    → (x : A) × (get_elem? xs i ≡ some x) × (drop i (take j xs) ≡ x ∷ drop (suc i) (take j xs))
get_elem?-drop i zero xs h p = absurd (omega arith)
get_elem?-drop i (suc j) [] h p = absurd (omega arith)
get_elem?-drop zero (suc j) (x ∷ xs) h p = (x, refl, refl)
get_elem?-drop (suc i) (suc j) (x ∷ xs) h p = get_elem?-drop i j xs (omega arith) (omega arith)
