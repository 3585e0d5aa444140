-- ===== src/Base/Assoc.antt =====
-- Go's maps as association lists over any key with an equality test; a string is the list of its
-- bytes. A key that is inserted again keeps its place.
use zbproxy_a.Base.{
  ℕ, suc, ◌+◌, ◌≤◌, ◌≡◌, ◌↔◌, refl, ap, List, [], ◌∷◌, Bool, true, false, Option, none, some, arith,
  ◌&&◌, ◌||◌, if◌then◌else◌, length, Bool-cases, inl, inr,
}
use zbproxy_a.Base as Base

pub record Eq {ℓ} (A : Type ℓ) : Type ℓ where
  pub beq : A → A → Bool
  pub beq_iff : (a b : A) → (beq a b ≡ true) ↔ (a ≡ b)

pub nat_beq_iff : (a b : ℕ) → (Base.◌==◌ a b ≡ true) ↔ (a ≡ b)
nat_beq_iff a b = ground arith

instance abbrev pub nat_eq : Eq ℕ
nat_eq = record { beq = Base.◌==◌; beq_iff = nat_beq_iff }

-- Equality of two byte strings.
abbrev pub bytes_beq : List ℕ → List ℕ → Bool
bytes_beq [] [] = true
bytes_beq [] (y ∷ ys) = false
bytes_beq (x ∷ xs) [] = false
bytes_beq (x ∷ xs) (y ∷ ys) = Base.◌==◌ x y && bytes_beq xs ys

pub bytes_beq_iff : (xs ys : List ℕ) → (bytes_beq xs ys ≡ true) ↔ (xs ≡ ys)
bytes_beq_iff [] [] = ((λ _. refl), (λ _. refl))
bytes_beq_iff [] (y ∷ ys) = ((λ e. cc), (λ e. cc))
bytes_beq_iff (x ∷ xs) [] = ((λ e. cc), (λ e. cc))
bytes_beq_iff (x ∷ xs) (y ∷ ys) = ground (arith, bytes_beq_iff xs ys)

instance abbrev pub bytes_eq : Eq (List ℕ)
bytes_eq = record { beq = bytes_beq; beq_iff = bytes_beq_iff }

infix 50 ◌===◌
abbrev pub ◌===◌ {ℓ} : {A : Type ℓ} ⦃e : Eq A⦄ → A → A → Bool
◌===◌ ⦃e⦄ = e.beq

module _ {ℓ κ} {K : Type ℓ} {V : Type κ} ⦃e : Eq K⦄ where
  unfoldable pub lookup : K → List (K × V) → Option V
  lookup k [] = none
  lookup k ((j, v) ∷ m) = if j === k then some v else lookup k m

  unfoldable pub insert : K → V → List (K × V) → List (K × V)
  insert k v [] = (k, v) ∷ []
  insert k v ((j, w) ∷ m) = if j === k then (j, v) ∷ m else (j, w) ∷ insert k v m

  unfoldable pub remove : K → List (K × V) → List (K × V)
  remove k [] = []
  remove k ((j, v) ∷ m) = if j === k then remove k m else (j, v) ∷ remove k m

  pub length-remove : (k : K) (m : List (K × V)) → length (remove k m) ≤ length m
  unfolding remove
  length-remove k [] = omega arith
  length-remove k ((j, v) ∷ m) = ground (arith, length-remove k m)

  -- A new key adds one entry, an old one none.
  pub length-insert :
      (k : K) (v : V) (m : List (K × V))
      → length (insert k v m) ≡ elim (lookup k m) [ none ↦ suc (length m) | some w ↦ length m ]
  unfolding insert lookup
  length-insert k v [] = refl
  length-insert k v ((j, w) ∷ m) = ground (arith, length-insert k v m)

  pub lookup-insert :
      (k l : K) (v : V) (m : List (K × V))
      → lookup l (insert k v m) ≡ (if k === l then some v else lookup l m)
  unfolding insert lookup
  lookup-insert k l v [] = refl
  lookup-insert k l v ((j, w) ∷ m) =
      ground (arith, e.beq_iff k l, e.beq_iff j k, e.beq_iff j l, lookup-insert k l v m)

  pub lookup-remove :
      (k l : K) (m : List (K × V)) → lookup l (remove k m) ≡ (if k === l then none else lookup l m)
  unfolding remove lookup
  lookup-remove k l [] = ground arith
  lookup-remove k l ((j, w) ∷ m) =
      ground (arith, e.beq_iff k l, e.beq_iff j k, e.beq_iff j l, lookup-remove k l m)
