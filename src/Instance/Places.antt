-- ===== src/Instance/Places.antt =====
-- zbproxy.go: which place each name has in a new map, for a loop that keeps the place of a name of the
-- old map and gives any other name the next place.
use zbproxy_a.Base.{
  ℕ, suc, ◌<◌, ◌≤◌, List, [], ◌∷◌, ◌++◌, Bool, true, false, ◌||◌, set, Option, none, some, ◌≡◌, ◌⊎◌,
  inl, inr, refl, ap, ◌∙◌, subst, arith, Bool-cases,
}
use zbproxy_a.Base.Assoc.{bytes_eq, bytes_beq_iff, ◌===◌, lookup, insert, lookup-insert}
use zbproxy_a.Route.Values.{String}

abbrev pub Map : Type 0
Map = List (String × ℕ)

-- How many objects there are, and the map under construction.
abbrev pub Slots : Type 0
Slots = ℕ × Map

abbrev pub mentioned : String → List String → Bool
mentioned n [] = false
mentioned n (m ∷ ms) = (m === n) || mentioned n ms

-- One name is given its place.
abbrev pub PlacedAt : Map → String → Slots → Slots → ℕ → Type 0
PlacedAt old name a b k =
    (b.1 ≡ insert name k a.1)
    × (((lookup name old ≡ some k) × (b.0 ≡ a.0))
        ⊎ ((lookup name old ≡ none) × (k ≡ a.0) × (b.0 ≡ suc a.0)))

pub data Placed (old : Map) : List String → Slots → Slots → Type 0 where
  all_placed : {a : Slots} → Placed old [] a a
  place_next :
      {name : String} {names : List String} {a b c : Slots} (k : ℕ)
      → PlacedAt old name a b k
      → Placed old names b c
      → Placed old (name ∷ names) a c

-- The place of a name, by its place in the old map and whether the new configuration has it: none
-- without the latter, the old place, or one from `base` to below `top`.
abbrev pub PlaceOf : Option ℕ → Bool → ℕ → ℕ → Option ℕ → Type 0
PlaceOf o false base top r = r ≡ none
PlaceOf (some j) true base top r = r ≡ some j
PlaceOf none true base top r = (k : ℕ) × (r ≡ some k) × (base ≤ k) × (k < top)

-- Where the place is the same, more objects do no harm.
PlaceOf-more :
    (o : Option ℕ) (seen : Bool) (base top top' : ℕ) (r : Option ℕ)
    → top ≤ top'
    → PlaceOf o seen base top r
    → PlaceOf o seen base top' r
PlaceOf-more o false base top top' r h p = p
PlaceOf-more (some j) true base top top' r h p = p
PlaceOf-more none true base top top' r h (k, e, l, m) = (k, e, l, omega arith)

-- The name that is placed now.
PlaceOf-here :
    (o : Option ℕ) (base k a b : ℕ)
    → base ≤ a
    → ((o ≡ some k) × (b ≡ a)) ⊎ ((o ≡ none) × (k ≡ a) × (b ≡ suc a))
    → PlaceOf o true base b (some k)
PlaceOf-here none base k a b h (inl e) = ground arith
PlaceOf-here none base k a b h (inr e) = (k, refl, omega arith, omega arith)
PlaceOf-here (some j) base k a b h (inl e) = ground arith
PlaceOf-here (some j) base k a b h (inr e) = ground arith

grows :
    (o : Option ℕ) (k a b : ℕ)
    → ((o ≡ some k) × (b ≡ a)) ⊎ ((o ≡ none) × (k ≡ a) × (b ≡ suc a))
    → a ≤ b
grows o k a b (inl e) = omega arith
grows o k a b (inr e) = omega arith

PlacedAt-PlaceOf :
    (old : Map) (name n : String) (a b : Slots) (k base : ℕ) (seen : Bool)
    → base ≤ a.0
    → PlacedAt old name a b k
    → PlaceOf (lookup n old) seen base a.0 (lookup n a.1)
    → PlaceOf (lookup n old) ((name === n) || seen) base b.0 (lookup n b.1)
PlacedAt-PlaceOf old name n a b k base seen h (e, p) q = elim (Bool-cases (name === n)) [
  | inl same ↦
      let eq : name ≡ n = (bytes_beq_iff name n).0 same in
      let found : lookup n b.1 ≡ some k =
        ap (lookup n) e ∙ lookup-insert name n k a.1 ∙ (rw same refl) in
      rw (same, found)
        (PlaceOf-here (lookup n old) base k a.0 b.0 h (
          subst
            (λ x.
              ((lookup x old ≡ some k) × (b.0 ≡ a.0))
              ⊎ ((lookup x old ≡ none) × (k ≡ a.0) × (b.0 ≡ suc a.0)))
            eq p))
  | inr other ↦
      let found : lookup n b.1 ≡ lookup n a.1 =
        ap (lookup n) e ∙ lookup-insert name n k a.1 ∙ (rw other refl) in
      rw (other, found)
        (PlaceOf-more (lookup n old) seen base a.0 b.0 (lookup n a.1)
          (grows (lookup name old) k a.0 b.0 p) q)
]

or_later : (x y z : Bool) → ((x || y) || z) ≡ (y || (x || z))
or_later x y z = ground arith

Placed-PlaceOf_from :
    (old : Map) (names : List String) (n : String) (a b : Slots) (base : ℕ) (seen : Bool)
    → base ≤ a.0
    → Placed old names a b
    → PlaceOf (lookup n old) seen base a.0 (lookup n a.1)
    → PlaceOf (lookup n old) (mentioned n names || seen) base b.0 (lookup n b.1)
Placed-PlaceOf_from old [] n a _ base seen h all_placed q = q
Placed-PlaceOf_from old (name ∷ names) n a c base seen h (place_next {b} k p rest) q =
    rw (or_later (name === n) (mentioned n names) seen) (
      Placed-PlaceOf_from old names n b c base ((name === n) || seen)
        (omega (arith, grows (lookup name old) k a.0 b.0 p.1)) rest
        (PlacedAt-PlaceOf old name n a b k base seen h p q))

or_false : (x : Bool) → (x || false) ≡ x
or_false x = ground arith

PlaceOf-none : (o : Option ℕ) (base top : ℕ) → PlaceOf o false base top none
PlaceOf-none o base top = refl

-- From an empty map, each name gets the place of its kind.
pub Placed-PlaceOf :
    (old : Map) (names : List String) (n : String) (base : ℕ) (b : Slots)
    → Placed old names (base, []) b
    → PlaceOf (lookup n old) (mentioned n names) base b.0 (lookup n b.1)
unfolding lookup
Placed-PlaceOf old names n base b p =
    subst (λ x. PlaceOf (lookup n old) x base b.0 (lookup n b.1)) (or_false (mentioned n names))
      (Placed-PlaceOf_from old names n (base, []) b base false (omega arith) p
        (PlaceOf-none (lookup n old) base base))

-- Every place of the map is below.
abbrev pub Below : ℕ → Map → Type 0
Below top m = (n : String) (k : ℕ) → lookup n m ≡ some k → k < top

pub PlaceOf-lt :
    (o : Option ℕ) (seen : Bool) (base top k : ℕ) (r : Option ℕ)
    → PlaceOf o seen base top r
    → r ≡ some k
    → ((j : ℕ) → o ≡ some j → j < top)
    → k < top
PlaceOf-lt o false base top k r p e h = absurd (ground (arith, p, e))
PlaceOf-lt (some j) true base top k r p e h = h k (ground (arith, p, e))
PlaceOf-lt none true base top k r (j, q, l, m) e h = ground (arith, q, e)

-- A list of objects to which one was added, or in which one was put at a place that the old map gives
-- this name.
abbrev pub Replaced {ℓ} : {A : Type ℓ} → Map → String → List A → List A → Type ℓ
Replaced {A} old name xs ys =
    ((k : ℕ) × (x : A) × (lookup name old ≡ some k) × (ys ≡ set xs k x))
    ⊎ ((x : A) × (ys ≡ xs ++ (x ∷ [])))

-- A place below those of the new objects is one that the name had.
pub PlaceOf-old :
    (o : Option ℕ) (seen : Bool) (base top k : ℕ) (r : Option ℕ)
    → PlaceOf o seen base top r
    → r ≡ some k
    → k < base
    → (o ≡ some k) × (seen ≡ true)
PlaceOf-old o false base top k r p e h = absurd (ground (arith, p, e))
PlaceOf-old (some j) true base top k r p e h = ground (arith, p, e)
PlaceOf-old none true base top k r (j, q, l, m) e h = absurd (ground (arith, q, e))
