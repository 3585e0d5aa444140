-- ===== src/Cached/Ends.antt =====
-- common/bufio/cached.go: `PeekUntil` on the stream, however its bytes arrive.
use zbproxy_a.Base.{
  ℕ, suc, ◌+◌, ◌<◌, ◌≤◌, List, [], ◌∷◌, ◌++◌, true, false, leb, if◌then◌else◌, length, take, drop,
  none, some, ◌≡◌, refl, ap, ◌∙◌, arith, Bool-cases, Option-cases, inl, inr,
}
use zbproxy_a.Buf.{ok}
use zbproxy_a.Cached.{CachedConn, At, cache_or_new, cache_size}
use zbproxy_a.Cached.Until.{starts_with, index_of, find_end, peek_until, EndsAt, loop-EndsAt}

starts_with_cut :
    (e p q : List ℕ) → starts_with e (p ++ q) ≡ true → starts_with e p ≡ leb (length e) (length p)
unfolding starts_with
starts_with_cut [] [] q h = refl
starts_with_cut [] (x ∷ p) q h = ground arith
starts_with_cut (c ∷ e) [] q h = ground arith
starts_with_cut (c ∷ e) (x ∷ p) q h = ground (arith, starts_with_cut e p q)

starts_with_longer : (e p q : List ℕ) → starts_with e (p ++ q) ≡ false → starts_with e p ≡ false
unfolding starts_with
starts_with_longer [] p q h = h
starts_with_longer (c ∷ e) [] q h = refl
starts_with_longer (c ∷ e) (x ∷ p) q h = ground (arith, starts_with_longer e p q)

starts_with_short : (e p : List ℕ) → length p < length e → starts_with e p ≡ false
unfolding starts_with
starts_with_short [] p h = absurd (omega arith)
starts_with_short (c ∷ e) [] h = refl
starts_with_short (c ∷ e) (x ∷ p) h = ground (arith, starts_with_short e p)

index_of_short : (e p : List ℕ) → length p < length e → index_of e p ≡ none
unfolding index_of
index_of_short e [] h = ground arith
index_of_short e (x ∷ p) h =
    ground (arith, starts_with_short e (x ∷ p) h, index_of_short e p (omega (arith, h)))

-- In the first bytes of a stream, the text shows where it shows in the stream, once it is there whole.
index_of_prefix :
    (e p q : List ℕ) (i : ℕ)
    → 0 < length e
    → index_of e (p ++ q) ≡ some i
    → index_of e p ≡ (if leb (i + length e) (length p) then some i else none)
unfolding index_of
index_of_prefix e [] q i h k = ground arith
index_of_prefix e (x ∷ p) q i h k = elim (Bool-cases (starts_with e (x ∷ (p ++ q)))) [
  | inl here ↦ ground (arith, here, starts_with_cut e (x ∷ p) q here, index_of_short e p)
  | inr later ↦ elim (Option-cases (index_of e (p ++ q))) [
    | inl absent ↦ absurd (ground (arith, later, absent, k))
    | inr (j, at) ↦
        ground
          (arith, later, k, at, starts_with_longer e (x ∷ p) q later, index_of_prefix e p q j h at)
  ]
]

pub one-EndsAt :
    (e ahead : List ℕ) (i : ℕ)
    → 0 < length e
    → index_of e ahead ≡ some i
    → EndsAt (e ∷ []) ahead i e
unfolding find_end
one-EndsAt e ahead i h k =
    λ p q f. ground (arith, index_of_prefix e p q i h (ap (index_of e) f ∙ k))

-- The first end shows whole before the second.
pub two-EndsAt :
    (e g ahead : List ℕ) (i j : ℕ)
    → 0 < length e
    → 0 < length g
    → index_of e ahead ≡ some i
    → index_of g ahead ≡ some j
    → i + length e ≤ j + length g
    → EndsAt (e ∷ (g ∷ [])) ahead i e
unfolding find_end
two-EndsAt e g ahead i j h m k l b = λ p q f. ground (
  arith,
  index_of_prefix e p q i h (ap (index_of e) f ∙ k),
  index_of_prefix g p q j m (ap (index_of g) f ∙ l),
)

-- However the bytes arrive, `PeekUntil` gives what stands before the first place at which an end shows,
-- and passes the end: the bytes it gave and the end are behind the place, and none is lost.
pub peek_until-At :
    (burst : ℕ → ℕ) (ends : List (List ℕ)) (c : CachedConn) (seen ahead e : List ℕ) (i : ℕ)
    → At seen ahead c
    → EndsAt ends ahead i e
    → length seen + (i + length e) ≤ cache_size
    → i + length e ≤ length ahead
    → (d : CachedConn) × (peek_until burst ends c ≡ some (ok (take i ahead, e, d)))
      × At (seen ++ take (i + length e) ahead) (drop (i + length e) ahead) d
unfolding peek_until
peek_until-At burst ends c seen ahead e i v at fits enough =
    loop-EndsAt (suc cache_size) burst ends (cache_or_new c) c.conn seen ahead i e v at fits enough
      (omega (arith, v.0.1))
