-- ===== src/Socks/Reads.antt =====
-- common/network/socks: one write and one read at a time, on a link whose fields are written out.
use zbproxy_a.Base.{
  ℕ, zero, suc, ◌-◌, ◌≤◌, List, [], ◌∷◌, ◌++◌, append_assoc, concat, leb, length, take, drop,
  take-append, drop-append, append-nil, le→leb, ◌<◌, true, take_append_le, length-append, some, ◌≡◌,
  refl, ap, sym, ◌∙◌, subst, arith, Bool-cases, leb→le, leb→lt, inl, inr,
}
use zbproxy_a.Wire.{Ending}
use zbproxy_a.Route.Values.{String}
use zbproxy_a.Socks.{Net, destination, with_destination}
use zbproxy_a.Socks.Calls.{
  fail, Link, M, ok, ◌>>=◌, ◌>>◌, write, read, next_piece, gather, read_bytes,
}

abbrev pub link : List ℕ → List (List ℕ) → Ending → ℕ → Link
link s a e w = record { sent = s; arrivals = a; ending = e; writes = w }

pub write_lem :
    (bytes s : List ℕ) (a : List (List ℕ)) (e : Ending) (w : ℕ)
    → write bytes (link s a e (suc w)) ≡ ok tt (link (s ++ bytes) a e w)
unfolding write
write_lem bytes s a e w = ground arith

-- A step that succeeds hands its link to the next.
pub then_lem :
    {B : Type 0} (m : M (Unit {0})) (k : M B) (l l' : Link) → m l ≡ ok tt l' → (do m; k) l ≡ k l'
then_lem m k l l' h = rw (h, ◌>>=◌) refl

pub bind_lem :
    {A B : Type 0} (m : M A) (k : A → M B) (a : A) (l l' : Link)
    → m l ≡ ok a l'
    → (m >>= k) l ≡ k a l'
bind_lem m k a l l' h = rw (h, ◌>>=◌) refl

pub send_lem :
    {B : Type 0} (bytes s : List ℕ) (a : List (List ℕ)) (e : Ending) (w : ℕ) (k : M B)
    → (do write bytes; k) (link s a e (suc w)) ≡ k (link (s ++ bytes) a e w)
send_lem bytes s a e w k = then_lem (write bytes) k _ _ (write_lem bytes s a e w)

pub at_destination :
    (net : Net) (address host : String) (port : ℕ) (f : String → ℕ → M (Unit {0})) (l : Link)
    → destination net address ≡ inr (host, port)
    → with_destination net address f l ≡ f host port l
at_destination net address host port f l h =
    ap (λ d. (elim d as (λ x. M (Unit {0})) [ inl e ↦ fail e | inr (a, p) ↦ f a p ]) l) h

pub write_twice :
    (x y s : List ℕ) (a : List (List ℕ)) (e : Ending) (w : ℕ)
    → (do write x; write y) (link s a e (suc (suc w))) ≡ ok tt (link (s ++ (x ++ y)) a e w)
write_twice x y s a e w =
    ground (arith, write_lem x s a e (suc w), write_lem y (s ++ x) a e w, append_assoc s x y)

take_whole : (bs tail : List ℕ) → take (length bs) (bs ++ tail) ≡ bs
take_whole bs tail = take-append (length bs) bs tail refl

drop_whole : (bs tail : List ℕ) → drop (length bs) (bs ++ tail) ≡ tail
drop_whole bs tail = drop-append (length bs) bs tail refl

-- A read that finds all its bytes at the head of what arrived.
pub read_whole :
    (bs tail s : List ℕ) (more : List (List ℕ)) (e : Ending) (w : ℕ)
    → read (length bs) (link s ((bs ++ tail) ∷ more) e w) ≡ ok bs (link s (tail ∷ more) e w)
unfolding read next_piece
read_whole [] tail s more e w = refl
read_whole (x ∷ xs) tail s more e w =
    let none_left : suc (length xs) - suc (length xs) ≡ 0 = omega arith in
    rw (take_whole xs tail, drop_whole xs tail, none_left, append-nil xs) (ground arith)

gather_whole :
    (bs tail : List ℕ) (more : List (List ℕ))
    → gather (length bs) ((bs ++ tail) ∷ more) ≡ some (bs, tail ∷ more)
unfolding gather
gather_whole bs tail more =
    let enough : leb (length bs) (length (bs ++ tail)) ≡ true =
      le→leb _ _ (omega (arith, length-append bs tail)) in
    rw (enough, take_whole bs tail, drop_whole bs tail) refl

pub read_sized :
    (n : ℕ) (bs tail s : List ℕ) (more : List (List ℕ)) (e : Ending) (w : ℕ)
    → length bs ≡ n
    → read n (link s ((bs ++ tail) ∷ more) e w) ≡ ok bs (link s (tail ∷ more) e w)
read_sized n bs tail s more e w h =
    subst (λ k. read k (link s ((bs ++ tail) ∷ more) e w) ≡ ok bs (link s (tail ∷ more) e w)) h
      (read_whole bs tail s more e w)

pub read_bytes_whole :
    (bs tail s : List ℕ) (more : List (List ℕ)) (e : Ending) (w : ℕ)
    → read_bytes (length bs) (link s ((bs ++ tail) ∷ more) e w) ≡ ok bs (link s (tail ∷ more) e w)
unfolding read_bytes
read_bytes_whole bs tail s more e w = rw (read_bytes, gather_whole bs tail more) refl

take_append_ge :
    (n : ℕ) (xs ys : List ℕ) → length xs ≤ n → take n (xs ++ ys) ≡ xs ++ take (n - length xs) ys
take_append_ge n [] ys h = ap (λ k. take k ys) (omega arith)
take_append_ge zero (x ∷ xs) ys h = absurd (omega arith)
take_append_ge (suc n) (x ∷ xs) ys h =
    let less : suc n - suc (length xs) ≡ n - length xs = omega arith in
    rw less (ap (λ z. x ∷ z) (take_append_ge n xs ys (omega arith)))

drop_append_ge :
    (n : ℕ) (xs ys : List ℕ) → length xs ≤ n → drop n (xs ++ ys) ≡ drop (n - length xs) ys
drop_append_ge n [] ys h = ap (λ k. drop k ys) (omega arith)
drop_append_ge zero (x ∷ xs) ys h = absurd (omega arith)
drop_append_ge (suc n) (x ∷ xs) ys h =
    let less : suc n - suc (length xs) ≡ n - length xs = omega arith in
    rw less (drop_append_ge n xs ys (omega arith))

drop_append_le : (n : ℕ) (xs ys : List ℕ) → n ≤ length xs → drop n (xs ++ ys) ≡ drop n xs ++ ys
drop_append_le zero xs ys h = refl
drop_append_le (suc n) [] ys h = absurd (omega arith)
drop_append_le (suc n) (x ∷ xs) ys h = drop_append_le n xs ys (omega arith)

-- However the bytes are cut into pieces, a full read takes the first of them.
pub gather_lem :
    (n : ℕ) (pieces : List (List ℕ))
    → n ≤ length (concat pieces)
    → (left : List (List ℕ)) × (gather n pieces ≡ some (take n (concat pieces), left))
      × (concat left ≡ drop n (concat pieces))
unfolding gather
gather_lem n [] h = ([], ground arith, ground arith)
gather_lem n (p ∷ rest) h = elim (Bool-cases (leb n (length p))) [
  | inl t ↦ (
    drop n p ∷ rest,
    rw (t, take_append_le n p (concat rest) (leb→le n (length p) t)) refl,
    sym (drop_append_le n p (concat rest) (leb→le n (length p) t)),
  )
  | inr f ↦
      let h' : length p < n = leb→lt n (length p) f in
      let (left, e, r) =
        gather_lem (n - length p) rest (omega (arith, length-append p (concat rest))) in
      (
        left,
        rw (f, e, take_append_ge n p (concat rest) (omega arith)) refl,
        r ∙ sym (drop_append_ge n p (concat rest) (omega arith)),
      )
]

pub read_bytes_lem :
    (n : ℕ) (bs tail s : List ℕ) (a : List (List ℕ)) (e : Ending) (w : ℕ)
    → length bs ≡ n
    → concat a ≡ bs ++ tail
    → (left : List (List ℕ)) × (read_bytes n (link s a e w) ≡ ok bs (link s left e w))
      × (concat left ≡ tail)
unfolding read_bytes
read_bytes_lem n bs tail s a e w h q =
    let enough : n ≤ length (concat a) = omega (arith, ap length q, length-append bs tail) in
    let (left, g, r) = gather_lem n a enough in
    (
      left,
      rw (read_bytes, g, q, take-append n bs tail (sym h)) refl,
      rw (r, q) (drop-append n bs tail (sym h)),
    )
