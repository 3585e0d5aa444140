-- ===== src/Sniff/Steps.antt =====
-- The reads of a sniffer on bytes that are there: each gives them and moves behind them.
use zbproxy_a.Base.{
  ℕ, ◌+◌, ◌^◌, ◌≤◌, ◌<◌, List, [], ◌∷◌, ◌++◌, length, take, drop, ◌≡◌, refl, sym, ap, ◌∙◌, subst,
  arith, length-append, take-append, drop-append, append-nil, append_assoc,
}
use zbproxy_a.Base.Bytes.{put_be, uint_be, uint_be-put_be, length-put_be}
use zbproxy_a.Buf.{Buffer, ok, IsValid, unread, advance, read_byte, as_data, then_do}
use zbproxy_a.Mc.{read_var_int, read_var_int_from, read_limited_string, var_int_bytes}
use zbproxy_a.Mc.RoundTrip.{
  read_byte-cons, read_var_int-var_int_bytes, read_var_int_from-var_int_bytes,
}
use zbproxy_a.Mc.Strings.{
  advance-IsValid, unread-advance, peek-take, read_limited_string-var_int_bytes,
}
use zbproxy_a.Cached.{CachedConn, At, cache_size}
use zbproxy_a.Cached as Cached
use zbproxy_a.Cached.Reads.{read_byte-At}
use zbproxy_a.Cached.Peeks.{peek-At}
use zbproxy_a.Sniff.{read_uint16}

-- The bytes that a buffer still gives.
abbrev pub Holds : List ℕ → Buffer → Type 0
Holds xs b = IsValid b × (unread b ≡ xs)

pub as_data-Holds : (xs : List ℕ) → Holds xs (as_data xs)
unfolding as_data
as_data-Holds xs = ((omega arith, omega arith, omega arith), take_self xs)
  where
    take_self : (ys : List ℕ) → take (length ys) ys ≡ ys
    take_self [] = refl
    take_self (y ∷ ys) = ap (◌∷◌ y) (take_self ys)

advance-Holds :
    (xs rest : List ℕ) (b : Buffer) → Holds (xs ++ rest) b → Holds rest (advance (length xs) b)
advance-Holds xs rest b (v, e) = (
  advance-IsValid (length xs) b v (omega (arith, ap length e, length-append xs rest)),
  unread-advance (length xs) b ∙ ap (drop (length xs)) e ∙ drop-append (length xs) xs rest refl,
)

pub read_byte-Holds :
    (x : ℕ) (rest : List ℕ) (b : Buffer)
    → Holds (x ∷ rest) b
    → (c : Buffer) × (read_byte b ≡ ok (x, c)) × Holds rest c
read_byte-Holds x rest b (v, e) =
    let (r, s, t) = read_byte-cons b x rest v e in (advance 1 b, r, (t, s))

pub read_var_int-Holds :
    (a : ℕ) (rest : List ℕ) (b : Buffer)
    → a < 2 ^ 32
    → Holds (var_int_bytes a ++ rest) b
    → (c : Buffer) × (read_var_int b ≡ ok (a, length (var_int_bytes a), c)) × Holds rest c
read_var_int-Holds a rest b h (v, e) = (
  advance (length (var_int_bytes a)) b,
  read_var_int-var_int_bytes a b rest h v e,
  advance-Holds (var_int_bytes a) rest b (v, e),
)

-- A string behind its length.
abbrev pub string_bytes : List ℕ → List ℕ
string_bytes s = var_int_bytes (length s) ++ s

pub read_limited_string-Holds :
    (limit : ℕ) (s rest : List ℕ) (b : Buffer)
    → 0 < length s
    → length s ≤ limit
    → length s < 2 ^ 31
    → Holds (string_bytes s ++ rest) b
    → (c : Buffer) × (read_limited_string limit b ≡ ok (s, c)) × Holds rest c
read_limited_string-Holds limit s rest b p q r (v, e) =
    let f = e ∙ append_assoc (var_int_bytes (length s)) s rest in
    let size = advance-Holds (var_int_bytes (length s)) (s ++ rest) b (v, f) in
    (
      advance (length s) (advance (length (var_int_bytes (length s))) b),
      read_limited_string-var_int_bytes limit s b rest p q r v f,
      advance-Holds s rest (advance (length (var_int_bytes (length s))) b) size,
    )

pub read_uint16-Holds :
    (n : ℕ) (rest : List ℕ) (b : Buffer)
    → n < 65536
    → Holds (put_be 2 n ++ rest) b
    → (c : Buffer) × (read_uint16 b ≡ ok (n, c)) × Holds rest c
unfolding read_uint16
read_uint16-Holds n rest b h (v, e) = (
  advance 2 b,
  ap (λ r. then_do r (λ q. ok (uint_be q.0, q.1)))
        (peek-take 2 b v
          (omega (arith, ap length e, length-append (put_be 2 n) rest, length-put_be 2 n)))
      ∙ ap (λ xs. ok (uint_be (take 2 xs), advance 2 b)) e
      ∙ ap (λ m. ok (m, advance 2 b)) (uint_be-put_be 2 n (omega arith)),
  advance-Holds (put_be 2 n) rest b (v, e),
)

-- A connection that stands in the first `window` bytes of its stream.
abbrev Within : List ℕ → List ℕ → CachedConn → List ℕ → Type 0
Within window rest c xs = (seen : List ℕ) × At seen (xs ++ rest) c × (seen ++ xs ≡ window)

pub read_var_int_from-At :
    (a : ℕ) (seen rest : List ℕ) (c : CachedConn)
    → a < 2 ^ 32
    → At seen (var_int_bytes a ++ rest) c
    → length seen + length (var_int_bytes a) ≤ cache_size
    → (d : CachedConn) × (read_var_int_from Cached.read_byte c
        ≡ ok (a, length (var_int_bytes a), d))
      × At (seen ++ var_int_bytes a) rest d
read_var_int_from-At a seen rest c h at room =
    let window = seen ++ var_int_bytes a in
    let (d, r, (s, t, u)) =
      read_var_int_from-var_int_bytes Cached.read_byte (Within window rest)
        (λ e x ys (s, t, u).
          let (f, v, w) = read_byte-At e x s (ys ++ rest) t (
            omega (
              arith,
              room,
              ap length u,
              length-append s (x ∷ ys),
              length-append seen (var_int_bytes a),
            )) in
          (f, v, (s ++ (x ∷ []), w, append_assoc s (x ∷ []) ys ∙ u)))
        a c [] h
        (
          seen,
          subst (λ xs. At seen (xs ++ rest) c) (sym (append-nil (var_int_bytes a))) at,
          ap (◌++◌ seen) (append-nil (var_int_bytes a)),
        ) in
    (d, r, subst (λ xs. At xs rest d) (sym (append-nil s) ∙ u) t)

-- `Peek` of bytes that are to come.
pub peek_bytes-At :
    (burst : ℕ → ℕ) (xs seen rest : List ℕ) (c : CachedConn)
    → At seen (xs ++ rest) c
    → length seen + length xs ≤ cache_size
    → (d : CachedConn) × (Cached.peek burst (length xs) c ≡ ok (xs, d)) × At (seen ++ xs) rest d
peek_bytes-At burst xs seen rest c at room =
    let (d, r, t) =
      peek-At burst (length xs) c seen (xs ++ rest) at room
        (omega (arith, length-append xs rest)) in
    let e = take-append (length xs) xs rest refl in
    (
      d,
      r ∙ ap (λ ys. ok (ys, d)) e,
      subst (λ ys. At (seen ++ ys) rest d) e
          (subst (λ ys. At (seen ++ take (length xs) (xs ++ rest)) ys d)
            (drop-append (length xs) xs rest refl) t),
    )
