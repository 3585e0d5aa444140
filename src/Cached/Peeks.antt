-- ===== src/Cached/Peeks.antt =====
-- common/bufio/cached.go: `Peek` gives what comes next of the stream and keeps it.
use zbproxy_a.Base.{
  take_append_le, ℕ, zero, suc, ◌+◌, ◌-◌, ◌≤◌, ◌<◌, List, [], ◌∷◌, ◌++◌, ltb, length, take, drop,
  copy_at, some, min, ◌≡◌, refl, sym, ap, ap₂, ◌∙◌, arith, length-append, length-take,
  take-append-drop, le→ltb, ==-apart, Bool-cases, inl, inr, append_assoc, ltb→lt, ltb→le,
  length-copy_at, length-replicate,
}
use zbproxy_a.Wire.{Conn}
use zbproxy_a.Buf.{Buffer, ok, IsValid, unread, advance}
use zbproxy_a.Buf.Slices.{take_as, drop-take, take-take, drop_append_le}
use zbproxy_a.Buf.Queue.Methods.{length-unread, copied}
use zbproxy_a.Mc.Strings.{advance-IsValid, unread-advance, peek-take}
use zbproxy_a.Cached.{
  CachedConn, IsCache, At, cache_or_new, cache_size, read_at_least_from, peek, peek_cache, taken,
  with_cache, new_cached_conn, new_cache,
}

take_nil {ℓ} : {A : Type ℓ} (n : ℕ) → take {A = A} n [] ≡ []
take_nil zero = refl
take_nil (suc n) = refl

take_plus {ℓ} :
    {A : Type ℓ} (i n : ℕ) (xs : List A) → take (i + n) xs ≡ take i xs ++ take n (drop i xs)
take_plus zero n xs = take_as (omega arith) xs
take_plus (suc i) n [] = take_as {n = suc (i + n)} (omega arith) [] ∙ sym (take_nil n)
take_plus (suc i) n (x ∷ xs) =
    take_as {n = suc (i + n)} (omega arith) (x ∷ xs) ∙ ap (◌∷◌ x) (take_plus i n xs)

-- What is behind the place after `n` more bytes.
pub seen-advance :
    (n : ℕ) (b : Buffer)
    → IsValid b
    → n ≤ length (unread b)
    → take (b.start + n) b.content ≡ take b.start b.content ++ take n (unread b)
seen-advance n b (p, q, r) h =
    let size = length-unread b (p, q, r) in
    take_plus b.start n b.content
    ∙ ap (◌++◌ (take b.start b.content)) (
        take_as (omega arith) (drop b.start b.content)
        ∙ sym (take-take n (b.end - b.start) (drop b.start b.content) (omega (arith, size)))
        ∙ ap (take n) (sym (drop-take b.start b.end b.content)))

take_copy_before {ℓ} :
    {A : Type ℓ} (i j : ℕ) (src dst : List A) → i ≤ j → take i (copy_at j src dst) ≡ take i dst
take_copy_before zero j src dst h = refl
take_copy_before (suc i) zero src dst h = absurd (omega arith)
take_copy_before (suc i) (suc j) src [] h = refl
take_copy_before (suc i) (suc j) src (d ∷ dst) h =
    ap (◌∷◌ d) (take_copy_before i j src dst (omega arith))

retake {ℓ} : {A : Type ℓ} (m : ℕ) (xs : List A) → take m xs ≡ take (length (take m xs)) xs
retake zero xs = refl
retake (suc m) [] = refl
retake (suc m) (x ∷ xs) = ap (◌∷◌ x) (retake m xs)

-- The cache after more bytes were read into it.
abbrev pub More : ℕ → Buffer → Conn → Buffer → Conn → Type 0
More need b c d e =
    IsCache d
    × (take d.start d.content ≡ take b.start b.content)
    × (unread d ++ e.incoming ≡ unread b ++ c.incoming)
    × (length (unread b) + need ≤ length (unread d))

pub read_at_least_from-More :
    (burst : ℕ → ℕ) (need : ℕ) (c : Conn) (b : Buffer)
    → IsCache b
    → 0 < need
    → need ≤ b.size - b.end
    → need ≤ length c.incoming
    → (d : Buffer) × (e : Conn) × (read_at_least_from burst need c b ≡ ok (d, e))
      × More need b c d e
unfolding read_at_least_from
read_at_least_from-More burst need c b ((p, q, r), z) pos free enough =
    let m = min (need + burst (length c.incoming)) (b.size - b.end) in
    let bytes = take m c.incoming in
    let count : length bytes ≡ min m (length c.incoming) = length-take m c.incoming in
    let moved : unread b ++ bytes
        ≡ drop b.start (take (b.end + length bytes) (copy_at b.end bytes b.content)) =
      copied b.start b.end (length bytes) bytes b.content p (omega (arith, count)) refl in
    (
      record b { content = copy_at b.end bytes b.content; end = b.end + length bytes },
      taken (length bytes) c,
      rw
          (
            ==-apart b.end b.size (omega arith),
            le→ltb (b.size - b.end) need free,
            le→ltb (length c.incoming) need enough,
          )
          refl,
      (
        (
          (omega arith, omega (arith, count), omega (arith, length-copy_at b.end bytes b.content)),
          z,
        ),
        take_copy_before b.start b.end bytes b.content p,
        ap (λ xs. xs ++ drop (length bytes) c.incoming) (sym moved)
            ∙ append_assoc (unread b) bytes (drop (length bytes) c.incoming)
            ∙ ap (◌++◌ (unread b)) (
                ap (λ xs. xs ++ drop (length bytes) c.incoming) (retake m c.incoming)
                ∙ take-append-drop (length bytes) c.incoming),
        omega (arith, ap length moved, length-append (unread b) bytes, count),
      ),
    )

-- What a cache with enough bytes gives.
peek_cache-At :
    (n : ℕ) (b : Buffer) (c : Conn) (seen ahead : List ℕ)
    → IsCache b
    → take b.start b.content ≡ seen
    → unread b ++ c.incoming ≡ ahead
    → n ≤ length (unread b)
    → (d : CachedConn) × (peek_cache n (b, c) ≡ ok (take n ahead, d))
      × At (seen ++ take n ahead) (drop n ahead) d
unfolding advance
peek_cache-At n b c seen ahead (v, z) e f h =
    let first : take n (unread b) ≡ take n ahead =
      sym (take_append_le n (unread b) c.incoming h) ∙ ap (take n) f in
    (
      record { conn = c; cache = some (advance n b) },
      ap (with_cache (record { conn = c; cache = some b })) (peek-take n b v h)
          ∙ ap (λ xs. ok (xs, record { conn = c; cache = some (advance n b) })) first,
      (
        (advance-IsValid n b v h, z),
        seen-advance n b v h ∙ ap₂ ◌++◌ e first,
        ap (λ xs. xs ++ c.incoming) (unread-advance n b)
            ∙ sym (drop_append_le n (unread b) c.incoming h)
            ∙ ap (drop n) f,
      ),
    )

-- `Peek` of what fits in the cache gives the next bytes of the stream, if so many are still to come,
-- and keeps every byte: those it gave are behind the place, the others before it.
pub peek-At :
    (burst : ℕ → ℕ) (n : ℕ) (c : CachedConn) (seen ahead : List ℕ)
    → At seen ahead c
    → length seen + n ≤ cache_size
    → n ≤ length ahead
    → (d : CachedConn) × (peek burst n c ≡ ok (take n ahead, d))
      × At (seen ++ take n ahead) (drop n ahead) d
unfolding peek
peek-At burst n c seen ahead (v, e, f) fits enough =
    let b = cache_or_new c in
    let need = n - (b.end - b.start) in
    let size = length-unread b (v.0) in
    let total : length (unread b) + length c.conn.incoming ≡ length ahead =
      sym (length-append (unread b) c.conn.incoming) ∙ ap length f in
    let place : length seen ≡ b.start =
      omega (arith, ap length e, length-take b.start b.content, v.0.0, v.0.1, v.0.2) in
    elim (Bool-cases (ltb 0 need)) [
      | inl more ↦
          let pos = ltb→lt 0 need more in
          let (d, k, r, (w, g, h, l)) =
            read_at_least_from-More burst need c.conn b v pos
              (omega (arith, size, place, v.0.0, v.0.1, v.1, pos, fits))
              (omega (arith, size, total, pos)) in
          let (s, t, u) =
            peek_cache-At n d k seen ahead w (g ∙ e) (h ∙ f) (omega (arith, size, l, pos)) in
          (s, rw (more, r) t, u)
      | inr none_needed ↦
          let (s, t, u) =
            peek_cache-At n b c.conn seen ahead v e f
              (omega (arith, size, ltb→le 0 need none_needed)) in
          (s, rw (none_needed) t, u)
    ]

-- A connection that nothing was read of stands at the start of its stream.
pub new_cached_conn-At : (c : Conn) → At [] c.incoming (new_cached_conn c)
unfolding new_cached_conn new_cache
new_cached_conn-At c = (
  ((omega arith, omega arith, omega (arith, length-replicate {A = ℕ} cache_size 0)), refl),
  refl,
  refl,
)
