-- ===== src/Cached/Reads.antt =====
-- common/bufio/cached.go: `Read` of one byte, which moves it behind the place and keeps it.
use zbproxy_a.Base.{
  take_append_le, ℕ, zero, suc, ◌+◌, ◌-◌, ◌≤◌, ◌<◌, List, [], ◌∷◌, ◌++◌, false, ◌==◌, if◌then◌else◌,
  length, take, drop, copy_at, Option, none, some, min, ◌≡◌, refl, sym, ap, ap₂, ◌∙◌, arith,
  length-take, le→ltb, ==-apart, Bool-cases, inl, inr, ==→eq, ==→ne, length-copy_at,
}
use zbproxy_a.Wire.{Conn}
use zbproxy_a.Buf.{Buffer, Result, ok, err, IsValid, unread, advance, write, put, is_empty}
use zbproxy_a.Buf as Buf
use zbproxy_a.Buf.Slices.{take_as, take-copy_at, slice_lem, drop_append_le}
use zbproxy_a.Buf.Queue.Methods.{length-unread}
use zbproxy_a.Mc.Strings.{advance-IsValid, unread-advance}
use zbproxy_a.Cached.{
  CachedConn, IsCache, At, cache_or_new, cache_size, taken, with_cache, keep, read, read_conn,
  read_byte, on_byte, new_cache, end_error,
}
use zbproxy_a.Cached.Peeks.{seen-advance}

one_taken : (i n : ℕ) → i < n → min 1 (n - i) ≡ 1
one_taken i n h = omega arith

drop_taken : (n i : ℕ) (xs : List ℕ) → n ≤ i → drop i (take n xs) ≡ []
drop_taken zero zero xs h = refl
drop_taken zero (suc i) xs h = refl
drop_taken (suc n) zero xs h = absurd (omega arith)
drop_taken (suc n) (suc i) [] h = refl
drop_taken (suc n) (suc i) (x ∷ xs) h = drop_taken n i xs (omega arith)

-- One byte through a cache that has nothing unread and room for it.
write-one :
    (x : ℕ) (b : Buffer)
    → IsCache b
    → b.end < cache_size
    → write (x ∷ []) b
      ≡ ok (1, record b { content = copy_at b.end (x ∷ []) b.content; end = b.end + 1 })
unfolding write put
write-one x b ((p, q, r), z) room =
    rw
      (
        ==-apart b.end b.size (omega (arith, z, room)),
        put,
        le→ltb b.size b.end q,
        one_taken b.end b.size (omega (arith, z, room)),
      )
      refl

keep-At :
    (x : ℕ) (k : Conn) (b : Buffer) (seen : List ℕ)
    → IsCache b
    → b.end ≡ b.start
    → b.end < cache_size
    → take b.start b.content ≡ seen
    → (d : CachedConn) × (keep (x ∷ []) k b ≡ ok (x ∷ [], d)) × At (seen ++ (x ∷ [])) k.incoming d
unfolding keep advance
keep-At x k b seen ((p, q, r), z) e room f =
    let b1 : Buffer = record b { content = copy_at b.end (x ∷ []) b.content; end = b.end + 1 } in
    let shown : take (b.end + 1) b1.content ≡ seen ++ (x ∷ []) =
      take-copy_at b.end (x ∷ []) b.content (omega (arith, z, room, r))
      ∙ ap (λ xs. xs ++ (x ∷ [])) (take_as e b.content ∙ f) in
    (
      record { conn = k; cache = some (advance 1 b1) },
      rw (keep, write-one x b ((p, q, r), z) room) refl,
      (
        (
          (
            omega (arith, e),
            omega (arith, z, room),
            omega (arith, r, length-copy_at b.end (x ∷ []) b.content),
          ),
          z,
        ),
        take_as (omega (arith, e)) b1.content ∙ shown,
        ap (λ xs. xs ++ k.incoming) (drop_taken b1.end (b.start + 1) b1.content (omega (arith, e))),
      ),
    )

-- What a read of one byte makes of the bytes `xs` that come next.
abbrev of_stream : CachedConn → List ℕ → Result (List ℕ × CachedConn)
of_stream c xs =
    let bytes = take (min 1 1) xs in
    if length xs == 0
    then err (end_error c.conn 0)
    else keep bytes (taken (length bytes) c.conn) (cache_or_new c)

-- What a connection gives when nothing waits in the cache.
read_conn-At :
    (c : CachedConn) (x : ℕ) (seen rest : List ℕ)
    → At seen (x ∷ rest) c
    → (cache_or_new c).end ≡ (cache_or_new c).start
    → length seen < cache_size
    → (d : CachedConn) × (on_byte (read_conn 1 1 c) ≡ ok (x, d)) × At (seen ++ (x ∷ [])) rest d
unfolding read_conn
read_conn-At c x seen rest (v, e, f) none_left room =
    let b = cache_or_new c in
    let all_ahead : c.conn.incoming ≡ x ∷ rest =
      ap (λ xs. xs ++ c.conn.incoming)
        (sym (drop_taken b.end b.start b.content (omega (arith, none_left))))
      ∙ f in
    let place : length seen ≡ b.start =
      omega (arith, ap length e, length-take b.start b.content, v.0.0, v.0.1, v.0.2) in
    let (d, r, (t, u, w)) =
      keep-At x (taken 1 c.conn) b seen v none_left (omega (arith, none_left, place, room)) e in
    (
      d,
      ap (λ xs. on_byte (of_stream c xs)) all_ahead
          ∙ ap on_byte (rw (==-apart (length (x ∷ rest)) 0 (omega arith)) refl ∙ r),
      (t, u, w ∙ ap (drop 1) all_ahead),
    )

read_one :
    (b : Buffer)
    → IsValid b
    → 0 < length (unread b)
    → Buf.read 1 b ≡ ok (take 1 (unread b), advance 1 b)
unfolding Buf.read Buf.bytes advance
read_one b (p, q, r) h =
    rw
      (
        ==-apart b.end b.start (omega (arith, h, length-unread b (p, q, r))),
        slice_lem b.content b.start b.end p (omega (arith, q, r)),
      )
      (ap (λ m. ok (take 1 (unread b), record b { start = b.start + m })) (omega (arith, h)))

with_cache-At :
    (k : Conn) (b : Buffer) (x : ℕ) (seen rest : List ℕ)
    → At seen (x ∷ rest) (record { conn = k; cache = some b })
    → is_empty b ≡ false
    → (d : CachedConn) × (on_byte (with_cache (record { conn = k; cache = some b }) (Buf.read 1 b))
        ≡ ok (x, d))
      × At (seen ++ (x ∷ [])) rest d
unfolding advance
with_cache-At k b x seen rest ((w, z), e, f) waiting =
    let some_left : 0 < length (unread b) =
      omega (arith, length-unread b w, ==→ne b.end b.start waiting, w.0) in
    let first : take 1 (unread b) ≡ x ∷ [] =
      sym (take_append_le 1 (unread b) k.incoming (omega (arith, some_left))) ∙ ap (take 1) f in
    (
      record { conn = k; cache = some (advance 1 b) },
      ap (λ r. on_byte (with_cache (record { conn = k; cache = some b }) r))
            (read_one b w some_left)
          ∙ ap (λ xs. on_byte (ok (xs, record { conn = k; cache = some (advance 1 b) }))) first,
      (
        (advance-IsValid 1 b w (omega (arith, some_left)), z),
        seen-advance 1 b w (omega (arith, some_left)) ∙ ap₂ ◌++◌ e first,
        ap (λ xs. xs ++ k.incoming) (unread-advance 1 b)
            ∙ sym (drop_append_le 1 (unread b) k.incoming (omega (arith, some_left)))
            ∙ ap (drop 1) f,
      ),
    )

read_place :
    (k : Conn) (o : Option Buffer) (x : ℕ) (seen rest : List ℕ)
    → At seen (x ∷ rest) (record { conn = k; cache = o })
    → length seen < cache_size
    → (d : CachedConn) × (read_byte (record { conn = k; cache = o }) ≡ ok (x, d))
      × At (seen ++ (x ∷ [])) rest d
unfolding read_byte read new_cache
read_place k none x seen rest h room =
    read_conn-At (record { conn = k; cache = none }) x seen rest h refl room
read_place k (some b) x seen rest h room = elim (Bool-cases (is_empty b)) [
  | inl drained ↦
      let (d, r, t) =
        read_conn-At (record { conn = k; cache = some b }) x seen rest h
          (==→eq b.end b.start drained) room in
      (d, rw (drained) r, t)
  | inr waiting ↦ let (d, r, t) = with_cache-At k b x seen rest h waiting in (d, rw (waiting) r, t)
]

-- `Read` of one byte gives the next byte of the stream, from the cache or from the connection, and
-- keeps it, as long as the cache has room.
pub read_byte-At :
    (c : CachedConn) (x : ℕ) (seen rest : List ℕ)
    → At seen (x ∷ rest) c
    → length seen < cache_size
    → (d : CachedConn) × (read_byte c ≡ ok (x, d)) × At (seen ++ (x ∷ [])) rest d
read_byte-At c x seen rest h room = read_place c.conn c.cache x seen rest h room
