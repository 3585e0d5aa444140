-- ===== src/Cached/Until.antt =====
-- common/bufio/cached.go: `PeekUntil`. Each round of the loop looks through what is held for each of the
-- ends in turn, and reads on if none is there; fuel counts the rounds, and none is left over.
use zbproxy_a.Base.{
  ℕ, zero, suc, ◌+◌, ◌-◌, ◌<◌, ◌≤◌, List, [], ◌∷◌, ◌++◌, Bool, true, false, ◌==◌, ◌&&◌, leb,
  if◌then◌else◌, length, length-append, length-take, min, take, drop, take_append_le, Option, none,
  some, ◌≡◌, refl, sym, ap, ap₂, ◌∙◌, arith, Bool-cases, inl, inr, leb→le, leb→lt,
}
use zbproxy_a.Wire.{Conn}
use zbproxy_a.Buf.{Buffer, Result, ok, err, panic, unread, advance}
use zbproxy_a.Buf.Slices.{drop_append_le}
use zbproxy_a.Buf.Queue.Methods.{length-unread}
use zbproxy_a.Mc.Strings.{advance-IsValid, unread-advance}
use zbproxy_a.Cached.{CachedConn, At, cache_or_new, cache_size, read_at_least_from}
use zbproxy_a.Cached.Peeks.{seen-advance, read_at_least_from-More}

unfoldable pub starts_with : List ℕ → List ℕ → Bool
starts_with [] xs = true
starts_with (e ∷ es) [] = false
starts_with (e ∷ es) (x ∷ xs) = (e == x) && starts_with es xs

-- `bytes.Index`
unfoldable pub index_of : List ℕ → List ℕ → Option ℕ
unfolding starts_with
index_of e [] = if length e == 0 then some 0 else none
index_of e (x ∷ xs) =
    if starts_with e (x ∷ xs)
    then some 0
    else elim (index_of e xs) [ none ↦ none | some i ↦ some (suc i) ]

-- The first of the ends that is there, with its place.
unfoldable pub find_end : List (List ℕ) → List ℕ → Option (ℕ × List ℕ)
unfolding index_of
find_end [] held = none
find_end (e ∷ ends) held = elim (index_of e held) [
  | some i ↦ some (i, e)
  | none ↦ find_end ends held
]

abbrev pub Found : Type 0
Found = Option (Result (List ℕ × List ℕ × CachedConn))

-- A failed read ends the loop.
unfoldable pub reads_on : Result (Buffer × Conn) → (Buffer × Conn → Found) → Found
reads_on (ok r) next = next r
reads_on (err e) next = some (err e)
reads_on panic next = some panic

unfoldable pub peek_until_loop : ℕ → (ℕ → ℕ) → List (List ℕ) → Buffer → Conn → Found
unfolding find_end advance reads_on
peek_until_loop zero burst ends b c = none
peek_until_loop (suc rounds) burst ends b c = elim (find_end ends (unread b)) [
  | some (i, e) ↦
      some (ok (take i (unread b), e, record { conn = c; cache = some (advance (i + length e) b) }))
  | none ↦
      reads_on (read_at_least_from burst 1 c b) (λ r. peek_until_loop rounds burst ends r.0 r.1)
]

unfoldable pub peek_until : (ℕ → ℕ) → List (List ℕ) → CachedConn → Found
unfolding peek_until_loop
peek_until burst ends c = peek_until_loop (suc cache_size) burst ends (cache_or_new c) c.conn

-- Each read gives at least a byte, which takes room in the cache.
pub room_left :
    (burst : ℕ → ℕ) (b : Buffer) (c : Conn) (d : Buffer) (e : Conn)
    → read_at_least_from burst 1 c b ≡ ok (d, e)
    → (d.size ≡ b.size) × (b.end < d.end) × (d.end ≤ d.size)
unfolding read_at_least_from
room_left burst b c d e h =
    ground (arith, length-take (min (1 + burst (length c.incoming)) (b.size - b.end)) c.incoming)

-- Whether an end shows in the first bytes of the stream, it is the same end at the same place.
abbrev pub EndsAt : List (List ℕ) → List ℕ → ℕ → List ℕ → Type 0
EndsAt ends ahead i e =
    (p q : List ℕ)
    → p ++ q ≡ ahead
    → find_end ends p ≡ (if leb (i + length e) (length p) then some (i, e) else none)

-- A round that finds an end.
loop_found :
    (rounds : ℕ) (burst : ℕ → ℕ) (ends : List (List ℕ)) (b : Buffer) (c : Conn) (i : ℕ) (e : List ℕ)
    → find_end ends (unread b) ≡ some (i, e)
    → peek_until_loop (suc rounds) burst ends b c
      ≡ some
          (ok (take i (unread b), e, record { conn = c; cache = some (advance (i + length e) b) }))
unfolding peek_until_loop
loop_found rounds burst ends b c i e found =
    let next : Buffer × Conn → Found = (λ r. peek_until_loop rounds burst ends r.0 r.1) in
    ap
      (λ o. elim o as (λ x. Found) [
        | some (j, g) ↦ some (
            ok (take j (unread b), g, record { conn = c; cache = some (advance (j + length g) b) }))
        | none ↦ reads_on (read_at_least_from burst 1 c b) next
      ])
      found

-- An end that is held already is given at once.
pub peek_until_held :
    (burst : ℕ → ℕ) (ends : List (List ℕ)) (c : Conn) (b : Buffer) (i : ℕ) (e : List ℕ)
    → find_end ends (unread b) ≡ some (i, e)
    → peek_until burst ends (record { conn = c; cache = some b })
      ≡ some
          (ok (take i (unread b), e, record { conn = c; cache = some (advance (i + length e) b) }))
unfolding peek_until
peek_until_held burst ends c b i e found = loop_found cache_size burst ends b c i e found

-- A round that finds no end and reads on.
loop_step :
    (rounds : ℕ) (burst : ℕ → ℕ) (ends : List (List ℕ)) (b : Buffer) (c : Conn) (d : Buffer)
    (k : Conn)
    → find_end ends (unread b) ≡ none
    → read_at_least_from burst 1 c b ≡ ok (d, k)
    → peek_until_loop (suc rounds) burst ends b c ≡ peek_until_loop rounds burst ends d k
unfolding peek_until_loop reads_on
loop_step rounds burst ends b c d k none_yet more =
    let next : Buffer × Conn → Found = (λ r. peek_until_loop rounds burst ends r.0 r.1) in
    ap
      (λ o. elim o as (λ x. Found) [
        | some (i, e) ↦ some (
            ok (take i (unread b), e, record { conn = c; cache = some (advance (i + length e) b) }))
        | none ↦ reads_on (read_at_least_from burst 1 c b) next
      ])
      none_yet
    ∙ ap (λ r. reads_on r next) more

-- The loop from a cache that stands at `ahead`, with `seen` behind it.
pub loop-EndsAt :
    (rounds : ℕ) (burst : ℕ → ℕ) (ends : List (List ℕ)) (b : Buffer) (c : Conn)
    (seen ahead : List ℕ)
    → (i : ℕ) (e : List ℕ) → At seen ahead (record { conn = c; cache = some b })
    → EndsAt ends ahead i e
    → length seen + (i + length e) ≤ cache_size
    → i + length e ≤ length ahead
    → b.size - b.end < rounds
    → (d : CachedConn) × (peek_until_loop rounds burst ends b c ≡ some (ok (take i ahead, e, d)))
      × At (seen ++ take (i + length e) ahead) (drop (i + length e) ahead) d
unfolding peek_until_loop advance reads_on
loop-EndsAt zero burst ends b c seen ahead i e v at fits enough h = elim h [ ]
loop-EndsAt (suc rounds) burst ends b c seen ahead i e ((v, z), s, f) at fits enough h =
    let n = i + length e in
    let found = at (unread b) c.incoming f in
    elim (Bool-cases (leb n (length (unread b)))) [
      | inl there ↦
          let held : n ≤ length (unread b) = leb→le _ _ there in
          let first : (k : ℕ) → k ≤ length (unread b) → take k (unread b) ≡ take k ahead =
            (λ k m. sym (take_append_le k (unread b) c.incoming m) ∙ ap (take k) f) in
          (
            record { conn = c; cache = some (advance n b) },
            rw (peek_until_loop, found, there)
                (ap (λ x. some (ok (x, e, record { conn = c; cache = some (advance n b) })))
                  (first i (omega (arith, held)))),
            (
              (advance-IsValid n b v held, z),
              seen-advance n b v held ∙ ap₂ ◌++◌ s (first n held),
              ap (λ xs. xs ++ c.incoming) (unread-advance n b)
                  ∙ sym (drop_append_le n (unread b) c.incoming held)
                  ∙ ap (drop n) f,
            ),
          )
      | inr beyond ↦
          let short = leb→lt _ _ beyond in
          let size = length-unread b v in
          let place : length seen ≡ b.start =
            omega (arith, ap length s, length-take b.start b.content, v.0, v.1, v.2) in
          let total : length (unread b) + length c.incoming ≡ length ahead =
            sym (length-append (unread b) c.incoming) ∙ ap length f in
          let (d, k, r, (w, g, l, m)) =
            read_at_least_from-More burst 1 c b (v, z) (omega arith)
              (omega (arith, short, size, place, v.0, v.1, z, fits))
              (omega (arith, short, total, enough)) in
          let (same_size, less, within) = room_left burst b c d k r in
          let (x, y, u) =
            loop-EndsAt rounds burst ends d k seen ahead i e (w, g ∙ s, l ∙ f) at fits enough
              (omega (arith, h, same_size, less, within)) in
          let none_yet : find_end ends (unread b) ≡ none = found ∙ (rw beyond refl) in
          (x, loop_step rounds burst ends b c d k none_yet r ∙ y, u)
    ]
