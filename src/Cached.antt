-- ===== src/Cached.antt =====
-- common/bufio/cached.go: a connection that keeps what was read from it, so that a sniffer can look at
-- the stream and rewind. A read of a stalled stream ends at the read deadline, and without one does not
-- return, which is the error `no_return` here. How many bytes a read of the connection gives beyond
-- those it needs is a parameter `burst`, a function of how many are still to come: since each read takes
-- some, every read of a run may have a size of its own. A pooled buffer comes with zeros for its old
-- content, which is never looked at. A result that is an error does not tell the connection behind it.
pub mod Reads
pub mod Peeks
pub mod Until
pub mod Returns
pub mod Ends
use zbproxy_a.Base.{
  ℕ, zero, suc, ◌+◌, ◌-◌, ◌≤◌, List, [], ◌∷◌, ◌++◌, Bool, true, false, ltb, leb, ◌==◌, ◌&&◌, not,
  if◌then◌else◌, length, take, drop, copy_at, replicate, Option, none, some, min, ◌≡◌,
}
use zbproxy_a.Wire.{set_read_deadline, Conn, Ending, closes, breaks, stalls}
use zbproxy_a.Buf.{
  Buffer, Result, ok, err, panic, then_do, eof, short_buffer, unexpected_eof, network, no_return,
  is_empty, is_full, rewind, advance, write,
}
use zbproxy_a.Buf as Buf

pub record CachedConn : Type 0 where
  pub conn : Conn
  pub cache : Option Buffer

abbrev pub cache_size : ℕ
cache_size = 4096

unfoldable pub new_cache : Buffer
new_cache = record {
  content = replicate cache_size 0;
  size = cache_size;
  start = 0;
  end = 0;
  managed = true;
  closed = false;
}

abbrev pub cache_or_new : CachedConn → Buffer
cache_or_new c = elim c.cache [ none ↦ new_cache | some b ↦ b ]

unfoldable pub new_cached_conn : Conn → CachedConn
new_cached_conn c = record { conn = c; cache = none }

-- `conn.SetReadDeadline(time.Now().Add(10 * time.Second))`, of which each read gets one of its own, and
-- `conn.SetReadDeadline(time.Time{})`.
abbrev pub timed : CachedConn → CachedConn
timed c = record c { conn = set_read_deadline (some 10_000_000_000) c.conn }

abbrev pub untimed : CachedConn → CachedConn
untimed c = record c { conn = set_read_deadline none c.conn }

-- What a read says at the end of the stream, with `n` bytes read before. On a stalled stream it fails
-- at the deadline, and without one does not return.
abbrev pub end_error : Conn → ℕ → Buf.Error
end_error c n = elim c.ending [
  | closes ↦ if n == 0 then eof else unexpected_eof
  | breaks ↦ network
  | stalls ↦ elim c.deadline [ some d ↦ network | none ↦ no_return ]
]

abbrev pub taken : ℕ → Conn → Conn
taken n c = record c { incoming = drop n c.incoming }

-- The bytes that `conn.Read` gave go through the cache, which must have room for them.
unfoldable pub keep : List ℕ → Conn → Buffer → Result (List ℕ × CachedConn)
unfolding write advance
keep bytes c b = elim (write bytes b) [
  | panic ↦ panic
  | err e ↦ err short_buffer
  | ok r ↦
      if r.0 == length bytes
      then ok (bytes, record { conn = c; cache = some (advance r.0 r.1) })
      else err short_buffer
]

-- `Read` into a slice of length `n`, where the connection gives at most `k` bytes at once.
unfoldable pub read_conn : ℕ → ℕ → CachedConn → Result (List ℕ × CachedConn)
unfolding keep new_cache
read_conn k n c =
    let bytes = take (min k n) c.conn.incoming in
    if length c.conn.incoming == 0
    then err (end_error c.conn 0)
    else keep bytes (taken (length bytes) c.conn) (cache_or_new c)

abbrev pub with_cache : CachedConn → Result (List ℕ × Buffer) → Result (List ℕ × CachedConn)
with_cache c (ok r) = ok (r.0, record c { cache = some r.1 })
with_cache c (err e) = err e
with_cache c panic = panic

unfoldable pub read : ℕ → ℕ → CachedConn → Result (List ℕ × CachedConn)
unfolding read_conn
read k n c = elim c.cache [
  | none ↦ read_conn k n c
  | some b ↦ if not (is_empty b) then with_cache c (Buf.read n b) else read_conn k n c
]

-- The byte reader that `rw.CreateByteReader` makes: a read into a slice of length 1.
abbrev pub on_byte : Result (List ℕ × CachedConn) → Result (ℕ × CachedConn)
on_byte (ok (x ∷ xs, c)) = ok (x, c)
on_byte (ok ([], c)) = panic
on_byte (err e) = err e
on_byte panic = panic

unfoldable pub read_byte : CachedConn → Result (ℕ × CachedConn)
unfolding read
read_byte c = on_byte (read 1 1 c)

-- `ReadAtLeastFrom` on the cache: at least `need` bytes, and at most as many as there is room for.
-- The parameter tells how many the connection gives.
unfoldable pub read_at_least_from : (ℕ → ℕ) → ℕ → Conn → Buffer → Result (Buffer × Conn)
read_at_least_from burst need c b =
    let free = b.size - b.end in
    let bytes = take (min (need + burst (length c.incoming)) free) c.incoming in
    if is_full b
    then err short_buffer
    else if ltb free need
    then err short_buffer
    else if ltb (length c.incoming) need
    then err (end_error c (length c.incoming))
    else ok (
      record b { content = copy_at b.end bytes b.content; end = b.end + length bytes },
      taken (length bytes) c,
    )

abbrev pub peek_cache : ℕ → Buffer × Conn → Result (List ℕ × CachedConn)
peek_cache n r = with_cache (record { conn = r.1; cache = some r.0 }) (Buf.peek n r.0)

-- `Peek`, of a length that is not negative.
unfoldable pub peek : (ℕ → ℕ) → ℕ → CachedConn → Result (List ℕ × CachedConn)
unfolding read_at_least_from new_cache
peek burst n c =
    let b = cache_or_new c in
    let need = n - (b.end - b.start) in
    if ltb 0 need
    then then_do (read_at_least_from burst need c.conn b) (peek_cache n)
    else peek_cache n (b, c.conn)

unfoldable pub rewind_conn : ℕ → CachedConn → CachedConn
unfolding rewind
rewind_conn position c = elim c.cache [
  | none ↦ c
  | some b ↦ record c { cache = some (rewind position b) }
]

-- `Release`: the cache goes back to the pool, and is nil from then on.
unfoldable pub release : CachedConn → CachedConn
release c = record c { cache = none }

-- `CurrentPosition`, -1 with no cache.
unfoldable pub current_position : CachedConn → Option ℕ
current_position c = elim c.cache [ none ↦ none | some b ↦ some b.start ]

-- The stream with what was read of it, and the place that reading has come to.
abbrev pub IsCache : Buffer → Type 0
IsCache b = Buf.IsValid b × (b.size ≡ cache_size)

abbrev pub At : List ℕ → List ℕ → CachedConn → Type 0
At seen ahead c =
    IsCache (cache_or_new c)
    × (take (cache_or_new c).start (cache_or_new c).content ≡ seen)
    × (Buf.unread (cache_or_new c) ++ c.conn.incoming ≡ ahead)
