-- ===== src/Cached/Returns.antt =====
-- common/bufio/cached.go: the loop of `PeekUntil` ends. Each round but the last reads at least a byte,
-- and the cache has room for 4096.
use zbproxy_a.Base.{
  ℕ, zero, suc, ◌-◌, ◌<◌, ◌≤◌, List, length, Option-cases, none, some, ◌≡◌, ◌≢◌, refl, arith, inl,
  inr,
}
use zbproxy_a.Wire.{Conn, stalls}
use zbproxy_a.Buf.{Buffer, Result, ok, err, panic, no_return, unread}
use zbproxy_a.Cached.{CachedConn, cache_or_new, cache_size, read_at_least_from, end_error}
use zbproxy_a.Cached.Until.{Found, find_end, reads_on, peek_until_loop, peek_until, room_left}

reads_on_ends :
    (r : Result (Buffer × Conn)) (f : Buffer × Conn → Found)
    → ((d : Buffer) (e : Conn) → r ≡ ok (d, e) → f (d, e) ≢ none)
    → reads_on r f ≢ none
unfolding reads_on
reads_on_ends (ok (d, e)) f h = h d e refl
reads_on_ends (err e) f h = λ q. cc
reads_on_ends panic f h = λ q. cc

loop_ends :
    (rounds : ℕ) (burst : ℕ → ℕ) (ends : List (List ℕ)) (b : Buffer) (c : Conn)
    → b.size - b.end < rounds
    → peek_until_loop rounds burst ends b c ≢ none
unfolding peek_until_loop
loop_ends zero burst ends b c h = elim h [ ]
loop_ends (suc rounds) burst ends b c h = elim (Option-cases (find_end ends (unread b))) [
  | inr ((i, e), found) ↦ rw (peek_until_loop, found) (λ q. cc)
  | inl none_yet ↦
      rw (peek_until_loop, none_yet)
        (reads_on_ends (read_at_least_from burst 1 c b)
          (λ r. peek_until_loop rounds burst ends r.0 r.1)
          (λ d e q.
            let (size, less, fits) = room_left burst b c d e q in
            loop_ends rounds burst ends d e (omega (arith, h, size, less, fits))))
]

peek_until_enough :
    (burst : ℕ → ℕ) (ends : List (List ℕ)) (c : CachedConn)
    → (cache_or_new c).size ≤ cache_size
    → peek_until burst ends c ≢ none
unfolding peek_until
peek_until_enough burst ends c h =
    loop_ends (suc cache_size) burst ends (cache_or_new c) c.conn (omega (arith, h))

-- The stream ends, or else there is a deadline.
abbrev pub Bounded : Conn → Type 0
Bounded c = c.ending ≡ stalls → c.deadline ≢ none

end_error_returns : (c : Conn) (n : ℕ) → Bounded c → end_error c n ≢ no_return
end_error_returns c n h = λ q. ground (arith, q, h)

read_returns :
    (burst : ℕ → ℕ) (need : ℕ) (c : Conn) (b : Buffer)
    → Bounded c
    → read_at_least_from burst need c b ≢ err no_return
unfolding read_at_least_from
read_returns burst need c b h = λ q. ground (arith, q, h, end_error_returns c (length c.incoming) h)

read-Bounded :
    (burst : ℕ → ℕ) (need : ℕ) (c : Conn) (b : Buffer) (d : Buffer) (e : Conn)
    → read_at_least_from burst need c b ≡ ok (d, e)
    → Bounded c
    → Bounded e
unfolding read_at_least_from
read-Bounded burst need c b d e q h = ground (arith, q, h)

reads_on_returns :
    (r : Result (Buffer × Conn)) (f : Buffer × Conn → Found)
    → r ≢ err no_return
    → ((d : Buffer) (e : Conn) → r ≡ ok (d, e) → f (d, e) ≢ some (err no_return))
    → reads_on r f ≢ some (err no_return)
unfolding reads_on
reads_on_returns (ok (d, e)) f n h = h d e refl
reads_on_returns (err e) f n h = λ q. n cc
reads_on_returns panic f n h = λ q. cc

loop_returns :
    (rounds : ℕ) (burst : ℕ → ℕ) (ends : List (List ℕ)) (b : Buffer) (c : Conn)
    → Bounded c
    → peek_until_loop rounds burst ends b c ≢ some (err no_return)
unfolding peek_until_loop
loop_returns zero burst ends b c h = λ q. cc
loop_returns (suc rounds) burst ends b c h = elim (Option-cases (find_end ends (unread b))) [
  | inr ((i, e), found) ↦ rw (peek_until_loop, found) (λ q. cc)
  | inl none_yet ↦
      rw (peek_until_loop, none_yet)
        (reads_on_returns (read_at_least_from burst 1 c b)
          (λ r. peek_until_loop rounds burst ends r.0 r.1) (read_returns burst 1 c b h)
          (λ d e q. loop_returns rounds burst ends d e (read-Bounded burst 1 c b d e q h)))
]

-- On a stream that ends, or with a read deadline, `PeekUntil` returns, however the bytes arrive: the
-- rounds that it is given are enough, and no read of them waits for ever.
pub peek_until_returns :
    (burst : ℕ → ℕ) (ends : List (List ℕ)) (c : CachedConn)
    → (cache_or_new c).size ≤ cache_size
    → Bounded c.conn
    → (peek_until burst ends c ≢ none) × (peek_until burst ends c ≢ some (err no_return))
unfolding peek_until
peek_until_returns burst ends c h bounded = (
  peek_until_enough burst ends c h,
  loop_returns (suc cache_size) burst ends (cache_or_new c) c.conn bounded,
)
