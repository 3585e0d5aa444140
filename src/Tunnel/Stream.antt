-- ===== src/Tunnel/Stream.antt =====
-- Two ends of a tunnel of common/udptunnel (listener.go, dial.go) over a network that may drop,
-- delay, reorder and repeat datagrams. Each end runs the methods of session.go in any order; what an
-- end has ever sent stays in its `out`, and a receive takes any datagram of the peer's `out`.
pub mod Kept
pub mod Handlers
pub mod Sound
pub mod Steps
pub mod Writes
pub mod Delivery
use zbproxy_a.Base.{
  ℕ, ◌≡◌, ◌⊎◌, List, [], ◌∷◌, ◌++◌, Bool, Option, if◌then◌else◌, not, ◌&&◌, ◌==◌, ltb, length, take,
  min,
}
use zbproxy_a.Tunnel.Limits.{max_payload, max_in_flight}
use zbproxy_a.Tunnel.Frame.{Frame, ok, decode}
use zbproxy_a.Tunnel.Session.{Session, Effect, new_session}
use zbproxy_a.Tunnel.Session.Packets.{datagrams}
use zbproxy_a.Tunnel.Session.Receive.{ReadOutcome, got, read}
use zbproxy_a.Tunnel.Session.Send.{Writer, write_step, retransmit_tick}
use zbproxy_a.Tunnel.Session.Handler.{on_packet, force_close, close}

-- A session with its history: the chunks that `write` numbered, the bytes that `read` returned and
-- the datagrams that were sent.
pub record End : Type 0 where
  pub session : Session
  pub written : List (List ℕ)
  pub delivered : List ℕ
  pub out : List (List ℕ)

unfoldable pub fresh_end : ℕ → ℕ → ℕ → End
fresh_end id peer now = record {
  session = new_session id peer now;
  written = [];
  delivered = [];
  out = [];
}

abbrev pub with_result : End → Session × List Effect → End
with_result e r = record e { session = r.0; out = e.out ++ datagrams r.1 }

-- Whether a round of `write` numbers a chunk, and which.
abbrev pub enqueues : Writer → Session → Bool
enqueues w s =
    not (length w.rest == 0)
    && not s.closed
    && not s.write_fin
    && ltb (length s.send_slots) max_in_flight

abbrev pub next_chunk : Writer → List ℕ
next_chunk w = take (min (length w.rest) max_payload) w.rest

abbrev pub bytes_of : ReadOutcome → List ℕ
bytes_of (got bs) = bs
bytes_of _ = []

unfoldable pub after_write : Writer → ℕ → Bool → End → End
after_write w now io e =
    let r = write_step w now io e.session in
    record e {
      session = r.0;
      out = e.out ++ datagrams r.2;
      written = e.written ++ (if enqueues w e.session then next_chunk w ∷ [] else []);
    }

unfoldable pub after_read : ℕ → End → End
after_read n e =
    let r = read n e.session in record e { session = r.0; delivered = e.delivered ++ bytes_of r.1 }

abbrev pub Occurs : List ℕ → List (List ℕ) → Type 0
Occurs d [] = ⊥
Occurs d (x ∷ xs) = (x ≡ d) ⊎ Occurs d xs

-- What an end can do while its peer has sent `inbox`. `abort` is `forceCloseLocked` by the idle timer,
-- the listener's `Close` or the dialer's `shutdown`.
pub data EndStep (inbox : List (List ℕ)) (e : End) : End → Type 0 where
  write_round : (w : Writer) (now : ℕ) (io : Bool) → EndStep inbox e (after_write w now io e)
  read_call : (n : ℕ) → EndStep inbox e (after_read n e)
  tick : (now : ℕ) → EndStep inbox e (with_result e (retransmit_tick now e.session))
  packet :
      (f : Frame) (source : Option ℕ) (now : ℕ) (d : List ℕ)
      → Occurs d inbox
      → decode d ≡ ok f
      → EndStep inbox e (with_result e (on_packet f source now e.session))
  close_call : EndStep inbox e (with_result e (close e.session))
  abort : EndStep inbox e (with_result e (force_close e.session, []))

-- A run of both ends from a fresh pair.
pub data Run (id p q now : ℕ) : End → End → Type 0 where
  start : Run id p q now (fresh_end id p now) (fresh_end id q now)
  left : {a b c : End} → Run id p q now a b → EndStep b.out a c → Run id p q now c b
  right : {a b c : End} → Run id p q now a b → EndStep a.out b c → Run id p q now a c
