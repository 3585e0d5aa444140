-- ===== src/Tunnel/Stream/Delivery.antt =====
-- The tunnel delivers the stream: what two ends do over a network that drops, delays, reorders and
-- repeats datagrams.
use zbproxy_a.Base.{
  ℕ, zero, suc, ◌+◌, ◌^◌, ◌≤◌, ◌<◌, ◌≡◌, refl, sym, ap, ◌∙◌, List, ◌++◌, false, arith, length,
  concat, take, drop, get_or, replicate, length-append, take_append_le, get_elem?-append,
  take-append-drop, concat-append, append_assoc,
}
use zbproxy_a.Tunnel.Limits.{max_in_flight}
use zbproxy_a.Tunnel.Session.{Session, new_session}
use zbproxy_a.Tunnel.Session.Window.{Receives}
use zbproxy_a.Tunnel.Session.Slots.{HasSlot}
use zbproxy_a.Tunnel.Stream.{
  End, EndStep, write_round, read_call, tick, packet, close_call, abort, after_write, after_read,
  Run, start, left, right, fresh_end,
}
use zbproxy_a.Tunnel.Stream.Sound.{
  Sound, Advances, same-Advances, packet-Advances, good_frame, Occurs-All,
}
use zbproxy_a.Tunnel.Stream.Handlers.{force_close-SameStream}
use zbproxy_a.Tunnel.Stream.Steps.{read-Advances, tick-Advances, close-Advances}
use zbproxy_a.Tunnel.Stream.Writes.{write-Advances}

-- Every step of an end keeps its side, while fewer than 2 ^ 32 chunks were written either way.
step-Advances :
    {b a a' : End}
    → EndStep b.out a a'
    → length a'.written < 2 ^ 32
    → length b.written < 2 ^ 32
    → Sound a b
    → Sound b a
    → Advances b a a'
step-Advances {b} {a} (write_round w now io) few_a few h p = write-Advances b a few h w now io few_a
step-Advances {b} {a} (read_call n) few_a few h p = read-Advances b a few h n
step-Advances {b} {a} (tick now) few_a few h p = tick-Advances b a few h now few_a
step-Advances {b} {a} (packet f source now d occurs e) few_a few h p =
    let (sent, ack) =
      good_frame b.written b.session.recv_next d f e (Occurs-All _ d b.out occurs p.good) in
    packet-Advances b a few h f source now sent ack
step-Advances {b} {a} close_call few_a few h p = close-Advances b a few h
step-Advances {b} {a} abort few_a few h p =
    same-Advances b a few h (force_close-SameStream a.session)

Receives-grow :
    (c more : List (List ℕ)) (d : List ℕ) (s : Session) → Receives c d s → Receives (c ++ more) d s
Receives-grow c more d s r = record {
  next_le = omega (arith, r.next_le, length-append c more);
  stream = rw (take_append_le s.recv_next c more r.next_le) r.stream;
  buf_size = r.buf_size;
  valid_size = r.valid_size;
  window = λ i h. get_elem?-append c more (s.recv_next + i) (r.window i h);
}

-- The peer of an end that took a step.
peer-Sound : {b a a' : End} → Advances b a a' → Sound b a → Sound b a'
peer-Sound {b} {a} {a'} v p = record {
  holds = p.holds;
  receives = rw v.grows (Receives-grow a.written v.more b.delivered b.session p.receives);
  good = p.good;
  covers = λ n lo hi. p.covers n (omega (arith, v.forward)) hi;
}

length-step :
    {inbox : List (List ℕ)} {a a' : End} → EndStep inbox a a' → length a.written ≤ length a'.written
unfolding after_write after_read
length-step {inbox} {a} (write_round w now io) = omega (arith, length-append {0} a.written)
length-step (read_call n) = omega arith
length-step (tick now) = omega arith
length-step (packet f source now d occurs e) = omega arith
length-step close_call = omega arith
length-step abort = omega arith

pub get_or-replicate : (n i : ℕ) → get_or (replicate n false) i false ≡ false
get_or-replicate zero i = refl
get_or-replicate (suc n) zero = refl
get_or-replicate (suc n) (suc i) = get_or-replicate n i

fresh-Sound : (id p q now : ℕ) → id < 2 ^ 64 → Sound (fresh_end id p now) (fresh_end id q now)
unfolding fresh_end new_session
fresh-Sound id p q now h = record {
  holds = ground arith;
  receives = record {
    next_le = omega arith;
    stream = refl;
    buf_size = refl;
    valid_size = refl;
    window = λ i e. cc (get_or-replicate 32 i);
  };
  good = tt;
  covers = λ n lo hi. absurd (omega arith);
}

-- The invariant of every run with a 64-bit session id in which neither end numbers a chunk beyond the
-- 32 bits of a sequence number.
pub Run-Sound :
    {id p q now : ℕ} {a b : End}
    → Run id p q now a b
    → id < 2 ^ 64
    → length a.written < 2 ^ 32
    → length b.written < 2 ^ 32
    → Sound a b × Sound b a
Run-Sound {id} {p} {q} {now} start h few_a few_b =
    (fresh-Sound id p q now h, fresh-Sound id q p now h)
Run-Sound (left r st) h few_c few_b =
    let (sa, sb) = Run-Sound r h (omega (arith, length-step st)) few_b in
    let v = step-Advances st few_c few_b sa sb in (v.sound, peer-Sound v sb)
Run-Sound (right r st) h few_a few_c =
    let (sa, sb) = Run-Sound r h few_a (omega (arith, length-step st)) in
    let v = step-Advances st few_c few_a sb sa in (peer-Sound v sa, v.sound)

-- What the receiving application has read is a prefix of the bytes that the sending one wrote: the
-- tunnel neither loses, repeats, reorders nor alters a byte of what it delivers. It holds of every
-- run with a 64-bit session id in which each end numbered fewer than 2 ^ 32 chunks.
pub delivered-IsPrefix :
    {id p q now : ℕ} {a b : End}
    → Run id p q now a b
    → id < 2 ^ 64
    → length a.written < 2 ^ 32
    → length b.written < 2 ^ 32
    → (rest : List ℕ) × (concat a.written ≡ b.delivered ++ rest)
delivered-IsPrefix {a = a} {b = b} r h few_a few_b =
    let (sa, sb) = Run-Sound r h few_a few_b in
    let n = b.session.recv_next in
    (
      b.session.read_buf ++ concat (drop n a.written),
      ap concat (sym (take-append-drop n a.written))
          ∙ concat-append (take n a.written) (drop n a.written)
          ∙ ap (λ t. t ++ concat (drop n a.written)) (sym sb.receives.stream)
          ∙ append_assoc b.delivered b.session.read_buf (concat (drop n a.written)),
    )

-- Nothing that the peer still awaits is forgotten: in every run as above, the sender keeps a slot for
-- each chunk that it has numbered and that the peer has not taken in order, and never more slots than
-- the window has.
pub awaited-HasSlot :
    {id p q now : ℕ} {a b : End}
    → Run id p q now a b
    → id < 2 ^ 64
    → length a.written < 2 ^ 32
    → length b.written < 2 ^ 32
    → ((n : ℕ) → b.session.recv_next ≤ n → n < length a.written → HasSlot n a.session.send_slots)
      × (length a.session.send_slots ≤ max_in_flight)
awaited-HasSlot r h few_a few_b =
    let (sa, sb) = Run-Sound r h few_a few_b in (sa.covers, sa.holds.window_le)
