-- ===== src/Tunnel/Conn.antt =====
-- common/udptunnel/conn.go: the connection that the application holds, with its deadlines. What
-- `Read` does between two waits is one round, and what ends a wait an argument.
pub mod Ready
use zbproxy_a.Base.{
  ℕ, Bool, true, false, not, ◌&&◌, ◌||◌, ◌==◌, ltb, length, if◌then◌else◌, Option, none, some,
}
use zbproxy_a.Tunnel.Session.{Session}
use zbproxy_a.Tunnel.Session.Receive.{ReadOutcome, read}

-- A time is a number, and 0 the zero time, which is no deadline.
pub record Conn : Type 0 where
  pub session : Session
  pub read_deadline : ℕ
  pub write_deadline : ℕ

unfoldable pub new_conn : Session → Conn
new_conn s = record { session = s; read_deadline = 0; write_deadline = 0 }

unfoldable pub set_deadline : ℕ → Conn → Conn
set_deadline t c = record c { read_deadline = t; write_deadline = t }

unfoldable pub set_read_deadline : ℕ → Conn → Conn
set_read_deadline t c = record c { read_deadline = t }

unfoldable pub set_write_deadline : ℕ → Conn → Conn
set_write_deadline t c = record c { write_deadline = t }

abbrev pub expired : ℕ → ℕ → Bool
expired deadline now = not (deadline == 0) && ltb deadline now

abbrev pub ready : Session → Bool
ready s = ltb 0 (length s.read_buf) || s.read_eof || s.closed

-- Where a round of `Read` leads: into `session.read`, which is a critical section of its own, to the
-- error `errTimeout`, or to a wait for `readWait` and the timer.
pub data Round : Type 0 where
  goes_on timed_out waits : Round

unfoldable pub read_round : ℕ → Conn → Round
read_round now c =
    if c.read_deadline == 0
    then goes_on
    else if ltb c.read_deadline now
    then timed_out
    else if ready c.session
    then goes_on
    else waits

-- What ends a wait: the token of `readWait`, which is taken, at some time, or the timer.
pub data Wake : Type 0 where
  token : ℕ → Wake
  timer : Wake

unfoldable pub wake : Wake → Conn → Conn × Round
unfolding read_round
wake (token now) c =
    let after = record c { session = record c.session { read_wait = false } } in
    (after, read_round now after)
wake timer c = (c, timed_out)

-- `Write` looks at its deadline once, before the first chunk.
unfoldable pub write_begins : ℕ → Conn → Round
write_begins now c = if expired c.write_deadline now then timed_out else goes_on
