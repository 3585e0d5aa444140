-- ===== src/Auth.antt =====
-- common/authsecret: the pre-shared key that runs as the first bytes of a stream. The connection is
-- what the other side sends before it closes, breaks or stalls; a read that waits at a stalled end
-- is ended by the read deadline, and without one it hangs. Times are natural numbers; a timeout that
-- is not positive is 0.
pub mod Laws
use zbproxy_a.Base.{
  ℕ, ◌+◌, List, [], ◌∷◌, Bool, true, false, ltb, ◌==◌, not, if◌then◌else◌, length, Option, none,
  some,
}
use zbproxy_a.Base.Assoc.{◌===◌, bytes_eq}
use zbproxy_a.Wire.{Conn, Read, got, ended, failed, hangs, read_full, set_read_deadline}

-- The package's errors; `network` is any error of the connection.
pub data Error : Type 0 where
  empty too_long mismatch short_read write_failed network : Error

abbrev pub max_len : ℕ
max_len = 128

abbrev pub default_timeout : ℕ
default_timeout = 5000000000

pub data Normalized : Type 0 where
  accepted : Option (List ℕ) → Normalized
  refused : Error → Normalized

-- `Normalize`: a nil slice for the empty string.
unfoldable pub normalize : List ℕ → Normalized
normalize secret =
    if length secret == 0
    then accepted none
    else if ltb max_len (length secret)
    then refused too_long
    else accepted (some secret)

-- `SetAuthSecret` of the services and the outbounds: what the atomic value holds, nil as the empty
-- list.
unfoldable pub stored_secret : List ℕ → List ℕ
unfolding normalize
stored_secret secret = elim (normalize secret) [
  | accepted bytes ↦ elim bytes [ some b ↦ b | none ↦ [] ]
  | refused e ↦ []
]

-- `Write`, with what `conn.Write` answers: the bytes taken, or an error.
unfoldable pub write : List ℕ → Option ℕ → Option Error
write secret answer = if length secret == 0 then none else elim answer [
  | none ↦ some network
  | some n ↦ if n == length secret then none else some write_failed
]

-- A call that returns nil or an error, and the connection it leaves, or does not return.
pub data Verdict : Type 0 where
  returns : Option Error → Conn → Verdict
  waits : Verdict

-- What `Verify` returns from what `io.ReadFull` gave; the deadline is cleared first.
unfoldable pub judge : List ℕ → Read → Verdict
unfolding set_read_deadline
judge secret (got bytes c) =
    returns
      (if length bytes == length secret
        then (if bytes === secret then none else some mismatch)
        else some short_read)
      (set_read_deadline none c)
judge secret (ended c) = returns (some short_read) (set_read_deadline none c)
judge secret (failed c) = returns (some network) (set_read_deadline none c)
judge secret hangs = waits

unfoldable pub verify : ℕ → List ℕ → ℕ → Conn → Verdict
unfolding judge read_full set_read_deadline
verify now secret timeout c =
    let limit = if timeout == 0 then default_timeout else timeout in
    if length secret == 0
    then returns (some empty) c
    else if ltb max_len (length secret)
    then returns (some too_long) c
    else judge secret (read_full (length secret) (set_read_deadline (some (now + limit)) c))
