-- ===== src/Tunnel/Session/Receive.antt =====
-- session.go, the receiving side: `storeDataLocked`, `read`.
use zbproxy_a.Base.{
  ℕ, zero, suc, ◌+◌, ◌-◌, ◌%◌, ◌^◌, List, [], ◌++◌, true, false, not, ◌&&◌, ◌||◌, ltb, leb, ◌==◌,
  if◌then◌else◌, length, take, drop, get_or, set, copy_at,
}
use zbproxy_a.Tunnel.Limits.{max_in_flight}
use zbproxy_a.Tunnel.Frame.{Frame}
use zbproxy_a.Tunnel.Session.{Session}

-- `a[0] = hole; copy(a[0:], a[1:]); a[MaxInFlight-1] = hole`
abbrev pub shift {ℓ} : {A : Type ℓ} → A → List A → List A
shift hole xs = let ys = set xs 0 hole in set (copy_at 0 (drop 1 ys) ys) (max_in_flight - 1) hole

-- One round of the delivery loop. `recvNext` is a uint32.
unfoldable pub deliver : Session → Session
deliver s = record s {
  read_buf = s.read_buf ++ get_or s.recv_buf 0 [];
  recv_buf = shift [] s.recv_buf;
  recv_valid = shift false s.recv_valid;
  recv_next = (s.recv_next + 1) % 2 ^ 32;
  read_wait = true;
}

-- `for s.recvValid[0]`, on fuel.
unfoldable pub deliver_all : ℕ → Session → Session
unfolding deliver
deliver_all zero s = s
deliver_all (suc fuel) s = elim (get_or s.recv_valid 0 false) [
  | true ↦ deliver_all fuel (deliver s)
  | false ↦ s
]

-- The slot at `off` is filled unless it holds a payload already.
unfoldable pub place : ℕ → List ℕ → Session → Session
place off payload s =
    if get_or s.recv_valid off false
    then s
    else record s { recv_buf = set s.recv_buf off payload; recv_valid = set s.recv_valid off true }

unfoldable pub store_data : Frame → Session → Session
unfolding place deliver_all
store_data f s =
    let off = f.seq - s.recv_next in
    if ltb f.seq s.recv_next
    then s
    else if leb max_in_flight off
    then s
    else deliver_all max_in_flight (place off f.payload s)

pub data ReadOutcome : Type 0 where
  waiting eof no_progress : ReadOutcome
  got : List ℕ → ReadOutcome

-- `read` into a slice of `n` bytes, up to where it returns or waits for `readWait`. A wait takes the
-- token.
unfoldable pub read : ℕ → Session → Session × ReadOutcome
read n s =
    if length s.read_buf == 0 && not s.read_eof && not s.closed
    then (record s { read_wait = false }, waiting)
    else if length s.read_buf == 0
    then (s, if s.read_eof || s.closed then eof else no_progress)
    else (record s { read_buf = drop n s.read_buf }, got (take n s.read_buf))
