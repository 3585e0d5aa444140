-- ===== src/Tunnel/Frame.antt =====
-- common/udptunnel/frame.go: one datagram of the tunnel. A byte slice is the list of its bytes; the
-- destination of `encode` is given up to its capacity.
pub mod RoundTrip
pub mod Layout
use zbproxy_a.Base.{
  ℕ, ◌+◌, List, ltb, ◌==◌, if◌then◌else◌, not, length, take, drop, get_or, set, replicate, copy_at,
}
use zbproxy_a.Base.Bytes.{put_le, uint_le}
use zbproxy_a.Tunnel.Limits.{magic, version, header_size, max_payload}

pub data FrameError : Type 0 where
  bad_magic bad_version too_short too_long : FrameError

pub data Result {ℓ} (A : Type ℓ) : Type ℓ where
  ok : A → Result A
  err : FrameError → Result A

pub record Frame : Type 0 where
  pub typ : ℕ
  pub session_id : ℕ
  pub seq : ℕ
  pub ack : ℕ
  pub payload : List ℕ

-- The writes of `Encode` into the buffer, in their order.
unfoldable pub fill : List ℕ → Frame → List ℕ
fill dst f =
    let dst1 = copy_at 0 (put_le 2 magic) dst in
    let dst2 = set dst1 2 version in
    let dst3 = set dst2 3 f.typ in
    let dst4 = copy_at 4 (put_le 8 f.session_id) dst3 in
    let dst5 = copy_at 12 (put_le 4 f.seq) dst4 in
    let dst6 = copy_at 16 (put_le 4 f.ack) dst5 in
    let dst7 = copy_at 20 (put_le 2 (length f.payload)) dst6 in
    if ltb 0 (length f.payload) then copy_at 22 f.payload dst7 else dst7

-- A buffer that is too small is replaced by a fresh one.
unfoldable pub encode : List ℕ → Frame → Result (List ℕ)
unfolding fill
encode dst f =
    let need = header_size + length f.payload in
    if ltb max_payload (length f.payload)
    then err too_long
    else ok (fill (if ltb (length dst) need then replicate need 0 else take need dst) f)

abbrev pub slice : List ℕ → ℕ → ℕ → List ℕ
slice b from len = take len (drop from b)

unfoldable pub decode : List ℕ → Result Frame
decode b =
    let plen = uint_le (slice b 20 2) in
    if ltb (length b) header_size
    then err too_short
    else if not (uint_le (slice b 0 2) == magic)
    then err bad_magic
    else if not (get_or b 2 0 == version)
    then err bad_version
    else if ltb max_payload plen
    then err too_long
    else if ltb (length b) (header_size + plen)
    then err too_short
    else ok (record {
      typ = get_or b 3 0;
      session_id = uint_le (slice b 4 8);
      seq = uint_le (slice b 12 4);
      ack = uint_le (slice b 16 4);
      payload = if plen == 0 then List.[] else slice b 22 plen;
    })
