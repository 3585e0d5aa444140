-- ===== src/Mc.antt =====
-- common/mcprotocol: the integers and strings of the Minecraft protocol, read from and written to the
-- buffers of common/buf. A Go int32 is its 32-bit pattern, a number below 2^32; it is negative from
-- 2^31 on.
pub mod VarInt
pub mod Groups
pub mod RoundTrip
pub mod Strings
use zbproxy_a.Base.{
  ℕ, zero, suc, ◌+◌, ◌-◌, ◌*◌, ◌/◌, ◌%◌, ◌^◌, List, [], ◌∷◌, ◌++◌, Bool, true, false, not, ◌&&◌,
  ◌||◌, ltb, leb, ◌==◌, if◌then◌else◌, length, set, copy_at,
}
use zbproxy_a.Base.Bytes.{put_le}
use Prim.Native.Nat.{bit_and, bit_or}
use zbproxy_a.Buf.{
  Error, too_big, limit_exceeded, bad_length, Result, ok, err, panic, Buffer, then_do, extend,
  extend_header, read_byte, peek, write,
}

abbrev pub max_var_int_len : ℕ
max_var_int_len = 5

-- `(num >> s & 0x7F | 0x80)`
abbrev pub group : ℕ → ℕ → ℕ
group num s = bit_or (bit_and (num / 2 ^ s) 127) 128

-- The bytes that `PutVarInt` writes, from the first of its destination on.
unfoldable pub var_int_bytes : ℕ → List ℕ
var_int_bytes num =
    if bit_and num 4294967168 == 0
    then (num % 256) ∷ []
    else if bit_and num 4294950912 == 0
    then put_le 2 (bit_or (group num 0) (num / 2 ^ 7 * 2 ^ 8) % 2 ^ 16)
    else if bit_and num 4292870144 == 0
    then put_le 2 (bit_or (group num 0) (group num 7 * 2 ^ 8) % 2 ^ 16)
      ++ ((num / 2 ^ 14 % 256) ∷ [])
    else if bit_and num 4026531840 == 0
    then put_le 4 (
        bit_or (bit_or (bit_or (group num 0) (group num 7 * 2 ^ 8)) (group num 14 * 2 ^ 16))
          (num / 2 ^ 21 * 2 ^ 24 % 2 ^ 32))
    else put_le 4 (
        bit_or (bit_or (bit_or (group num 0) (group num 7 * 2 ^ 8)) (group num 14 * 2 ^ 16))
          (group num 21 * 2 ^ 24 % 2 ^ 32))
      ++ ((num / 2 ^ 28 % 256) ∷ [])

unfoldable pub var_int_len : ℕ → ℕ
var_int_len n =
    if leb (2 ^ 31) n
    then 5
    else if ltb n (2 ^ 7)
    then 1
    else if ltb n (2 ^ 14)
    then 2
    else if ltb n (2 ^ 21)
    then 3
    else if ltb n (2 ^ 28)
    then 4
    else 5

-- `VarInt.WriteToBuffer`: the bytes go where the buffer was extended. A destination that is too
-- short panics.
unfoldable pub write_var_int : ℕ → Buffer → Result Buffer
unfolding var_int_bytes var_int_len
write_var_int i b = then_do (extend (var_int_len i) b) (λ r.
    if ltb (var_int_len i) (length (var_int_bytes i))
    then panic
    else ok (record r.1 { content = copy_at r.0 (var_int_bytes i) r.1.content }))

-- The loop of `ReadVarIntFrom` on any reader, with `n` bytes read and the value `v` of them:
-- `uint32(x) << s` is 0 for `s` from 32 on. The value is returned with the number of bytes read.
module _ {R : Type 0} (next : R → Result (ℕ × R)) where
  unfoldable pub read_var_int_loop : ℕ → ℕ → ℕ → R → Result (ℕ × ℕ × R)
  read_var_int_loop zero n v b = panic
  read_var_int_loop (suc fuel) n v b = elim (ltb max_var_int_len n) [
    | true ↦ err too_big
    | false ↦ elim (next b) [
      | panic ↦ panic
      | err e ↦ err e
      | ok r ↦
          let w = bit_or v (bit_and r.0 127 * 2 ^ (7 * n) % 2 ^ 32) in
          elim (bit_and r.0 128 == 0) [
            | true ↦ ok (w, n + 1, r.1)
            | false ↦ read_var_int_loop fuel (n + 1) w r.1
          ]
    ]
  ]

abbrev pub var_int_fuel : ℕ
var_int_fuel = 7

-- `ReadVarIntFrom` on a reader that gives one byte at a time.
unfoldable pub read_var_int_from : {R : Type 0} → (R → Result (ℕ × R)) → R → Result (ℕ × ℕ × R)
unfolding read_var_int_loop
read_var_int_from next b = read_var_int_loop next var_int_fuel 0 0 b

unfoldable pub read_var_int : Buffer → Result (ℕ × ℕ × Buffer)
unfolding read_var_int_from
read_var_int b = read_var_int_from read_byte b

abbrev pub is_negative : ℕ → Bool
is_negative n = leb (2 ^ 31) n

unfoldable pub read_limited_string : ℕ → Buffer → Result (List ℕ × Buffer)
unfolding read_var_int
read_limited_string limit b = then_do (read_var_int b) (λ r.
    if not (is_negative r.0) && ltb limit r.0
    then err limit_exceeded
    else if is_negative r.0 || (r.0 == 0)
    then err bad_length
    else peek r.0 r.2)

-- `WriteString` and `WriteBytes`
unfoldable pub write_string : List ℕ → Buffer → Result Buffer
unfolding write_var_int
write_string s b =
    then_do (write_var_int (length s % 2 ^ 32) b) (λ c. then_do (write s c) (λ r. ok r.1))

-- `AppendPacketLength`: the length goes before the unread bytes. A destination that is too short
-- panics.
unfoldable pub append_packet_length : ℕ → Buffer → Result Buffer
unfolding var_int_bytes var_int_len
append_packet_length l b =
    let n = l % 2 ^ 32 in
    then_do (extend_header (var_int_len n) b) (λ r.
      if ltb (var_int_len n) (length (var_int_bytes n))
      then panic
      else ok (record r.1 { content = copy_at r.0 (var_int_bytes n) r.1.content }))
