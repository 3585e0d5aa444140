-- ===== src/Inject/Building.antt =====
-- protocol/minecraft/outbound.go and common/mcprotocol/conn.go: the packets that the outbound writes, as
-- they are built in a buffer.
use zbproxy_a.Base.{ℕ, ◌+◌, ◌%◌, ◌^◌, List, ◌++◌, length, copy_at, replicate, true, false}
use zbproxy_a.Base.Bytes.{put_be}
use zbproxy_a.Buf.{
  Buffer, Result, ok, err, panic, then_do, write, write_byte, write_zero_n, extend, reset, bytes,
}
use zbproxy_a.Buf as Buf
use zbproxy_a.Mc.{write_var_int, append_packet_length, max_var_int_len}
use zbproxy_a.Route.Values.{String}

-- An error that a caller ignores leaves the buffer.
abbrev pub ignored : Buffer → Result Buffer → Result Buffer
ignored b (ok c) = ok c
ignored b (err e) = ok b
ignored b panic = panic

abbrev pub ignored_count : Buffer → Result (ℕ × Buffer) → Result Buffer
ignored_count b (ok r) = ok r.1
ignored_count b (err e) = ok b
ignored_count b panic = panic

abbrev pub buffer_size : ℕ
buffer_size = 8192

-- `buf.New`, reset behind the room for a packet's length.
unfoldable pub new_buffer : Buffer
unfolding reset
new_buffer = reset max_var_int_len (record {
  content = replicate buffer_size 0;
  size = buffer_size;
  start = 0;
  end = 0;
  managed = true;
  closed = false;
})

-- `binary.BigEndian.PutUint16(buffer.Extend(2), n)`
unfoldable pub put_uint16 : ℕ → Buffer → Result Buffer
put_uint16 n b =
    then_do (extend 2 b) (λ r. ok (record r.1 { content = copy_at r.0 (put_be 2 n) r.1.content }))

-- The handshake packet that the server gets.
unfoldable pub construct_handshake : ℕ → String → ℕ → ℕ → Result Buffer
unfolding put_uint16
construct_handshake version hostname port intent =
    let b = new_buffer in
    then_do (ignored b (write_byte 0 b)) (λ c. then_do (write_var_int (version % 2 ^ 32) c) (λ d.
      then_do (write_var_int (length hostname % 2 ^ 32) d) (λ e.
        then_do (ignored_count e (write hostname e)) (λ f. then_do (put_uint16 port f) (λ g.
          then_do (ignored g (write_byte intent g)) (λ h. append_packet_length (Buf.len h) h))))))

-- The status packet behind it.
unfoldable pub construct_status : Buffer → Result Buffer
construct_status b = then_do (ignored b (write_byte 1 b)) (λ c. ignored c (write_byte 0 c))

-- A packet in two parts, as `WriteVectorizedPacket` writes it: the buffer has the identifier and the
-- length of the text.
unfoldable pub text_packet : List ℕ → Result (List ℕ)
text_packet text =
    let b = new_buffer in
    then_do (ignored b (write_byte 0 b)) (λ c.
      then_do (write_var_int (length text % 2 ^ 32) c) (λ d.
        then_do (append_packet_length (Buf.len d + length text) d)
          (λ e. then_do (bytes e) (λ head. ok (head ++ text)))))

-- The ping response that is sent at once with ping mode "0ms".
unfoldable pub instant_pong : Result (List ℕ)
instant_pong =
    let b = new_buffer in
    then_do (ignored b (write_byte 1 b)) (λ c.
      then_do (ignored c (write_zero_n 8 c))
        (λ d. then_do (append_packet_length (Buf.len d) d) (λ e. bytes e)))
