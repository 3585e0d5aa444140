-- ===== src/Tests/Codecs.antt =====
-- The buffer and the codecs on small inputs.
use zbproxy_a.Base.{
  ◌<◌, ◌+◌, ◌⊎◌, copy_at, ◌≡◌, refl, [], ◌∷◌, ◌++◌, arith, replicate, length, false, ℕ, List, true,
  some,
}
use zbproxy_a.Buf.{Buffer, advance, ok, err, panic, write_zero_n, short_buffer, unread}
use zbproxy_a.Buf.Zeros.{write_zero_n_lem}
use zbproxy_a.Buf.Queue.{reading, reading_byte, peeking, writing, view}
use zbproxy_a.Buf.Queue.Refine.{answers, specify_all, answers-specify_all}
use zbproxy_a.Mc.{var_int_bytes, read_var_int}
use zbproxy_a.Mc.RoundTrip.{read_var_int-var_int_bytes}
use zbproxy_a.Buf.Pool.{msb, put_back_at, put_back, panics}
use zbproxy_a.ProxyProtocol.{
  AddrPort, write_header2, read_header2, header_identity_v2, high_bits, family_ipv4, family_ipv6,
  unmap,
}
use zbproxy_a.ProxyProtocol as PP
use zbproxy_a.ProxyProtocol.RoundTrip.{proxied, Fits, read_header2-write_header2_ipv6}

-- Eight bytes, of which three are unread and three free.
abbrev eight : Buffer
eight = record {
  content = 10 ∷ (11 ∷ (12 ∷ (13 ∷ (14 ∷ (15 ∷ (16 ∷ (17 ∷ [])))))));
  size = 8;
  start = 2;
  end = 5;
  managed = false;
  closed = false;
}

answers-specify_all_example :
    answers (reading_byte ∷ (writing (7 ∷ (8 ∷ [])) ∷ (peeking 9 ∷ (reading 3 ∷ [])))) eight
    ≡ specify_all
        (reading_byte ∷ (writing (7 ∷ (8 ∷ [])) ∷ (peeking 9 ∷ (reading 3 ∷ []))))
        (view eight)
answers-specify_all_example =
    answers-specify_all (reading_byte ∷ (writing (7 ∷ (8 ∷ [])) ∷ (peeking 9 ∷ (reading 3 ∷ []))))
      eight (omega arith, omega arith, omega arith)

-- 300, and a byte behind it.
abbrev encoded : Buffer
encoded = record {
  content = 172 ∷ (2 ∷ (9 ∷ []));
  size = 3;
  start = 0;
  end = 3;
  managed = false;
  closed = false;
}

bytes_of_300 : unread encoded ≡ var_int_bytes 300 ++ (9 ∷ [])
unfolding var_int_bytes
bytes_of_300 = refl

read_var_int-var_int_bytes_example :
    read_var_int encoded
    ≡ ok (300, length (var_int_bytes 300), advance (length (var_int_bytes 300)) encoded)
read_var_int-var_int_bytes_example =
    read_var_int-var_int_bytes 300 encoded (9 ∷ []) (omega arith)
      (omega arith, omega arith, omega arith) bytes_of_300

-- A power of two below the smallest class.
put_back_32 : put_back 32 ≡ panics
unfolding put_back put_back_at msb
put_back_32 = refl

abbrev client4 : AddrPort
client4 = record { is4 = true; addr = 10 ∷ (0 ∷ (0 ∷ (1 ∷ []))); port = 4000 }

abbrev server4 : AddrPort
server4 = record { is4 = true; addr = 10 ∷ (0 ∷ (0 ∷ (2 ∷ []))); port = 25565 }

tcp4 : high_bits 17 ≡ family_ipv4
tcp4 = refl

fits4 : Fits 17 4 true client4 server4
fits4 = record {
  source_is4 = refl;
  destination_is4 = refl;
  source_size = refl;
  destination_size = refl;
  port_lt = omega arith;
}

abbrev client6 : AddrPort
client6 = record { is4 = false; addr = replicate 16 1; port = 4000 }

tcp6 : high_bits 33 ≡ family_ipv6
tcp6 = refl

fits6 : Fits 33 16 false client6 client6
fits6 = record {
  source_is4 = refl;
  destination_is4 = refl;
  source_size = refl;
  destination_size = refl;
  port_lt = omega arith;
}

client6_plain : unmap client6 ≡ client6
unfolding unmap
client6_plain = refl

read_header2-write_header2_ipv6_example :
    (out : List ℕ) × (write_header2 (proxied 33 client6) (some client6)
      ≡ PP.ok (header_identity_v2 ++ out))
    × (read_header2 (out ++ (5 ∷ [])) ≡ PP.ok (proxied 33 client6, 5 ∷ []))
read_header2-write_header2_ipv6_example =
    read_header2-write_header2_ipv6 33 client6 client6 (5 ∷ []) tcp6 fits6 client6_plain

-- "hi" behind its length, and a byte behind it.
abbrev greeting : Buffer
greeting = record {
  content = 2 ∷ (104 ∷ (105 ∷ (9 ∷ [])));
  size = 4;
  start = 0;
  end = 4;
  managed = false;
  closed = false;
}

greeting_bytes : unread greeting ≡ var_int_bytes 2 ++ ((104 ∷ (105 ∷ [])) ++ (9 ∷ []))
unfolding var_int_bytes
greeting_bytes = refl

write_zero_n_lem_example :
    ((8 < 5 + 3) × (write_zero_n 3 eight ≡ err short_buffer))
    ⊎ ((5 + 3 ≡ 8) × (write_zero_n 3 eight ≡ panic))
    ⊎ ((5 + 3 < 8)
        × (write_zero_n 3 eight
            ≡ ok (record eight { content = copy_at 5 (replicate 4 0) eight.content; end = 8 })))
write_zero_n_lem_example = write_zero_n_lem 3 eight (omega arith)
