-- ===== src/Tests/Headers.antt =====
-- A header of version 1 that is written and read, and one that is refused for the bytes behind it.
use zbproxy_a.Base.{
  ◌%◌, ℕ, ◌+◌, ◌-◌, ◌++◌, List, [], ◌∷◌, map, Bool, true, false, ◌==◌, ◌≢◌, ◌≡◌, refl, arith,
  Option, none, some,
}
use zbproxy_a.Wire.{Conn, closes, stalls}
use zbproxy_a.Buf.{Buffer, err, no_return}
use zbproxy_a.Cached.{CachedConn, new_cached_conn, new_cache}
use zbproxy_a.Cached.Until.{index_of, peek_until}
use zbproxy_a.Cached.Returns.{peek_until_returns}
use zbproxy_a.ProxyProtocol.{AddrPort}
use zbproxy_a.ProxyProtocol.Text.{
  Texts, header1, refused, unknown_type, space, read_header1, text_of,
}
use zbproxy_a.ProxyProtocol.Recognised.{read_header1-unknown}

-- An address is printed as one number for its family and one for each byte, all above 32.
abbrev up : ℕ → ℕ
up b = b + 100

abbrev down : ℕ → ℕ
down b = b - 100

print_addr : Option (Bool × List ℕ) → List ℕ
print_addr none = []
print_addr (some (true, bytes)) = 50 ∷ map up bytes
print_addr (some (false, bytes)) = 51 ∷ map up bytes

read_addr : List ℕ → Option (Bool × List ℕ)
read_addr [] = none
read_addr (x ∷ xs) = some (x == 50, map down xs)

read_port : List ℕ → Option ℕ
read_port [] = none
read_port (x ∷ xs) = some (down x)

texts : Texts
texts = record {
  format_addr = print_addr;
  parse_addr = read_addr;
  format_port = λ n. up n ∷ [];
  parse_port = read_port;
}

abbrev source : AddrPort
source = record { is4 = true; addr = 10 ∷ 0 ∷ 0 ∷ 7 ∷ []; port = 4000 }

abbrev text : List ℕ
unfolding text_of texts print_addr
text = text_of texts (header1 17 (some source)) none (b'T' ∷ b'C' ∷ b'P' ∷ b'4' ∷ [])

abbrev client : CachedConn
unfolding new_cached_conn text
client =
    new_cached_conn (record { incoming = text ++ (1 ∷ 2 ∷ []); ending = closes; deadline = none })

abbrev with_space : Buffer
with_space = record {
  content = b'U' ∷ b'N' ∷ b'K' ∷ b'N' ∷ b'O' ∷ b'W' ∷ b'N' ∷ 13 ∷ 10 ∷ b'h' ∷ 32 ∷ [];
  size = 11;
  start = 0;
  end = 11;
  managed = true;
  closed = false;
}

abbrev ended : Conn
ended = record { incoming = []; ending = closes; deadline = none }

read_header1-unknown_example :
    read_header1 texts (λ n. n % 3) (record { conn = ended; cache = some with_space })
    ≡ refused unknown_type
unfolding index_of
read_header1-unknown_example =
    read_header1-unknown texts (λ n. n % 3) ended with_space (b'h' ∷ 32 ∷ []) 1 refl refl

-- One byte, and then nothing for as long as the deadline lets it be.
abbrev idle : Conn
idle = record { incoming = b'h' ∷ []; ending = stalls; deadline = some 5 }

peek_until_returns_example :
    (peek_until (λ n. 3) (space ∷ []) (new_cached_conn idle) ≢ none)
    × (peek_until (λ n. 3) (space ∷ []) (new_cached_conn idle) ≢ some (err no_return))
unfolding new_cached_conn new_cache
peek_until_returns_example =
    peek_until_returns (λ n. 3) (space ∷ []) (new_cached_conn idle) (omega arith) (λ e q. cc)
