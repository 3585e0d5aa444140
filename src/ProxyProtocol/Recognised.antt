-- ===== src/ProxyProtocol/Recognised.antt =====
-- common/proxyprotocol: what the reader makes of a header of version 1 that the writer wrote, and of an
-- UNKNOWN header with bytes behind it.
use zbproxy_a.Base.{ℕ, suc, List, [], ◌∷◌, ◌++◌, Bool, true, false, some, ◌≡◌, refl}
use zbproxy_a.Wire.{Conn}
use zbproxy_a.Buf.{Buffer, unread}
use zbproxy_a.Cached.Until.{index_of, find_end, peek_until_held}
use zbproxy_a.ProxyProtocol.{Header, high_bits, family_ipv4, family_ipv6}
use zbproxy_a.ProxyProtocol as ProxyProtocol
use zbproxy_a.ProxyProtocol.Text.{
  Texts, refused, unknown_type, space, crlf, unknown, tcp4, tcp6, read_header1,
}

-- A header UNKNOWN of version 1 that is behind the signature, its line ended, is refused when a space of
-- the bytes after the line is in the cache already: the space is looked for before the end of line.
pub read_header1-unknown :
    (texts : Texts) (burst : ℕ → ℕ) (c : Conn) (b : Buffer) (after : List ℕ) (j : ℕ)
    → unread b ≡ unknown ++ (crlf ++ after)
    → index_of space after ≡ some j
    → read_header1 texts burst (record { conn = c; cache = some b }) ≡ refused unknown_type
unfolding read_header1 index_of find_end
read_header1-unknown texts burst c b after j e k =
    let i = suc (suc (suc (suc (suc (suc (suc (suc (suc j)))))))) in
    let found : find_end (space ∷ (crlf ∷ [])) (unread b) ≡ some (i, space) = rw (e, k) refl in
    rw (peek_until_held burst (space ∷ (crlf ∷ [])) c b i space found, e) refl

abbrev pub kind_of : Bool → List ℕ
kind_of true = tcp6
kind_of false = tcp4

abbrev pub transport_of : Bool → ℕ
transport_of true = 33
transport_of false = 17
