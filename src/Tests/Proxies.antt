-- ===== src/Tests/Proxies.antt =====
-- SOCKS servers that grant a request, and one whose first answer comes in two pieces.
use zbproxy_a.Base.{ℕ, ◌++◌, concat, List, [], ◌∷◌, ◌≡◌, refl, inr, inl, some, none, arith}
use zbproxy_a.Route.Values.{String}
use zbproxy_a.Wire.{closes}
use zbproxy_a.Socks.Calls.{Link, ok, err, bad_version}
use zbproxy_a.Socks.{
  Net, Client, not_ip, destination, handshake4a, handshake5, version_of, version5, version4a,
}
use zbproxy_a.Socks.Reads.{link}
use zbproxy_a.Socks.Granted5.{
  by_name, bound4, asked, greeting, request_bytes, handshake5-asked, handshake5-cut,
}
use zbproxy_a.Socks.Granted4.{asked4, handshake4a-asked4}

-- Every address is "hi:80", and no host is an IP address.
abbrev net : Net
net = record {
  split_host_port = λ s. some (b'h' ∷ b'i' ∷ [], b'8' ∷ b'0' ∷ []);
  parse_port = λ s. some 80;
  parse_ip = λ s. not_ip;
  lookup_ip = λ s. none;
}

abbrev client : Client
client = record { version = []; address = []; username = b'u' ∷ []; password = []; methods = [] }

abbrev hi : String
hi = b'h' ∷ b'i' ∷ []

abbrev reply5 : List ℕ
reply5 = 5 ∷ 0 ∷ 0 ∷ 1 ∷ 10 ∷ 0 ∷ 0 ∷ 1 ∷ 31 ∷ 144 ∷ 77 ∷ []

names : (version_of [] ≡ version5) × (version_of (b'4' ∷ b'a' ∷ []) ≡ version4a)
unfolding version_of
names = (refl, refl)

split : destination net [] ≡ inr (hi, 80)
unfolding destination
split = refl

handshake5-asked_example :
    (request : List ℕ) × (handshake5 net client [] (link [] ((5 ∷ 0 ∷ []) ∷ reply5 ∷ []) closes 6)
      ≡ ok tt (link ([] ++ (greeting client ++ request)) ((77 ∷ []) ∷ []) closes 0))
    × (asked request ≡ some (by_name hi, 80))
handshake5-asked_example =
    handshake5-asked net client [] hi 80 (by_name hi) (bound4 (10 ∷ 0 ∷ 0 ∷ 1 ∷ [])) 0 31 144
      (77 ∷ []) [] [] closes 0 split (omega arith, refl) (omega arith) refl

-- The server refuses every method, and gets the request all the same.
handshake5-cut_example :
    (l : Link) × (handshake5 net client [] (link [] ((5 ∷ []) ∷ (255 ∷ []) ∷ []) closes 6)
      ≡ err bad_version l)
    × (l.sent ≡ [] ++ (greeting client ++ request_bytes not_ip hi 80))
handshake5-cut_example =
    handshake5-cut net client [] hi 80 (by_name hi) 255 [] [] [] closes 0 split (omega arith, refl)
      (omega arith)

-- The reply comes byte by byte at first.
handshake4a-asked4_example :
    (request : List ℕ) × (left : List (List ℕ)) × (handshake4a net client []
        (link [] ((0 ∷ []) ∷ (0x5a ∷ 1 ∷ []) ∷ (2 ∷ 3 ∷ 4 ∷ 5 ∷ 6 ∷ 77 ∷ []) ∷ []) closes 7)
      ≡ ok tt (link ([] ++ request) left closes 0))
    × (concat left ≡ 77 ∷ [])
    × (asked4 request ≡ some (b'u' ∷ [], hi, 80))
handshake4a-asked4_example =
    handshake4a-asked4 net client [] hi 80 0 (1 ∷ 2 ∷ 3 ∷ 4 ∷ 5 ∷ 6 ∷ []) (77 ∷ []) []
      ((0 ∷ []) ∷ (0x5a ∷ 1 ∷ []) ∷ (2 ∷ 3 ∷ 4 ∷ 5 ∷ 6 ∷ 77 ∷ []) ∷ []) closes 0 split refl
      (omega arith) (omega arith) (omega arith) (inl refl) refl refl
