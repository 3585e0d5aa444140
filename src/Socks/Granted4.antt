-- ===== src/Socks/Granted4.antt =====
-- common/network/socks/client4.go and client4a.go: a name that the server is to look up, and its reply
-- in any pieces.
use zbproxy_a.Base.{
  ℕ, suc, ◌<◌, List, [], ◌∷◌, ◌++◌, append_assoc, concat, All, ◌==◌, ◌&&◌, not, if◌then◌else◌,
  length, Option, none, some, ◌≡◌, ◌⊎◌, refl, ap, ◌∙◌, arith, inr, inl,
}
use zbproxy_a.Base.Bytes.{put_be, uint_be, uint_be-put_be}
use zbproxy_a.Route.Values.{String}
use zbproxy_a.Wire.{Ending}
use zbproxy_a.Socks.Calls.{Link, ok, read_bytes}
use zbproxy_a.Socks.Reads.{link, then_lem, bind_lem, send_lem, at_destination, read_bytes_lem}
use zbproxy_a.Socks.{
  Net, Client, not_ip, destination, handshake4a, connect4a, request_domain4, handle_response4,
  check_reply4,
}

-- The bytes up to the first zero, and those behind it.
abbrev until_zero : List ℕ → Option (List ℕ × List ℕ)
until_zero [] = none
until_zero (x ∷ xs) =
    if x == 0
    then some ([], xs)
    else elim (until_zero xs) [ none ↦ none | some (before, after) ↦ some (x ∷ before, after) ]

-- The user, the name and the port of a request, as the SOCKS 4A text reads its bytes: an address 0.0.0.x
-- with x not zero says that a name follows the user.
abbrev pub asked4 : List ℕ → Option (List ℕ × List ℕ × ℕ)
asked4 (version ∷ command ∷ p ∷ q ∷ a ∷ b ∷ c ∷ d ∷ rest) =
    if (version == 4) && (command == 1) && (a == 0) && (b == 0) && (c == 0) && not (d == 0)
    then elim (until_zero rest) [
      | none ↦ none
      | some (user, after) ↦ elim (until_zero after) [
        | none ↦ none
        | some (host, end) ↦
            if length end == 0 then some (user, host, uint_be (p ∷ q ∷ [])) else none
      ]
    ]
    else none
asked4 _ = none

abbrev pub ZeroFree : List ℕ → Type 0
ZeroFree = All (λ b. 0 < b)

until_zero_lem : (xs rest : List ℕ) → ZeroFree xs → until_zero (xs ++ (0 ∷ rest)) ≡ some (xs, rest)
until_zero_lem [] rest h = refl
until_zero_lem (x ∷ xs) rest h = ground (arith, until_zero_lem xs rest h.1)

abbrev pub request_bytes : Client → String → ℕ → List ℕ
request_bytes c host port =
    4 ∷ 1 ∷ (put_be 2 port ++ (0 ∷ 0 ∷ 0 ∷ 233 ∷ (c.username ++ (0 ∷ (host ++ (0 ∷ []))))))

asked4-request_bytes :
    (c : Client) (host : String) (port : ℕ)
    → ZeroFree c.username
    → ZeroFree host
    → port < 65536
    → asked4 (request_bytes c host port) ≡ some (c.username, host, port)
asked4-request_bytes c host port hu hh k =
    rw (until_zero_lem c.username (host ++ (0 ∷ [])) hu, until_zero_lem host [] hh)
      (ap (λ n. some (c.username, host, n)) (uint_be-put_be 2 port (omega arith)))

abbrev pub Granting : ℕ → Type 0
Granting v = (v ≡ 0) ⊎ (v ≡ 4)

check_reply4_granted : (v : ℕ) (l : Link) → Granting v → check_reply4 (v ∷ 0x5a ∷ []) l ≡ ok tt l
unfolding check_reply4
check_reply4_granted v l (inl h) = ground arith
check_reply4_granted v l (inr h) = ground arith

-- The reply is taken whole, however it is cut.
handle_response4_lem :
    (v : ℕ) (six rest s : List ℕ) (a : List (List ℕ)) (e : Ending) (w : ℕ)
    → Granting v
    → length six ≡ 6
    → concat a ≡ v ∷ 0x5a ∷ (six ++ rest)
    → (left : List (List ℕ)) × (handle_response4 (link s a e w) ≡ ok tt (link s left e w))
      × (concat left ≡ rest)
unfolding handle_response4
handle_response4_lem v six rest s a e w g h q =
    let (mid, r, m) = read_bytes_lem 2 (v ∷ 0x5a ∷ []) (six ++ rest) s a e w refl q in
    let (left, t, n) = read_bytes_lem 6 six rest s mid e w h m in
    (
      left,
      bind_lem (read_bytes 2) _ _ _ _ r
          ∙ then_lem (check_reply4 (v ∷ 0x5a ∷ [])) _ _ _ (check_reply4_granted v _ g)
          ∙ bind_lem (read_bytes 6) _ _ _ _ t,
      n,
    )

at_name :
    (net : Net) (c : Client) (host : String) (port : ℕ) (l : Link)
    → net.parse_ip host ≡ not_ip
    → connect4a net c host port l ≡ request_domain4 c host port l
unfolding connect4a
at_name net c host port l i = rw (connect4a, i) refl

request_domain4_sent :
    (c : Client) (host : String) (port : ℕ) (s : List ℕ) (a : List (List ℕ)) (e : Ending) (w : ℕ)
    → request_domain4 c host port (link s a e (suc (suc (suc (suc (suc (suc (suc w))))))))
      ≡ handle_response4 (link (s ++ request_bytes c host port) a e w)
unfolding request_domain4
request_domain4_sent c host port s a e w =
    send_lem (4 ∷ 1 ∷ []) s a e _ _
    ∙ send_lem (put_be 2 port) _ a e _ _
    ∙ send_lem (0 ∷ 0 ∷ 0 ∷ 233 ∷ []) _ a e _ _
    ∙ send_lem c.username _ a e _ _
    ∙ send_lem (0 ∷ []) _ a e _ _
    ∙ send_lem host _ a e _ _
    ∙ send_lem (0 ∷ []) _ a e w handle_response4
    ∙ ap (λ z. handle_response4 (link z a e w)) (simp append_assoc)

-- The client sends the name, and a server that looks names up reads off the request the user, the name
-- and the port; once it grants the request, the link is left to its further bytes, in whatever pieces
-- they come.
pub handshake4a-asked4 :
    (net : Net) (c : Client) (address host : String) (port v : ℕ) (six rest s : List ℕ)
    → (a : List (List ℕ)) (e : Ending) (w : ℕ) → destination net address ≡ inr (host, port)
    → net.parse_ip host ≡ not_ip
    → ZeroFree c.username
    → ZeroFree host
    → port < 65536
    → Granting v
    → length six ≡ 6
    → concat a ≡ v ∷ 0x5a ∷ (six ++ rest)
    → (request : List ℕ) × (left : List (List ℕ)) × (handshake4a net c address
          (link s a e (suc (suc (suc (suc (suc (suc (suc w))))))))
        ≡ ok tt (link (s ++ request) left e w))
      × (concat left ≡ rest)
      × (asked4 request ≡ some (c.username, host, port))
unfolding handshake4a connect4a request_domain4
handshake4a-asked4 net c address host port v six rest s a e w d i hu hh k g h q =
    let (left, r, n) =
      handle_response4_lem v six rest (s ++ request_bytes c host port) a e w g h q in
    (
      request_bytes c host port,
      left,
      at_destination net address host port _ _ d
          ∙ at_name net c host port _ i
          ∙ request_domain4_sent c host port s a e w
          ∙ r,
      n,
      asked4-request_bytes c host port hu hh k,
    )
