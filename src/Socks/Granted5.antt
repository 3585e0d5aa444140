-- ===== src/Socks/Granted5.antt =====
-- common/network/socks/client5.go: what a SOCKS 5 client and a server that follows RFC 1928 make of
-- each other's bytes.
use zbproxy_a.Base.{
  ℕ, suc, ◌+◌, ◌%◌, ◌<◌, List, [], ◌∷◌, ◌++◌, append_assoc, ◌==◌, ◌&&◌, if◌then◌else◌, length, take,
  drop, Option, none, some, ◌≡◌, ◌≢◌, ==-apart, refl, ap, sym, ◌∙◌, arith, inr, eq→==, take-append,
  drop-append, length-append,
}
use zbproxy_a.Base.Bytes.{put_be, uint_be, uint_be-put_be, length-put_be}
use zbproxy_a.Route.Values.{String}
use zbproxy_a.Wire.{Ending}
use zbproxy_a.Socks.Calls.{Link, ok, err, ◌>>=◌, write, read, next_piece, bad_version}
use zbproxy_a.Socks.Reads.{
  link, write_twice, then_lem, bind_lem, at_destination, write_lem, read_whole, read_bytes_whole,
  read_sized,
}
use zbproxy_a.Socks.{
  Net, Client, Ip, not_ip, unknown_form, ipv4, ipv6, destination, handshake5, request5, greet5,
  handle_reply5, check_reply5, skip_address, check_method, write_address, with_methods,
}

-- The destination of a request, as RFC 1928 reads its bytes.
pub data Asked : Type 0 where
  by_name by_ipv4 by_ipv6 : List ℕ → Asked

abbrev with_port : (List ℕ → Asked) → ℕ → List ℕ → Option (Asked × ℕ)
with_port f n bytes =
    if length bytes == n + 2 then some (f (take n bytes), uint_be (drop n bytes)) else none

abbrev named : List ℕ → Option (Asked × ℕ)
named [] = none
named (n ∷ bytes) = with_port by_name n bytes

abbrev pub asked : List ℕ → Option (Asked × ℕ)
asked (version ∷ command ∷ reserved ∷ kind ∷ rest) =
    if (version == 5) && (command == 1) && (reserved == 0)
    then (if kind == 1
        then with_port by_ipv4 4 rest
        else if kind == 4
        then with_port by_ipv6 16 rest
        else if kind == 3
        then named rest
        else none)
    else none
asked _ = none

-- The address that the server reports.
pub data Bound : Type 0 where
  bound4 bound6 bound_name : List ℕ → Bound

abbrev pub kind_of : Bound → ℕ
kind_of (bound4 a) = 1
kind_of (bound6 a) = 4
kind_of (bound_name n) = 3

abbrev pub bound_bytes : Bound → List ℕ
bound_bytes (bound4 a) = a
bound_bytes (bound6 a) = a
bound_bytes (bound_name n) = length n ∷ n

abbrev pub Fits : Bound → Type 0
Fits (bound4 a) = length a ≡ 4
Fits (bound6 a) = length a ≡ 16
Fits (bound_name n) = length n < 256

abbrev pub address_bytes : Ip → String → List ℕ
address_bytes (ipv4 a) host = 1 ∷ a
address_bytes (ipv6 a) host = 4 ∷ a
address_bytes not_ip host = 3 ∷ (length host % 256) ∷ host
address_bytes unknown_form host = []

-- An address that can be written: an IP address, or a name of fewer than 256 bytes.
abbrev pub Writable : Ip → String → Asked → Type 0
Writable (ipv4 a) host t = (length a ≡ 4) × (t ≡ by_ipv4 a)
Writable (ipv6 a) host t = (length a ≡ 16) × (t ≡ by_ipv6 a)
Writable not_ip host t = (length host < 256) × (t ≡ by_name host)
Writable unknown_form host t = ⊥

skip_address-bound :
    (b : Bound) (tail s : List ℕ) (more : List (List ℕ)) (e : Ending) (w : ℕ)
    → Fits b
    → skip_address (kind_of b) (link s ((bound_bytes b ++ tail) ∷ more) e w)
      ≡ ok tt (link s (tail ∷ more) e w)
unfolding skip_address
skip_address-bound (bound4 x) tail s more e w h = ground (arith, read_sized 4 x tail s more e w h)
skip_address-bound (bound6 x) tail s more e w h = ground (arith, read_sized 16 x tail s more e w h)
skip_address-bound (bound_name x) tail s more e w h =
    ground
      (arith, read_bytes_whole (length x ∷ []) (x ++ tail) s more e w, read_whole x tail s more e w)

handle_reply5_lem :
    (b : Bound) (r p q : ℕ) (rest s : List ℕ) (more : List (List ℕ)) (e : Ending) (w : ℕ)
    → Fits b
    → handle_reply5
        (link s ((5 ∷ 0 ∷ r ∷ kind_of b ∷ (bound_bytes b ++ (p ∷ q ∷ rest))) ∷ more) e w)
      ≡ ok tt (link s (rest ∷ more) e w)
unfolding handle_reply5 check_reply5
handle_reply5_lem b r p q rest s more e w h = ground (
  arith,
  read_sized 4 (5 ∷ 0 ∷ r ∷ kind_of b ∷ []) (bound_bytes b ++ (p ∷ q ∷ rest)) s more e w refl,
  skip_address-bound b (p ∷ q ∷ rest) s more e w h,
  read_bytes_whole (p ∷ q ∷ []) rest s more e w,
)

-- An empty piece is passed over.
handle_reply5_after :
    (s : List ℕ) (a : List (List ℕ)) (e : Ending) (w : ℕ)
    → handle_reply5 (link s ([] ∷ a) e w) ≡ handle_reply5 (link s a e w)
unfolding handle_reply5 read next_piece
handle_reply5_after s a e w = refl

write_address_lem :
    (ip : Ip) (host s : List ℕ) (t : Asked) (a : List (List ℕ)) (e : Ending) (w : ℕ)
    → Writable ip host t
    → write_address ip host (link s a e (suc (suc w)))
      ≡ ok tt (link (s ++ address_bytes ip host) a e w)
unfolding write_address
write_address_lem (ipv4 x) host s t a e w h = write_twice (1 ∷ []) x s a e w
write_address_lem (ipv6 x) host s t a e w h = write_twice (4 ∷ []) x s a e w
write_address_lem not_ip host s t a e w h = write_twice (3 ∷ (length host % 256) ∷ []) host s a e w
write_address_lem unknown_form host s t a e w h = absurd h

abbrev pub request_bytes : Ip → String → ℕ → List ℕ
request_bytes ip host port = 5 ∷ 1 ∷ 0 ∷ (address_bytes ip host ++ put_be 2 port)

with_port_lem :
    (f : List ℕ → Asked) (n : ℕ) (bs : List ℕ) (port : ℕ)
    → length bs ≡ n
    → port < 65536
    → with_port f n (bs ++ put_be 2 port) ≡ some (f bs, port)
with_port_lem f n bs port h k =
    let size : length (bs ++ put_be 2 port) ≡ n + 2 =
      omega (arith, length-append bs (put_be 2 port), length-put_be 2 port) in
    rw
      (
        eq→== _ _ size,
        take-append n bs (put_be 2 port) (sym h),
        drop-append n bs (put_be 2 port) (sym h),
        uint_be-put_be 2 port (omega arith),
      )
      refl

-- A server that follows the protocol reads the destination off the request.
asked-request_bytes :
    (ip : Ip) (host : String) (port : ℕ) (t : Asked)
    → Writable ip host t
    → port < 65536
    → asked (request_bytes ip host port) ≡ some (t, port)
asked-request_bytes (ipv4 x) host port t h k = rw (h.1) (with_port_lem by_ipv4 4 x port h.0 k)
asked-request_bytes (ipv6 x) host port t h k = rw (h.1) (with_port_lem by_ipv6 16 x port h.0 k)
asked-request_bytes not_ip host port t h k =
    rw (h.1) (with_port_lem by_name (length host % 256) host port (omega arith) k)
asked-request_bytes unknown_form host port t h k = absurd h

-- The request is written, and then the reply is waited for.
request5_sent :
    (net : Net) (host : String) (port : ℕ) (t : Asked)
    → (s : List ℕ) (a : List (List ℕ)) (e : Ending) (w : ℕ) → Writable (net.parse_ip host) host t
    → request5 net host port (link s a e (suc (suc (suc (suc w)))))
      ≡ handle_reply5 (link (s ++ request_bytes (net.parse_ip host) host port) a e w)
unfolding request5
request5_sent net host port t s a e w h =
    let ip = net.parse_ip host in
    let before = s ++ (5 ∷ 1 ∷ 0 ∷ []) in
    then_lem (write (5 ∷ 1 ∷ 0 ∷ [])) _ _ _ (write_lem (5 ∷ 1 ∷ 0 ∷ []) s a e (suc (suc (suc w))))
    ∙ then_lem (write_address ip host) _ _ _ (write_address_lem ip host before t a e (suc w) h)
    ∙ then_lem (write (put_be 2 port)) _ _ _
        (write_lem (put_be 2 port) (before ++ address_bytes ip host) a e w)
    ∙ ap (λ z. handle_reply5 (link z a e w))
        (append_assoc before (address_bytes ip host) (put_be 2 port)
          ∙ append_assoc s (5 ∷ 1 ∷ 0 ∷ []) (address_bytes ip host ++ put_be 2 port))

abbrev pub greeting : Client → List ℕ
unfolding with_methods
greeting c = 5 ∷ (length (with_methods c).methods % 256) ∷ (with_methods c).methods

greet5_sent :
    (c : Client) (first tail s : List ℕ) (a : List (List ℕ)) (e : Ending) (w : ℕ)
    → read 2 (link (s ++ greeting c) ((first ++ tail) ∷ a) e w)
      ≡ ok (5 ∷ 0 ∷ []) (link (s ++ greeting c) (tail ∷ a) e w)
    → greet5 c (link s ((first ++ tail) ∷ a) e (suc (suc w)))
      ≡ ok tt (link (s ++ greeting c) (tail ∷ a) e w)
unfolding greet5 check_method
greet5_sent c first tail s a e w h =
    let methods = (with_methods c).methods in
    let opening = 5 ∷ (length methods % 256) ∷ [] in
    let all = (first ++ tail) ∷ a in
    then_lem (write opening) _ _ _ (write_lem opening s all e (suc w))
    ∙ then_lem (write methods) _ _ _ (write_lem methods (s ++ opening) all e w)
    ∙ ap (λ z. (do resp ← read 2; check_method resp) (link z all e w))
        (append_assoc s opening methods)
    ∙ bind_lem (read 2) check_method _ _ _ h

greet5_lem :
    (c : Client) (s : List ℕ) (a : List (List ℕ)) (e : Ending) (w : ℕ)
    → greet5 c (link s ((5 ∷ 0 ∷ []) ∷ a) e (suc (suc w)))
      ≡ ok tt (link (s ++ greeting c) ([] ∷ a) e w)
greet5_lem c s a e w =
    greet5_sent c (5 ∷ 0 ∷ []) [] s a e w
      (read_sized 2 (5 ∷ 0 ∷ []) [] (s ++ greeting c) a e w refl)

-- What a read does not fill stays 0, which says that no password is wanted.
greet5_cut :
    (c : Client) (s : List ℕ) (a : List (List ℕ)) (e : Ending) (w : ℕ)
    → greet5 c (link s ((5 ∷ []) ∷ a) e (suc (suc w))) ≡ ok tt (link (s ++ greeting c) ([] ∷ a) e w)
unfolding read next_piece
greet5_cut c s a e w = greet5_sent c (5 ∷ []) [] s a e w refl

handle_reply5_not5 :
    (x : ℕ) (rest s : List ℕ) (more : List (List ℕ)) (e : Ending) (w : ℕ)
    → x ≢ 5
    → handle_reply5 (link s ((x ∷ rest) ∷ more) e w)
      ≡ err bad_version (link s (drop 4 (x ∷ rest) ∷ more) e w)
unfolding handle_reply5 check_reply5 read next_piece
handle_reply5_not5 x rest s more e w n = rw (==-apart x 5 n) refl

-- A server that takes the offer to do without a password, and then grants the request, leaves the
-- link to the server's further bytes. It was sent the greeting, and a request of which RFC 1928 reads
-- the destination asked for. The choice of the method comes by itself, and the reply in one piece.
pub handshake5-asked :
    (net : Net) (c : Client) (address host : String) (port : ℕ) (t : Asked) (b : Bound) (r p q : ℕ)
    → (rest s : List ℕ) (more : List (List ℕ)) (e : Ending) (w : ℕ)
    → destination net address ≡ inr (host, port)
    → Writable (net.parse_ip host) host t
    → port < 65536
    → Fits b
    → (request : List ℕ) × (handshake5 net c address (
          link s
            ((5 ∷ 0 ∷ []) ∷ (5 ∷ 0 ∷ r ∷ kind_of b ∷ (bound_bytes b ++ (p ∷ q ∷ rest))) ∷ more)
            e
            (suc (suc (suc (suc (suc (suc w)))))))
        ≡ ok tt (link (s ++ (greeting c ++ request)) (rest ∷ more) e w))
      × (asked request ≡ some (t, port))
unfolding handshake5
handshake5-asked net c address host port t b r p q rest s more e w d h n k =
    let request = request_bytes (net.parse_ip host) host port in
    let all = s ++ (greeting c ++ request) in
    let reply = (5 ∷ 0 ∷ r ∷ kind_of b ∷ (bound_bytes b ++ (p ∷ q ∷ rest))) ∷ more in
    (
      request,
      at_destination net address host port _ _ d
          ∙ then_lem (greet5 c) _ _ _ (greet5_lem c s reply e (suc (suc (suc (suc w)))))
          ∙ request5_sent net host port t (s ++ greeting c) ([] ∷ reply) e w h
          ∙ ap (λ z. handle_reply5 (link z ([] ∷ reply) e w)) (append_assoc s (greeting c) request)
          ∙ handle_reply5_after all reply e w
          ∙ handle_reply5_lem b r p q rest all more e w k,
      asked-request_bytes (net.parse_ip host) host port t h n,
    )

-- When the server's choice of a method is cut behind its first byte, and that choice is
-- not 5, it is not looked at: the request is sent, after a refusal too, and the handshake fails at the
-- reply.
pub handshake5-cut :
    (net : Net) (c : Client) (address host : String) (port : ℕ) (t : Asked) (method : ℕ)
    → (rest s : List ℕ) (more : List (List ℕ)) (e : Ending) (w : ℕ)
    → destination net address ≡ inr (host, port)
    → Writable (net.parse_ip host) host t
    → method ≢ 5
    → (l : Link) × (handshake5 net c address
          (link s ((5 ∷ []) ∷ (method ∷ rest) ∷ more) e (suc (suc (suc (suc (suc (suc w)))))))
        ≡ err bad_version l)
      × (l.sent ≡ s ++ (greeting c ++ request_bytes (net.parse_ip host) host port))
unfolding handshake5
handshake5-cut net c address host port t method rest s more e w d h n =
    let request = request_bytes (net.parse_ip host) host port in
    let a = (method ∷ rest) ∷ more in
    let all = s ++ (greeting c ++ request) in
    (
      link all (drop 4 (method ∷ rest) ∷ more) e w,
      at_destination net address host port _ _ d
          ∙ then_lem (greet5 c) _ _ _ (greet5_cut c s a e (suc (suc (suc (suc w)))))
          ∙ request5_sent net host port t (s ++ greeting c) ([] ∷ a) e w h
          ∙ ap (λ z. handle_reply5 (link z ([] ∷ a) e w)) (append_assoc s (greeting c) request)
          ∙ handle_reply5_after all a e w
          ∙ handle_reply5_not5 method rest all more e w n,
      refl,
    )
