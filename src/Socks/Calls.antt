-- ===== src/Socks/Calls.antt =====
-- The connection to a SOCKS server, as common/network/socks uses it: `Read` gives at most what has
-- arrived together, `io.ReadFull` (common/rw/read.go) waits for all it is asked for, and `Write` takes
-- all its bytes or fails.
use zbproxy_a.Base.{
  ℕ, ◌-◌, List, [], ◌∷◌, ◌++◌, ◌==◌, leb, if◌then◌else◌, length, take, drop, replicate, Option,
  none, some,
}
use zbproxy_a.Wire.{Ending, closes, breaks, stalls}

pub data Error : Type 0 where
  bad_address bad_port ipv6_unsupported unknown_ip lookup_failed unresolved : Error
  write_failed read_failed : Error
  bad_version no_auth_yet gssapi no_methods unknown_method : Error
  rejected no_identd other_user unknown_reply not_connected : Error
  unknown_client_version dial_failed : Error

-- `arrivals` are the pieces in which the server's bytes come; `writes` is how many writes more succeed.
pub record Link : Type 0 where
  pub sent : List ℕ
  pub arrivals : List (List ℕ)
  pub ending : Ending
  pub writes : ℕ

-- A call returns a value or an error, or waits for a server that stalls.
pub data Result (A : Type 0) : Type 0 where
  ok : A → Link → Result A
  err : Error → Link → Result A
  waits : Result A

abbrev pub M : Type 0 → Type 0
M A = Link → Result A

infixl 5 ◌>>=◌ ◌>>◌
abbrev pub ◌>>=◌ : {A B : Type 0} → M A → (A → M B) → M B
◌>>=◌ m f l = elim (m l) [ ok a l' ↦ f a l' | err e l' ↦ err e l' | waits ↦ waits ]

abbrev pub ◌>>◌ : {B : Type 0} → M (Unit {0}) → M B → M B
m >> k = m >>= λ _. k

abbrev pub fail : {A : Type 0} → Error → M A
fail e l = err e l

abbrev pub done : M (Unit {0})
done l = ok tt l

unfoldable pub write : List ℕ → M (Unit {0})
write bytes l =
    if l.writes == 0
    then err write_failed l
    else ok tt (record l { sent = l.sent ++ bytes; writes = l.writes - 1 })

-- A read at the end of what arrives.
abbrev pub at_end : {A : Type 0} → M A
at_end l = elim l.ending [
  | closes ↦ err read_failed (record l { arrivals = [] })
  | breaks ↦ err read_failed (record l { arrivals = [] })
  | stalls ↦ waits
]

unfoldable pub next_piece : ℕ → List (List ℕ) → Option (List ℕ × List (List ℕ))
next_piece n [] = none
next_piece n ([] ∷ rest) = next_piece n rest
next_piece n ((x ∷ xs) ∷ rest) = some (take n (x ∷ xs), drop n (x ∷ xs) ∷ rest)

-- `make([]byte, n)` and `r.Read` into it: what is not read stays zero.
unfoldable pub read : ℕ → M (List ℕ)
unfolding next_piece
read n l = if n == 0 then ok [] l else elim (next_piece n l.arrivals) [
  | none ↦ at_end l
  | some (bytes, rest) ↦ ok (bytes ++ replicate (n - length bytes) 0) (record l { arrivals = rest })
]

unfoldable pub gather : ℕ → List (List ℕ) → Option (List ℕ × List (List ℕ))
gather n [] = if n == 0 then some ([], []) else none
gather n (piece ∷ rest) =
    if leb n (length piece)
    then some (take n piece, drop n piece ∷ rest)
    else elim (gather (n - length piece) rest) [
      | none ↦ none
      | some (bytes, left) ↦ some (piece ++ bytes, left)
    ]

-- `rw.ReadBytes`
unfoldable pub read_bytes : ℕ → M (List ℕ)
read_bytes n l = elim (gather n l.arrivals) [
  | none ↦ at_end l
  | some (bytes, rest) ↦ ok bytes (record l { arrivals = rest })
]
