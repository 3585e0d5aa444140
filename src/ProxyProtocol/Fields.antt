-- ===== src/ProxyProtocol/Fields.antt =====
-- common/proxyprotocol: the fields of a header of version 1, read one by one off the cached connection.
use zbproxy_a.Base.{
  ℕ, ◌+◌, ◌%◌, ◌<◌, ◌≤◌, List, [], ◌∷◌, ◌++◌, append_assoc, All, ==-apart, Bool, length,
  length-append, take, drop, take-append, drop-append, Option, some, ◌≡◌, ◌≢◌, refl, sym, ap, ◌∙◌,
  subst, arith,
}
use zbproxy_a.Buf.{ok}
use zbproxy_a.Cached.{CachedConn, At, cache_size}
use zbproxy_a.Cached.Until.{index_of, peek_until, EndsAt}
use zbproxy_a.Cached.Ends.{peek_until-At, one-EndsAt}
use zbproxy_a.ProxyProtocol.{AddrPort, unmap}
use zbproxy_a.ProxyProtocol.Text.{Texts, header, space, crlf, read_addresses, header1}

abbrev pub Clean : List ℕ → Type 0
Clean = All (λ b. (b ≢ 32) × (b ≢ 13))

-- What the code relies on in net/netip and strconv: parsing reads what was printed, and no print has a
-- space or a carriage return.
pub record IsFaithful (texts : Texts) : Type 0 where
  pub parse_format_addr :
      (a : Bool × List ℕ) → texts.parse_addr (texts.format_addr (some a)) ≡ some a
  pub parse_format_port : (n : ℕ) → n < 65536 → texts.parse_port (texts.format_port n) ≡ some n
  pub format_addr_clean : (a : Option (Bool × List ℕ)) → Clean (texts.format_addr a)
  pub format_port_clean : (n : ℕ) → Clean (texts.format_port n)

pub index_of-space : (xs r : List ℕ) → Clean xs → index_of space (xs ++ (32 ∷ r)) ≡ some (length xs)
unfolding index_of
index_of-space [] r h = refl
index_of-space (x ∷ xs) r h =
    rw (==-apart 32 x (λ q. h.0.0 (sym q))) (rw (index_of-space xs r h.1) refl)

-- No carriage return among these bytes.
abbrev pub OneLine : List ℕ → Type 0
OneLine = All (λ b. b ≢ 13)

pub index_of-crlf :
    (xs r : List ℕ) → OneLine xs → index_of crlf (xs ++ (13 ∷ 10 ∷ r)) ≡ some (length xs)
unfolding index_of
index_of-crlf [] r h = refl
index_of-crlf (x ∷ xs) r h =
    rw (==-apart 13 x (λ q. h.0 (sym q))) (rw (index_of-crlf xs r h.1) refl)

pub Clean-OneLine : (xs : List ℕ) → Clean xs → OneLine xs
Clean-OneLine [] h = tt
Clean-OneLine (x ∷ xs) h = (h.0.1, Clean-OneLine xs h.1)

-- One field is read, with its end.
pub peek_until-field :
    (burst : ℕ → ℕ) (ends : List (List ℕ)) (c : CachedConn) (seen xs e r : List ℕ)
    → At seen (xs ++ (e ++ r)) c
    → EndsAt ends (xs ++ (e ++ r)) (length xs) e
    → length seen + (length xs + length e) ≤ cache_size
    → (d : CachedConn) × (peek_until burst ends c ≡ some (ok (xs, e, d)))
      × At (seen ++ (xs ++ e)) r d
peek_until-field burst ends c seen xs e r v at fits =
    let ahead = xs ++ (e ++ r) in
    let n = length xs + length e in
    let all : (xs ++ e) ++ r ≡ ahead = append_assoc xs e r in
    let size : n ≡ length (xs ++ e) = sym (length-append xs e) in
    let given : take n ahead ≡ xs ++ e = sym (ap (take n) all) ∙ take-append n (xs ++ e) r size in
    let left : drop n ahead ≡ r = sym (ap (drop n) all) ∙ drop-append n (xs ++ e) r size in
    let (d, q, u) =
      peek_until-At burst ends c seen ahead e (length xs) v at fits
        (omega (arith, length-append xs (e ++ r), length-append e r)) in
    (
      d,
      q ∙ ap (λ t. some (ok (t, e, d))) (take-append (length xs) xs (e ++ r) refl),
      subst (λ t. At (seen ++ t) r d) given (subst (λ t. At (seen ++ take n ahead) t d) left u),
    )

pub unmap_again :
    (s : AddrPort)
    → s.port < 65536
    → unmap (record { is4 = (unmap s).is4; addr = (unmap s).addr; port = s.port % 65536 }) ≡ unmap s
unfolding unmap
unmap_again s h = ground arith

peek_until-space :
    (burst : ℕ → ℕ) (c : CachedConn) (seen xs r : List ℕ)
    → At seen (xs ++ (32 ∷ r)) c
    → Clean xs
    → length seen + (length xs + 1) ≤ cache_size
    → (d : CachedConn) × (peek_until burst (space ∷ []) c ≡ some (ok (xs, space, d)))
      × At (seen ++ (xs ++ space)) r d
peek_until-space burst c seen xs r v h fits =
    peek_until-field burst (space ∷ []) c seen xs space r v
      (one-EndsAt space _ (length xs) (omega arith) (index_of-space xs r h)) fits

peek_until-crlf :
    (burst : ℕ → ℕ) (c : CachedConn) (seen xs r : List ℕ)
    → At seen (xs ++ (crlf ++ r)) c
    → Clean xs
    → length seen + (length xs + 2) ≤ cache_size
    → (d : CachedConn) × (peek_until burst (crlf ∷ []) c ≡ some (ok (xs, crlf, d)))
      × At (seen ++ (xs ++ crlf)) r d
peek_until-crlf burst c seen xs r v h fits =
    peek_until-field burst (crlf ∷ []) c seen xs crlf r v
      (one-EndsAt crlf _ (length xs) (omega arith) (index_of-crlf xs r (Clean-OneLine xs h))) fits

-- The fields behind the kind of addresses.
abbrev pub fields : List ℕ → List ℕ → List ℕ → List ℕ → List ℕ → List ℕ
fields source destination port to rest =
    source ++ (32 ∷ (destination ++ (32 ∷ (port ++ (32 ∷ (to ++ (crlf ++ rest)))))))

module _ (texts : Texts) (burst : ℕ → ℕ) (transport : ℕ) where
  pub read_addresses_lem :
      (c : CachedConn) (seen source destination port to rest : List ℕ)
      → (is4 : Bool) (addr : List ℕ) (n : ℕ) → At seen (fields source destination port to rest) c
      → Clean source
      → Clean destination
      → Clean port
      → Clean to
      → texts.parse_addr source ≡ some (is4, addr)
      → texts.parse_port port ≡ some n
      → length seen + (length source + length destination + length port + length to + 5)
        ≤ cache_size
      → (d : CachedConn) × (s : List ℕ) × (read_addresses texts burst transport c
          ≡ header
              (header1 transport
                (some (unmap (record { is4 = is4; addr = addr; port = n % 65536 }))))
              d)
        × At s rest d
        × (s ++ rest ≡ seen ++ fields source destination port to rest)
  unfolding read_addresses
  read_addresses_lem c seen source destination port to rest is4 addr n v hs hd hp ht ps pp fits =
      let s1 = seen ++ (source ++ space) in
      let s2 = s1 ++ (destination ++ space) in
      let s3 = s2 ++ (port ++ space) in
      let l1 = length-append seen (source ++ space) in
      let l1' = length-append source space in
      let l2 = length-append s1 (destination ++ space) in
      let l2' = length-append destination space in
      let l3 = length-append s2 (port ++ space) in
      let l3' = length-append port space in
      let (c1, r1, v1) = peek_until-space burst c seen source _ v hs (omega (arith, fits)) in
      let (c2, r2, v2) =
        peek_until-space burst c1 s1 destination _ v1 hd (omega (arith, fits, l1, l1')) in
      let (c3, r3, v3) =
        peek_until-space burst c2 s2 port _ v2 hp (omega (arith, fits, l1, l1', l2, l2')) in
      let (c4, r4, v4) =
        peek_until-crlf burst c3 s3 to rest v3 ht
          (omega (arith, fits, l1, l1', l2, l2', l3, l3')) in
      (c4, s3 ++ (to ++ crlf), rw (r1, ps, r2, r3, pp, r4) refl, v4, simp append_assoc)
