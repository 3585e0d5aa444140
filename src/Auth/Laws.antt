-- ===== src/Auth/Laws.antt =====
-- common/authsecret: who passes `Verify`, and that it always returns.
use zbproxy_a.Base.{
  ℕ, ◌+◌, ◌≤◌, ◌<◌, List, [], ◌++◌, Bool, true, leb, ◌==◌, length, take, drop, Option, none, some,
  ◌↔◌, ◌≢◌, ◌≡◌, refl, sym, ap, ◌∙◌, arith, length-append, take-append, drop-append,
  take-append-drop, Bool-cases, inl, inr, if◌then◌else◌, le→leb, length-take, ==-apart, eq→==,
  le→ltb, leb→le,
}
use zbproxy_a.Base.Assoc.{◌===◌, bytes_eq, bytes_beq_iff}
use zbproxy_a.Wire.{
  Conn, Ending, ended, failed, read_full, set_read_deadline, closes, breaks, stalls,
}
use zbproxy_a.Auth.{
  Error, Verdict, returns, waits, judge, verify, max_len, normalize, accepted, mismatch, short_read,
  network, stored_secret, write, default_timeout,
}

abbrev pub IsSecret : List ℕ → Type 0
IsSecret secret = (0 < length secret) × (length secret ≤ max_len)

-- The secret that is stored is empty or short enough to send.
pub length-stored_secret : (s : List ℕ) → length (stored_secret s) ≤ max_len
unfolding stored_secret normalize
length-stored_secret s = ground arith

-- The part of the connection that a check which passes leaves.
abbrev pub rest_of : List ℕ → Conn → Conn
rest_of rest c = record c { incoming = rest; deadline = none }

abbrev pub end_error : Ending → Error
end_error closes = short_read
end_error breaks = network
end_error stalls = network

taken_length : (n : ℕ) (xs : List ℕ) → leb n (length xs) ≡ true → (length (take n xs) == n) ≡ true
taken_length n xs e =
    eq→== (length (take n xs)) n (omega (arith, length-take n xs, leb→le n (length xs) e))

short_end :
    (secret : List ℕ) (e : Ending) (d : ℕ) (c : Conn)
    → judge secret (elim e [
      | closes ↦ ended (record c { incoming = []; deadline = some d })
      | breaks ↦ failed (record c { incoming = []; deadline = some d })
      | stalls ↦ failed (record c { incoming = []; deadline = some d })
    ])
      ≡ returns (some (end_error e)) (rest_of [] c)
unfolding judge set_read_deadline
short_end secret closes d c = refl
short_end secret breaks d c = refl
short_end secret stalls d c = refl

-- What `Verify` does with a usable secret, on every branch: the secret's length is taken off the
-- stream and compared, or the stream ended before; the deadline is cleared.
pub verify_lem :
    (now timeout : ℕ) (secret : List ℕ) (c : Conn)
    → IsSecret secret
    → verify now secret timeout c ≡ (
        if leb (length secret) (length c.incoming)
        then returns
            (if take (length secret) c.incoming === secret then none else some mismatch)
            (rest_of (drop (length secret) c.incoming) c)
        else returns (some (end_error c.ending)) (rest_of [] c))
unfolding verify judge read_full set_read_deadline
verify_lem now timeout secret c p = elim (Bool-cases (leb (length secret) (length c.incoming))) [
  | inl enough ↦
      rw
        (
          ==-apart (length secret) 0 (omega arith),
          le→ltb max_len (length secret) (p.1),
          enough,
          taken_length (length secret) c.incoming enough,
        )
        refl
  | inr short ↦
      rw (==-apart (length secret) 0 (omega arith), le→ltb max_len (length secret) (p.1), short)
        (short_end secret c.ending (now + (if timeout == 0 then default_timeout else timeout)) c)
]

-- `Verify` returns whatever the other side sends: no peer keeps it waiting.
verify_returns :
    (now timeout : ℕ) (secret : List ℕ) (c : Conn) → verify now secret timeout c ≢ waits
unfolding verify judge read_full set_read_deadline
verify_returns now timeout secret c = ground arith

-- The connection that a call which passes leaves.
abbrev passed : Verdict → Option Conn
passed (returns none c) = some c
passed (returns (some e) c) = none
passed waits = none

passed_if :
    (enough same : Bool) (e : Error) (c d f : Conn)
    → passed
        (if enough then returns (if same then none else some mismatch) c else returns (some e) d)
      ≡ some f
    → (same ≡ true) × (c ≡ f)
passed_if enough same e c d f h = ground arith

-- A connection that passes began with the secret, and is left behind it.
pub verify_accepts :
    (now timeout : ℕ) (secret : List ℕ) (c d : Conn)
    → IsSecret secret
    → verify now secret timeout c ≡ returns none d
    → (rest : List ℕ) × (c.incoming ≡ secret ++ rest) × (d ≡ rest_of rest c)
verify_accepts now timeout secret c d p e =
    let parts =
      passed_if (leb (length secret) (length c.incoming))
        (take (length secret) c.incoming === secret) (end_error c.ending)
        (rest_of (drop (length secret) c.incoming) c) (rest_of [] c) d
        (ap passed (sym (verify_lem now timeout secret c p) ∙ e)) in
    (
      drop (length secret) c.incoming,
      sym (take-append-drop (length secret) c.incoming)
          ∙ ap (λ xs. xs ++ drop (length secret) c.incoming)
              ((bytes_beq_iff (take (length secret) c.incoming) secret).0 (parts.0)),
      sym (parts.1),
    )

-- A connection passes exactly when its stream begins with the secret, and what follows the secret is
-- still to be read, with no deadline.
pub verify_accepts_iff :
    (now timeout : ℕ) (secret rest : List ℕ) (c : Conn)
    → IsSecret secret
    → (verify now secret timeout c ≡ returns none (rest_of rest c)) ↔ (c.incoming ≡ secret ++ rest)
verify_accepts_iff now timeout secret rest c p = (
  (λ e.
      let left = verify_accepts now timeout secret c (rest_of rest c) p e in
      left.1 ∙ ap (λ (d : Conn). secret ++ d.incoming) (sym (left.2))),
  (λ e.
      rw
        (
          verify_lem now timeout secret c p,
          e,
          le→leb (length secret) (length (secret ++ rest))
              (omega (arith, length-append secret rest)),
          take-append (length secret) secret rest refl,
          drop-append (length secret) secret rest refl,
          (bytes_beq_iff secret secret).1 refl,
        )
        refl),
)

normalize-IsSecret :
    (configured secret : List ℕ) → normalize configured ≡ accepted (some secret) → IsSecret secret
unfolding normalize
normalize-IsSecret configured secret e = ground arith

-- A secret that `Normalize` gives is written whole and passes the check at the other end, which
-- leaves what was sent behind it.
pub write-verify :
    (now timeout : ℕ) (configured secret rest : List ℕ) (c : Conn)
    → normalize configured ≡ accepted (some secret)
    → (write secret (some (length secret)) ≡ none)
      × (verify now secret timeout (record c { incoming = secret ++ rest })
          ≡ returns none (rest_of rest c))
unfolding normalize write
write-verify now timeout configured secret rest c e =
    let bounds : IsSecret secret = normalize-IsSecret configured secret e in
    (
      ground arith,
      (verify_accepts_iff now timeout secret rest (record c { incoming = secret ++ rest }) bounds).1
          refl,
    )
