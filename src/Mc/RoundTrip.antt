-- ===== src/Mc/RoundTrip.antt =====
-- common/mcprotocol/varint.go: `ReadVarIntFrom` on the bytes that `PutVarInt` writes.
use zbproxy_a.Base.{
  ℕ, zero, suc, ◌+◌, ◌*◌, ◌/◌, ◌%◌, ◌^◌, ◌<◌, ◌≤◌, List, [], ◌∷◌, ◌++◌, true, false, ltb, ◌==◌,
  length, ◌≡◌, refl, ap, ◌∙◌, sym, arith, ==-apart, lt→ltb, le→ltb, Bool-cases, inl, inr, ltb→lt,
  take, drop, get_or, subst, length-append,
}
use Prim.Native.Nat.{bit_and, bit_or}
use zbproxy_a.Buf.{Result, Buffer, ok, IsValid, unread, advance, read_byte}
use zbproxy_a.Buf.Slices.{get_elem?-drop}
use zbproxy_a.Buf.Queue.Methods.{length-unread}
use zbproxy_a.Mc.{var_int_len, read_var_int, read_var_int_from, read_var_int_loop, var_int_bytes}
use zbproxy_a.Mc.VarInt.{groups, var_int_bytes-groups}
use zbproxy_a.Mc.Groups.{more, last, merge, merged, pow_next_suc, below, split}

pub read_byte-cons :
    (b : Buffer) (x : ℕ) (rest : List ℕ)
    → IsValid b
    → unread b ≡ x ∷ rest
    → (read_byte b ≡ ok (x, advance 1 b)) × (unread (advance 1 b) ≡ rest) × IsValid (advance 1 b)
unfolding read_byte advance
read_byte-cons b x rest (p, q, r) e =
    let l : b.start < b.end = omega (arith, length-unread b (p, q, r), ap length e) in
    let (y, f, g) = get_elem?-drop b.start b.end b.content l (omega arith) in
    let h : y ∷ drop (suc b.start) (take b.end b.content) ≡ x ∷ rest = sym g ∙ e in
    (
      rw
          (
            ==-apart b.end b.start (λ m. absurd (omega (arith, l, m))),
            lt→ltb b.start b.size (omega (arith, l)),
            f,
          )
          (ap (λ z. ok (z, record b { start = b.start + 1 })) (ap (λ xs. get_or xs 0 0) h)),
      ap (λ n. drop n (take b.end b.content)) {y = suc b.start} (omega arith) ∙ ap (drop 1) h,
      (omega (arith, l), q, r),
    )

advance-advance : (m : ℕ) (b : Buffer) → advance 1 (advance m b) ≡ advance (m + 1) b
unfolding advance
advance-advance m b =
    ap (λ s. record b { start = s }) {x = b.start + m + 1} {y = b.start + (m + 1)} (omega arith)

advance_zero : (b : Buffer) → b ≡ advance 0 b
unfolding advance
advance_zero b = ap (λ s. record b { start = s }) {x = b.start} {y = b.start + 0} (omega arith)

-- A reader that gives the bytes it stands at, one at a time.
module _ {R : Type 0} (next : R → Result (ℕ × R)) (At : R → List ℕ → Type 0)
    (step : (r : R) (x : ℕ) (rest : List ℕ)
      → At r (x ∷ rest)
      → (s : R) × (next r ≡ ok (x, s)) × At s rest) where
  loop_last :
      (fuel n v x : ℕ) (b c : R)
      → n ≤ 5
      → next b ≡ ok (x, c)
      → (bit_and x 128 == 0) ≡ true
      → read_var_int_loop next (suc fuel) n v b ≡ ok (merged n v x, n + 1, c)
  unfolding read_var_int_loop
  loop_last fuel n v x b c h e f = rw (read_var_int_loop, le→ltb 5 n h, e, f) refl

  loop_more :
      (fuel n v x : ℕ) (b c : R)
      → n ≤ 5
      → next b ≡ ok (x, c)
      → (bit_and x 128 == 0) ≡ false
      → read_var_int_loop next (suc fuel) n v b
        ≡ read_var_int_loop next fuel (n + 1) (merged n v x) c
  unfolding read_var_int_loop
  loop_more fuel n v x b c h e f = rw (read_var_int_loop, le→ltb 5 n h, e, f) refl

  Reads : ℕ → ℕ → ℕ → ℕ → List ℕ → List ℕ → R → Type 0
  Reads fuel n v a xs rest b =
      (c : R) × (read_var_int_loop next fuel n v b ≡ ok (v + a * 2 ^ (7 * n), n + length xs, c))
      × At c rest

  last-Reads :
      (fuel n v a : ℕ) (b : R) (rest : List ℕ)
      → At b (a ∷ rest)
      → n ≤ 5
      → a < 128
      → v < 2 ^ (7 * n)
      → v + a * 2 ^ (7 * n) < 2 ^ 32
      → Reads (suc fuel) n v a (a ∷ []) rest b
  unfolding Reads
  last-Reads fuel n v a b rest w f g h i =
      let (c, r, s) = step b a rest w in
      let (l, m) = last a g in
      (
        c,
        loop_last fuel n v a b c f r m
            ∙ ap (λ x. ok (x, n + 1, c))
                (ap (λ x. bit_or v (x * 2 ^ (7 * n) % 2 ^ 32)) l ∙ merge n v a h i),
        s,
      )

  loop-groups :
      (k n fuel v a : ℕ) (b : R) (rest : List ℕ)
      → At b (groups k a ++ rest)
      → n + k ≤ 5
      → k < fuel
      → a < 2 ^ (7 * suc k)
      → v < 2 ^ (7 * n)
      → v + a * 2 ^ (7 * n) < 2 ^ 32
      → Reads fuel n v a (groups k a) rest b
  unfolding Reads groups
  loop-groups k n zero v a b rest w l f g h i = absurd (omega arith)
  loop-groups zero n (suc fuel) v a b rest w l f g h i =
      last-Reads fuel n v a b rest w (omega arith) g h i
  loop-groups (suc k) n (suc fuel) v a b rest w l f g h i = elim (Bool-cases (ltb a 128)) [
    | inl d ↦ rw d (
        last-Reads fuel n v a b rest (subst (At b) (rw d refl) w) (omega arith) (ltb→lt a 128 d) h
          i)
    | inr d ↦
        let (c, r, s) =
          step b (a % 128 + 128) (groups k (a / 128) ++ rest) (subst (At b) (rw d refl) w) in
        let (m, o) = more (a % 128) (omega arith) in
        let q : merged n v (a % 128 + 128) ≡ v + a % 128 * 2 ^ (7 * n) =
          ap (λ x. bit_or v (x * 2 ^ (7 * n) % 2 ^ 32)) m
          ∙ merge n v (a % 128) h (omega (arith, i, split a n)) in
        let len = length (groups k (a / 128)) in
        let (e, t, u) =
          loop-groups k (n + 1) fuel (v + a % 128 * 2 ^ (7 * n)) (a / 128) c rest s (omega arith)
            (omega arith) (omega (arith, pow_next_suc (suc k)))
            (below n v (a % 128) h (omega arith)) (omega (arith, i, split a n)) in
        rw d (
          e,
          loop_more fuel n v (a % 128 + 128) b c (omega arith) r o
              ∙ ap (λ x. read_var_int_loop next fuel (n + 1) x c) q
              ∙ t
              ∙ ap (λ x. ok (x, n + 1 + len, e)) {y = v + a * 2 ^ (7 * n)}
                  (omega (arith, split a n))
              ∙ ap (λ y. ok (v + a * 2 ^ (7 * n), y, e)) {y = n + suc len} (omega arith),
          u,
        )
  ]

  -- Whatever follows them, the bytes that PutVarInt writes of a 32-bit number are read back as this
  -- number from any reader that gives them, and no more is read.
  pub read_var_int_from-var_int_bytes :
      (a : ℕ) (b : R) (rest : List ℕ)
      → a < 2 ^ 32
      → At b (var_int_bytes a ++ rest)
      → (c : R) × (read_var_int_from next b ≡ ok (a, length (var_int_bytes a), c)) × At c rest
  unfolding read_var_int_from Reads
  read_var_int_from-var_int_bytes a b rest h w =
      let (c, r, s) =
        loop-groups 4 0 7 0 a b rest
          (subst (At b) (ap (λ xs. xs ++ rest) (var_int_bytes-groups a h)) w) (omega arith)
          (omega arith) (omega arith) (omega arith) (omega arith) in
      (
        c,
        r
            ∙ ap (λ x. ok (x, 0 + length (groups 4 a), c)) {y = a} (omega arith)
            ∙ ap (λ n. ok (a, n, c)) {y = length (var_int_bytes a)}
                (omega (arith, ap length (var_int_bytes-groups a h))),
        s,
      )

-- A buffer that stands behind its first bytes, and what is unread of it.
abbrev Behind : Buffer → Buffer → List ℕ → Type 0
Behind start b xs =
    (k : ℕ) × (b ≡ advance k start)
    × IsValid b
    × (unread b ≡ xs)
    × (k + length xs ≡ length (unread start))

step_buffer :
    (start b : Buffer) (x : ℕ) (rest : List ℕ)
    → Behind start b (x ∷ rest)
    → (c : Buffer) × (read_byte b ≡ ok (x, c)) × Behind start c rest
step_buffer start b x rest (k, p, q, r, s) =
    let (f, g, h) = read_byte-cons b x rest q r in
    (advance 1 b, f, (k + 1, ap (advance 1) p ∙ advance-advance k start, h, g, omega (arith, s)))

-- Whatever follows them, the bytes that PutVarInt writes of a 32-bit number are read back by
-- ReadVarIntFrom as this number; it takes these bytes from the buffer and no more, and tells their
-- count.
pub read_var_int-var_int_bytes :
    (a : ℕ) (b : Buffer) (rest : List ℕ)
    → a < 2 ^ 32
    → IsValid b
    → unread b ≡ var_int_bytes a ++ rest
    → read_var_int b ≡ ok (a, length (var_int_bytes a), advance (length (var_int_bytes a)) b)
unfolding read_var_int
read_var_int-var_int_bytes a b rest h w e =
    let (c, r, (k, p, q, s, t)) =
      read_var_int_from-var_int_bytes read_byte (Behind b) (step_buffer b) a b rest h
        (0, advance_zero b, w, e, omega (arith, ap length e)) in
    r
    ∙ ap (λ d. ok (a, length (var_int_bytes a), d))
        (p
          ∙ ap (λ m. advance m b)
              (omega (arith, t, ap length e, length-append (var_int_bytes a) rest)))

-- The room that VarIntLen reserves is the number of bytes that PutVarInt writes.
pub length-var_int_bytes : (a : ℕ) → a < 2 ^ 32 → length (var_int_bytes a) ≡ var_int_len a
unfolding groups var_int_len
length-var_int_bytes a h = rw (var_int_bytes-groups a h) ground arith
