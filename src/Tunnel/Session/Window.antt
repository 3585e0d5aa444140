-- ===== src/Tunnel/Session/Window.antt =====
-- The receive window of session.go against the chunks that the peer wrote, numbered from 0.
use zbproxy_a.Base.{
  ℕ, zero, suc, ◌+◌, ◌-◌, ◌%◌, ◌^◌, ◌≤◌, ◌<◌, ◌≡◌, refl, sym, ap, ◌∙◌, List, [], ◌∷◌, ◌++◌, true,
  false, some, arith, length, take, drop, get_elem?, get_or, set, copy_at, concat, inl, inr,
  Bool-cases, take-suc, le→ltb, get_elem?-lt, get_or-set, ◌==◌, ltb, leb, ==→eq, ltb→le, leb→lt,
  concat-append, append_assoc, append-nil, length-set, length-copy_at,
}
use zbproxy_a.Tunnel.Limits.{max_in_flight}
use zbproxy_a.Tunnel.Frame.{Frame}
use zbproxy_a.Tunnel.Session.{Session}
use zbproxy_a.Tunnel.Session.Receive.{shift, deliver, deliver_all, place, store_data}

module _ {ℓ} {A : Type ℓ} (hole : A) where
  shift_tail :
      (x : A) (xs : List A) → set (copy_at 0 xs (x ∷ xs)) (length xs) hole ≡ xs ++ (hole ∷ [])
  shift_tail x [] = refl
  shift_tail x (y ∷ xs) = ap (λ t. y ∷ t) (shift_tail y xs)

  pub shift_lem :
      (x : A) (xs : List A)
      → length xs ≡ max_in_flight - 1
      → shift hole (x ∷ xs) ≡ xs ++ (hole ∷ [])
  shift_lem x xs e = ap (λ n. set (copy_at 0 xs (hole ∷ xs)) n hole) (sym e) ∙ shift_tail hole xs

  get_or_snoc : (xs : List A) (i : ℕ) → get_or (xs ++ (hole ∷ [])) i hole ≡ get_or xs i hole
  get_or_snoc [] zero = refl
  get_or_snoc [] (suc i) = refl
  get_or_snoc (x ∷ xs) zero = refl
  get_or_snoc (x ∷ xs) (suc i) = get_or_snoc xs i

  -- After a shift every index reads what stood one place further on.
  pub get_or-shift :
      (xs : List A) (i : ℕ)
      → length xs ≡ max_in_flight
      → get_or (shift hole xs) i hole ≡ get_or xs (suc i) hole
  get_or-shift [] i e = absurd (omega arith)
  get_or-shift (x ∷ xs) i e =
      ap (λ t. get_or t i hole) (shift_lem x xs (omega arith)) ∙ get_or_snoc xs i

  pub length-shift : (xs : List A) → length (shift hole xs) ≡ length xs
  length-shift xs = omega (
    arith,
    length-set xs 0 hole,
    length-copy_at 0 (drop 1 (set xs 0 hole)) (set xs 0 hole),
    length-set (copy_at 0 (drop 1 (set xs 0 hole)) (set xs 0 hole)) (max_in_flight - 1) hole,
  )

-- What the receiver holds, of the `chunks` that were sent: `delivered` was read by the application,
-- `read_buf` waits for it, and the window holds chunks in their places.
pub record Receives (chunks : List (List ℕ)) (delivered : List ℕ) (s : Session) : Type 0 where
  pub next_le : s.recv_next ≤ length chunks
  pub stream : delivered ++ s.read_buf ≡ concat (take s.recv_next chunks)
  pub buf_size : length s.recv_buf ≡ max_in_flight
  pub valid_size : length s.recv_valid ≡ max_in_flight
  pub window :
      (i : ℕ)
      → get_or s.recv_valid i false ≡ true
      → get_elem? chunks (s.recv_next + i) ≡ some (get_or s.recv_buf i [])

module _ (chunks : List (List ℕ)) (few : length chunks < 2 ^ 32) where
  -- A delivery appends the next chunk to the stream.
  deliver-Receives :
      (delivered : List ℕ) (s : Session)
      → Receives chunks delivered s
      → get_or s.recv_valid 0 false ≡ true
      → Receives chunks delivered (deliver s) × ((deliver s).recv_next ≡ s.recv_next + 1)
  unfolding deliver
  deliver-Receives delivered s r e = (
    record {
      next_le = omega (arith, step, get_elem?-lt chunks s.recv_next here);
      stream =
          rw (step, take-suc s.recv_next chunks here, concat-append, append-nil, ← append_assoc)
            (ap (λ t. t ++ get_or s.recv_buf 0 []) r.stream);
      buf_size = length-shift [] s.recv_buf ∙ r.buf_size;
      valid_size = length-shift false s.recv_valid ∙ r.valid_size;
      window = λ i h.
          rw (step_by i, get_or-shift [] s.recv_buf i r.buf_size)
            (r.window (suc i) (sym (get_or-shift false s.recv_valid i r.valid_size) ∙ h));
    },
    omega (arith, step),
  )
    where
      here : get_elem? chunks s.recv_next ≡ some (get_or s.recv_buf 0 [])
      here = let at : s.recv_next + 0 ≡ s.recv_next = omega arith in rw at at (r.window 0 e)

      step : (s.recv_next + 1) % 2 ^ 32 ≡ suc s.recv_next
      step = omega (arith, get_elem?-lt chunks s.recv_next here)

      step_by : (i : ℕ) → (s.recv_next + 1) % 2 ^ 32 + i ≡ s.recv_next + suc i
      step_by i = omega (arith, step)

  -- The delivery loop keeps the invariant and never goes back; with fuel for every payload at the
  -- front it ends by its own test.
  deliver_all-Receives :
      (fuel : ℕ) (delivered : List ℕ) (s : Session)
      → Receives chunks delivered s
      → Receives chunks delivered (deliver_all fuel s)
        × (s.recv_next ≤ (deliver_all fuel s).recv_next)
  unfolding deliver_all
  deliver_all-Receives zero delivered s r = (r, omega arith)
  deliver_all-Receives (suc fuel) delivered s r = elim (Bool-cases (get_or s.recv_valid 0 false)) [
    | inl more ↦
        let (r', next) = deliver-Receives delivered s r more in
        let (all, le) = deliver_all-Receives fuel delivered (deliver s) r' in
        rw (more, deliver_all) (all, omega arith)
    | inr done ↦ rw (done, deliver_all) (r, omega arith)
  ]

  recv_next-place :
      (off : ℕ) (payload : List ℕ) (s : Session) → (place off payload s).recv_next ≡ s.recv_next
  unfolding place
  recv_next-place off payload s = ground arith

  place-Receives :
      (delivered : List ℕ) (off : ℕ) (payload : List ℕ) (s : Session)
      → Receives chunks delivered s
      → off < max_in_flight
      → get_elem? chunks (s.recv_next + off) ≡ some payload
      → Receives chunks delivered (place off payload s)
  unfolding place
  place-Receives delivered off payload s r lt sent =
      elim (Bool-cases (get_or s.recv_valid off false)) [
        | inl taken ↦ rw taken r
        | inr free ↦ rw free (record {
          next_le = r.next_le;
          stream = r.stream;
          buf_size = length-set s.recv_buf off payload ∙ r.buf_size;
          valid_size = length-set s.recv_valid off true ∙ r.valid_size;
          window = λ i h. elim (Bool-cases (off == i)) [
            | inl same ↦
                rw (get_or-set s.recv_buf off i payload [] (omega arith), same, ← ==→eq off i same)
                  sent
            | inr other ↦
                rw (get_or-set s.recv_buf off i payload [] (omega arith), other)
                  (r.window i
                    (rw (get_or-set s.recv_valid off i true false (omega arith), other) at h))
          ];
        })
      ]

  -- A chunk that is stored keeps the invariant, if it was sent under its number.
  pub store_data-Receives :
      (delivered : List ℕ) (f : Frame) (s : Session)
      → Receives chunks delivered s
      → get_elem? chunks f.seq ≡ some f.payload
      → Receives chunks delivered (store_data f s) × (s.recv_next ≤ (store_data f s).recv_next)
  unfolding store_data
  store_data-Receives delivered f s r sent = elim (Bool-cases (ltb f.seq s.recv_next)) [
    | inl old ↦ rw old (r, omega arith)
    | inr fresh ↦ elim (Bool-cases (leb max_in_flight (f.seq - s.recv_next))) [
      | inl far ↦ rw (fresh, far) (r, omega arith)
      | inr near ↦
          let at : s.recv_next + (f.seq - s.recv_next) ≡ f.seq =
            omega (arith, ltb→le f.seq s.recv_next fresh) in
          rw (fresh, near)
            (stored (
              place-Receives delivered (f.seq - s.recv_next) f.payload s r (leb→lt _ _ near)
                (rw at sent)))
    ]
  ]
    where
      stored :
          Receives chunks delivered (place (f.seq - s.recv_next) f.payload s)
          → Receives chunks delivered
              (deliver_all max_in_flight (place (f.seq - s.recv_next) f.payload s))
            × (s.recv_next
                ≤ (deliver_all max_in_flight (place (f.seq - s.recv_next) f.payload s)).recv_next)
      stored p =
          let (q, le) = deliver_all-Receives max_in_flight delivered _ p in
          (q, omega (arith, recv_next-place (f.seq - s.recv_next) f.payload s))

  place_head :
      (payload : List ℕ) (s : Session)
      → length s.recv_valid ≡ max_in_flight
      → get_or (place 0 payload s).recv_valid 0 false ≡ true
  unfolding place
  place_head payload s h = ground (arith, get_or-set s.recv_valid 0 0 true false)

  deliver_all-advances :
      (fuel : ℕ) (delivered : List ℕ) (s : Session)
      → Receives chunks delivered s
      → get_or s.recv_valid 0 false ≡ true
      → s.recv_next < (deliver_all (suc fuel) s).recv_next
  unfolding deliver_all
  deliver_all-advances fuel delivered s r e =
      let (r', next) = deliver-Receives delivered s r e in
      rw (e, deliver_all) (omega (arith, (deliver_all-Receives fuel delivered (deliver s) r').1))

  -- The chunk that is awaited is taken: the stream goes on past it.
  pub store_data_advances :
      (delivered : List ℕ) (f : Frame) (s : Session)
      → Receives chunks delivered s
      → get_elem? chunks f.seq ≡ some f.payload
      → f.seq ≡ s.recv_next
      → s.recv_next < (store_data f s).recv_next
  unfolding store_data
  store_data_advances delivered f s r sent e =
      rw (le→ltb f.seq s.recv_next (omega arith), zero_off)
        (omega (
          arith,
          deliver_all-advances 31 delivered _ placed (place_head f.payload s r.valid_size),
          recv_next-place 0 f.payload s,
        ))
    where
      zero_off : f.seq - s.recv_next ≡ 0
      zero_off = omega arith

      at : f.seq ≡ s.recv_next + 0
      at = omega arith

      placed : Receives chunks delivered (place 0 f.payload s)
      placed = place-Receives delivered 0 f.payload s r (omega arith) (rw at at sent)
