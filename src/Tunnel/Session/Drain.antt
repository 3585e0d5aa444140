-- ===== src/Tunnel/Session/Drain.antt =====
-- The delivery loop of session.go ends, and takes the next chunk when it arrives.
use zbproxy_a.Base.{
  ℕ, zero, suc, ◌-◌, ◌≤◌, ◌≡◌, refl, ap, ◌∙◌, List, [], ◌∷◌, ◌++◌, Bool, true, false, arith, length,
  get_or, inl, inr, Bool-cases, ltb, leb, length-set,
}
use zbproxy_a.Tunnel.Limits.{max_in_flight}
use zbproxy_a.Tunnel.Frame.{Frame}
use zbproxy_a.Tunnel.Session.{Session}
use zbproxy_a.Tunnel.Session.Receive.{shift, deliver, deliver_all, place, store_data}
use zbproxy_a.Tunnel.Session.Window.{shift_lem, length-shift}

-- How many payloads can be delivered at once.
abbrev pub ready : List Bool → ℕ
ready [] = 0
ready (false ∷ bs) = 0
ready (true ∷ bs) = suc (ready bs)

ready-le : (bs : List Bool) → ready bs ≤ length bs
ready-le [] = omega arith
ready-le (false ∷ bs) = omega arith
ready-le (true ∷ bs) = omega (arith, ready-le bs)

ready_snoc : (bs : List Bool) → ready (bs ++ (false ∷ [])) ≡ ready bs
ready_snoc [] = refl
ready_snoc (false ∷ bs) = refl
ready_snoc (true ∷ bs) = ap suc (ready_snoc bs)

ready-shift :
    (bs : List Bool)
    → length bs ≡ max_in_flight
    → get_or bs 0 false ≡ true
    → suc (ready (shift false bs)) ≡ ready bs
ready-shift [] h e = cc
ready-shift (true ∷ bs) h e =
    ap (λ t. suc (ready t)) (shift_lem false true bs (omega arith)) ∙ ap suc (ready_snoc bs)
ready-shift (false ∷ bs) h e = cc

head_ready : (bs : List Bool) → ready bs ≤ 0 → get_or bs 0 false ≡ false
head_ready [] h = refl
head_ready (false ∷ bs) h = refl
head_ready (true ∷ bs) h = absurd (omega arith)

-- With fuel for every payload at the front the loop ends by its own test.
deliver_all-ends :
    (fuel : ℕ) (s : Session)
    → length s.recv_valid ≡ max_in_flight
    → ready s.recv_valid ≤ fuel
    → get_or (deliver_all fuel s).recv_valid 0 false ≡ false
unfolding deliver_all
deliver_all-ends zero s h le = head_ready s.recv_valid le
deliver_all-ends (suc fuel) s h le = elim (Bool-cases (get_or s.recv_valid 0 false)) [
  | inl more ↦
      rw (deliver_all, more)
        (deliver_all-ends fuel (deliver s) (unfold deliver in length-shift false s.recv_valid ∙ h)
          (unfold deliver in omega (arith, ready-shift s.recv_valid h more)))
  | inr done ↦ rw (deliver_all, done) done
]

length-recv_valid-place :
    (off : ℕ) (payload : List ℕ) (s : Session)
    → length (place off payload s).recv_valid ≡ length s.recv_valid
unfolding place
length-recv_valid-place off payload s = ground (arith, length-set s.recv_valid off true)

-- The fuel of `store_data` is enough: when it has stored a frame of the window, no payload that
-- could be delivered is left.
pub store_data_drains :
    (f : Frame) (s : Session)
    → length s.recv_valid ≡ max_in_flight
    → get_or s.recv_valid 0 false ≡ false
    → get_or (store_data f s).recv_valid 0 false ≡ false
unfolding store_data
store_data_drains f s h idle = elim (Bool-cases (ltb f.seq s.recv_next)) [
  | inl old ↦ rw old idle
  | inr fresh ↦ elim (Bool-cases (leb max_in_flight (f.seq - s.recv_next))) [
    | inl far ↦ rw (fresh, far) idle
    | inr near ↦
        let size = length-recv_valid-place (f.seq - s.recv_next) f.payload s ∙ h in
        rw (fresh, near)
          (deliver_all-ends max_in_flight _ size
            (omega (arith, size, ready-le (place (f.seq - s.recv_next) f.payload s).recv_valid)))
  ]
]
