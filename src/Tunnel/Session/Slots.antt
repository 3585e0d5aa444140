-- ===== src/Tunnel/Session/Slots.antt =====
-- The send window of session.go: which chunks its slots hold.
use zbproxy_a.Base.{
  ℕ, ◌-◌, ◌≤◌, ◌≡◌, ◌⊎◌, refl, ap, suc, List, [], ◌∷◌, ◌++◌, some, arith, length, All, ltb, leb,
  inl, inr, Bool-cases, get_elem?, ltb→lt,
}
use zbproxy_a.Tunnel.Limits.{max_payload}
use zbproxy_a.Tunnel.Session.{Session, SendSlot}
use zbproxy_a.Tunnel.Session.Send.{unacked, consume_ack, due, renew}

-- A slot holds the chunk of its number, and that fits a datagram.
abbrev pub IsSent : List (List ℕ) → SendSlot → Type 0
IsSent chunks slot =
    (get_elem? chunks slot.seq ≡ some slot.content) × (length slot.content ≤ max_payload)

-- A slot is kept for the chunk `n`.
abbrev pub HasSlot : ℕ → List SendSlot → Type 0
HasSlot n [] = ⊥
HasSlot n (slot ∷ slots) = (slot.seq ≡ n) ⊎ HasSlot n slots

module _ (chunks : List (List ℕ)) where
  pub unacked-IsSent :
      (ack : ℕ) (slots : List SendSlot)
      → All (IsSent chunks) slots
      → All (IsSent chunks) (unacked ack slots)
  unfolding unacked
  unacked-IsSent ack [] h = tt
  unacked-IsSent ack (slot ∷ slots) h = elim (Bool-cases (ltb slot.seq ack)) [
    | inl old ↦ rw old (unacked-IsSent ack slots h.1)
    | inr kept ↦ rw kept (h.0, unacked-IsSent ack slots h.1)
  ]

  pub due-IsSent :
      (now rto : ℕ) (slots : List SendSlot)
      → All (IsSent chunks) slots
      → All (IsSent chunks) (due now rto slots)
  unfolding due
  due-IsSent now rto [] h = tt
  due-IsSent now rto (slot ∷ slots) h = elim (Bool-cases (leb rto (now - slot.last_send))) [
    | inl late ↦ rw late (h.0, due-IsSent now rto slots h.1)
    | inr early ↦ rw early (due-IsSent now rto slots h.1)
  ]

  pub renew-IsSent :
      (now rto : ℕ) (slots : List SendSlot)
      → All (IsSent chunks) slots
      → All (IsSent chunks) (renew now rto slots)
  unfolding renew
  renew-IsSent now rto [] h = tt
  renew-IsSent now rto (slot ∷ slots) h = elim (Bool-cases (leb rto (now - slot.last_send))) [
    | inl late ↦ rw late (h.0, renew-IsSent now rto slots h.1)
    | inr early ↦ rw early (h.0, renew-IsSent now rto slots h.1)
  ]

pub HasSlot-append_left : (n : ℕ) (xs ys : List SendSlot) → HasSlot n xs → HasSlot n (xs ++ ys)
HasSlot-append_left n [] ys h = absurd h
HasSlot-append_left n (x ∷ xs) ys (inl e) = inl e
HasSlot-append_left n (x ∷ xs) ys (inr h) = inr (HasSlot-append_left n xs ys h)

pub HasSlot-snoc : (xs : List SendSlot) (slot : SendSlot) → HasSlot slot.seq (xs ++ (slot ∷ []))
HasSlot-snoc [] slot = inl refl
HasSlot-snoc (x ∷ xs) slot = inr (HasSlot-snoc xs slot)

pub HasSlot-unacked :
    (n ack : ℕ) (slots : List SendSlot) → ack ≤ n → HasSlot n slots → HasSlot n (unacked ack slots)
unfolding unacked
HasSlot-unacked n ack [] le h = absurd h
HasSlot-unacked n ack (slot ∷ slots) le h = elim (Bool-cases (ltb slot.seq ack)) [
  | inl old ↦ rw old (elim h [
    | inl e ↦ absurd (omega (arith, ltb→lt slot.seq ack old))
    | inr later ↦ HasSlot-unacked n ack slots le later
  ])
  | inr kept ↦
      rw kept (elim h [ inl e ↦ inl e | inr later ↦ inr (HasSlot-unacked n ack slots le later) ])
]

pub HasSlot-renew :
    (n now rto : ℕ) (slots : List SendSlot) → HasSlot n slots → HasSlot n (renew now rto slots)
unfolding renew
HasSlot-renew n now rto [] h = absurd h
HasSlot-renew n now rto (slot ∷ slots) h = elim (Bool-cases (leb rto (now - slot.last_send))) [
  | inl late ↦
      rw late (elim h [ inl e ↦ inl e | inr later ↦ inr (HasSlot-renew n now rto slots later) ])
  | inr early ↦
      rw early (elim h [ inl e ↦ inl e | inr later ↦ inr (HasSlot-renew n now rto slots later) ])
]

pub length-unacked : (ack : ℕ) (slots : List SendSlot) → length (unacked ack slots) ≤ length slots
unfolding unacked
length-unacked ack [] = omega arith
length-unacked ack (slot ∷ slots) = ground (arith, length-unacked ack slots)

unacked_all :
    (ack : ℕ) (slots : List SendSlot)
    → length slots ≤ length (unacked ack slots)
    → unacked ack slots ≡ slots
unfolding unacked
unacked_all ack [] h = refl
unacked_all ack (slot ∷ slots) h = ground (arith, length-unacked ack slots, unacked_all ack slots)

-- Whichever way `consumeAckLocked` goes, its slots are those that the acknowledgement leaves.
pub send_slots-consume_ack :
    (ack : ℕ) (s : Session) → (consume_ack ack s).send_slots ≡ unacked ack s.send_slots
unfolding consume_ack
send_slots-consume_ack ack s = ground (arith, unacked_all ack s.send_slots)

pub length-renew :
    (now rto : ℕ) (slots : List SendSlot) → length (renew now rto slots) ≡ length slots
unfolding renew
length-renew now rto [] = refl
length-renew now rto (slot ∷ slots) = ap suc (length-renew now rto slots)
