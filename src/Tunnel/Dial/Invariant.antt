-- ===== src/Tunnel/Dial/Invariant.antt =====
-- common/udptunnel/dial.go: the clients that a dial reaches, and what they keep.
use zbproxy_a.Base.{
  ℕ, List, [], ◌∷◌, Bool, true, false, ◌==◌, ==→eq, some, ◌≡◌, inl, inr, refl, ◌∙◌, ap, arith,
  Bool-cases, Option-cases,
}
use zbproxy_a.Tunnel.Limits.{type_synack}
use zbproxy_a.Tunnel.Frame.{Frame}
use zbproxy_a.Tunnel.Session.{new_session}
use zbproxy_a.Tunnel.Session.Handler.{on_packet}
use zbproxy_a.Tunnel.Session.Send.{retransmit_tick}
use zbproxy_a.Tunnel.Dial.{
  Client, new_client, shutdown, Arrival, datagram, read_timeout, read_error, frame_of, on_frame,
  reader_step, begin_dial, Selected, dial_step, close_client, session_id,
}
use zbproxy_a.Tunnel.Dial.Life.{
  retransmit_tick-SameLife, opened, on_packet-opened, on_packet-id, on_packet-closed,
}
use zbproxy_a.Tunnel.Dial.Quiet.{
  Quiet, Released, trans-Quiet, shutdown-Quiet, sent-Quiet, begin_dial-Quiet, dial_step-Quiet,
  close_client-Quiet,
}

-- The clients that a dial reaches, with what has come from the socket, latest first.
pub data Dialing (random : ℕ) : List Arrival → Client → Type 0 where
  fresh : (peer now : ℕ) → Dialing random [] (new_client random peer now)
  began :
      {got : List Arrival} {c : Client} (io : Bool)
      → Dialing random got c
      → Dialing random got (begin_dial io c).0
  arrived :
      {got : List Arrival} {c : Client} (now : ℕ) (a : Arrival)
      → Dialing random got c
      → Dialing random (a ∷ got) (reader_step now a c).0
  selected :
      {got : List Arrival} {c : Client} (deadline : ℕ) (e : Selected)
      → Dialing random got c
      → Dialing random got (dial_step deadline e c).0
  closes :
      {got : List Arrival} {c : Client}
      → Dialing random got c
      → Dialing random got (close_client c).0

-- A SYNACK for the session is among what has come.
pub data Answered (id : ℕ) : List Arrival → Type 0 where
  here :
      {got : List Arrival} (b : List ℕ) (source : ℕ) (f : Frame)
      → frame_of b ≡ some f
      → f.session_id ≡ id
      → f.typ ≡ type_synack
      → Answered id (datagram b source ∷ got)
  there : {got : List Arrival} (a : Arrival) → Answered id got → Answered id (a ∷ got)

-- What every client of a dial keeps.
pub record Holds (id : ℕ) (got : List Arrival) (c : Client) : Type 0 where
  pub id_eq : c.session.id ≡ id
  pub answered : opened c.session ≡ true → Answered id got
  pub stopped_Released : c.stopped ≡ true → Released c
  pub closed_stopped : c.close_once ≡ true → c.stopped ≡ true

Quiet-Holds :
    {id : ℕ} {got : List Arrival} {c d : Client} → Quiet c d → Holds id got c → Holds id got d
Quiet-Holds q h = record {
  id_eq = q.same_id ∙ h.id_eq;
  answered = λ o. h.answered (q.opened_before o);
  stopped_Released = q.ends h.stopped_Released;
  closed_stopped = q.once h.closed_stopped;
}

there-Holds :
    {id : ℕ} {got : List Arrival} {c : Client} (a : Arrival) → Holds id got c → Holds id (a ∷ got) c
there-Holds a h = record {
  id_eq = h.id_eq;
  answered = λ o. there a (h.answered o);
  stopped_Released = h.stopped_Released;
  closed_stopped = h.closed_stopped;
}

halted-Quiet : (c : Client) → Quiet c (record c { reading = false })
halted-Quiet c = record { same_id = refl; opened_before = λ o. o; ends = λ r. r; once = λ r. r }

heard-Holds :
    {id : ℕ} {got : List Arrival} {c : Client} (now source : ℕ) (b : List ℕ) (f : Frame)
    → Holds id got c
    → frame_of b ≡ some f
    → f.session_id ≡ c.session.id
    → Holds id
        (datagram b source ∷ got)
        (record c { session = (on_packet f (some source) now c.session).0 })
heard-Holds {id} {got} {c} now source b f h e same = record {
  id_eq = on_packet-id f (some source) now c.session ∙ h.id_eq;
  answered = λ o. elim (on_packet-opened f (some source) now c.session o) [
    | inl before ↦ there (datagram b source) (h.answered before)
    | inr synack ↦ here b source f e (same ∙ h.id_eq) synack
  ];
  stopped_Released = λ s. (
    (h.stopped_Released s).0,
    ap (λ t. t.closed) (on_packet-closed f (some source) now c.session (h.stopped_Released s).1)
        ∙ (h.stopped_Released s).1,
  );
  closed_stopped = h.closed_stopped;
}

on_frame-Holds :
    {id : ℕ} {got : List Arrival} {c : Client} (now source : ℕ) (b : List ℕ) (f : Frame)
    → Holds id got c
    → frame_of b ≡ some f
    → Holds id (datagram b source ∷ got) (on_frame now source f c).0
unfolding on_frame
on_frame-Holds {id} {got} {c} now source b f h e =
    let after = record c { session = (on_packet f (some source) now c.session).0 } in
    elim (Bool-cases (f.session_id == c.session.id)) [
      | inr other ↦ rw other (there-Holds (datagram b source) h)
      | inl mine ↦
          let heard = heard-Holds now source b f h e (==→eq f.session_id c.session.id mine) in
          let reset =
            Quiet-Holds (trans-Quiet (shutdown-Quiet after) (halted-Quiet (shutdown after)))
              heard in
          ground (arith, mine, heard, reset)
    ]

-- A round of a reader that goes on.
taken-Holds :
    {id : ℕ} {got : List Arrival} {c : Client} (now : ℕ) (a : Arrival)
    → Holds id got c
    → c.reading ≡ true
    → c.stopped ≡ false
    → Holds id (a ∷ got) (reader_step now a c).0
unfolding reader_step
taken-Holds {id} {got} {c} now read_error h r n =
    let later = there-Holds read_error h in
    let ended = trans-Quiet (shutdown-Quiet c) (halted-Quiet (shutdown c)) in
    ground (arith, r, n, Quiet-Holds ended later)
taken-Holds {id} {got} {c} now read_timeout h r n =
    let t = retransmit_tick now c.session in
    let later = there-Holds read_timeout h in
    ground (
      arith,
      r,
      n,
      Quiet-Holds (halted-Quiet c) later,
      Quiet-Holds (sent-Quiet c t.0 (retransmit_tick-SameLife now c.session)) later,
    )
taken-Holds {id} {got} {c} now (datagram b source) h r n = elim (Option-cases (frame_of b)) [
  | inl e ↦ rw (r, n, e) (there-Holds (datagram b source) h)
  | inr (f, e) ↦ rw (r, n, e) (on_frame-Holds now source b f h e)
]

reader_step-Holds :
    {id : ℕ} {got : List Arrival} {c : Client} (now : ℕ) (a : Arrival)
    → Holds id got c
    → Holds id (a ∷ got) (reader_step now a c).0
unfolding reader_step
reader_step-Holds {id} {got} {c} now a h =
    let later = there-Holds a h in
    let halted = Quiet-Holds (halted-Quiet c) later in
    elim (Bool-cases c.reading) [
      | inr quiet ↦ ground (arith, quiet, later)
      | inl quiet ↦ elim (Bool-cases c.stopped) [
        | inl stop ↦ ground (arith, quiet, stop, halted)
        | inr stop ↦ taken-Holds now a h quiet stop
      ]
    ]

-- What every client of a dial keeps, it keeps.
pub Dialing-Holds :
    {random : ℕ} {got : List Arrival} {c : Client}
    → Dialing random got c
    → Holds (session_id random) got c
unfolding new_client new_session
Dialing-Holds (fresh peer now) = record {
  id_eq = refl;
  answered = λ o. ground (arith, o);
  stopped_Released = λ s. ground (arith, s);
  closed_stopped = λ s. ground (arith, s);
}
Dialing-Holds (began {got} {c} io d) = Quiet-Holds (begin_dial-Quiet io c) (Dialing-Holds d)
Dialing-Holds (arrived now a d) = reader_step-Holds now a (Dialing-Holds d)
Dialing-Holds (selected {got} {c} deadline e d) =
    Quiet-Holds (dial_step-Quiet deadline e c) (Dialing-Holds d)
Dialing-Holds (closes {got} {c} d) = Quiet-Holds (close_client-Quiet c) (Dialing-Holds d)
