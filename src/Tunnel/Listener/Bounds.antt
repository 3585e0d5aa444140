-- ===== src/Tunnel/Listener/Bounds.antt =====
-- The memory bounds of listener.go: sessions and waiting connections.
use zbproxy_a.Base.{
  ℕ, suc, ◌≤◌, ◌≡◌, refl, ap, sym, List, [], ◌∷◌, Bool, true, false, Option, none, some, arith,
  ◌==◌, length, length-append, Bool-cases, Option-cases, inl, inr,
}
use zbproxy_a.Base.Assoc.{lookup, insert, nat_eq, length-insert, length-remove}
use zbproxy_a.Tunnel.Limits.{max_sessions, type_syn, type_synack, type_ping}
use zbproxy_a.Tunnel.Frame.{Frame, Result, ok, err, decode}
use zbproxy_a.Tunnel.Session.{Session, Effect, send, on_closed, write_packet}
use zbproxy_a.Tunnel.Session.Handler.{on_packet}
use zbproxy_a.Tunnel.Listener.{
  Listener, accept_capacity, remove_session, run_callbacks, fresh_session, open_session,
  reopen_session, handle_packet, dispatch_session, dispatch, on_decoded, read_datagram, tick_all,
  retransmit_all, drop_idle, recycle, accept, close, close_all, end_close, calls_back,
}

-- What can happen to a listener, in any order.
pub data Event : Type 0 where
  datagram : List ℕ → ℕ → ℕ → Event
  retransmit : ℕ → Event
  recycle_idle : ℕ → Event
  accept_call : Event
  close_call : Event

unfoldable pub step : Event → Listener → Listener
step (datagram d addr now) l = (read_datagram d addr now l).0
step (retransmit now) l = (retransmit_all now l).0
step (recycle_idle now) l = recycle now l
step accept_call l = (accept l).0
step close_call l = close l

unfoldable pub run : List Event → Listener → Listener
unfolding step
run [] l = l
run (e ∷ es) l = run es (step e l)

abbrev pub Fits : Option (List (ℕ × Session)) → Type 0
Fits none = Unit {0}
Fits (some m) = length m ≤ max_sessions

pub record IsBounded (l : Listener) : Type 0 where
  pub sessions_le : Fits l.sessions
  pub accept_le : length l.accept_ch ≤ accept_capacity

remove_session-IsBounded : (id : ℕ) (l : Listener) → IsBounded l → IsBounded (remove_session id l)
unfolding remove_session
remove_session-IsBounded id l h = elim (Option-cases l.sessions) [
  | inl e ↦ ground arith
  | inr (m, e) ↦ ground (arith, length-remove id m)
]

run_callbacks-IsBounded :
    (es : List Effect) (l : Listener) → IsBounded l → IsBounded (run_callbacks es l)
unfolding run_callbacks
run_callbacks-IsBounded [] l h = h
run_callbacks-IsBounded (send a b ∷ es) l h = run_callbacks-IsBounded es l h
run_callbacks-IsBounded (on_closed id ∷ es) l h =
    run_callbacks-IsBounded es (remove_session id l) (remove_session-IsBounded id l h)

-- Writing back a session that is there.
put_back-IsBounded :
    (id : ℕ) (s old : Session) (m : List (ℕ × Session)) (l : Listener)
    → lookup id m ≡ some old
    → length m ≤ max_sessions
    → length l.accept_ch ≤ accept_capacity
    → IsBounded (record l { sessions = some (insert id s m) })
put_back-IsBounded id s old m l found fits room = ground (arith, length-insert id s m)

open_session-IsBounded :
    (id addr now : ℕ) (m : List (ℕ × Session)) (l : Listener)
    → lookup id m ≡ none
    → l.sessions ≡ some m
    → IsBounded l
    → IsBounded (open_session id addr now m l).0
unfolding open_session
open_session-IsBounded id addr now m l absent e h = ground (
  arith,
  length-insert id (fresh_session id addr now) m,
  length-remove id (insert id (fresh_session id addr now) m),
  length-insert id (write_packet (fresh_session id addr now) type_synack 0 0 [] true).0 m,
  length-append l.accept_ch (id ∷ []),
)

reopen_session-IsBounded :
    (id : ℕ) (s : Session) (addr : ℕ) (m : List (ℕ × Session)) (l : Listener)
    → lookup id m ≡ some s
    → length m ≤ max_sessions
    → IsBounded l
    → IsBounded (reopen_session id s addr m l).0
unfolding reopen_session
reopen_session-IsBounded id s addr m l found fits h =
    put_back-IsBounded id _ s m l found fits h.accept_le

handle_packet-IsBounded :
    (f : Frame) (addr now : ℕ) (s : Session) (m : List (ℕ × Session)) (l : Listener)
    → lookup f.session_id m ≡ some s
    → length m ≤ max_sessions
    → IsBounded l
    → IsBounded (handle_packet f addr now s m l).0
unfolding handle_packet
handle_packet-IsBounded f addr now s m l found fits h =
    let r = on_packet f (some addr) now s in
    run_callbacks-IsBounded r.1 _ (put_back-IsBounded f.session_id r.0 s m l found fits h.accept_le)

dispatch_session-IsBounded :
    (f : Frame) (addr now : ℕ) (m : List (ℕ × Session)) (l : Listener)
    → l.sessions ≡ some m
    → IsBounded l
    → IsBounded (dispatch_session f addr now m l).0
unfolding dispatch_session
dispatch_session-IsBounded f addr now m l e h = elim (Option-cases (lookup f.session_id m)) [
  | inl absent ↦ elim (Bool-cases (f.typ == type_syn)) [
    | inl syn ↦
        rw (absent, syn, dispatch_session)
          (open_session-IsBounded f.session_id addr now m l absent e h)
    | inr other ↦ rw (absent, other, dispatch_session) h
  ]
  | inr (s, found) ↦
      let fits : length m ≤ max_sessions = rw e at h.sessions_le in
      elim (Bool-cases (f.typ == type_syn)) [
        | inl syn ↦
            rw (found, syn, dispatch_session)
              (reopen_session-IsBounded f.session_id s addr m l found fits h)
        | inr other ↦
            rw (found, other, dispatch_session)
              (handle_packet-IsBounded f addr now s m l found fits h)
      ]
]

dispatch-IsBounded :
    (f : Frame) (addr now : ℕ) (l : Listener) → IsBounded l → IsBounded (dispatch f addr now l).0
unfolding dispatch
dispatch-IsBounded f addr now l h = elim (Option-cases l.sessions) [
  | inl e ↦ ground arith
  | inr (m, e) ↦ elim (Bool-cases (f.typ == type_ping)) [
    | inl ping ↦ rw ping h
    | inr other ↦ ground (arith, dispatch_session-IsBounded f addr now m l e h)
  ]
]

tick_all-length : (now : ℕ) (m : List (ℕ × Session)) → length (tick_all now m).0 ≡ length m
unfolding tick_all
tick_all-length now [] = refl
tick_all-length now ((id, s) ∷ m) = ap suc (tick_all-length now m)

drop_idle-length :
    (timeout now : ℕ) (m : List (ℕ × Session)) → length (drop_idle timeout now m) ≤ length m
unfolding drop_idle
drop_idle-length timeout now [] = omega arith
drop_idle-length timeout now ((id, s) ∷ m) = ground (arith, drop_idle-length timeout now m)

on_decoded-IsBounded :
    (r : Result Frame) (addr now : ℕ) (l : Listener)
    → IsBounded l
    → IsBounded (on_decoded r addr now l).0
unfolding on_decoded
on_decoded-IsBounded (ok f) addr now l h = dispatch-IsBounded f addr now l h
on_decoded-IsBounded (err e) addr now l h = h

close_all-length : (m : List (ℕ × Session)) → length (close_all m).0 ≡ length m
unfolding close_all
close_all-length [] = refl
close_all-length ((id, s) ∷ m) = elim (Bool-cases (calls_back s)) [
  | inl e ↦ rw (close_all, e) refl
  | inr e ↦ rw (close_all, e) (ap suc (close_all-length m))
]

end_close-IsBounded :
    (r : List (ℕ × Session) × Bool) (l : Listener)
    → length r.0 ≤ max_sessions
    → IsBounded l
    → IsBounded (end_close r l)
end_close-IsBounded (m, true) l p h = record { sessions_le = p; accept_le = h.accept_le }
end_close-IsBounded (m, false) l p h = record { sessions_le = tt; accept_le = h.accept_le }

close-IsBounded : (l : Listener) → IsBounded l → IsBounded (close l)
unfolding close
close-IsBounded l h = elim (Option-cases l.sessions) [
  | inl e ↦ ground arith
  | inr (m, e) ↦
      let fits : length m ≤ max_sessions = rw (sym (ap Fits e)) h.sessions_le in
      ground (arith, end_close-IsBounded (close_all m) l (omega (arith, close_all-length m)) h)
]

step-IsBounded : (e : Event) (l : Listener) → IsBounded l → IsBounded (step e l)
unfolding step
step-IsBounded (datagram d addr now) l h =
    unfold read_datagram in on_decoded-IsBounded (decode d) addr now l h
step-IsBounded (retransmit now) l h =
    unfold retransmit_all in
    elim (Option-cases l.sessions) [
      | inl e ↦ ground arith
      | inr (m, e) ↦ ground (arith, tick_all-length now m)
    ]
step-IsBounded (recycle_idle now) l h =
    unfold recycle in
    elim (Option-cases l.sessions) [
      | inl e ↦ ground arith
      | inr (m, e) ↦ ground (arith, drop_idle-length l.idle_after now m)
    ]
step-IsBounded accept_call l h = unfold accept in ground arith
step-IsBounded close_call l h = close-IsBounded l h

-- A listener never holds more than `MaxSessions` sessions, nor more connections to accept than its
-- channel has room for, whatever datagrams arrive, in whatever order its timers fire, connections
-- are accepted and it is closed.
pub run-IsBounded : (es : List Event) (l : Listener) → IsBounded l → IsBounded (run es l)
unfolding run
run-IsBounded [] l h = h
run-IsBounded (e ∷ es) l h = run-IsBounded es (step e l) (step-IsBounded e l h)
