-- ===== src/Service/Life.antt =====
-- service/service.go: the listeners a service holds through its starts, reloads and closes.
use zbproxy_a.Base.{
  ℕ, List, ◌∷◌, ◌++◌, Bool, true, false, not, if◌then◌else◌, Option, none, some, ◌≡◌, ◌⊎◌, inl, inr,
  refl, arith, Bool-cases, ==_refl,
}
use zbproxy_a.Route.Values.{String}
use zbproxy_a.Service.{
  Config, Service, Surroundings, Socket, tcp_socket, udp_socket, Outcome, Error, closed,
  start_legacy, start_lists, start_flags, listen_tcp, listen_udp, start, close, reload, close_tcp,
  close_udp, close_socket, is_socket, new_service, set_auth_secret,
}
use zbproxy_a.Service.Steps.{
  tcp_port, udp_port_of, sockets_of, IsStopped, IsRunning, AfterStart, AfterStep-when_ok,
  start_legacy-IsStopped, start_lists-IsStopped, start_flags-HasPort, listen_tcp-HasTcp,
  close_socket_head, listen_udp-HasBoth,
}

-- `Start` of a stopped service runs the listeners that the configuration asks for, or returns an
-- error and leaves none open, whichever step fails.
pub start-AfterStart :
    (base : List Socket) (w : Surroundings) (s : Service)
    → IsStopped base s
    → AfterStart base (start w s)
unfolding start
start-AfterStart base w s h =
    AfterStep-when_ok base (start_legacy w s) _ (start_legacy-IsStopped base w s h) (λ a ha.
      AfterStep-when_ok base (start_lists w a) _ (start_lists-IsStopped base w a ha) (λ b hb.
        AfterStep-when_ok base (start_flags b) _ (start_flags-HasPort base b hb) (λ c hc.
          AfterStep-when_ok base (listen_tcp w c) _ (listen_tcp-HasTcp base w c hc) (λ d hd.
            AfterStep-when_ok base (listen_udp w d) _ (listen_udp-HasBoth base w d hd)
              (λ e he. (refl, he.0, he.1, he.2, he.3))))))

-- What holds between two calls.
abbrev pub IsSound : List Socket → Service → Type 0
IsSound base s = IsStopped base s ⊎ IsRunning base s

past_udp :
    (p q : ℕ) (base : List Socket)
    → close_socket (tcp_socket p) (udp_socket q ∷ (tcp_socket p ∷ base)) ≡ udp_socket q ∷ base
unfolding close_socket is_socket
past_udp p q base = rw (==_refl p) refl

closed-IsStopped :
    (base : List Socket) (s : Service) (t u : Option ℕ)
    → s.tcp_listener ≡ t
    → s.udp_listener ≡ u
    → s.sockets ≡ sockets_of t u ++ base
    → IsStopped base (record (close_udp (close_tcp s)) { started = false })
unfolding close_tcp close_udp
closed-IsStopped base s none none ht hu hs = rw (ht, hu, hs) (refl, refl, refl, refl)
closed-IsStopped base s (some p) none ht hu hs =
    rw (ht, hu, hs, close_socket_head (tcp_socket p) base) (refl, refl, refl, refl)
closed-IsStopped base s none (some q) ht hu hs =
    rw (ht, hu, hs, close_socket_head (udp_socket q) base) (refl, refl, refl, refl)
closed-IsStopped base s (some p) (some q) ht hu hs =
    ground (arith, past_udp p q base, close_socket_head (udp_socket q) base)

pub close-IsStopped :
    (base : List Socket) (s : Service) → IsSound base s → IsStopped base (close s).1
unfolding close
close-IsStopped base s (inl h) = ground arith
close-IsStopped base s (inr h) =
    let closes =
      closed-IsStopped base s (tcp_port s.config) (udp_port_of s.config) (h.1) (h.2) (h.3) in
    elim (Bool-cases s.started) [
      | inl e ↦ simp (e) closes
      | inr e ↦ absurd (ground (arith, e, h.0))
    ]

-- The calls the application makes: it starts a service once, or again after a close.
pub data Called (base : List Socket) : Service → Type 0 where
  made : (c : Config) → Called base (new_service c base)
  secret_set :
      (s : Service) (secret : String) → Called base s → Called base (set_auth_secret secret s)
  started_up :
      (s : Service) (w : Surroundings)
      → s.started ≡ false
      → Called base s
      → Called base (start w s).1
  reloaded :
      (s : Service) (w : Surroundings) (c : Config) → Called base s → Called base (reload w c s).1
  shut : (s : Service) → Called base s → Called base (close s).1

AfterStart-IsSound : (base : List Socket) (o : Outcome) → AfterStart base o → IsSound base o.1
AfterStart-IsSound base (none, s) h = inr h
AfterStart-IsSound base (some e, s) h = inl h

IsSound-IsStopped :
    (base : List Socket) (s : Service) → s.started ≡ false → IsSound base s → IsStopped base s
IsSound-IsStopped base s e (inl h) = h
IsSound-IsStopped base s e (inr h) = absurd (ground (arith, e, h.0))

either_branch :
    (P : Outcome → Type 0) (b : Bool) (x y : Outcome)
    → (b ≡ true → P x)
    → (b ≡ false → P y)
    → P (if b then x else y)
either_branch P true x y hx hy = hx refl
either_branch P false x y hx hy = hy refl

false_of_not : (b : Bool) → not b ≡ true → b ≡ false
false_of_not b e = ground arith

-- A reload leaves the listeners of the new configuration, or, with an error, none.
pub reload-AfterStart :
    (base : List Socket) (w : Surroundings) (c : Config) (s : Service)
    → IsSound base s
    → AfterStart base (reload w c s)
unfolding reload
reload-AfterStart base w c s h =
    let emptied : Service = record (close s).1 {
      config = c;
      legacy_outbound = false;
      ip_access_lists = none;
    } in
    let after : IsStopped base (close s).1 → AfterStart base (start w emptied) =
      (λ k. start-AfterStart base w emptied k) in
    either_branch (AfterStart base) (not s.started) (some closed, s) (start w emptied)
      (λ e. IsSound-IsStopped base s (false_of_not s.started e) h)
      (λ e. after (close-IsStopped base s h))

-- In whatever order a service is started, reloaded, closed and given secrets, it is stopped with no
-- socket of its own open, or it runs the listeners of its configuration and no other.
pub Called-IsSound : (base : List Socket) (s : Service) → Called base s → IsSound base s
unfolding new_service set_auth_secret
Called-IsSound base _ (made c) = inl (refl, refl, refl, refl)
Called-IsSound base _ (secret_set s secret h) = Called-IsSound base s h
Called-IsSound base _ (started_up s w e h) =
    AfterStart-IsSound base (start w s)
      (start-AfterStart base w s (IsSound-IsStopped base s e (Called-IsSound base s h)))
Called-IsSound base _ (reloaded s w c h) =
    AfterStart-IsSound base (reload w c s) (reload-AfterStart base w c s (Called-IsSound base s h))
Called-IsSound base _ (shut s h) = inl (close-IsStopped base s (Called-IsSound base s h))

reload_stopped :
    (w : Surroundings) (c : Config) (s : Service)
    → s.started ≡ false
    → reload w c s ≡ (some closed, s)
unfolding reload
reload_stopped w c s e = simp (e) refl

AfterStart-error :
    (base : List Socket) (o : Outcome) (e : Error)
    → o.0 ≡ some e
    → AfterStart base o
    → o.1.started ≡ false
AfterStart-error base (none, s) e h k = absurd (ground (arith, h))
AfterStart-error base (some f, s) e h k = k.0

-- A reload that fails while the service runs is final: the old listeners are closed, and every reload
-- after it, whatever its configuration, returns the closed error and changes nothing.
pub reload-failed :
    (base : List Socket) (w v : Surroundings) (c d : Config) (s : Service) (e : Error)
    → IsSound base s
    → (reload w c s).0 ≡ some e
    → reload v d (reload w c s).1 ≡ (some closed, (reload w c s).1)
reload-failed base w v c d s e h k =
    reload_stopped v d (reload w c s).1
      (AfterStart-error base (reload w c s) e k (reload-AfterStart base w c s h))
