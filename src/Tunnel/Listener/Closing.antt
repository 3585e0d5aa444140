-- ===== src/Tunnel/Listener/Closing.antt =====
-- listener.go: `Close`, which holds the lock that the callbacks of the sessions take.
use zbproxy_a.Base.{
  ℕ, ◌≡◌, refl, List, [], ◌∷◌, ◌++◌, Bool, true, false, some, Bool-cases, inl, inr,
}
use zbproxy_a.Tunnel.Session.{Session}
use zbproxy_a.Tunnel.Listener.{Listener, close, close_all, end_close, calls_back}

-- The loop of Close stops at the first session that calls back, if there is one.
close_all-sticks :
    (before after : List (ℕ × Session)) (id : ℕ) (s : Session)
    → calls_back s ≡ true
    → (close_all (before ++ ((id, s) ∷ after))).1 ≡ true
unfolding close_all
close_all-sticks [] after id s e = rw (close_all, e) refl
close_all-sticks ((id1, s1) ∷ before) after id s e = elim (Bool-cases (calls_back s1)) [
  | inl f ↦ rw (close_all, f) refl
  | inr f ↦ rw (close_all, f) (close_all-sticks before after id s e)
]

end_close-stuck :
    (r : List (ℕ × Session) × Bool) (l : Listener) → r.1 ≡ true → (end_close r l).stuck ≡ true
end_close-stuck (m, true) l e = refl
end_close-stuck (m, false) l e = cc

-- On an open listener that has a session, anywhere in its map, whose callback is set and has not
-- run, Close leaves the lock held by a call that waits for it.
pub close-stuck :
    (l : Listener) (before after : List (ℕ × Session)) (id : ℕ) (s : Session)
    → l.closed ≡ false
    → l.sessions ≡ some (before ++ ((id, s) ∷ after))
    → s.close_cb ≡ false
    → s.has_on_closed ≡ true
    → (close l).stuck ≡ true
unfolding close
close-stuck l before after id s open_ e cb set_ = elim (Bool-cases l.stuck) [
  | inl f ↦ rw (close, open_, f) refl
  | inr f ↦
      let r = close_all (before ++ ((id, s) ∷ after)) in
      rw (close, open_, f, e)
        (end_close-stuck r l (close_all-sticks before after id s (rw (cb, set_) refl)))
]
