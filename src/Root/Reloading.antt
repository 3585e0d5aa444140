-- ===== src/Root/Reloading.antt =====
-- config/root.go: what holds of a configuration through its reloads, and what follows a close.
use zbproxy_a.Base.{◌≤◌, Bool, true, length, inr, ◌≡◌, arith}
use zbproxy_a.Auth.{max_len}
use zbproxy_a.Root.{
  Root, File, returns, panics, Event, round, close, reload, load_again, load_content,
  validate_auth_secret, watched, load_config_from_file, opened,
}

module _ {A : Type 0} where
  -- The rounds of the loop and the closes of a root that was loaded.
  pub data Lived (default : A) : Root A → Type 0 where
    loaded :
        (watch makes adds : Bool) (file : File A) (r : Root A)
        → load_config_from_file default watch makes adds file ≡ returns (inr r)
        → Lived default r
    rounded :
        (e : Event) (file : File A) (go : Bool) (r s : Root A)
        → round e file r ≡ returns (go, s)
        → Lived default r
        → Lived default s
    shut : (r s : Root A) → close r ≡ returns s → Lived default r → Lived default s
    handler_set : (r : Root A) → Lived default r → Lived default (record r { handler = true })

  -- The secret is short enough to send, and a watched root has its channel open.
  abbrev pub IsKept : Root A → Type 0
  IsKept r = (length r.auth_secret ≤ max_len) × (r.watcher ≡ true → r.reload_chan ≡ opened)

  load_again-IsKept : (file : File A) (r : Root A) → IsKept r → IsKept (load_again file r)
  unfolding load_again load_content validate_auth_secret
  load_again-IsKept file r h = ground arith

  close-IsKept : (r s : Root A) → close r ≡ returns s → IsKept r → IsKept s
  unfolding close
  close-IsKept r s e h = ground arith

  round-IsKept :
      (e : Event) (file : File A) (go : Bool) (r s : Root A)
      → round e file r ≡ returns (go, s)
      → IsKept r
      → IsKept s
  unfolding round
  round-IsKept e file go r s f h = ground (arith, load_again-IsKept file r h, close-IsKept r)

  load-IsKept :
      (default : A) (watch makes adds : Bool) (file : File A) (r : Root A)
      → load_config_from_file default watch makes adds file ≡ returns (inr r)
      → IsKept r
  unfolding load_config_from_file watched load_content validate_auth_secret close
  load-IsKept default watch makes adds file r e = ground arith

  -- Through every sequence of reloads, changes of the file and closes, the secret that the services and
  -- the outbounds are given has at most 128 bytes, and a root that is still watched can be closed.
  pub Lived-IsKept : (default : A) (r : Root A) → Lived default r → IsKept r
  Lived-IsKept default r (loaded watch makes adds file _ e) =
      load-IsKept default watch makes adds file r e
  Lived-IsKept default s (rounded e file go r _ f h) =
      round-IsKept e file go r s f (Lived-IsKept default r h)
  Lived-IsKept default s (shut r _ e h) = close-IsKept r s e (Lived-IsKept default r h)
  Lived-IsKept default _ (handler_set r h) = Lived-IsKept default r h

  -- After a close of a watched root every manual reload panics, since it sends on the closed channel.
  pub close-reload :
      (r s : Root A) (waiting : Bool)
      → r.watcher ≡ true
      → close r ≡ returns s
      → reload waiting s ≡ panics
  unfolding close reload
  close-reload r s waiting w e = ground arith
