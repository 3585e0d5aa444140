-- ===== src/Root.antt =====
-- config/root.go: the configuration as it is loaded, watched and reloaded. The rest of the contents is
-- any type; what reading the file gives, JSON included, and whether it can be watched are given. A
-- channel that is nil, closed or open is a state of its own, since closing or sending depends on it.
pub mod Reloading
use zbproxy_a.Base.{
  ℕ, List, [], ◌∷◌, Bool, true, false, ltb, ◌==◌, if◌then◌else◌, length, Option, none, some, not,
  ◌⊎◌, inl, inr, ◌+◌,
}
use zbproxy_a.Route.Values.{String}
use zbproxy_a.Auth.{max_len}

pub data Error : Type 0 where
  not_exist unreadable malformed too_long create_watcher add_watch : Error
  create_file generate : Error

-- `validateAuthSecret`
unfoldable pub validate_auth_secret : String → Option Error
validate_auth_secret secret =
    if length secret == 0 then none else if ltb max_len (length secret) then some too_long else none

-- What stands at the path; if nothing, whether a file can be created and written.
pub data File {ℓ} (A : Type ℓ) : Type ℓ where
  missing : Bool → Bool → File A
  forbidden not_json : File A
  holds : A → String → File A

pub data Loaded {ℓ} (A : Type ℓ) : Type ℓ where
  content : A → String → Loaded A
  refused : Error → Loaded A

pub data Channel : Type 0 where
  nil opened closed : Channel

-- `handled` counts the calls of the update handler.
pub record Root {ℓ} (A : Type ℓ) : Type ℓ where
  pub contents : A
  pub auth_secret : String
  pub watcher : Bool
  pub reload_chan : Channel
  pub handler : Bool
  pub handled : ℕ

-- A call that returns, or panics.
pub data Call {ℓ} (B : Type ℓ) : Type ℓ where
  returns : B → Call B
  panics : Call B

pub data Event : Type 0 where
  reload_asked channel_closed : Event
  file_changed events_closed : Event
  watch_error : Event
  context_done : Event

module _ {ℓ} {A : Type ℓ} where
  unfoldable pub load_content : File A → Loaded A
  unfolding validate_auth_secret
  load_content (missing creates encodes) = refused not_exist
  load_content forbidden = refused unreadable
  load_content not_json = refused malformed
  load_content (holds a secret) = elim (validate_auth_secret secret) [
    | none ↦ content a secret
    | some e ↦ refused e
  ]

  -- `Close`: closing a nil or a closed channel panics.
  unfoldable pub close : Root A → Call (Root A)
  close r =
      if r.watcher
      then elim r.reload_chan [
        | nil ↦ panics
        | closed ↦ panics
        | opened ↦ returns (record r { watcher = false; reload_chan = closed })
      ]
      else returns r

  -- `Reload`: whether the loop waits for the channel decides if the send takes place.
  unfoldable pub reload : Bool → Root A → Call Bool
  reload waiting r = elim r.reload_chan [
    | nil ↦ returns false
    | opened ↦ returns waiting
    | closed ↦ panics
  ]

  -- The second half of the loop: the file is loaded, and what is wrong with it keeps the contents.
  unfoldable pub load_again : File A → Root A → Root A
  unfolding load_content
  load_again file r = elim (load_content file) [
    | refused e ↦ r
    | content a secret ↦ record r {
      contents = a;
      auth_secret = secret;
      handled = if r.handler then r.handled + 1 else r.handled;
    }
  ]

  -- The next select of the loop looks at the watcher, which `Close` makes nil.
  unfoldable pub next_select : Root A → Call (Bool × Root A)
  next_select r = if r.watcher then returns (true, r) else panics

  -- One round of `reloadEventLoop`, from what its select took on: whether the loop goes on, and the
  -- root.
  unfoldable pub round : Event → File A → Root A → Call (Bool × Root A)
  unfolding load_again close next_select
  round reload_asked file r = next_select (load_again file r)
  round file_changed file r = next_select (load_again file r)
  round channel_closed file r = returns (false, r)
  round events_closed file r = returns (false, r)
  round watch_error file r = returns (false, r)
  round context_done file r = elim (close r) [ returns s ↦ returns (false, s) | panics ↦ panics ]

  -- `LoadConfigFromFile` behind the loading: with `watch` a watcher is made and the path added, and
  -- the channel is made last.
  unfoldable pub watched : Bool → Bool → Bool → A → String → Call (Error ⊎ Root A)
  unfolding close
  watched watch makes adds a secret =
      let r : Root A = record {
        contents = a;
        auth_secret = secret;
        watcher = false;
        reload_chan = nil;
        handler = false;
        handled = 0;
      } in
      if not watch
      then returns (inr r)
      else if not makes
      then returns (inl create_watcher)
      else if not adds
      then elim (close (record r { watcher = true })) [
        | panics ↦ panics
        | returns s ↦ returns (inl add_watch)
      ]
      else returns (inr (record r { watcher = true; reload_chan = opened }))

  -- The default configuration is written when there is no file; its secret is empty.
  unfoldable pub load_config_from_file : A → Bool → Bool → Bool → File A → Call (Error ⊎ Root A)
  unfolding watched load_content
  load_config_from_file default watch makes adds (missing creates encodes) =
      if not creates
      then returns (inl create_file)
      else if not encodes
      then returns (inl generate)
      else watched watch makes adds default []
  load_config_from_file default watch makes adds forbidden = returns (inl unreadable)
  load_config_from_file default watch makes adds not_json = returns (inl malformed)
  load_config_from_file default watch makes adds (holds a secret) =
      elim (load_content (holds a secret)) [
        | refused e ↦ returns (inl e)
        | content b s ↦ watched watch makes adds b s
      ]
