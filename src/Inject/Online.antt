-- ===== src/Inject/Online.antt =====
-- protocol/minecraft/outbound.go: the count of players in `InjectConnection`, which many connections
-- use at once. A login loads the count and compares it, connects to the server, and only then adds 1;
-- it takes 1 off when the copy ends. The settings stay the same: a Reload that changes the limit is
-- left out.
use zbproxy_a.Base.{ℕ, ◌+◌, ◌-◌, ◌≤◌, Bool, false, leb, ◌≡◌, refl, arith, leb→lt}

-- The limit is on; `waiting` logins have passed the comparison, and `playing` have been added.
pub record Counted : Type 0 where
  pub max_online : ℕ
  pub online_count : ℕ
  pub waiting : ℕ
  pub playing : ℕ

-- The comparison of a login, with the limit on.
abbrev pub at_limit : Counted → Bool
at_limit s = leb s.max_online s.online_count

unfoldable pub none_online : ℕ → Counted
none_online limit = record { max_online = limit; online_count = 0; waiting = 0; playing = 0 }

-- One step of one connection.
pub data Step : Counted → Counted → Type 0 where
  compared : (s : Counted) → at_limit s ≡ false → Step s (record s { waiting = s.waiting + 1 })
  given_up : (s : Counted) (n : ℕ) → s.waiting ≡ n + 1 → Step s (record s { waiting = n })
  added :
      (s : Counted) (n : ℕ)
      → s.waiting ≡ n + 1
      → Step s
          (record s { waiting = n; online_count = s.online_count + 1; playing = s.playing + 1 })
  ended :
      (s : Counted) (n : ℕ)
      → s.playing ≡ n + 1
      → Step s (record s { online_count = s.online_count - 1; playing = n })

-- The steps of many connections, in any order; `most` bounds the logins that wait at once.
pub data Run (limit most : ℕ) : Counted → Type 0 where
  started : Run limit most (none_online limit)
  stepped : (s t : Counted) → Run limit most s → Step s t → t.waiting ≤ most → Run limit most t

abbrev pub IsCounted : ℕ → ℕ → Counted → Type 0
IsCounted limit most s =
    (s.max_online ≡ limit)
    × (s.online_count ≡ s.playing)
    × (s.waiting ≤ most)
    × (s.online_count + s.waiting ≤ limit + most - 1)

Step-IsCounted :
    (limit most : ℕ) (s t : Counted)
    → Step s t
    → t.waiting ≤ most
    → IsCounted limit most s
    → IsCounted limit most t
Step-IsCounted limit most s _ (compared _ e) k (f, g, h, i) =
    (f, g, k, omega (arith, leb→lt s.max_online s.online_count e, f, k))
Step-IsCounted limit most s _ (given_up _ n e) k (f, g, h, i) = (f, g, k, omega (arith, e, i))
Step-IsCounted limit most s _ (added _ n e) k (f, g, h, i) =
    (f, omega (arith, g), k, omega (arith, e, i))
Step-IsCounted limit most s _ (ended _ n e) k (f, g, h, i) =
    (f, omega (arith, g, e), k, omega (arith, i))

-- With a limit that stays on and the same, the count is the number of players that are joined, and
-- with the logins that passed the comparison and were not yet added it passes the limit by at most
-- their greatest number less one: with one login at a time the limit holds.
pub Run-IsCounted : (limit most : ℕ) (s : Counted) → Run limit most s → IsCounted limit most s
unfolding none_online
Run-IsCounted limit most _ started = (refl, refl, omega arith, omega arith)
Run-IsCounted limit most t (stepped s _ r step k) =
    Step-IsCounted limit most s t step k (Run-IsCounted limit most s r)
