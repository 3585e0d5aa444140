-- ===== src/Tests/Roots.antt =====
-- A configuration that is loaded, closed and asked to reload.
use zbproxy_a.Base.{ℕ, [], ◌∷◌, true, false, ◌≡◌, refl, inr}
use zbproxy_a.Root.{
  Root, holds, returns, panics, close, reload, watched, load_config_from_file, load_content,
  validate_auth_secret, opened, closed,
}
use zbproxy_a.Root.Reloading.{loaded, shut, IsKept, Lived-IsKept, close-reload}

abbrev watching : Root ℕ
watching = record {
  contents = 4;
  auth_secret = 104 ∷ [];
  watcher = true;
  reload_chan = opened;
  handler = false;
  handled = 0;
}

abbrev after_close : Root ℕ
after_close = record watching { watcher = false; reload_chan = closed }

first_load : load_config_from_file 0 true true true (holds 4 (104 ∷ [])) ≡ returns (inr watching)
unfolding load_config_from_file load_content validate_auth_secret watched
first_load = refl

then_closed : close watching ≡ returns after_close
unfolding close
then_closed = refl

Lived-IsKept_example : IsKept after_close
Lived-IsKept_example = Lived-IsKept 0 after_close (
    shut watching after_close then_closed
      (loaded true true true (holds 4 (104 ∷ [])) watching first_load))

close-reload_example : reload true after_close ≡ panics
close-reload_example = close-reload watching after_close true refl then_closed
