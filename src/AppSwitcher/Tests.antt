-- ===== src/AppSwitcher/Tests.antt =====
-- The theorems on components/system/src/app-switcher.c at concrete inputs.
use nookobo.Prelude.{
  ℕ, take, drop, ◌≡◌, ◌≢◌, refl, sym, ap, ◌∙◌, true, false, Option, none, some, List, [], ◌∷◌, inl,
  arith,
}
use nookobo.Prelude.Text.{codes}
use nookobo.Watcher.Canvas.{Mem}
use nookobo.Watcher.Apps.{Files, get_active_app}
use nookobo.AppSwitcher.Buttons.{btn_netsurf, btn_close, button, button_at}
use nookobo.AppSwitcher.Buttons.Hits.{button_at_lem}
use nookobo.AppSwitcher.Session.{
  Switcher, System, luajit, netsurf_fb, stop_signal, suspend_active_app,
}
use nookobo.AppSwitcher.Main.{touches, sigterm, start, prepare, rounds, main}
use nookobo.AppSwitcher.Main.Signals.{last_signal}
use nookobo.AppSwitcher.Main.Resumes.{main_Awake, main_netsurf_stopped}
use nookobo.AppSwitcher.Main.Closes.{resumes, main_restores}
use nookobo.AppSwitcher.Main.Taps.{tap}
use nookobo.AppSwitcher.Main.Ends.{rounds_idle, prepare-Ready, main-tap}

-- Two digits are enough for the battery of these tests.
abbrev two_digits : ℕ → List ℕ
two_digits n = 48 ∷ 48 ∷ []

abbrev white : Mem
white i = 65535

abbrev device : System
device = record {
  fb_opens = true;
  fb_maps = true;
  room = some (λ i. 0);
  touch_opens = true;
  battery = record { capacity = none; charging = none };
  music = λ n. some (codes "STATUS:PLAYING\n");
  digits = two_digits;
}

abbrev files_of : List ℕ → Files
files_of name = record {
  current_app = some name;
  active_reader = none;
  current_opens = true;
  reader_opens = true;
}

-- The state at the exit.
abbrev exit_of : Option (ℕ × Switcher) → Switcher
exit_of none = start (files_of []) white
exit_of (some e) = e.1

exits_with : (o : Option (ℕ × Switcher)) (t : Switcher) → o ≡ some (0, t) → o ≡ some (0, exit_of o)
exits_with o t e = e ∙ ap (λ p. some (0, exit_of p)) (sym e)

-- Plato is active, and the last button is tapped.
abbrev closing : Option (ℕ × Switcher)
closing = main device (files_of (codes "plato")) white (touches (tap 1300 800) ∷ sigterm ∷ [])

closing_chosen :
    (closing ≡ some (0, exit_of closing)) × ((exit_of closing).chosen_action ≡ some btn_close)
unfolding button rounds prepare
closing_chosen =
    let run =
      main-tap device (files_of (codes "plato")) white [] btn_close 1300 800 (tap 1300 800 ∷ [])
        (sigterm ∷ []) refl refl refl refl (omega arith) (omega arith) (omega arith) refl
        (prepare-Ready device (files_of (codes "plato")) white).0
        (prepare-Ready device (files_of (codes "plato")) white).1 in
    (exits_with closing run.0 run.1, ap (λ p. (exit_of p).chosen_action) run.1 ∙ run.2)

-- NetSurf is active, and its button is tapped.
abbrev launching : Option (ℕ × Switcher)
launching = main device (files_of (codes "netsurf")) white (touches (tap 700 900) ∷ [])

launching_chosen :
    (launching ≡ some (0, exit_of launching))
    × ((exit_of launching).chosen_action ≡ some btn_netsurf)
unfolding button rounds prepare
launching_chosen =
    let run =
      main-tap device (files_of (codes "netsurf")) white [] btn_netsurf 700 900 (tap 700 900 ∷ [])
        [] refl refl refl refl (omega arith) (omega arith) (omega arith) refl
        (prepare-Ready device (files_of (codes "netsurf")) white).0
        (prepare-Ready device (files_of (codes "netsurf")) white).1 in
    (exits_with launching run.0 run.1, ap (λ p. (exit_of p).chosen_action) run.1 ∙ run.2)

button_at_lem_example : button_at 500 700 ≡ some btn_netsurf
unfolding button
button_at_lem_example = button_at_lem btn_netsurf 500 700 (omega arith)

-- A round without events, and then a tap at (603, 1300) on the screen, on the last button, whose
-- release comes in a round of its own.
main-tap_example :
    (t : Switcher) × (main device (files_of (codes "plato")) white (
        touches []
        ∷ touches (take 4 (tap 1300 800))
        ∷ touches (drop 4 (tap 1300 800))
        ∷ sigterm
        ∷ [])
      ≡ some (0, t))
    × (t.chosen_action ≡ some btn_close)
unfolding button
main-tap_example =
    main-tap device (files_of (codes "plato")) white (touches [] ∷ []) btn_close 1300 800
      (take 4 (tap 1300 800) ∷ drop 4 (tap 1300 800) ∷ []) (sigterm ∷ []) refl refl refl refl
      (omega arith) (omega arith) (omega arith) refl waits.0 waits.1
  where
    first : Switcher
    first = prepare device (suspend_active_app (start (files_of (codes "plato")) white))

    waits :
        ((rounds device (touches [] ∷ []) first).running ≡ true)
        × ((rounds device (touches [] ∷ []) first).was_contact_down ≡ false)
    waits = rounds_idle device first (prepare-Ready device (files_of (codes "plato")) white)

names_differ : codes "plato" ≢ codes "netsurf"
names_differ e = ground arith

main_Awake_example : last_signal luajit (exit_of closing).log ≢ some stop_signal
unfolding get_active_app
main_Awake_example =
    let name : get_active_app (files_of (codes "plato")) ≢ codes "netsurf" = λ e. names_differ e in
    main_Awake device (files_of (codes "plato")) white (touches (tap 1300 800) ∷ sigterm ∷ []) 0
      (exit_of closing) closing_chosen.0 (inl name) luajit

main_netsurf_stopped_example : last_signal netsurf_fb (exit_of launching).log ≡ some stop_signal
unfolding get_active_app
main_netsurf_stopped_example =
    main_netsurf_stopped device (files_of (codes "netsurf")) white (touches (tap 700 900) ∷ []) 0
      (exit_of launching) launching_chosen.0 refl launching_chosen.1

main_restores_example : (exit_of closing).memory 500000 ≡ 65535
main_restores_example =
    main_restores device (files_of (codes "plato")) white (λ i. 0)
      (touches (tap 1300 800) ∷ sigterm ∷ []) 0 (exit_of closing) refl (λ n h. omega arith) refl
      closing_chosen.0 (ap (resumes (exit_of closing).active_app) closing_chosen.1) 500000
