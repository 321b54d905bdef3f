-- ===== src/Watcher/Tests.antt =====
-- The theorems on components/system/src/btn-watcher.c at concrete inputs.
use nookobo.Prelude.{
  ◌≡◌, refl, true, false, none, some, List, [], ◌∷◌, ◌&&◌, ◌||◌, not, arith, ◌==◌, if◌then◌else◌,
}
use nookobo.Prelude.Text.{codes, text_eq}
use nookobo.Watcher.Setup.{Setup, set_up}
use nookobo.Watcher.Setup.Enabled.{AllMade, run_made}
use nookobo.Watcher.Canvas.{Mem}
use nookobo.Watcher.Screen.{Device, Screen, hide_toast}
use nookobo.Watcher.Card.{hide_media_card}
use nookobo.Watcher.Overlay.{Layered}
use nookobo.Watcher.Overlay.Calls.{toast, card, drop_toast, perform_all, hide_restores}
use nookobo.Watcher.Apps.{Files, get_active_app}
use nookobo.Watcher.State.{State, System, Keys, event, ev_key, key_home, initial_keys}
use nookobo.Watcher.Timers.{timers}
use nookobo.Watcher.Handler.{handle}
use nookobo.Watcher.Loop.{Round, run}
use nookobo.Watcher.Loop.Invariant.{Inv, run-Inv, initial_keys-Inv}
use nookobo.Watcher.Loop.Timing.{ClockOk, InTime, timers-InTime}
use nookobo.Watcher.Loop.Reading.{pages, page_key_forwarded}
use nookobo.Watcher.Loop.Chords.{chord_app}
use nookobo.Watcher.Loop.Faults.{
  tap_home, held_double_tap, tap_after_held_double, home_releases, chord_loses_home_release,
}

abbrev white : Mem
white i = 65535

abbrev screen : Screen
screen = record {
  memory = white;
  mapped = true;
  toast_backup = some (λ i. 0);
  card_backup = some (λ i. 0);
  toast_active = false;
  card_active = false;
  toast_expire_time = 0;
  refreshes = [];
}

abbrev device : Device
device = record { opens = true; toast_room = some (λ i. 0); card_room = some (λ i. 0) }

abbrev system : System
system = record { device = device; touch_opens = true }

abbrev files : Files
files = record {
  current_app = some (codes "koreader");
  active_reader = none;
  current_opens = true;
  reader_opens = true;
}

abbrev keys : Keys
keys = record {
  power_pending = false;
  power_down_time = 0;
  home_down = false;
  home_combo_consumed = false;
  home_pending_single = false;
  home_long_sent = false;
  home_down_time = 0;
  home_single_time = 0;
  home_double_consumed = false;
  media_mode = false;
}

abbrev state : Keys → State
state k = record { keys = k; screen = screen; files = files; log = [] }

screen-Layered : Layered white screen
screen-Layered = record {
  shown = refl;
  toast_buffer = (λ i. 0, refl);
  card_buffer = (λ i. 0, refl);
  under_toast = λ i h. refl;
  under_card = λ i h. refl;
  elsewhere = λ i a b. refl;
}

hide_restores_example :
    (hide_media_card (
        hide_toast (
          perform_all device
            (toast (codes "Book") (codes "KOReader") 100 ∷ card none ∷ drop_toast ∷ [])
            screen))).memory
      84582
    ≡ white 84582
hide_restores_example =
    hide_restores white device
      (toast (codes "Book") (codes "KOReader") 100 ∷ card none ∷ drop_toast ∷ []) screen
      (omega arith, omega arith, (omega arith, tt)) screen-Layered 84582

abbrev rounds : List Round
rounds =
    record { now = 1000; input = some (1001, event ev_key key_home 1) }
    ∷ record { now = 1600; input = some (1601, event ev_key key_home 0) }
    ∷ []

run-Inv_example : Inv (run system rounds (state initial_keys)).keys
run-Inv_example = run-Inv system rounds (state initial_keys) initial_keys-Inv

abbrev powered : Keys
powered = record keys { power_pending = true; power_down_time = 1000 }

powered-ClockOk : ClockOk 1200 powered
powered-ClockOk = record {
  power_clock = λ e. (omega arith, omega arith, omega arith);
  held_clock = λ e. cc;
  tap_clock = λ e. cc;
}

timers-InTime_example :
    InTime 1200 (timers 1200 (state powered)).0.keys (timers 1200 (state powered)).1
timers-InTime_example = timers-InTime 1200 (state powered) powered-ClockOk

page_key_forwarded_example : pages (handle system 1000 (event ev_key 193 1) (state keys)).log ≡ (
    if (1 == 1 && not keys.home_down && not keys.media_mode)
      || (1 == 0 && not keys.home_combo_consumed && not keys.media_mode)
    then event ev_key 193 1 ∷ pages []
    else pages [])
page_key_forwarded_example =
    page_key_forwarded system 1000 193 1 (state keys) (omega arith) (omega arith)

abbrev holding : Keys
holding = record keys { home_down = true; home_down_time = 1000 }

chord_app_example :
    get_active_app (handle system 1200 (event ev_key 192 1) (state holding)).files ≡ (
      if 192 == 191
      then codes "koreader"
      else if 192 == 192
      then codes "plato"
      else if text_eq (get_active_app files) (codes "netsurf")
      then codes "koreader"
      else codes "netsurf")
chord_app_example = chord_app system 1200 192 (state holding) (omega arith) (omega arith) refl refl

-- A tap from 1000 to 1100, a press at 1200 that is held in the round at 1700 and let go at 2000.
abbrev let_go : State
let_go = held_double_tap system 1000 1100 1200 1700 2000 (state keys)

tap_after_held_double_example :
    (let_go.keys.home_double_consumed ≡ true)
    × ((tap_home system 3000 3100 let_go).log ≡ let_go.log)
    × ((tap_home system 3000 3100 let_go).keys.home_pending_single ≡ false)
tap_after_held_double_example =
    tap_after_held_double system 1000 1100 1200 1700 2000 3000 3100 (state keys) (refl, refl, refl)
      refl (omega arith, omega arith, omega arith) (omega arith)

abbrev long : Keys
long = record keys { home_down = true; home_long_sent = true }

abbrev next_press : State
next_press = handle system 3000 (event ev_key key_home 1) (
    handle system 2000 (event ev_key key_home 0)
      (handle system 1600 (event ev_key 193 1) (state long)))

chord_loses_home_release_example :
    (home_releases next_press.log ≡ home_releases []) × (next_press.keys.home_long_sent ≡ false)
chord_loses_home_release_example =
    chord_loses_home_release system 1600 2000 3000 193 (state long) (omega arith) (omega arith) refl
      refl

abbrev all_well : Setup
all_well = record {
  events_open = true;
  uinput_opens = false;
  input_uinput_opens = true;
  describes = true;
  creates = true;
}

run_made_example : AllMade (set_up all_well).1 (run system rounds (state initial_keys)).log
unfolding set_up
run_made_example = run_made all_well system rounds (state initial_keys) refl refl
