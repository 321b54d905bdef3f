-- ===== src/AppSwitcher/Main.antt =====
-- `main` of components/system/src/app-switcher.c: from the start, through the loop, to what the
-- chosen button does.
pub mod Signals
pub mod Exits
pub mod Resumes
pub mod Held
pub mod Restores
pub mod Presses
pub mod Taps
pub mod Ends
pub mod Closes
use nookobo.Prelude.{
  ℕ, Bool, true, false, Option, none, some, List, [], ◌∷◌, ◌++◌, ◌&&◌, if◌then◌else◌, ◌|>◌,
}
use nookobo.Prelude.Int.{pos, negsuc}
use nookobo.Prelude.Text.{codes, text_eq}
use nookobo.Watcher.Canvas.{Mem}
use nookobo.Watcher.Apps.{Files, get_active_app, set_active_app}
use nookobo.AppSwitcher.Buttons.{ButtonId, btn_koreader, btn_plato, btn_netsurf, initial_texts}
use nookobo.AppSwitcher.Session.{
  Switcher, System, Effect, act, killall, kill_signal, Process, luajit, ld, plato_bin, netsurf_fb,
  shell, suspend_active_app, resume_active_app, open_dialog, save_backup, restore_screen,
}
use nookobo.AppSwitcher.Touch.{TouchEvent, touch_events}

-- `find_active_app` reads the files as `get_active_app` of btn-watcher.c does, into 32 bytes too.
unfoldable pub start : Files → Mem → Switcher
start files m = record {
  memory = m;
  backup = none;
  files = files;
  active_app = get_active_app files;
  texts = initial_texts;
  queries = 0;
  running = true;
  last_raw_x = negsuc 0;
  last_raw_y = negsuc 0;
  is_contact_down = false;
  was_contact_down = false;
  active_pressed_btn = none;
  chosen_action = none;
  log = [];
}

-- What `select` brings: touch events, a signal that sets `g_running` to 0, or an error that leaves
-- the loop. Timeouts and EINTR alone change nothing.
pub data Round : Type 0 where
  touches : List TouchEvent → Round
  sigterm : Round
  select_error : Round

unfoldable pub round : System → Round → Switcher → Switcher
round sys (touches es) s = if sys.touch_opens then touch_events sys es s else s
round sys sigterm s = record s { running = false }
round sys select_error s = record s { running = false }

-- The loop over what comes; it is still running if the list ends first.
unfoldable pub rounds : System → List Round → Switcher → Switcher
rounds sys [] s = s
rounds sys (r ∷ rs) s = let rest = rounds sys rs (round sys r s) in if s.running then rest else s

-- fprintf to /tmp/current_app alone.
unfoldable pub set_current_app : List ℕ → Files → Files
set_current_app name f = record f {
  current_app = if f.current_opens then some (name ++ 10 ∷ []) else f.current_app;
}

unfoldable pub switch_to_koreader : Switcher → Switcher
switch_to_koreader s =
    record s { files = set_active_app (codes "koreader") s.files }
    |> act (killall kill_signal ld)
    |> act (killall kill_signal plato_bin)
    |> act (killall kill_signal netsurf_fb)

unfoldable pub switch_to_plato : Switcher → Switcher
switch_to_plato s =
    record s { files = set_active_app (codes "plato") s.files }
    |> act (killall kill_signal luajit)
    |> act (killall kill_signal netsurf_fb)

unfoldable pub launch_netsurf : Switcher → Switcher
launch_netsurf s =
    record s { files = set_current_app (codes "netsurf") s.files }
    |> act (killall kill_signal ld)
    |> act (killall kill_signal plato_bin)
    |> act (killall kill_signal luajit)
    |> act (shell (codes "/opt/start_browser.sh &"))

unfoldable pub finish : Option ButtonId → Switcher → Switcher
finish (some btn_koreader) s =
    if text_eq s.active_app (codes "koreader") then restore_screen s else switch_to_koreader s
finish (some btn_plato) s =
    if text_eq s.active_app (codes "plato") then restore_screen s else switch_to_plato s
finish (some btn_netsurf) s = launch_netsurf s
finish _ s = restore_screen s

-- What stands before the loop.
unfoldable pub prepare : System → Switcher → Switcher
prepare sys s = s |> save_backup sys.room |> open_dialog sys

-- The state at the exit, and the exit code; `none` while the loop waits for more.
unfoldable pub main : System → Files → Mem → List Round → Option (ℕ × Switcher)
main sys files m rs =
    let s = suspend_active_app (start files m) in
    let t = rounds sys rs (prepare sys s) in
    if sys.fb_opens && sys.fb_maps
    then (if t.running then none else some (0, finish t.chosen_action t))
    else some (1, resume_active_app s)
