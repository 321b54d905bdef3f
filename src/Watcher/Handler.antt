-- ===== src/Watcher/Handler.antt =====
-- The event handlers of the main loop of components/system/src/btn-watcher.c.
use nookobo.Prelude.{
  ℕ, ◌+◌, ◌-◌, ◌%◌, ◌^◌, Bool, true, false, some, List, ◌&&◌, ◌||◌, not, leb, ◌==◌, if◌then◌else◌,
  ◌|>◌,
}
use nookobo.Prelude.Text.{codes, text_eq}
use nookobo.Watcher.Screen.{show_toast}
use nookobo.Watcher.Card.{show_media_card, hide_media_card}
use nookobo.Watcher.Apps.{get_active_app, set_active_app}
use nookobo.Watcher.State.{
  State, Keys, System, InputEvent, wait, shell, push, emit_event, emit_syn, inject_plato_frontlight,
  ev_syn, ev_key, ev_sw, key_home, key_power,
}

-- now - since <= POWER_DOUBLE_CLICK_MS over uint64_t
abbrev pub within_window : ℕ → ℕ → Bool
within_window now since = leb ((now + 2 ^ 64 - since) % 2 ^ 64) 400

abbrev pub set_keys : Keys → State → State
set_keys k w = record w { keys = k }

abbrev pub toast : System → List ℕ → List ℕ → ℕ → State → State
toast sys title subtitle now w = record w {
  screen = show_toast sys.device title subtitle now w.screen;
}

abbrev pub card : System → List ℕ → State → State
card sys status w = record w { screen = show_media_card sys.device (some status) w.screen }

abbrev pub drop_card : State → State
drop_card w = record w { screen = hide_media_card w.screen }

abbrev pub choose_app : List ℕ → State → State
choose_app name w = record w { files = set_active_app name w.files }

abbrev pub app_is : List ℕ → State → Bool
app_is name w = text_eq (get_active_app w.files) name

-- if (media_mode) { hide_media_card(); media_mode = 0; }
unfoldable pub leave_media : State → State
leave_media w =
    if w.keys.media_mode
    then w |> drop_card |> set_keys (record (w.keys) { media_mode = false })
    else w

unfoldable pub power_down : ℕ → State → State
power_down now w =
    let k : Keys = w.keys in
    if k.power_pending && within_window now k.power_down_time
    then w
      |> set_keys (record k { power_pending = false })
      |> push (shell "/opt/scripts/toggle_frontlight.sh &")
    else set_keys (record k { power_pending = true; power_down_time = now }) w

unfoldable pub double_tap : System → State → State
double_tap sys w =
    w
    |> set_keys (record (w.keys) { home_pending_single = false; home_double_consumed = true })
    |> push (shell "/opt/audiocontrol.sh pause 2>/dev/null &")
    |> card sys (codes "PLAYBACK: PLAY / PAUSE TOGGLED  >||")

unfoldable pub home_press : ℕ → State → State
home_press now w =
    set_keys
      (record (w.keys) {
        home_down = true;
        home_down_time = now;
        home_combo_consumed = false;
        home_long_sent = false;
        home_pending_single = false;
      })
      w

unfoldable pub home_key_down : System → ℕ → State → State
unfolding double_tap home_press
home_key_down sys now w =
    let k : Keys = w.keys in
    home_press now (
      if k.home_pending_single && not k.home_double_consumed && within_window now k.home_single_time
      then double_tap sys w
      else w)

unfoldable pub home_tapped : System → ℕ → State → State
home_tapped sys now w =
    if w.keys.media_mode
    then w
      |> push (shell "/opt/audiocontrol.sh pause 2>/dev/null &")
      |> card sys (codes "PLAYBACK: PLAY / PAUSE TOGGLED  >||")
    else set_keys (record (w.keys) { home_pending_single = true; home_single_time = now }) w

unfoldable pub home_key_up : System → ℕ → State → State
unfolding home_tapped emit_event emit_syn
home_key_up sys now w0 =
    let w : State = set_keys (record (w0.keys) { home_down = false }) w0 in
    if w.keys.home_combo_consumed
    then set_keys (record (w.keys) { home_combo_consumed = false }) w
    else if w.keys.home_long_sent
    then w
      |> emit_event ev_key key_home 0
      |> emit_syn
      |> set_keys (record (w.keys) { home_long_sent = false })
    else if w.keys.home_double_consumed
    then set_keys (record (w.keys) { home_double_consumed = false }) w
    else home_tapped sys now w

-- Home + Top Left
unfoldable pub chord_koreader : System → ℕ → State → State
unfolding leave_media emit_event emit_syn
chord_koreader sys now w0 =
    let w : State = leave_media w0 in
    if app_is (codes "koreader") w
    then w
      |> toast sys (codes "FRONTLIGHT DIALOG") (codes "KOReader Warmth & Brightness") now
      |> emit_event ev_key key_home 1
      |> emit_syn
      |> push (wait 550000)
      |> emit_event ev_key key_home 0
      |> emit_syn
      |> set_keys (record (w.keys) { home_combo_consumed = false })
    else w
      |> toast sys (codes "SWITCHING TO KOREADER...") (codes "Document & Book Reader") now
      |> choose_app (codes "koreader")
      |> push (shell "killall -9 ld-2.19.so plato netsurf-fb 2>/dev/null || true")

-- Home + Bottom Left
unfoldable pub chord_plato : System → ℕ → State → State
unfolding leave_media inject_plato_frontlight
chord_plato sys now w0 =
    let w : State = leave_media w0 in
    if app_is (codes "plato") w
    then w
      |> toast sys (codes "FRONTLIGHT DIALOG") (codes "Opening Plato Warmth & Brightness") now
      |> inject_plato_frontlight sys
    else w
      |> toast sys (codes "SWITCHING TO PLATO...") (codes "Fast Touch-Driven Rust Reader") now
      |> choose_app (codes "plato")
      |> push (shell "killall -9 luajit netsurf-fb 2>/dev/null || true")

-- Home + Top Right
unfoldable pub chord_netsurf : System → ℕ → State → State
unfolding leave_media
chord_netsurf sys now w0 =
    let w : State = leave_media w0 in
    if app_is (codes "netsurf") w
    then w
      |> toast sys (codes "CLOSING NETSURF...") (codes "Returning to Document Reader") now
      |> choose_app (codes "koreader")
      |> push (shell "killall -9 netsurf-fb 2>/dev/null || true")
    else w
      |> toast sys (codes "LAUNCHING NETSURF...") (codes "E-Ink Optimized Web Browser") now
      |> choose_app (codes "netsurf")
      |> push (shell "killall -9 luajit ld-2.19.so plato 2>/dev/null || true")

-- Home + Bottom Right
unfoldable pub chord_media : System → ℕ → State → State
chord_media sys now w =
    let k : Keys = w.keys in
    if k.media_mode
    then w
      |> set_keys (record k { media_mode = false })
      |> drop_card
      |> toast sys (codes "READING MODE RESTORED")
          (codes "Audio running in background (Side buttons = Page turns)") now
    else w
      |> set_keys (record k { media_mode = true })
      |> card sys (codes "PLAYBACK ACTIVE: CONTROLS READY")

-- The caller has tested 191 <= code <= 194.
unfoldable pub chord : System → ℕ → ℕ → State → State
chord sys now code w0 =
    let w : State =
      set_keys (record (w0.keys) { home_combo_consumed = true; home_pending_single = false }) w0 in
    if code == 191
    then chord_koreader sys now w
    else if code == 192
    then chord_plato sys now w
    else if code == 193
    then chord_netsurf sys now w
    else chord_media sys now w

unfoldable pub media_key : System → ℕ → State → State
media_key sys code w =
    if code == 191
    then w
      |> push (shell "/opt/audiocontrol.sh prev 2>/dev/null &")
      |> card sys (codes "TRACK SKIPPED: PREVIOUS  |<<")
    else if code == 192
    then w
      |> push (shell "/opt/audiocontrol.sh shuffle 2>/dev/null &")
      |> card sys (codes "PLAYLIST: SHUFFLE TOGGLED")
    else if code == 193
    then w
      |> push (shell "/opt/audiocontrol.sh next 2>/dev/null &")
      |> card sys (codes "TRACK SKIPPED: NEXT  >>|")
    else w
      |> push (shell "/opt/audiocontrol.sh pause 2>/dev/null &")
      |> card sys (codes "PLAYBACK: PLAY / PAUSE TOGGLED  >||")

unfoldable pub page_key : System → ℕ → InputEvent → State → State
unfolding emit_event
page_key sys now ev w =
    if ev.value == 1
    then (if w.keys.home_down
        then chord sys now ev.code w
        else if w.keys.media_mode
        then media_key sys ev.code w
        else emit_event ev.type ev.code ev.value w)
    else if ev.value == 0
    then (if w.keys.home_combo_consumed || w.keys.media_mode
        then w
        else emit_event ev.type ev.code ev.value w)
    else w

unfoldable pub lid : InputEvent → State → State
unfolding emit_event
lid ev w = emit_event ev.type ev.code ev.value (
    if ev.value == 1 && not (app_is (codes "koreader") w)
    then push (shell "echo mem > /sys/power/state 2>/dev/null") w
    else w)

unfoldable pub power_key : ℕ → InputEvent → State → State
unfolding power_down
power_key now ev w = if ev.value == 1 then power_down now w else w

unfoldable pub home_key : System → ℕ → InputEvent → State → State
unfolding home_key_down home_key_up
home_key sys now ev w =
    if ev.value == 1
    then home_key_down sys now w
    else if ev.value == 0
    then home_key_up sys now w
    else w

-- One event read from the grabbed device at time `now`.
unfoldable pub handle : System → ℕ → InputEvent → State → State
unfolding emit_event
handle sys now ev w =
    if ev.type == ev_key && ev.code == key_power
    then power_key now ev w
    else if ev.type == ev_key && ev.code == key_home
    then home_key sys now ev w
    else if ev.type == ev_key && leb 191 ev.code && leb ev.code 194
    then page_key sys now ev w
    else if ev.type == ev_sw && ev.code == 0
    then lid ev w
    else if ev.type == ev_sw || ev.type == ev_syn
    then emit_event ev.type ev.code ev.value w
    else w
