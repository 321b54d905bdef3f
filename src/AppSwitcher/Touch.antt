-- ===== src/AppSwitcher/Touch.antt =====
-- The touch handling of components/system/src/app-switcher.c: presses, releases and what a released
-- button does.
use nookobo.Prelude.{
  ℕ, Bool, true, false, Option, none, some, List, [], ◌∷◌, ◌&&◌, ◌||◌, not, ltb, ◌==◌,
  if◌then◌else◌, ◌|>◌,
}
use nookobo.Prelude.Int.{ℤ, pos, negsuc, ◌-ℤ◌, clamp}
use nookobo.Prelude.Text.{codes}
use nookobo.Watcher.Canvas.{draw_rect}
use nookobo.AppSwitcher.Buttons.{
  ButtonId, btn_music_prev, btn_music_play, btn_music_next, btn_music_shuffle, btn_frontlight,
  btn_close, button_at,
}
use nookobo.AppSwitcher.Session.{Switcher, System, act, shell, refresh, draw_widget, redraw_music}

-- `struct input_event`, with its value as an integer.
pub record TouchEvent : Type 0 where
  pub type : ℕ
  pub code : ℕ
  pub value : ℤ

abbrev pub non_negative : ℤ → Bool
non_negative (pos n) = true
non_negative (negsuc n) = false

abbrev is_minus_one : ℤ → Bool
is_minus_one (pos n) = false
is_minus_one (negsuc n) = n == 0

abbrev is_zero : ℤ → Bool
is_zero (pos n) = n == 0
is_zero (negsuc n) = false

-- The panel lies on its side. `1403 - last_raw_y` is taken to be in range for an `int`.
abbrev pub screen_x : Switcher → ℕ
screen_x s = clamp 1403 (pos 1403 -ℤ s.last_raw_y)

abbrev pub screen_y : Switcher → ℕ
screen_y s = clamp 1871 s.last_raw_x

abbrev pub has_position : Switcher → Bool
has_position s = non_negative s.last_raw_x && non_negative s.last_raw_y

-- The 12 by 12 square under the finger.
unfoldable pub draw_mark : ℕ → ℕ → Switcher → Switcher
draw_mark x y s =
    record s { memory = draw_rect (pos x -ℤ pos 6) (pos y -ℤ pos 6) 12 12 0 s.memory }
    |> act (refresh (pos x -ℤ pos 8) (pos y -ℤ pos 8) 16 16 1)

unfoldable pub highlight : Option ButtonId → Switcher → Switcher
highlight none s = s
highlight (some id) s = draw_widget id true s

unfoldable pub unhighlight : Option ButtonId → Switcher → Switcher
unhighlight none s = s
unhighlight (some id) s = draw_widget id false s

unfoldable pub touch_press : Switcher → Switcher
touch_press s0 =
    let s : Switcher = record s0 { was_contact_down = true } in
    let found = button_at (screen_x s) (screen_y s) in
    if has_position s
    then record (draw_mark (screen_x s) (screen_y s) s) { active_pressed_btn = found }
      |> highlight found
    else s

abbrev pub outside_dialog : ℕ → ℕ → Bool
outside_dialog x y = ltb x 112 || ltb 1292 x || ltb y 180 || ltb 1690 y

abbrev pub choose : ButtonId → Switcher → Switcher
choose id s = record s { chosen_action = some id; running = false }

-- switch (target->id)
unfoldable pub perform : System → ButtonId → Switcher → Switcher
perform sys btn_music_prev s =
    s |> act (shell (codes "/opt/audiocontrol.sh prev 2>/dev/null")) |> redraw_music sys
perform sys btn_music_play s =
    s |> act (shell (codes "/opt/audiocontrol.sh pause 2>/dev/null")) |> redraw_music sys
perform sys btn_music_next s =
    s |> act (shell (codes "/opt/audiocontrol.sh next 2>/dev/null")) |> redraw_music sys
perform sys btn_music_shuffle s =
    s |> act (shell (codes "/opt/audiocontrol.sh shuffle 2>/dev/null")) |> redraw_music sys
perform sys btn_frontlight s = act (shell (codes "/opt/scripts/toggle_frontlight.sh &")) s
perform sys id s = choose id s

-- The pressed button, or else the one under the finger.
unfoldable pub target : Option ButtonId → ℕ → ℕ → Option ButtonId
target none x y = button_at x y
target (some id) x y = some id

unfoldable pub perform_target : System → Option ButtonId → Switcher → Switcher
perform_target sys none s = s
perform_target sys (some id) s = perform sys id s

unfoldable pub touch_release : System → Switcher → Switcher
touch_release sys s0 =
    let s : Switcher = record s0 { was_contact_down = false } in
    let t = unhighlight s.active_pressed_btn s in
    let aim = target s.active_pressed_btn (screen_x s) (screen_y s) in
    if has_position s
    then (if outside_dialog (screen_x s) (screen_y s)
        then choose btn_close t
        else record (perform_target sys aim t) { active_pressed_btn = none })
    else s

-- SYN_REPORT
unfoldable pub touch_report : System → Switcher → Switcher
touch_report sys s =
    if not s.was_contact_down && s.is_contact_down
    then touch_press s
    else if s.was_contact_down && not s.is_contact_down
    then touch_release sys s
    else s

unfoldable pub tracking : ℤ → Switcher → Switcher
tracking v s =
    if is_minus_one v
    then record s { is_contact_down = false }
    else if non_negative v
    then record s { is_contact_down = true }
    else s

unfoldable pub touch_event : System → TouchEvent → Switcher → Switcher
touch_event sys e s =
    if e.type == 3
    then (if e.code == 53 || e.code == 0
        then record s { last_raw_x = e.value }
        else if e.code == 54 || e.code == 1
        then record s { last_raw_y = e.value }
        else if e.code == 57
        then tracking e.value s
        else s)
    else if e.type == 1 && e.code == 330
    then record s { is_contact_down = not (is_zero e.value) }
    else if e.type == 0 && e.code == 0
    then touch_report sys s
    else s

-- The events that one `select` finds; the loop leaves the rest unread once the dialog is closed.
-- A SIGTERM among them takes effect after them.
unfoldable pub touch_events : System → List TouchEvent → Switcher → Switcher
touch_events sys [] s = s
touch_events sys (e ∷ es) s =
    let t = touch_event sys e s in let rest = touch_events sys es t in if t.running then rest else t
