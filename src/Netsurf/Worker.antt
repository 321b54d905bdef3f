-- ===== src/Netsurf/Worker.antt =====
-- `input_worker` of components/netsurf/src/sdl_fb0_shim.c: the touch screen, the buttons and the
-- FIFO, one input at a time.
pub mod Safe
pub mod Taps
use nookobo.Prelude.{
  ℕ, zero, suc, ◌+◌, ◌-◌, ◌%◌, ◌^◌, Bool, true, false, Option, none, some, List, [], ◌∷◌, ◌++◌, not,
  ◌&&◌, ◌||◌, ltb, leb, ◌==◌, take, ◌|>◌, if◌then◌else◌,
}
use nookobo.Prelude.Int.{ℤ, clamp, pos, negsuc, ◌-ℤ◌}
use nookobo.Prelude.Text.{c_string}
use nookobo.Netsurf.Events.{motion, button}
use nookobo.Netsurf.Keyboard.{
  Osk, send, osk_inject_key, simulate_click, show_osk, hide_osk, toggle_osk,
}
use nookobo.Netsurf.Keyboard.Touch.{handle_osk_touch}
use nookobo.Netsurf.Keyboard.Commands.{focus_url, handle_fifo_command}

-- The locals of the thread, `touch_down`, `last_touch_x` and `last_touch_y`, and the keyboard.
pub record Worker : Type 0 where
  pub osk : Osk
  pub cur_x : ℤ
  pub cur_y : ℤ
  pub cur_down : Bool
  pub touch_down : Bool
  pub last_touch_x : ℕ
  pub last_touch_y : ℕ

-- The panel lies on its side. `1403 - cur_y` is taken to be in range for an `int`.
abbrev pub mapped_x : Worker → ℕ
mapped_x w = clamp 1403 (pos 1403 -ℤ w.cur_y)

abbrev pub mapped_y : Worker → ℕ
mapped_y w = clamp 1871 w.cur_x

abbrev pub pressed : Worker → Bool
pressed w = w.cur_down && not w.touch_down

abbrev pub lifted : Worker → Bool
lifted w = not w.cur_down && w.touch_down

unfoldable pub queue_touch_motion : ℕ → ℕ → Worker → Worker
queue_touch_motion x y w = record w {
  osk = send (motion 0 x y (pos x -ℤ pos w.last_touch_x) (pos y -ℤ pos w.last_touch_y)) w.osk;
}

-- The touches that NetSurf sees.
unfoldable pub page_touch : ℕ → ℕ → Worker → Worker
page_touch x y w0 =
    let w : Worker =
      if leb 75 y then record w0 { osk = record w0.osk { url_bar_focused = false } } else w0 in
    let m : Worker = queue_touch_motion x y w in
    let moved =
      send (motion 1 x y (pos x -ℤ pos w.last_touch_x) (pos y -ℤ pos w.last_touch_y)) w.osk in
    let t : Worker =
      if pressed w
      then record m { osk = send (button true x y) m.osk; touch_down = true }
      else if lifted w
      then record w { osk = send (button false x y) w.osk; touch_down = false }
      else if w.touch_down && (not (x == w.last_touch_x) || not (y == w.last_touch_y))
      then record w { osk = moved }
      else w in
    record t { last_touch_x = x; last_touch_y = y }

-- SYN_REPORT while the keyboard is shown.
unfoldable pub keyboard_touch : ℕ → ℕ → Worker → Worker
keyboard_touch x y w =
    if leb 1272 y
    then (if pressed w
        then record w { osk = handle_osk_touch x y w.osk; touch_down = true }
        else if lifted w
        then record w { touch_down = false }
        else w)
    else if pressed w
    then record w {
      osk = if leb 75 y then simulate_click x y (hide_osk w.osk) else hide_osk w.osk;
      touch_down = true;
    }
    else if lifted w
    then record w { touch_down = false }
    else page_touch x y w

-- SYN_REPORT while it is not: the URL bar and the corner that call it up, and the page.
unfoldable pub hotspot_touch : ℕ → ℕ → Worker → Worker
hotspot_touch x y w =
    if ltb y 75 && leb 140 x && pressed w
    then record w { osk = focus_url w.osk; touch_down = true }
    else if leb 1320 x && leb 1800 y && pressed w
    then record w { osk = show_osk w.osk; touch_down = true }
    else page_touch x y w

unfoldable pub touch_report : Worker → Worker
touch_report w =
    if w.osk.osk_active
    then keyboard_touch (mapped_x w) (mapped_y w) w
    else hotspot_touch (mapped_x w) (mapped_y w) w

unfoldable pub touch_event : (type code : ℕ) → ℤ → Worker → Worker
touch_event type code value w =
    if type == 3
    then (if code == 53 || code == 0
        then record w { cur_x = value }
        else if code == 54 || code == 1
        then record w { cur_y = value }
        else w)
    else if type == 1 && code == 330
    then record w { cur_down = not (is_zero value) }
    else if type == 0 && code == 0
    then touch_report w
    else w
  where
    is_zero : ℤ → Bool
    is_zero (pos n) = n == 0
    is_zero (negsuc n) = false

-- A hardware button that goes down.
unfoldable pub key_press : ℕ → Osk → Osk
key_press code s =
    if code == 191
    then osk_inject_key 280 0 s
    else if code == 192
    then osk_inject_key 281 0 s
    else if code == 193
    then (if s.osk_active then hide_osk s else simulate_click 13 35 s)
    else if code == 194
    then toggle_osk s
    else if code == 102
    then focus_url s
    else s

-- strtok(…, "\r\n"): the pieces that are not empty.
abbrev pub add_piece : List ℕ → List (List ℕ) → List (List ℕ)
add_piece [] pieces = pieces
add_piece (c ∷ cs) pieces = (c ∷ cs) ∷ pieces

-- The first piece, which may be empty, and the pieces after it.
unfoldable pub split_lines : List ℕ → List ℕ × List (List ℕ)
split_lines [] = ([], [])
split_lines (c ∷ s) =
    let (piece, pieces) = split_lines s in
    if c == 13 || c == 10 then ([], add_piece piece pieces) else (c ∷ piece, pieces)

unfoldable pub strtok : List ℕ → List (List ℕ)
strtok s = let (piece, pieces) = split_lines s in add_piece piece pieces

pub data Input : Type 0 where
  touch : (type code : ℕ) → ℤ → Input
  keys : (type code : ℕ) → ℤ → Input
  fifo : List ℕ → Input

abbrev pub is_down : ℤ → Bool
is_down (pos n) = n == 1
is_down (negsuc n) = false

module _ (sscanf : List ℕ → Option (ℕ × ℕ)) where
  unfoldable pub commands : List (List ℕ) → Osk → Osk
  commands [] s = s
  commands (line ∷ rest) s = commands rest (handle_fifo_command sscanf line s)

  -- One input; a read of the FIFO takes 255 bytes, and the commands end at the first NUL.
  unfoldable pub step : Input → Worker → Worker
  step (touch type code value) w = touch_event type code value w
  step (keys type code value) w =
      if type == 1 && is_down value then record w { osk = key_press code w.osk } else w
  step (fifo bytes) w = record w { osk = commands (strtok (c_string (take 255 bytes))) w.osk }

  unfoldable pub steps : List Input → Worker → Worker
  steps [] w = w
  steps (i ∷ is) w = steps is (step i w)
