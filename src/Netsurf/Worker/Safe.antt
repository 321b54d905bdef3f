-- ===== src/Netsurf/Worker/Safe.antt =====
-- Whatever arrives, `input_worker` of components/netsurf/src/sdl_fb0_shim.c keeps the text of the
-- URL bar inside `g_current_url[1024]`.
use nookobo.Prelude.{ℕ, ◌≡◌, Option, List, [], ◌∷◌, take, arith}
use nookobo.Prelude.Int.{ℤ}
use nookobo.Prelude.Text.{c_string}
use nookobo.Netsurf.Keyboard.{Osk, act, hide_osk}
use nookobo.Netsurf.Keyboard.Commands.{handle_fifo_command}
use nookobo.Netsurf.Keyboard.Fits.{
  UrlFits, same_url-UrlFits, handle_osk_touch-UrlFits, simulate_click-url, show_osk-url,
  hide_osk-url, toggle_osk-url, osk_inject_key-url,
}
use nookobo.Netsurf.Keyboard.FifoFits.{handle_fifo_command-UrlFits, focus_url-url}
use nookobo.Netsurf.Worker.{
  Worker, mapped_x, mapped_y, queue_touch_motion, page_touch, keyboard_touch, hotspot_touch,
  touch_report, touch_event, key_press, strtok, Input, touch, keys, fifo, commands, step, steps,
}

page_touch-url : (x y : ℕ) (w : Worker) → (page_touch x y w).osk.current_url ≡ w.osk.current_url
unfolding page_touch queue_touch_motion act
page_touch-url x y w = ground arith

keyboard_touch-UrlFits : (x y : ℕ) (w : Worker) → UrlFits w.osk → UrlFits (keyboard_touch x y w).osk
unfolding keyboard_touch
keyboard_touch-UrlFits x y w h = ground (
  arith,
  handle_osk_touch-UrlFits x y w.osk h,
  same_url-UrlFits w.osk (hide_osk w.osk) (hide_osk-url w.osk) h,
  simulate_click-url x y (hide_osk w.osk),
  hide_osk-url w.osk,
  page_touch-url x y w,
)

hotspot_touch-UrlFits : (x y : ℕ) (w : Worker) → UrlFits w.osk → UrlFits (hotspot_touch x y w).osk
unfolding hotspot_touch
hotspot_touch-UrlFits x y w h =
    ground (arith, focus_url-url w.osk, show_osk-url w.osk, page_touch-url x y w)

touch_event-UrlFits :
    (type code : ℕ) (value : ℤ) (w : Worker)
    → UrlFits w.osk
    → UrlFits (touch_event type code value w).osk
unfolding touch_event touch_report
touch_event-UrlFits type code value w h = ground (
  arith,
  keyboard_touch-UrlFits (mapped_x w) (mapped_y w) w h,
  hotspot_touch-UrlFits (mapped_x w) (mapped_y w) w h,
)

key_press-url : (code : ℕ) (s : Osk) → (key_press code s).current_url ≡ s.current_url
unfolding key_press
key_press-url code s = ground (
  arith,
  osk_inject_key-url 280 0 s,
  osk_inject_key-url 281 0 s,
  hide_osk-url s,
  simulate_click-url 13 35 s,
  toggle_osk-url s,
  focus_url-url s,
)

module _ (sscanf : List ℕ → Option (ℕ × ℕ)) where
  commands-UrlFits :
      (lines : List (List ℕ)) (s : Osk) → UrlFits s → UrlFits (commands sscanf lines s)
  unfolding commands
  commands-UrlFits [] s h = h
  commands-UrlFits (line ∷ rest) s h =
      commands-UrlFits rest (handle_fifo_command sscanf line s)
        (handle_fifo_command-UrlFits sscanf line s h)

  step-UrlFits : (i : Input) (w : Worker) → UrlFits w.osk → UrlFits (step sscanf i w).osk
  unfolding step
  step-UrlFits (touch type code value) w h = touch_event-UrlFits type code value w h
  step-UrlFits (keys type code value) w h = ground (arith, key_press-url code w.osk)
  step-UrlFits (fifo bytes) w h = commands-UrlFits (strtok (c_string (take 255 bytes))) w.osk h

-- Over any sequence of touches, buttons and bytes from the FIFO, whatever `sscanf` answers, the
-- text of the URL bar and its NUL stay within the 1024 bytes of the array.
pub steps-UrlFits :
    (sscanf : List ℕ → Option (ℕ × ℕ)) (is : List Input) (w : Worker)
    → UrlFits w.osk
    → UrlFits (steps sscanf is w).osk
unfolding steps
steps-UrlFits sscanf [] w h = h
steps-UrlFits sscanf (i ∷ is) w h =
    steps-UrlFits sscanf is (step sscanf i w) (step-UrlFits sscanf i w h)
