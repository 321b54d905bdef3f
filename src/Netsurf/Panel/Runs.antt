-- ===== src/Netsurf/Panel/Runs.antt =====
-- The page under and around the on-screen keyboard over runs of `input_worker` of
-- components/netsurf/src/sdl_fb0_shim.c.
use nookobo.Prelude.{
  ℕ, ◌≡◌, refl, sym, ap, ◌∙◌, Bool, true, false, Option, List, [], ◌∷◌, not, ◌&&◌, ◌||◌, ltb, leb,
  ◌==◌, take, arith, if◌then◌else◌,
}
use nookobo.Prelude.Int.{ℤ}
use nookobo.Prelude.Text.{c_string}
use nookobo.Watcher.Canvas.{Mem}
use nookobo.Netsurf.Events.{SdlEvent}
use nookobo.Netsurf.Keyboard.{Osk, queued, send}
use nookobo.Netsurf.Panel.{Panel, do_effects}
use nookobo.Netsurf.Panel.Boxes.{keys_fit}
use nookobo.Netsurf.Panel.Kept.{Kept, on_keyboard, on_url_bar, calm-Kept}
use nookobo.Netsurf.Panel.Presses.{Still, shown, hidden, handle_osk_touch-Still}
use nookobo.Netsurf.Panel.Restores.{
  each, if-Still, click-Still, show_osk-Still, hide_osk-Still, focus_url-Still, key_press-Still,
  commands-Still,
}
use nookobo.Netsurf.Worker.{
  is_down, Worker, mapped_x, mapped_y, pressed, lifted, queue_touch_motion, page_touch,
  keyboard_touch, hotspot_touch, touch_report, touch_event, strtok, Input, touch, keys, fifo, step,
  steps,
}

module _ (page : Mem) (start : Panel) where
  -- The events of the page's touches.
  send-Still : (e : SdlEvent) (s : Osk) → Still page start s → Still page start (send e s)
  send-Still e s h = each s (send e s) (λ up k. calm-Kept (queued e) s refl k) h

  if-StillWorker :
      (b : Bool) (v w : Worker)
      → Still page start v.osk
      → Still page start w.osk
      → Still page start (if b then v else w).osk
  if-StillWorker true v w h k = h
  if-StillWorker false v w h k = k

  if_true-Still :
      (b : Bool) (v w : Worker)
      → b ≡ true
      → Still page start v.osk
      → Still page start (if b then v else w).osk
  if_true-Still true v w e h = h
  if_true-Still false v w e h = ground arith

  if_false-Still :
      (b : Bool) (v w : Worker)
      → b ≡ false
      → Still page start w.osk
      → Still page start (if b then v else w).osk
  if_false-Still true v w e h = ground arith
  if_false-Still false v w e h = h

  page_touch-Still :
      (x y : ℕ) (w : Worker) → Still page start w.osk → Still page start (page_touch x y w).osk
  unfolding page_touch queue_touch_motion
  page_touch-Still x y w h =
      let far : Worker =
        if leb 75 y then record w { osk = record w.osk { url_bar_focused = false } } else w in
      let kept : Still page start far.osk =
        if-StillWorker (leb 75 y) _ w
          (each w.osk (record w.osk { url_bar_focused = false }) (λ up k. k) h) h in
      if-StillWorker (pressed far) _ _ (send-Still _ _ (send-Still _ _ kept)) (
        if-StillWorker (lifted far) _ _ (send-Still _ _ kept) (
          if-StillWorker
            (far.touch_down && (not (x == far.last_touch_x) || not (y == far.last_touch_y))) _ far
            (send-Still _ _ kept) kept))

  keyboard_touch-Still :
      (x y : ℕ) (w : Worker)
      → Kept page start true w.osk
      → Still page start (keyboard_touch x y w).osk
  unfolding keyboard_touch
  keyboard_touch-Still x y w h =
      let gone = hide_osk-Still w.osk (shown h) in
      if-StillWorker (leb 1272 y) _ _
        (if-StillWorker (pressed w) _ _ (handle_osk_touch-Still page start x y w.osk h)
          (if-StillWorker (lifted w) _ w (shown h) (shown h)))
        (if-StillWorker (pressed w) _ _ (if-Still (leb 75 y) _ _ (click-Still x y _ gone) gone)
          (if-StillWorker (lifted w) _ _ (shown h) (page_touch-Still x y w (shown h))))

  hotspot_touch-Still :
      (x y : ℕ) (w : Worker) → Still page start w.osk → Still page start (hotspot_touch x y w).osk
  unfolding hotspot_touch
  hotspot_touch-Still x y w h =
      if-StillWorker (ltb y 75 && leb 140 x && pressed w) _ _ (focus_url-Still w.osk h) (
        if-StillWorker (leb 1320 x && leb 1800 y && pressed w) _ _ (show_osk-Still w.osk h)
          (page_touch-Still x y w h))

  touch_report-Still : (w : Worker) → Still page start w.osk → Still page start (touch_report w).osk
  unfolding touch_report
  touch_report-Still w (shown h) =
      if_true-Still w.osk.osk_active _ _ h.is_up
        (keyboard_touch-Still (mapped_x w) (mapped_y w) w h)
  touch_report-Still w (hidden h) =
      if_false-Still w.osk.osk_active _ _ h.is_up
        (hotspot_touch-Still (mapped_x w) (mapped_y w) w (hidden h))

  touch_event-Still :
      (type code : ℕ) (value : ℤ) (w : Worker)
      → Still page start w.osk
      → Still page start (touch_event type code value w).osk
  unfolding touch_event
  touch_event-Still type code value w h =
      if-StillWorker (type == 3) _ _
        (if-StillWorker (code == 53 || code == 0) _ _ h
          (if-StillWorker (code == 54 || code == 1) _ w h h))
        (if-StillWorker (type == 1 && code == 330) _ _ h
          (if-StillWorker (type == 0 && code == 0) _ w (touch_report-Still w h) h))

  step-Still :
      (sscanf : List ℕ → Option (ℕ × ℕ)) (i : Input) (w : Worker)
      → Still page start w.osk
      → Still page start (step sscanf i w).osk
  unfolding step
  step-Still sscanf (touch type code value) w h = touch_event-Still type code value w h
  step-Still sscanf (keys type code value) w h =
      if-StillWorker (type == 1 && is_down value) _ w (key_press-Still code w.osk h) h
  step-Still sscanf (fifo bytes) w h =
      commands-Still sscanf (strtok (c_string (take 255 bytes))) w.osk h

  steps-Still :
      (sscanf : List ℕ → Option (ℕ × ℕ)) (is : List Input) (w : Worker)
      → Still page start w.osk
      → Still page start (steps sscanf is w).osk
  unfolding steps
  steps-Still sscanf [] w h = h
  steps-Still sscanf (i ∷ is) w h =
      steps-Still sscanf is (step sscanf i w) (step-Still sscanf i w h)

at_rest :
    (page : Mem) (start : Panel) (s : Osk) (i : ℕ)
    → on_url_bar i ≡ false
    → s.osk_active && on_keyboard i ≡ false
    → Still page start s
    → (do_effects s.effects start).fb i ≡ page i
at_rest page start s i off free (shown h) =
    h.page_kept.1 i (sym (ap (λ b. b && on_keyboard i) h.is_up) ∙ free) off
at_rest page start s i off free (hidden h) = h.page_kept i off

-- After any touches, buttons and bytes from the FIFO, from a start with the keyboard hidden, the
-- panel mapped and a good layout or none in `osk_keys`, every pixel off the URL bar is the page's,
-- except that the keyboard's rows are not while the keyboard is up. NetSurf draws nothing
-- meanwhile, the malloc of the backup succeeds, and what a text drawn behind its end paints is
-- left out.
pub page_survives :
    (sscanf : List ℕ → Option (ℕ × ℕ)) (is : List Input) (w : Worker) (start : Panel)
    → w.osk.mapped ≡ true
    → w.osk.osk_active ≡ false
    → w.osk.effects ≡ []
    → keys_fit w.osk.osk_keys ≡ true
    → (i : ℕ) → on_url_bar i ≡ false
    → (steps sscanf is w).osk.osk_active && on_keyboard i ≡ false
    → (do_effects (steps sscanf is w).osk.effects start).fb i ≡ start.fb i
unfolding do_effects
page_survives sscanf is w start m a none_yet fits i off free =
    let began : Kept start.fb start false w.osk = record {
      is_mapped = m;
      layout_fits = fits;
      is_up = a;
      page_kept = λ j out. ap (λ es. (do_effects es start).fb j) none_yet;
    } in
    at_rest start.fb start (steps sscanf is w).osk i off free
      (steps-Still start.fb start sscanf is w (hidden began))
