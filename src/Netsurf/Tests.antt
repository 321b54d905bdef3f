-- ===== src/Netsurf/Tests.antt =====
-- The theorems on components/netsurf/src/sdl_fb0_shim.c at concrete inputs.
use nookobo.Prelude.{
  ℕ, zero, suc, ◌*◌, replicate, if◌then◌else◌, ◌+◌, ◌-◌, ◌/◌, ◌%◌, ◌≡◌, refl, true, false, Option,
  none, some, List, [], ◌∷◌, ◌++◌, arith, inr, ◌⊎◌, ◌<◌, ◌==◌, ◌&&◌,
}
use nookobo.Prelude.Int.{pos, negsuc, ◌-ℤ◌}
use nookobo.Prelude.Text.{codes}
use nookobo.Netsurf.Events.{SdlEvent, motion, button, EventQueue, queue_event, dequeue_event}
use nookobo.Netsurf.Events.Fifo.{
  IsRing, waiting, offer, pop, view, queue_event_refines, dequeue_event_refines,
}
use nookobo.Netsurf.Utf8.{decode, encode, encode_all}
use nookobo.Netsurf.Layout.{build_osk_layout, english_keys, backspace_key, hit, key_at}
use nookobo.Netsurf.Layout.Apart.{key_at_lem}
use nookobo.Netsurf.Keyboard.{Osk, queued}
use nookobo.Netsurf.Keyboard.Fits.{UrlFits}
use nookobo.Netsurf.Update.{Display, update_rect}
use nookobo.Netsurf.Update.Area.{refreshed}
use nookobo.Netsurf.Update.Clip.{update_rect_covers, update_rect_keyboard}
use nookobo.Netsurf.Timers.{Timers, free_slot, add_timer, stopped, remove_timer, due, put_back}
use nookobo.Netsurf.Timers.Slots.{Added, add_timer_lem, put_back-add_timer}
use nookobo.Netsurf.Keyboard.{
  act, osk_inject_key, simulate_click, draw_url_bar_overlay, draw_osk_input_preview, draw_osk,
  draw_osk_key, redraw_osk, show_osk, hide_osk,
}
use nookobo.Netsurf.Keyboard.Touch.{
  press_key, char_key, key_point, release_key, show_url, handle_osk_touch,
}
use nookobo.Netsurf.Keyboard.Commands.{focus_url}
use nookobo.Netsurf.Panel.Kept.{on_keyboard}
use nookobo.Netsurf.Worker.{
  step, touch_event, touch_report, hotspot_touch, keyboard_touch, page_touch, queue_touch_motion,
}
use nookobo.Netsurf.Panel.{Panel, do_effects}
use nookobo.Netsurf.Panel.Runs.{page_survives}
use nookobo.Netsurf.Panel.Updates.{update_then_hide}
use nookobo.Netsurf.Panel.{restore_page, do_updates}
use nookobo.Netsurf.Keyboard.{preview_text}
use nookobo.Netsurf.Keyboard.Preview.{preview_leaves, preview_frozen}
use nookobo.Netsurf.Utf8.RoundTrip.{Typable}
use nookobo.Watcher.Canvas.{Mem}
use nookobo.Watcher.Canvas.Keeps.{inside}
use nookobo.Netsurf.Worker.{Worker, Input, touch, keys, fifo, steps}
use nookobo.Netsurf.Worker.Safe.{steps-UrlFits}
use nookobo.Netsurf.Worker.Taps.{tapped, page_tap}

abbrev click : SdlEvent
click = button true 10 100

abbrev full : EventQueue
full = record { slots = λ i. click; eq_head = 5; eq_tail = 4 }

full-IsRing : IsRing full
full-IsRing = record { head_in = omega arith; tail_in = omega arith }

abbrev two : EventQueue
two = record { slots = λ i. button true i i; eq_head = 2047; eq_tail = 1 }

two-IsRing : IsRing two
two-IsRing = record { head_in = omega arith; tail_in = omega arith }

queue_event_refines_example :
    (waiting (queue_event click full) ≡ offer click (waiting full))
    × IsRing (queue_event click full)
queue_event_refines_example = queue_event_refines click full full-IsRing

dequeue_event_refines_example : view (dequeue_event two) ≡ pop (waiting two)
dequeue_event_refines_example = dequeue_event_refines two two-IsRing

key_at_lem_example : key_at 1200 1400 (build_osk_layout false) ≡ some backspace_key
unfolding build_osk_layout english_keys hit
key_at_lem_example = key_at_lem false backspace_key 12 1200 1400 refl refl

abbrev keyboard : Osk
keyboard = record {
  mapped = true;
  osk_active = false;
  clip_height = 1872;
  osk_lang = false;
  osk_shift = false;
  osk_symbols = false;
  osk_keys = [];
  current_url = codes "https://lite.duckduckgo.com";
  url_bar_focused = true;
  left_string = false;
  effects = [];
}

abbrev worker : Worker
worker = record {
  osk = keyboard;
  cur_x = pos 900;
  cur_y = pos 700;
  cur_down = true;
  touch_down = false;
  last_touch_x = 0;
  last_touch_y = 0;
}

abbrev inputs : List Input
inputs = fifo (codes "KEY:osk") ∷ touch 0 0 (pos 0) ∷ keys 1 102 (pos 1) ∷ []

abbrev no_numbers : List ℕ → Option (ℕ × ℕ)
no_numbers s = none

steps-UrlFits_example : UrlFits (steps no_numbers inputs worker).osk
steps-UrlFits_example = steps-UrlFits no_numbers inputs worker (omega arith)

page_tap_example :
    ((tapped worker).osk.effects
      ≡ (([] ++ queued (motion 0 703 900 (pos 703 -ℤ pos 0) (pos 900 -ℤ pos 0)) ∷ [])
          ++ queued (button true 703 900) ∷ [])
        ++ queued (button false 703 900) ∷ [])
    × ((tapped worker).touch_down ≡ false)
unfolding ◌-ℤ◌
page_tap_example = page_tap worker refl refl refl refl refl

abbrev typing : Display
typing = record { osk_active = true; has_backup = true; first_full_frame = false }

-- A rectangle that begins left of the panel and reaches under the keyboard.
update_rect_covers_example :
    refreshed 3 1271 (update_rect (negsuc 4) (pos 1200) 100 200 typing).0 ≡ true
update_rect_covers_example =
    update_rect_covers (negsuc 4) (pos 1200) 100 200 3 1271 typing (omega arith) (omega arith)
      (omega arith) (omega arith) (omega arith) (omega arith)
      (inr ((omega arith, omega arith), (omega arith, omega arith))) refl

update_rect_keyboard_example :
    refreshed 3 1272 (update_rect (negsuc 4) (pos 1200) 100 200 typing).0 ≡ false
update_rect_keyboard_example =
    update_rect_keyboard (negsuc 4) (pos 1200) 100 200 3 1272 typing (omega arith) (omega arith)
      (omega arith) (omega arith) refl (omega arith)

-- One timer in slot 0 waits for the time 100; the other slots are free.
abbrev one_timer : Timers
one_timer i = record {
  active = i == 0;
  interval_ms = 10;
  next_expire_ms = 100;
  cb = some 7;
  param = 0;
}

add_timer_lem_example :
    let (slot, ts') = add_timer 90 30 8 1 one_timer in
    ((i : ℕ) × (slot ≡ some i) × Added 90 30 8 1 i one_timer ts')
    ⊎ ((slot ≡ none) × ((i : ℕ) → i < 16 → (one_timer i).active ≡ true) × (ts' ≡ one_timer))
add_timer_lem_example = add_timer_lem 90 30 8 1 one_timer (omega arith)

put_back-add_timer_example :
    let (slot, ts') = add_timer 105 30 8 1 (remove_timer 0 one_timer).1 in
    (slot ≡ some 0) × (due 200 (put_back 106 0 0 ts' 0) ≡ false)
unfolding free_slot remove_timer stopped
put_back-add_timer_example = put_back-add_timer 105 30 8 1 0 106 200 one_timer refl

-- A tap on the URL bar, a key, and a tap on the page above the keyboard.
abbrev typing_run : List Input
typing_run = tap_at 500 30 ++ (tap_at 60 1450 ++ tap_at 700 800)
  where
    tap_at : ℕ → ℕ → List Input
    tap_at x y =
        touch 3 53 (pos y)
        ∷ touch 3 54 (pos (1403 - x))
        ∷ touch 1 330 (pos 1)
        ∷ touch 0 0 (pos 0)
        ∷ touch 1 330 (pos 0)
        ∷ touch 0 0 (pos 0)
        ∷ []

abbrev idle : Worker
idle = record {
  osk = record worker.osk { effects = []; osk_active = false; mapped = true; osk_keys = [] };
  cur_x = pos 0;
  cur_y = pos 0;
  cur_down = false;
  touch_down = false;
  last_touch_x = 0;
  last_touch_y = 0;
}

abbrev striped : Panel
striped = record { fb = λ i. i % 7; osk_backup = λ i. 0 }

hidden_again : (steps no_numbers typing_run idle).osk.osk_active && on_keyboard 1830500 ≡ false
unfolding steps step touch_event touch_report hotspot_touch keyboard_touch page_touch
    queue_touch_motion ◌-ℤ◌ focus_url show_osk hide_osk osk_inject_key act simulate_click redraw_osk
    draw_osk draw_osk_input_preview handle_osk_touch key_at hit press_key char_key key_point
    release_key show_url draw_url_bar_overlay draw_osk_key build_osk_layout english_keys encode
hidden_again = refl

page_survives_example :
    (do_effects (steps no_numbers typing_run idle).osk.effects striped).fb 1830500
    ≡ striped.fb 1830500
page_survives_example =
    page_survives no_numbers typing_run idle striped refl refl refl refl 1830500 refl hidden_again

-- 69 bytes, 57 more and a letter above U+007F.
abbrev long_url : Osk
long_url = record worker.osk {
  current_url = replicate 69 97 ++ (encode_all (replicate 57 97) ++ (192 + 1103 / 64) ∷ 143 ∷ []);
  url_bar_focused = true;
}

typed-Typable : Typable (replicate 57 97)
typed-Typable = each 57
  where
    each : (n : ℕ) → Typable (replicate n 97)
    each zero = tt
    each (suc n) = (omega arith, omega arith, each n)

preview_leaves_example : (decode (preview_text long_url)).1 ≡ true
unfolding encode
preview_leaves_example =
    preview_leaves long_url (replicate 69 97) (replicate 57 97) (143 ∷ []) 1103 refl refl
      (omega arith) (omega arith) typed-Typable (omega arith) (omega arith)

preview_frozen_example :
    preview_text (record long_url { current_url = long_url.current_url ++ 98 ∷ [] })
    ≡ preview_text long_url
unfolding encode
preview_frozen_example = preview_frozen long_url (98 ∷ []) refl (omega arith)

-- NetSurf draws the number 9 in ten rows of ten pixels under a keyboard of 5s.
abbrev drawn_over : Mem
drawn_over i = if inside 100 1300 10 10 i then 9 else 5

update_then_hide_example :
    (restore_page (
        do_updates
          (λ m. m)
          (λ m. m)
          (update_rect (pos 100) (pos 1300) 10 10 typing).0
          (record { fb = drawn_over; osk_backup = λ i. 7 }))).fb
      (1305 * 1408 + 300)
    ≡ 5
update_then_hide_example =
    update_then_hide 100 1300 10 10 typing (λ m. m) (λ m. m) (λ i. 5) drawn_over (λ i. 7)
      (1305 * 1408 + 300) (omega arith) (omega arith) (omega arith) (omega arith) (omega arith) refl
      refl (λ i out. rw out refl) refl
