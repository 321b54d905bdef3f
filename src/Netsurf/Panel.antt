-- ===== src/Netsurf/Panel.antt =====
-- What the on-screen keyboard of components/netsurf/src/sdl_fb0_shim.c does to the panel's memory,
-- which is mapped: the drawings, and the copies between it and `osk_backup`.
pub mod Boxes
pub mod Kept
pub mod Touches
pub mod Presses
pub mod Restores
pub mod Runs
pub mod Updates
use nookobo.Prelude.{
  ℕ, ◌+◌, ◌-◌, ◌*◌, for_to, Bool, true, false, List, [], ◌∷◌, ◌++◌, if◌then◌else◌,
}
use nookobo.Prelude.Int.{pos}
use nookobo.Watcher.Canvas.{Mem, paint_all}
use nookobo.Watcher.Area.{memcpy, save_area, restore_area}
use nookobo.Netsurf.Layout.{OskKey}
use nookobo.Netsurf.Draw.{
  fb_draw_rect, fb_draw_rect_outline, fb_draw_utf8_string, fb_draw_utf8_string_centered,
}
use nookobo.Netsurf.Update.{UpdateEffect, url_bar, back_up_rows, keyboard, send_update}
use nookobo.Netsurf.Keyboard.{
  Effect, queued, pause, osk_key_drawn, background_drawn, osk_drawn, preview_drawn, url_bar_drawn,
  refresh_fast, refresh_gray, refresh_full, saved, restored,
}

-- `fb_mem` and `osk_backup`, as arrays of `uint16_t`.
pub record Panel : Type 0 where
  pub fb : Mem
  pub osk_backup : Mem

-- draw_osk_key
unfoldable pub key_pixels : OskKey → Bool → List ℕ → ℕ → List (Mem → Mem)
key_pixels k pressed label scale =
    let bg : ℕ = if pressed then 0 else k.bg in
    let fg : ℕ = if pressed then 65535 else k.fg in
    fb_draw_rect (pos k.x) (pos k.y) k.w k.h bg
    ∷ fb_draw_rect_outline (pos k.x) (pos k.y) k.w k.h 2 0
    ∷ fb_draw_utf8_string_centered (pos k.x) (pos k.y) k.w k.h label scale fg bg
    ∷ []

-- The loop of draw_osk over the keys.
unfoldable pub keys_pixels : List (OskKey × List ℕ × ℕ) → List (Mem → Mem)
keys_pixels [] = []
keys_pixels ((k, label, scale) ∷ ks) = paint_all (key_pixels k false label scale) ∷ keys_pixels ks

unfoldable pub background_pixels : List (Mem → Mem)
background_pixels =
    fb_draw_rect (pos 0) (pos 1272) 1404 600 61309 ∷ fb_draw_rect (pos 0) (pos 1272) 1404 3 0 ∷ []

-- draw_osk_input_preview
unfoldable pub preview_pixels : Bool → List ℕ → List (Mem → Mem)
preview_pixels hint text =
    let fg : ℕ = if hint then 57083 else 0 in
    fb_draw_rect (pos 202) (pos 1275) 1000 46 65535
    ∷ fb_draw_rect_outline (pos 202) (pos 1275) 1000 46 2 0
    ∷ fb_draw_utf8_string (pos 216) (pos 1282) text 2 fg 65535
    ∷ []

-- draw_url_bar_overlay
unfoldable pub url_bar_pixels : List ℕ → List (Mem → Mem)
url_bar_pixels text =
    fb_draw_rect (pos 145) (pos 6) 1175 58 65535
    ∷ fb_draw_rect_outline (pos 145) (pos 6) 1175 58 2 0
    ∷ fb_draw_utf8_string (pos 160) (pos 19) text 2 0 65535
    ∷ []

abbrev pub draw_on : List (Mem → Mem) → Panel → Panel
draw_on ops p = record p { fb = paint_all ops p.fb }

-- The rows under the keyboard, to and from the backup, at the stride of the panel.
unfoldable pub save_page : Panel → Panel
save_page p = record p { osk_backup = save_area 0 1272 1408 600 p.fb p.osk_backup }

unfoldable pub restore_page : Panel → Panel
restore_page p = record p { fb = restore_area 0 1272 1408 600 p.osk_backup p.fb }

unfoldable pub do_effect : Effect → Panel → Panel
do_effect (queued e) p = p
do_effect (pause us) p = p
do_effect (osk_key_drawn k pressed label scale) p = draw_on (key_pixels k pressed label scale) p
do_effect background_drawn p = draw_on background_pixels p
do_effect (osk_drawn ks) p = draw_on (keys_pixels ks) p
do_effect (preview_drawn hint text) p = draw_on (preview_pixels hint text) p
do_effect (url_bar_drawn text) p = draw_on (url_bar_pixels text) p
do_effect (refresh_fast left top width height) p = p
do_effect (refresh_gray left top width height) p = p
do_effect (refresh_full left top width height) p = p
do_effect saved p = save_page p
do_effect restored p = restore_page p

unfoldable pub do_effects : List Effect → Panel → Panel
do_effects [] p = p
do_effects (e ∷ es) p = do_effects es (do_effect e p)

-- for (cy = from; cy < to; cy++) memcpy(&osk_backup[(cy - OSK_Y) * PANEL_STRIDE],
--   &fb_mem[cy * PANEL_STRIDE], PANEL_STRIDE)
unfoldable pub back_up : (from to : ℕ) → Mem → Mem → Mem
unfolding memcpy
back_up from to fb backup =
    for_to (to - from) (λ k b. memcpy ((from + k - 1272) * 1408) fb ((from + k) * 1408) 1408 b)
      backup

-- What an update of the page does to the panel, with the drawing of the URL bar and of the keyboard.
unfoldable pub do_update : (bar osk : Mem → Mem) → UpdateEffect → Panel → Panel
do_update bar osk url_bar p = record p { fb = bar p.fb }
do_update bar osk (back_up_rows from to) p = record p {
  osk_backup = back_up from to p.fb p.osk_backup;
}
do_update bar osk keyboard p = record p { fb = osk p.fb }
do_update bar osk (send_update left top width height waveform mode flags) p = p

unfoldable pub do_updates : (bar osk : Mem → Mem) → List UpdateEffect → Panel → Panel
do_updates bar osk [] p = p
do_updates bar osk (e ∷ es) p = do_updates bar osk es (do_update bar osk e p)
