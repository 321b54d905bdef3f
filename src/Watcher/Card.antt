-- ===== src/Watcher/Card.antt =====
-- The media card of components/system/src/btn-watcher.c: what it draws, and its show and hide.
use mathlib.Core.Option
use nookobo.Prelude.{
  ℕ, ◌+◌, ◌-◌, true, false, Option, none, some, List, [], ◌∷◌, ◌&&◌, if◌then◌else◌, ◌|>◌,
}
use nookobo.Prelude.Int.{pos}
use nookobo.Prelude.Text.{codes}
use nookobo.Watcher.Canvas.{Mem, draw_rect, draw_rect_outline, draw_string_centered, paint_all}
use nookobo.Watcher.Area.{save_area, restore_area}
use nookobo.Watcher.Screen.{
  Device, Screen, fb_init, epdc_refresh, paint, card_x, card_y, card_w, card_h,
}

-- The border and the header banner, with its two lines of text.
unfoldable pub card_header : List ℕ → List (Mem → Mem)
card_header status =
    draw_rect (pos card_x) (pos card_y) card_w card_h 0xFFFF
    ∷ draw_rect_outline (pos card_x) (pos card_y) card_w card_h 6 0
    ∷ draw_rect_outline (pos (card_x + 10)) (pos (card_y + 10)) (card_w - 20) (card_h - 20) 2 0
    ∷ draw_rect (pos (card_x + 14)) (pos (card_y + 14)) (card_w - 28) 125 0
    ∷ draw_string_centered (pos (card_x + 14)) (pos (card_y + 26)) (card_w - 28) 50
        (codes "MEDIA PLAYER CONTROLS") 3 0xFFFF 0
    ∷ draw_string_centered (pos (card_x + 14)) (pos (card_y + 84)) (card_w - 28) 36 status 2 0xFFFF
        0
    ∷ []

-- One of the four button quadrants, `col_w` by `row_h`.
unfoldable pub card_quadrant : ℕ → ℕ → List ℕ → List ℕ → List (Mem → Mem)
card_quadrant x y button action =
    draw_rect (pos x) (pos y) 560 195 0xFFFF
    ∷ draw_rect_outline (pos x) (pos y) 560 195 3 0
    ∷ draw_string_centered (pos x) (pos (y + 35)) 560 35 button 2 0 0xFFFF
    ∷ draw_string_centered (pos x) (pos (y + 95)) 560 55 action 3 0 0xFFFF
    ∷ []

unfoldable pub card_footer : List (Mem → Mem)
card_footer =
    draw_rect (pos (card_x + 25)) (pos (card_y + 585)) (card_w - 50) 3 0
    ∷ draw_string_centered (pos card_x) (pos (card_y + 605)) card_w 35
        (codes "HOME BUTTON:  >|| PLAY / PAUSE") 2 0 0xFFFF
    ∷ draw_string_centered (pos card_x) (pos (card_y + 655)) card_w 35
        (codes "HOLD HOME + BOTTOM-RIGHT:  RETURN TO READING") 2 0 0xFFFF
    ∷ draw_string_centered (pos card_x) (pos (card_y + 705)) card_w 35
        (codes "(Music continues playing seamlessly in background)") 2 0 0xFFFF
    ∷ []

-- `col1_x` is CARD_X + 25, `col2_x` CARD_X + 615, `row1_y` CARD_Y + 160, `row2_y` CARD_Y + 375.
unfoldable pub draw_card : List ℕ → Mem → Mem
unfolding paint_all
draw_card status m =
    m
    |> paint_all (card_header status)
    |> paint_all (
        card_quadrant (card_x + 25) (card_y + 160) (codes "[ TOP-LEFT BUTTON (F9) ]")
          (codes "|<< PREV TRACK"))
    |> paint_all (
        card_quadrant (card_x + 615) (card_y + 160) (codes "[ TOP-RIGHT BUTTON (F11) ]")
          (codes "NEXT TRACK >>|"))
    |> paint_all (
        card_quadrant (card_x + 25) (card_y + 375) (codes "[ BOTTOM-LEFT BUTTON (F10) ]")
          (codes "SHUFFLE ON / OFF"))
    |> paint_all (
        card_quadrant (card_x + 615) (card_y + 375) (codes "[ BOTTOM-RIGHT BUTTON (F12) ]")
          (codes ">|| PLAY / PAUSE"))
    |> paint_all card_footer

restore_card : Mem → Screen → Screen
restore_card backup s =
    record (s
      |> paint (restore_area card_x card_y card_w card_h backup)
      |> epdc_refresh card_x card_y card_w card_h 2) { card_active = false }

unfoldable pub hide_media_card : Screen → Screen
unfolding restore_card epdc_refresh
hide_media_card s = elim s.card_backup [
  | none ↦ s
  | some backup ↦ if s.card_active && s.mapped then restore_card backup s else s
]

-- The backup that `show_media_card` keeps when no card was up.
save_card : Screen → Screen
save_card s = record s {
  card_backup = Option.map (save_area card_x card_y card_w card_h s.memory) s.card_backup;
  card_active = true;
}

-- status ? status : "PLAYBACK ACTIVE"
abbrev pub status_text : Option (List ℕ) → List ℕ
status_text none = codes "PLAYBACK ACTIVE"
status_text (some text) = text

put_card : Option (List ℕ) → Screen → Screen
put_card status s =
    s |> paint (draw_card (status_text status)) |> epdc_refresh card_x card_y card_w card_h 1

unfoldable pub show_media_card : Device → Option (List ℕ) → Screen → Screen
unfolding fb_init save_card put_card epdc_refresh
show_media_card d status s0 =
    let s : Screen = fb_init d s0 in
    if s.mapped then put_card status (if s.card_active then s else save_card s) else s
