-- ===== src/AppSwitcher/Dialog.antt =====
-- The dialog of components/system/src/app-switcher.c as drawing calls.
pub mod InBox
use nookobo.Prelude.{
  ℕ, ◌+◌, ◌-◌, ◌*◌, Bool, true, false, Option, List, [], ◌∷◌, ◌++◌, length, take, replicate,
  if◌then◌else◌, leb,
}
use nookobo.Prelude.Int.{pos, ◌-ℤ◌}
use nookobo.Prelude.Text.{codes, text_eq}
use nookobo.Watcher.Canvas.{
  Mem, draw_rect, draw_rect_outline, draw_string, draw_string_centered, paint_all,
}
use nookobo.AppSwitcher.Buttons.{
  ButtonId, btn_koreader, btn_plato, btn_netsurf, btn_music_prev, btn_music_play, btn_music_next,
  btn_music_shuffle, btn_frontlight, btn_close, Button, button, Texts, button_label,
}
use nookobo.AppSwitcher.Status.{Music}

abbrev pub dlg_x : ℕ
dlg_x = 132

abbrev pub dlg_y : ℕ
dlg_y = 200

abbrev pub dlg_w : ℕ
dlg_w = 1140

abbrev pub dlg_h : ℕ
dlg_h = 1470

abbrev color_white : ℕ
color_white = 0xFFFF

abbrev color_black : ℕ
color_black = 0

abbrev color_gray_lt : ℕ
color_gray_lt = 0xDEFB

abbrev color_gray_dk : ℕ
color_gray_dk = 0x4208

-- The texts of a button; an empty `subtext` leaves the label the whole height, at scale 1 below 90.
unfoldable pub widget_texts : Button → (label subtext : List ℕ) → ℕ → ℕ → List (Mem → Mem)
widget_texts b label [] fg bg =
    draw_string_centered (pos b.x) (pos b.y) b.w b.h label (if leb 90 b.h then 2 else 1) fg bg ∷ []
widget_texts b label (c ∷ subtext) fg bg =
    draw_string_centered (pos b.x) (pos (b.y + 16)) b.w 36 label 2 fg bg
    ∷ draw_string_centered (pos b.x) (pos (b.y + 60)) b.w 24 (c ∷ subtext) 1 fg bg
    ∷ []

unfoldable pub widget_ops : Button → List ℕ → Bool → List (Mem → Mem)
widget_ops b label pressed =
    let bg = if pressed then color_black else color_white in
    let fg = if pressed then color_white else color_black in
    draw_rect (pos b.x) (pos b.y) b.w b.h bg
    ∷ draw_rect_outline (pos b.x) (pos b.y) b.w b.h 4 color_black
    ∷ widget_texts b label b.subtext fg bg

unfoldable pub draw_button_widget : Texts → List ℕ → ButtonId → Bool → Mem → Mem
draw_button_widget t active id pressed =
    paint_all (widget_ops (button id) (button_label t active id) pressed)

-- %-8s
abbrev pub pad : ℕ → List ℕ → List ℕ
pad n s = s ++ replicate (n - length s) 32

unfoldable pub track_text : List ℕ → List ℕ
track_text [] = codes "Track: (No track loaded)"
track_text (c ∷ t) = codes "Track: " ++ take 45 (c ∷ t)

unfoldable pub state_str : Music → List ℕ
state_str m =
    codes "Status: "
    ++ pad 8 m.status
    ++ codes "  |  Shuffle: "
    ++ pad 3 (if m.shuffle then codes "ON" else codes "OFF")

unfoldable pub music_box : Music → List (Mem → Mem)
music_box m =
    draw_rect (pos 202) (pos 800) 1000 160 color_white
    ∷ draw_rect_outline (pos 202) (pos 800) 1000 160 3 color_gray_dk
    ∷ draw_rect (pos 202) (pos 800) 1000 36 color_gray_lt
    ∷ draw_string (pos 222) (pos 808) (codes "BACKGROUND MUSIC PLAYER (3.5mm & BLUETOOTH)") 1
        color_black color_gray_lt
    ∷ draw_string (pos 222) (pos 850) (track_text m.track) 2 color_black color_white
    ∷ draw_string (pos 222) (pos 898) (state_str m) 2 color_gray_dk color_white
    ∷ []

unfoldable pub music_texts : Music → Texts
music_texts m = record {
  play_text = if text_eq m.status (codes "PLAYING") then codes "Pause [||]" else codes "Play [>]";
  shuffle_text = if m.shuffle then codes "Shuf: ON" else codes "Shuf: OFF";
}

unfoldable pub draw_widgets : Texts → List ℕ → List ButtonId → Mem → Mem
draw_widgets t active [] m = m
draw_widgets t active (id ∷ ids) m =
    draw_widgets t active ids (draw_button_widget t active id false m)

-- `draw_music_section`, which also leaves `music_texts m` in the table.
unfoldable pub draw_music_section : Music → List ℕ → Mem → Mem
draw_music_section m active s =
    draw_widgets (music_texts m) active
      (btn_music_prev ∷ btn_music_play ∷ btn_music_next ∷ btn_music_shuffle ∷ [])
      (paint_all (music_box m) s)

unfoldable pub dialog_frame : List ℕ → List (Mem → Mem)
dialog_frame battery =
    draw_rect (pos dlg_x) (pos dlg_y) dlg_w dlg_h color_white
    ∷ draw_rect_outline (pos dlg_x) (pos dlg_y) dlg_w dlg_h 6 color_black
    ∷ draw_rect (pos dlg_x) (pos dlg_y) dlg_w 90 color_black
    ∷ draw_string_centered (pos dlg_x) (pos dlg_y) dlg_w 90 (codes "NOOK APPLICATION SWITCHER") 2
        color_white color_black
    ∷ draw_string (pos (dlg_x + dlg_w) -ℤ pos (length battery * 16) -ℤ pos 24) (pos (dlg_y + 29))
        battery 2 color_white color_black
    ∷ draw_string (pos 202) (pos 315) (codes "SELECT APPLICATION TO RUN:") 2 color_gray_dk
        color_white
    ∷ []

-- `draw_dialog` with the answers of the two queries. `t` are the texts before the music section is
-- drawn; the apps' buttons do not show them.
unfoldable pub draw_dialog : Texts → Music → List ℕ → List ℕ → Mem → Mem
draw_dialog t music battery active s =
    draw_widgets (music_texts music) active (btn_frontlight ∷ btn_close ∷ []) (
      draw_music_section music active (
        draw_widgets t active (btn_koreader ∷ btn_plato ∷ btn_netsurf ∷ [])
          (paint_all (dialog_frame battery) s)))
