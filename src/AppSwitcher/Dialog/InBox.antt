-- ===== src/AppSwitcher/Dialog/InBox.antt =====
-- Whatever the music player and the battery answer, components/system/src/app-switcher.c draws its
-- dialog inside the box that it saves.
use nookobo.Prelude.{
  ℕ, ◌+◌, ◌-◌, ◌*◌, ◌≤◌, ◌≡◌, refl, ap, ◌∙◌, Bool, true, false, List, [], ◌∷◌, ◌++◌, ◌&&◌, leb,
  length, length-append, length-take, length-replicate, replicate, if◌then◌else◌, arith,
}
use nookobo.Prelude.Int.{pos, ◌-ℤ◌, pos--ℤ-pos}
use nookobo.Prelude.Text.{codes}
use nookobo.Watcher.Canvas.{Mem, draw_string, paint_all}
use nookobo.Watcher.Canvas.Boxes.{
  box_in, InBox, AllInBox, rect_in, outline_in, text_in, string_in, paint_all_in,
}
use nookobo.AppSwitcher.Buttons.{
  ButtonId, btn_koreader, btn_plato, btn_netsurf, btn_music_prev, btn_music_play, btn_music_next,
  btn_music_shuffle, btn_frontlight, btn_close, Button, button, Texts, button_text, button_label,
}
use nookobo.AppSwitcher.Status.{Music}
use nookobo.AppSwitcher.Dialog.{
  widget_texts, widget_ops, draw_button_widget, track_text, pad, state_str, music_box, music_texts,
  draw_widgets, draw_music_section, dialog_frame, draw_dialog,
}

abbrev pub Inside : (Mem → Mem) → Type 0
Inside op = InBox 132 200 1140 1470 op

abbrev AllInside : List (Mem → Mem) → Type 0
AllInside ops = AllInBox 132 200 1140 1470 ops

-- The texts of the two changing buttons fit the narrowest button.
abbrev pub TextsFit : Texts → Type 0
TextsFit t = (length t.play_text ≤ 12) × (length t.shuffle_text ≤ 12)

pub music_texts-TextsFit : (m : Music) → TextsFit (music_texts m)
unfolding music_texts
music_texts-TextsFit m = ground arith

-- A label is at most 30 characters long, and 12 on the music buttons.
length-button_label :
    (t : Texts) (active : List ℕ) (id : ButtonId)
    → TextsFit t
    → length (button_label t active id) * 16 ≤ (button id).w
unfolding button_label button_text button
length-button_label t active btn_koreader h = ground arith
length-button_label t active btn_plato h = ground arith
length-button_label t active btn_netsurf h = ground arith
length-button_label t active btn_music_prev h = ground arith
length-button_label t active btn_music_play h = ground arith
length-button_label t active btn_music_next h = ground arith
length-button_label t active btn_music_shuffle h = ground arith
length-button_label t active btn_frontlight h = ground arith
length-button_label t active btn_close h = ground arith

-- A button with its texts inside the dialog.
abbrev Fits : Button → Type 0
Fits b =
    (box_in 132 200 1140 1470 b.x b.y b.w b.h && leb 4 b.w && leb 90 b.h ≡ true)
    × (length b.subtext * 8 ≤ b.w)

button-Fits : (id : ButtonId) → Fits (button id)
unfolding button
button-Fits btn_koreader = (refl, omega arith)
button-Fits btn_plato = (refl, omega arith)
button-Fits btn_netsurf = (refl, omega arith)
button-Fits btn_music_prev = (refl, omega arith)
button-Fits btn_music_play = (refl, omega arith)
button-Fits btn_music_next = (refl, omega arith)
button-Fits btn_music_shuffle = (refl, omega arith)
button-Fits btn_frontlight = (refl, omega arith)
button-Fits btn_close = (refl, omega arith)

widget_texts-Inside :
    (b : Button) (label subtext : List ℕ) (fg bg : ℕ)
    → box_in 132 200 1140 1470 b.x b.y b.w b.h && leb 4 b.w && leb 90 b.h ≡ true
    → length subtext * 8 ≤ b.w
    → length label * 16 ≤ b.w
    → AllInside (widget_texts b label subtext fg bg)
unfolding widget_texts
widget_texts-Inside b label [] fg bg f h1 h2 = (
  text_in 132 200 1140 1470 b.x b.y b.w b.h label (if leb 90 b.h then 2 else 1) fg bg (ground arith)
      (ground arith),
  tt,
)
widget_texts-Inside b label (c ∷ subtext) fg bg f h1 h2 = (
  text_in 132 200 1140 1470 b.x (b.y + 16) b.w 36 label 2 fg bg (omega arith) (ground arith),
  (
    text_in 132 200 1140 1470 b.x (b.y + 60) b.w 24 (c ∷ subtext) 1 fg bg (omega arith)
        (ground arith),
    tt,
  ),
)

widget_ops-Inside :
    (b : Button) (label : List ℕ) (pressed : Bool)
    → Fits b
    → length label * 16 ≤ b.w
    → AllInside (widget_ops b label pressed)
unfolding widget_ops
widget_ops-Inside b label pressed f h = (
  rect_in 132 200 1140 1470 b.x b.y b.w b.h _ (ground arith),
  (
    outline_in 132 200 1140 1470 b.x b.y b.w b.h 4 0 (ground arith),
    widget_texts-Inside b label b.subtext _ _ f.0 f.1 h,
  ),
)

pub draw_button_widget-Inside :
    (t : Texts) (active : List ℕ) (id : ButtonId) (pressed : Bool)
    → TextsFit t
    → Inside (draw_button_widget t active id pressed)
unfolding draw_button_widget
draw_button_widget-Inside t active id pressed h = paint_all_in 132 200 1140 1470 _ (
    widget_ops-Inside (button id) (button_label t active id) pressed (button-Fits id)
      (length-button_label t active id h))

draw_widgets-Inside :
    (t : Texts) (active : List ℕ) (ids : List ButtonId)
    → TextsFit t
    → Inside (draw_widgets t active ids)
unfolding draw_widgets
draw_widgets-Inside t active [] h m i out = refl
draw_widgets-Inside t active (id ∷ ids) h m i out =
    draw_widgets-Inside t active ids h (draw_button_widget t active id false m) i out
    ∙ draw_button_widget-Inside t active id false h m i out

length-track_text : (t : List ℕ) → length (track_text t) ≤ 52
unfolding track_text
length-track_text [] = omega arith
length-track_text (c ∷ t) = omega (arith, length-take 45 (c ∷ t))

length-pad : (n : ℕ) (s : List ℕ) → length (pad n s) ≡ length s + (n - length s)
length-pad n s = omega (
  arith,
  length-append s (replicate (n - length s) 32),
  length-replicate {A = ℕ} (n - length s) 32,
)

length-shuffle : (b : Bool) → length (pad 3 (if b then codes "ON" else codes "OFF")) ≡ 3
length-shuffle true = refl
length-shuffle false = refl

length-state_str : (m : Music) → length m.status ≤ 31 → length (state_str m) ≤ 56
unfolding state_str
length-state_str m h =
    let status = pad 8 m.status in
    let label = codes "  |  Shuffle: " in
    omega (
      arith,
      length-append (status ++ label) (pad 3 (if m.shuffle then codes "ON" else codes "OFF")),
      length-append status label,
      length-pad 8 m.status,
      length-shuffle m.shuffle,
    )

music_box-Inside : (m : Music) → length m.status ≤ 31 → AllInside (music_box m)
unfolding music_box
music_box-Inside m h =
    let track = length-track_text m.track in
    let state = length-state_str m h in
    (
      rect_in 132 200 1140 1470 202 800 1000 160 0xFFFF refl,
      (
        outline_in 132 200 1140 1470 202 800 1000 160 3 0x4208 refl,
        (
          rect_in 132 200 1140 1470 202 800 1000 36 0xDEFB refl,
          (
            string_in 132 200 1140 1470 222 808 _ 1 0 0xDEFB refl,
            (
              string_in 132 200 1140 1470 222 850 (track_text m.track) 2 0 0xFFFF (ground arith),
              (
                string_in 132 200 1140 1470 222 898 (state_str m) 2 0x4208 0xFFFF (ground arith),
                tt,
              ),
            ),
          ),
        ),
      ),
    )

pub draw_music_section-Inside :
    (m : Music) (active : List ℕ) → length m.status ≤ 31 → Inside (draw_music_section m active)
unfolding draw_music_section
draw_music_section-Inside m active h s i out =
    draw_widgets-Inside (music_texts m) active _ (music_texts-TextsFit m)
      (paint_all (music_box m) s) i out
    ∙ paint_all_in 132 200 1140 1470 (music_box m) (music_box-Inside m h) s i out

battery_x : (n : ℕ) → n ≤ 13 → pos 1272 -ℤ pos (n * 16) -ℤ pos 24 ≡ pos (1248 - n * 16)
battery_x n h =
    ap (λ z. z -ℤ pos 24) (pos--ℤ-pos 1272 (n * 16) (omega arith))
    ∙ pos--ℤ-pos (1272 - n * 16) 24 (omega arith)
    ∙ ap pos (omega arith)

battery-Inside :
    (battery : List ℕ)
    → length battery ≤ 13
    → Inside
        (draw_string (pos 1272 -ℤ pos (length battery * 16) -ℤ pos 24) (pos 229) battery 2 0xFFFF 0)
battery-Inside battery h =
    rw (battery_x (length battery) h) (
      string_in 132 200 1140 1470 (1248 - length battery * 16) 229 battery 2 0xFFFF 0
        (ground arith))

dialog_frame-Inside : (battery : List ℕ) → length battery ≤ 13 → AllInside (dialog_frame battery)
unfolding dialog_frame
dialog_frame-Inside battery h = (
  rect_in 132 200 1140 1470 132 200 1140 1470 0xFFFF refl,
  (
    outline_in 132 200 1140 1470 132 200 1140 1470 6 0 refl,
    (
      rect_in 132 200 1140 1470 132 200 1140 90 0 refl,
      (
        text_in 132 200 1140 1470 132 200 1140 90 _ 2 0xFFFF 0 (omega arith) refl,
        (
          battery-Inside battery h,
          (string_in 132 200 1140 1470 202 315 _ 2 0x4208 0xFFFF refl, tt),
        ),
      ),
    ),
  ),
)

-- The dialog stays inside the box that is saved, for a music status of at most 31 bytes, a battery
-- text of at most 13, and button texts of at most 12 on the music buttons.
pub draw_dialog-Inside :
    (t : Texts) (m : Music) (battery active : List ℕ)
    → TextsFit t
    → length m.status ≤ 31
    → length battery ≤ 13
    → Inside (draw_dialog t m battery active)
unfolding draw_dialog
draw_dialog-Inside t m battery active ht hm hb s i out =
    draw_widgets-Inside (music_texts m) active _ (music_texts-TextsFit m) _ i out
    ∙ draw_music_section-Inside m active hm _ i out
    ∙ draw_widgets-Inside t active _ ht _ i out
    ∙ paint_all_in 132 200 1140 1470 (dialog_frame battery) (dialog_frame-Inside battery hb) s i out
