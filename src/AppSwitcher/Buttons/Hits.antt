-- ===== src/AppSwitcher/Buttons/Hits.antt =====
-- Which button of components/system/src/app-switcher.c a touch means: the padding makes neighbours
-- overlap, and the first of the table wins.
use nookobo.Prelude.{ℕ, ◌+◌, ◌≤◌, ◌<◌, ◌≡◌, Option, none, some, arith}
use nookobo.AppSwitcher.Buttons.{
  ButtonId, btn_koreader, btn_plato, btn_netsurf, btn_music_prev, btn_music_play, btn_music_next,
  btn_music_shuffle, btn_frontlight, btn_close, button, button_ids, padded, first_padded, button_at,
}

-- The touch is on what is drawn of the button, more than 15 pixels from its left border.
abbrev pub OnButton : ButtonId → ℕ → ℕ → Type 0
OnButton id x y =
    ((button id).x + 15 < x)
    × (x < (button id).x + (button id).w)
    × ((button id).y ≤ y)
    × (y < (button id).y + (button id).h)

-- A touch on a button, more than 15 pixels from its left border, means that button.
pub button_at_lem : (id : ButtonId) (x y : ℕ) → OnButton id x y → button_at x y ≡ some id
unfolding button_at first_padded button_ids padded button
button_at_lem btn_koreader x y h = ground arith
button_at_lem btn_plato x y h = ground arith
button_at_lem btn_netsurf x y h = ground arith
button_at_lem btn_music_prev x y h = ground arith
button_at_lem btn_music_play x y h = ground arith
button_at_lem btn_music_next x y h = ground arith
button_at_lem btn_music_shuffle x y h = ground arith
button_at_lem btn_frontlight x y h = ground arith
button_at_lem btn_close x y h = ground arith

-- The button of the music row to the left of another.
abbrev pub left_of : ButtonId → Option ButtonId
left_of btn_music_play = some btn_music_prev
left_of btn_music_next = some btn_music_play
left_of btn_music_shuffle = some btn_music_next
left_of _ = none

-- A touch on one of the three right buttons of the music row, at most 15 pixels from its left
-- border, means the button to the left of it.
pub button_at_left :
    (id left : ButtonId) (x y : ℕ)
    → left_of id ≡ some left
    → (button id).x ≤ x
    → x ≤ (button id).x + 15
    → 980 ≤ y
    → y < 1080
    → button_at x y ≡ some left
unfolding button_at first_padded button_ids padded button
button_at_left btn_music_play left x y e h1 h2 h3 h4 = ground arith
button_at_left btn_music_next left x y e h1 h2 h3 h4 = ground arith
button_at_left btn_music_shuffle left x y e h1 h2 h3 h4 = ground arith
button_at_left btn_koreader left x y e h1 h2 h3 h4 = cc
button_at_left btn_plato left x y e h1 h2 h3 h4 = cc
button_at_left btn_netsurf left x y e h1 h2 h3 h4 = cc
button_at_left btn_music_prev left x y e h1 h2 h3 h4 = cc
button_at_left btn_frontlight left x y e h1 h2 h3 h4 = cc
button_at_left btn_close left x y e h1 h2 h3 h4 = cc
