-- ===== src/Netsurf/Update.antt =====
-- The screen updates of components/netsurf/src/sdl_fb0_shim.c: the alignment of a refreshed area and
-- `SDL_UpdateRect`, which clips what NetSurf drew and keeps it off the on-screen keyboard.
pub mod Area
pub mod Covers
pub mod Clip
use nookobo.Prelude.{
  ℕ, ◌+◌, ◌-◌, ◌%◌, ◌^◌, Bool, true, false, List, [], ◌∷◌, ◌++◌, ◌&&◌, ◌||◌, ◌==◌, ltb, leb,
  if◌then◌else◌,
}
use nookobo.Prelude.Int.{ℤ, pos, negsuc, ◌+ℤ◌, leb_ℤ, ltb_ℤ}

-- What an update does, in order: the URL bar is drawn over the page, rows `from` to `to` of the
-- panel are copied to the backup under the keyboard, the keyboard is drawn, the panel is told to
-- show an area.
pub data UpdateEffect : Type 0 where
  url_bar : UpdateEffect
  back_up_rows : (from to : ℕ) → UpdateEffect
  keyboard : UpdateEffect
  send_update : (left top width height : ℕ) → (waveform mode flags : ℕ) → UpdateEffect

-- `n & ~7`
unfoldable pub align_down : ℤ → ℤ
align_down (pos n) = pos (n - n % 8)
align_down (negsuc n) = negsuc (n + 7 - n % 8)

-- if (v > most) v = most;
unfoldable pub at_most : ℕ → ℤ → ℤ
at_most most v = if ltb_ℤ (pos most) v then pos most else v

-- The ioctl, unless there is no area. The corner is not negative where it is called here.
unfoldable pub send_area : ℕ → ℕ → ℤ → ℤ → ℕ → ℕ → ℕ → List UpdateEffect
send_area left top (pos right) (pos bottom) waveform mode flags =
    if leb right left || leb bottom top
    then []
    else send_update left top (right - left) (bottom - top) waveform mode flags ∷ []
send_area left top right bottom waveform mode flags = []

unfoldable pub epdc_refresh_area : ℕ → ℕ → ℤ → ℤ → ℕ → ℕ → ℕ → List UpdateEffect
epdc_refresh_area left top width height waveform mode flags =
    send_area (left - left % 8) (top - top % 8)
      (at_most 1404 (align_down (pos left +ℤ width +ℤ pos 7)))
      (at_most 1872 (align_down (pos top +ℤ height +ℤ pos 7))) waveform mode flags

abbrev epdc_refresh_gray : ℕ → ℕ → ℤ → ℤ → List UpdateEffect
epdc_refresh_gray left top width height = epdc_refresh_area left top width height 2 0 0

abbrev epdc_refresh_full : ℕ → ℕ → ℤ → ℤ → List UpdateEffect
epdc_refresh_full left top width height = epdc_refresh_area left top width height 2 1 0

-- (int)n
unfoldable pub as_int : ℕ → ℤ
as_int n = if ltb n (2 ^ 31) then pos n else negsuc (2 ^ 32 - n - 1)

-- if (x < 0) { w += x; x = 0; }
unfoldable pub clip_low : ℤ → ℕ → ℕ × ℕ
clip_low (pos n) size = (n, size)
clip_low (negsuc n) size = (0, (size + (2 ^ 32 - (n + 1))) % 2 ^ 32)

-- if (x + w > PANEL_WIDTH) w = PANEL_WIDTH - x;
unfoldable pub clip_high : ℕ → ℕ → ℕ → ℕ
clip_high most start size = if ltb most ((start + size) % 2 ^ 32) then most - start else size

-- `osk_active`, whether there is a backup, and `first_full_frame`.
pub record Display : Type 0 where
  pub osk_active : Bool
  pub has_backup : Bool
  pub first_full_frame : Bool

unfoldable pub refresh_page : ℕ → ℕ → ℕ → ℕ → Display → List UpdateEffect × Display
refresh_page x y w h d =
    if d.first_full_frame && (leb 1000 w && leb 1000 h)
    then (epdc_refresh_full x y (as_int w) (as_int h), record d { first_full_frame = false })
    else (epdc_refresh_gray x y (as_int w) (as_int h), d)

-- The first row that the copy of the rows under the keyboard leaves out.
unfoldable pub rows_end : ℤ → ℕ
rows_end (pos n) = if ltb n 1872 then n else 1872
rows_end (negsuc n) = 0

-- The page's new rows under the keyboard.
unfoldable pub save_rows : ℕ → ℕ → Display → List UpdateEffect
save_rows y h d =
    let from = if ltb 1272 y then y else 1272 in
    if d.has_backup then back_up_rows from (rows_end (pos y +ℤ as_int h)) ∷ [] else []

-- From the test of `osk_active` on.
unfoldable pub update_shown : ℕ → ℕ → ℕ → ℕ → Display → List UpdateEffect × Display
update_shown x y w h d =
    let (above, d') = refresh_page x y w (1272 - y) d in
    if d.osk_active && ltb_ℤ (pos 1272) (pos y +ℤ as_int h)
    then (if leb 1272 y
        then (save_rows y h d ++ keyboard ∷ [], d)
        else (save_rows y h d ++ keyboard ∷ above, d'))
    else refresh_page x y w h d

unfoldable pub update_clipped : ℕ → ℕ → ℕ → ℕ → Display → List UpdateEffect × Display
update_clipped x y w h d =
    let (effects, d') = update_shown x y w h d in
    if ltb y 75 && ltb_ℤ (pos 140) (pos x +ℤ as_int w)
    then (url_bar ∷ effects, d')
    else (effects, d')

unfoldable pub update_part : ℤ → ℤ → ℕ → ℕ → Display → List UpdateEffect × Display
update_part x y w h d =
    let (left, width) = clip_low x w in
    let (top, height) = clip_low y h in
    if leb 1404 left || leb 1872 top || width == 0 || height == 0
    then ([], d)
    else update_clipped left top (clip_high 1404 left width) (clip_high 1872 top height) d

-- `SDL_UpdateRect` once the panel is open: no width or no height stands for the whole panel.
unfoldable pub update_rect : ℤ → ℤ → ℕ → ℕ → Display → List UpdateEffect × Display
update_rect x y w h d =
    if w == 0 || h == 0 then update_part (pos 0) (pos 0) 1404 1872 d else update_part x y w h d
