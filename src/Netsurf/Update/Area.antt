-- ===== src/Netsurf/Update/Area.antt =====
-- The area that `epdc_refresh_area` of components/netsurf/src/sdl_fb0_shim.c tells the panel to show.
use nookobo.Prelude.{
  ℕ, ◌+◌, ◌-◌, ◌%◌, ◌≤◌, ◌<◌, ◌≡◌, ap, ap₂, ◌∙◌, Bool, true, false, List, [], ◌∷◌, ◌&&◌, ◌||◌, ltb,
  leb, if◌then◌else◌, arith,
}
use nookobo.Prelude.Int.{pos, ◌+ℤ◌, pos-+ℤ-pos}
use nookobo.Netsurf.Update.{
  UpdateEffect, send_update, align_down, at_most, send_area, epdc_refresh_area, as_int,
}

-- The pixel is in an area that the panel is told to show.
abbrev shows : ℕ → ℕ → UpdateEffect → Bool
shows px py (send_update left top width height waveform mode flags) =
    leb left px && (ltb px (left + width) && (leb top py && ltb py (top + height)))
shows px py effect = false

abbrev pub refreshed : ℕ → ℕ → List UpdateEffect → Bool
refreshed px py [] = false
refreshed px py (e ∷ es) = shows px py e || refreshed px py es

-- `as_int` of a size that fits.
pub as_int_small : (n : ℕ) → n ≤ 2000 → as_int n ≡ pos n
unfolding as_int
as_int_small n h = ground arith

-- The next multiple of 8, or the panel's border.
abbrev next_8 : ℕ → ℕ → ℕ
next_8 most n = if ltb most (n + 7 - (n + 7) % 8) then most else n + 7 - (n + 7) % 8

aligned :
    (x w most : ℕ) → at_most most (align_down (pos x +ℤ pos w +ℤ pos 7)) ≡ pos (next_8 most (x + w))
unfolding at_most align_down
aligned x w most =
    ap (λ z. at_most most (align_down z))
      (ap (λ z. z +ℤ pos 7) (pos-+ℤ-pos x w) ∙ pos-+ℤ-pos (x + w) 7)
    ∙ ground arith

epdc_refresh_area_aligned :
    (x y w h waveform mode flags : ℕ)
    → epdc_refresh_area x y (pos w) (pos h) waveform mode flags
      ≡ send_area
          (x - x % 8)
          (y - y % 8)
          (pos (next_8 1404 (x + w)))
          (pos (next_8 1872 (y + h)))
          waveform
          mode
          flags
unfolding epdc_refresh_area
epdc_refresh_area_aligned x y w h waveform mode flags =
    ap₂ (λ r b. send_area (x - x % 8) (y - y % 8) r b waveform mode flags) (aligned x w 1404)
      (aligned y h 1872)

send_area_shows :
    (left top right bottom waveform mode flags px py : ℕ)
    → left ≤ px
    → px < right
    → top ≤ py
    → py < bottom
    → refreshed px py (send_area left top (pos right) (pos bottom) waveform mode flags) ≡ true
unfolding send_area
send_area_shows left top right bottom waveform mode flags px py h1 h2 h3 h4 = ground arith

next_8_after : (most n p : ℕ) → p < n → n ≤ most → p < next_8 most n
next_8_after most n p h1 h2 = ground arith

-- An area on the panel is refreshed as a whole.
pub epdc_refresh_area_covers :
    (x y w h waveform mode flags px py : ℕ)
    → x + w ≤ 1404
    → y + h ≤ 1872
    → x ≤ px
    → px < x + w
    → y ≤ py
    → py < y + h
    → refreshed px py (epdc_refresh_area x y (pos w) (pos h) waveform mode flags) ≡ true
epdc_refresh_area_covers x y w h waveform mode flags px py h1 h2 h3 h4 h5 h6 =
    ap (refreshed px py) (epdc_refresh_area_aligned x y w h waveform mode flags)
    ∙ send_area_shows (x - x % 8) (y - y % 8) (next_8 1404 (x + w)) (next_8 1872 (y + h)) waveform
        mode flags px py (omega arith) (next_8_after 1404 (x + w) px h4 h1) (omega arith)
        (next_8_after 1872 (y + h) py h6 h2)

-- A refreshed area that ends above the keyboard stays above it.
send_area_above :
    (left top right bottom waveform mode flags px py : ℕ)
    → bottom ≤ 1272
    → 1272 ≤ py
    → refreshed px py (send_area left top (pos right) (pos bottom) waveform mode flags) ≡ false
unfolding send_area
send_area_above left top right bottom waveform mode flags px py h1 h2 = ground arith

next_8_keyboard : (n : ℕ) → n ≤ 1272 → next_8 1872 n ≤ 1272
next_8_keyboard n h = ground arith

pub epdc_refresh_area_above :
    (x y w h waveform mode flags px py : ℕ)
    → y + h ≤ 1272
    → 1272 ≤ py
    → refreshed px py (epdc_refresh_area x y (pos w) (pos h) waveform mode flags) ≡ false
epdc_refresh_area_above x y w h waveform mode flags px py h1 h2 =
    ap (refreshed px py) (epdc_refresh_area_aligned x y w h waveform mode flags)
    ∙ send_area_above (x - x % 8) (y - y % 8) (next_8 1404 (x + w)) (next_8 1872 (y + h)) waveform
        mode flags px py (next_8_keyboard (y + h) h1) h2
