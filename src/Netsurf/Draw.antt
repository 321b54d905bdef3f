-- ===== src/Netsurf/Draw.antt =====
-- The drawing routines of components/netsurf/src/sdl_fb0_shim.c, which are those of
-- components/system/src/btn-watcher.c but for the texts: these are UTF-8 and have Cyrillic letters.
pub mod Keeps
use Prim.Native.Nat.{bit_and}
use nookobo.Prelude.{
  ℕ, ◌-◌, ◌*◌, ◌^◌, ◌&&◌, ◌==◌, not, leb, Option, none, some, List, [], ◌∷◌, if◌then◌else◌, get_or,
  length, for_to,
}
use nookobo.Prelude.Int.{ℤ, pos, ◌+ℤ◌, ◌-ℤ◌, half_ℤ}
use nookobo.Common.Font.{font8x16}
use nookobo.Common.FontCyrillic.{font8x16_cyrillic, get_cyrillic_font_index}
use nookobo.Watcher.Canvas.{Mem, draw_rect, draw_rect_outline, draw_dot}
use nookobo.Netsurf.Utf8.{decode}

abbrev pub fb_draw_rect : ℤ → ℤ → ℕ → ℕ → ℕ → Mem → Mem
fb_draw_rect x y w h color m = draw_rect x y w h color m

abbrev pub fb_draw_rect_outline : ℤ → ℤ → ℕ → ℕ → ℕ → ℕ → Mem → Mem
fb_draw_rect_outline x y w h thickness color m = draw_rect_outline x y w h thickness color m

-- The glyph of a code point; a question mark for what neither font has.
unfoldable pub cyrillic_glyph : Option ℕ → List ℕ
cyrillic_glyph (some c_idx) = get_or font8x16_cyrillic c_idx []
cyrillic_glyph none = get_or font8x16 (63 - 32) []

unfoldable pub glyph_of : ℕ → List ℕ
glyph_of cp =
    if leb 32 cp && leb cp 126
    then get_or font8x16 (cp - 32) []
    else cyrillic_glyph (get_cyrillic_font_index cp)

-- (line & (1 << (7 - col))) ? fg : bg
unfoldable pub dot_color : List ℕ → (fg bg row col : ℕ) → ℕ
dot_color glyph fg bg row col =
    if not (bit_and (get_or glyph row 0) (2 ^ (7 - col)) == 0) then fg else bg

unfoldable pub fb_draw_utf8_char : ℤ → ℤ → ℕ → ℕ → ℕ → ℕ → Mem → Mem
fb_draw_utf8_char x y cp scale fg bg m =
    for_to 16
      (λ row s.
        for_to 8
          (λ col t.
            draw_dot (x +ℤ pos (col * scale)) (y +ℤ pos (row * scale)) scale
              (dot_color (glyph_of cp) fg bg row col) bg t)
          s)
      m

-- The loop of `fb_draw_utf8_string` over code points.
unfoldable pub draw_points : ℤ → ℤ → List ℕ → ℕ → ℕ → ℕ → Mem → Mem
draw_points cx y [] scale fg bg m = m
draw_points cx y (cp ∷ cps) scale fg bg m =
    draw_points (cx +ℤ pos (8 * scale)) y cps scale fg bg (fb_draw_utf8_char cx y cp scale fg bg m)

-- The code points of the string; what a loop that leaves it draws behind it is not modelled.
unfoldable pub fb_draw_utf8_string : ℤ → ℤ → List ℕ → ℕ → ℕ → ℕ → Mem → Mem
fb_draw_utf8_string x y str scale fg bg m = draw_points x y (decode str).0 scale fg bg m

unfoldable pub utf8_string_len : List ℕ → ℕ
utf8_string_len str = length (decode str).0

unfoldable pub fb_draw_utf8_string_centered : ℤ → ℤ → ℕ → ℕ → List ℕ → ℕ → ℕ → ℕ → Mem → Mem
fb_draw_utf8_string_centered box_x box_y box_w box_h str scale fg bg m =
    fb_draw_utf8_string (box_x +ℤ half_ℤ (pos box_w -ℤ pos (utf8_string_len str * 8 * scale)))
      (box_y +ℤ half_ℤ (pos box_h -ℤ pos (16 * scale))) str scale fg bg m
