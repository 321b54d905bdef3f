-- ===== src/Watcher/Canvas.antt =====
-- The drawing routines of components/system/src/btn-watcher.c over the mapped panel memory.
-- The memory is a function from an index of the `uint16_t` array to a colour; coordinates are C
-- ints, and a width or a height, which no call makes negative, is a number.
pub mod Exact
pub mod Keeps
pub mod Boxes
use Prim.Native.Nat.{bit_and}
use nookobo.Prelude.{
  ℕ, ◌+◌, ◌-◌, ◌*◌, ◌/◌, ◌%◌, ◌^◌, Bool, Option, none, some, List, [], ◌∷◌, ◌++◌, ◌&&◌, ◌||◌, ltb,
  leb, ◌==◌, not, if◌then◌else◌, get_or, length, for_to, ◌|>◌,
}
use nookobo.Prelude.Int.{ℤ, pos, ◌+ℤ◌, ◌-ℤ◌, half_ℤ, below?}
use nookobo.Common.Font.{font8x16}

abbrev pub fb_width : ℕ
fb_width = 1404

abbrev pub fb_height : ℕ
fb_height = 1872

abbrev pub fb_stride : ℕ
fb_stride = 1408

abbrev pub Mem : Type 0
Mem = ℕ → ℕ

-- fb_mem[i] = c
unfoldable pub poke : ℕ → ℕ → Mem → Mem
poke i c m j = if j == i then c else m j

-- The write of `set_pixel` once both coordinates passed their tests.
unfoldable pub plot : Option ℕ → Option ℕ → ℕ → Mem → Mem
plot (some x) (some y) c m = poke (y * fb_stride + x) c m
plot _ _ c m = m

unfoldable pub set_pixel : ℤ → ℤ → ℕ → Mem → Mem
unfolding plot
set_pixel x y c m = plot (below? fb_width x) (below? fb_height y) c m

-- The inner loop of `draw_rect`; a row off the panel is skipped by `continue`.
unfoldable pub draw_row : Option ℕ → ℤ → ℕ → ℕ → Mem → Mem
unfolding plot
draw_row none x w c m = m
draw_row (some cy) x w c m = for_to w (λ k s. plot (below? fb_width (x +ℤ pos k)) (some cy) c s) m

unfoldable pub draw_rect : ℤ → ℤ → ℕ → ℕ → ℕ → Mem → Mem
draw_rect x y w h c m = for_to h (λ k s. draw_row (below? fb_height (y +ℤ pos k)) x w c s) m

unfoldable pub draw_rect_outline : ℤ → ℤ → ℕ → ℕ → ℕ → ℕ → Mem → Mem
draw_rect_outline x y w h thickness c m =
    m
    |> draw_rect x y w thickness c
    |> draw_rect x (y +ℤ pos h -ℤ pos thickness) w thickness c
    |> draw_rect x y thickness h c
    |> draw_rect (x +ℤ pos w -ℤ pos thickness) y thickness h c

-- The glyph's colour at a column of a row: `(line & (1 << (7 - col))) ? fg : bg`.
unfoldable pub glyph_color : ℕ → ℕ → ℕ → ℕ → ℕ → ℕ
glyph_color ch row col fg bg =
    let line = get_or (get_or font8x16 (ch - 32) []) row 0 in
    if not (bit_and line (2 ^ (7 - col)) == 0) then fg else bg

-- One glyph pixel as a `scale` by `scale` block.
unfoldable pub draw_block : ℤ → ℤ → ℕ → ℕ → Mem → Mem
draw_block x y scale c m =
    for_to scale (λ sy s. for_to scale (λ sx t. set_pixel (x +ℤ pos sx) (y +ℤ pos sy) c t) s) m

unfoldable pub draw_dot : ℤ → ℤ → ℕ → ℕ → ℕ → Mem → Mem
draw_dot x y scale c bg m =
    if scale == 1
    then (if not (c == bg) || not (bg == 0) then set_pixel x y c m else m)
    else draw_block x y scale c m

unfoldable pub draw_char : ℤ → ℤ → ℕ → ℕ → ℕ → ℕ → Mem → Mem
draw_char x y byte scale fg bg m =
    let ch : ℕ = if ltb byte 32 || ltb 126 byte then 32 else byte in
    for_to 16
      (λ row s.
        for_to 8
          (λ col t.
            draw_dot (x +ℤ pos (col * scale)) (y +ℤ pos (row * scale)) scale
              (glyph_color ch row col fg bg) bg t)
          s)
      m

unfoldable pub draw_string : ℤ → ℤ → List ℕ → ℕ → ℕ → ℕ → Mem → Mem
draw_string cx y [] scale fg bg m = m
draw_string cx y (ch ∷ str) scale fg bg m =
    draw_string (cx +ℤ pos (8 * scale)) y str scale fg bg (draw_char cx y ch scale fg bg m)

unfoldable pub draw_string_centered : ℤ → ℤ → ℕ → ℕ → List ℕ → ℕ → ℕ → ℕ → Mem → Mem
draw_string_centered box_x box_y box_w box_h str scale fg bg m =
    draw_string (box_x +ℤ half_ℤ (pos box_w -ℤ pos (length str * 8 * scale)))
      (box_y +ℤ half_ℤ (pos box_h -ℤ pos (16 * scale))) str scale fg bg m

-- Drawing calls in order.
unfoldable pub paint_all : List (Mem → Mem) → Mem → Mem
paint_all [] m = m
paint_all (op ∷ ops) m = paint_all ops (op m)
