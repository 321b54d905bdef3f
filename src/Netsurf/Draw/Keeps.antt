-- ===== src/Netsurf/Draw/Keeps.antt =====
-- Where the texts of components/netsurf/src/sdl_fb0_shim.c are drawn.
use nookobo.Prelude.{
  ℕ, suc, Bool, false, ◌+◌, ◌-◌, ◌*◌, ◌/◌, ◌≤◌, ◌≡◌, refl, ap, ap₂, ◌∙◌, true, ◌&&◌, leb, List, [],
  ◌∷◌, arith, length, if◌then◌else◌, ltb, ◌==◌,
}
use nookobo.Prelude.Int.{pos, pos-+ℤ-pos}
use nookobo.Watcher.Canvas.{Mem}
use nookobo.Watcher.Canvas.Keeps.{Keeps, glyph-Keeps, centre}
use nookobo.Watcher.Canvas.Boxes.{InBox, box_in}
use nookobo.Netsurf.Utf8.{decode}
use nookobo.Netsurf.Draw.{
  dot_color, glyph_of, fb_draw_utf8_char, draw_points, fb_draw_utf8_string, utf8_string_len,
  fb_draw_utf8_string_centered,
}

module _ (rx ry rw rh : ℕ) where
  fb_draw_utf8_char-Keeps :
      (x y cp scale fg bg : ℕ) (m : Mem)
      → rx ≤ x
      → x + 8 * scale ≤ rx + rw
      → ry ≤ y
      → y + 16 * scale ≤ ry + rh
      → Keeps rx ry rw rh m (fb_draw_utf8_char (pos x) (pos y) cp scale fg bg m)
  unfolding fb_draw_utf8_char
  fb_draw_utf8_char-Keeps x y cp scale fg bg m h1 h2 h3 h4 =
      glyph-Keeps rx ry rw rh (dot_color (glyph_of cp) fg bg) x y scale bg m h1 h2 h3 h4

  draw_points-Keeps :
      (x y scale fg bg : ℕ) (cps : List ℕ) (m : Mem)
      → rx ≤ x
      → x + length cps * 8 * scale ≤ rx + rw
      → ry ≤ y
      → y + 16 * scale ≤ ry + rh
      → Keeps rx ry rw rh m (draw_points (pos x) (pos y) cps scale fg bg m)
  unfolding draw_points
  draw_points-Keeps x y scale fg bg [] m h1 h2 h3 h4 i out = refl
  draw_points-Keeps x y scale fg bg (cp ∷ cps) m h1 h2 h3 h4 i out =
      ap
        (λ a.
          draw_points a (pos y) cps scale fg bg (fb_draw_utf8_char (pos x) (pos y) cp scale fg bg m)
            i)
        (pos-+ℤ-pos x (8 * scale))
      ∙ draw_points-Keeps (x + 8 * scale) y scale fg bg cps
          (fb_draw_utf8_char (pos x) (pos y) cp scale fg bg m) (omega arith) (grind arith) h3 h4 i
          out
      ∙ fb_draw_utf8_char-Keeps x y cp scale fg bg m h1 (grind arith) h3 h4 i out

  -- A text of as many letters as the box has room for.
  pub utf8_string-InBox :
      (x y : ℕ) (str : List ℕ) (scale fg bg : ℕ)
      → box_in rx ry rw rh x y (utf8_string_len str * 8 * scale) (16 * scale) ≡ true
      → InBox rx ry rw rh (fb_draw_utf8_string (pos x) (pos y) str scale fg bg)
  unfolding fb_draw_utf8_string utf8_string_len
  utf8_string-InBox x y str scale fg bg e m =
      draw_points-Keeps x y scale fg bg (decode str).0 m (ground arith) (ground arith)
        (ground arith) (ground arith)

  pub utf8_string_centered-InBox :
      (x y w h : ℕ) (str : List ℕ) (scale fg bg : ℕ)
      → utf8_string_len str * 8 * scale ≤ w
      → box_in rx ry rw rh x y w h && leb (16 * scale) h ≡ true
      → InBox rx ry rw rh (fb_draw_utf8_string_centered (pos x) (pos y) w h str scale fg bg)
  unfolding fb_draw_utf8_string_centered fb_draw_utf8_string utf8_string_len
  utf8_string_centered-InBox x y w h str scale fg bg fit e m i out =
      let cps = (decode str).0 in
      let t : ℕ = length cps * 8 * scale in
      ap₂ (λ a b. draw_points a b cps scale fg bg m i) (centre x w t fit)
        (centre y h (16 * scale) (ground arith))
      ∙ draw_points-Keeps (x + (w - t) / 2) (y + (h - 16 * scale) / 2) scale fg bg cps m
          (ground arith) (ground arith) (ground arith) (ground arith) i out

choice_bound :
    (b : Bool) (p q : List ℕ × Bool) (n : ℕ)
    → length p.0 ≤ n
    → length q.0 ≤ n
    → length (if◌then◌else◌ {A = List ℕ × Bool} b p q).0 ≤ n
choice_bound true p q n h k = h
choice_bound false p q n h k = k

points_bound : (n : ℕ) (str : List ℕ) → length str ≤ n → length (decode str).0 ≤ n
unfolding decode
points_bound n [] h = omega arith
points_bound n (c ∷ []) h = ground arith
points_bound n (c ∷ d ∷ []) h = ground arith
points_bound n (c ∷ d ∷ e ∷ s) h =
    let one = decode (d ∷ e ∷ s) in
    let two = decode (e ∷ s) in
    let three = decode s in
    let one_fits : suc (length one.0) ≤ n =
      omega (arith, points_bound (n - 1) (d ∷ e ∷ s) (omega arith)) in
    let two_fits : suc (length two.0) ≤ n =
      omega (arith, points_bound (n - 1) (e ∷ s) (omega arith)) in
    let three_fits : suc (length three.0) ≤ n =
      omega (arith, points_bound (n - 1) s (omega arith)) in
    choice_bound (ltb c 128) _ _ n one_fits (
      choice_bound (c / 32 == 6) _ _ n two_fits
        (choice_bound (c / 16 == 14) _ _ n three_fits one_fits))

-- A text has at most as many letters as bytes.
pub utf8_string_len-length : (str : List ℕ) → utf8_string_len str ≤ length str
unfolding utf8_string_len
utf8_string_len-length str = points_bound (length str) str (omega arith)
