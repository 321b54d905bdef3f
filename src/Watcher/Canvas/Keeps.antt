-- ===== src/Watcher/Canvas/Keeps.antt =====
-- Which pixels the drawing routines of components/system/src/btn-watcher.c leave alone.
use nookobo.Prelude.{
  ℕ, ◌+◌, ◌-◌, ◌*◌, ◌/◌, ◌%◌, ◌≤◌, ◌<◌, ◌≡◌, refl, ap, ap₂, ◌∙◌, Bool, true, false, ==_iff, some,
  List, [], ◌∷◌, ◌&&◌, arith, ltb, leb, length, for_to, for_to_inv, if◌then◌else◌, Bool-cases, ◌==◌,
  not, ◌||◌, inl, inr,
}
use nookobo.Prelude.Int.{pos, ◌+ℤ◌, ◌-ℤ◌, half_ℤ, below?, pos-+ℤ-pos, pos--ℤ-pos}
use nookobo.Watcher.Canvas.Exact.{draw_row_off, draw_row_on}
use nookobo.Watcher.Canvas.{
  Mem, poke, plot, set_pixel, draw_row, draw_rect, draw_rect_outline, draw_block, draw_dot,
  draw_char, draw_string, draw_string_centered, glyph_color,
}

-- Whether an index of the panel memory is a pixel of the box at (rx, ry).
abbrev pub inside : ℕ → ℕ → ℕ → ℕ → ℕ → Bool
inside rx ry rw rh i =
    leb rx (i % 1408) && ltb (i % 1408) (rx + rw) && leb ry (i / 1408) && ltb (i / 1408) (ry + rh)

-- The second memory differs from the first only inside the box.
abbrev pub Keeps : ℕ → ℕ → ℕ → ℕ → Mem → Mem → Type 0
Keeps rx ry rw rh m m' = (i : ℕ) → inside rx ry rw rh i ≡ false → m' i ≡ m i

-- A loop whose rounds leave an index alone leaves it alone.
pub for_to_at :
    (n : ℕ) (body : ℕ → Mem → Mem) (m : Mem) (i : ℕ)
    → ((k : ℕ) (s : Mem) → k < n → body k s i ≡ s i)
    → for_to n body m i ≡ m i
for_to_at n body m i keep =
    for_to_inv (λ (s : Mem). s i ≡ m i) n body (λ k s lt e. keep k s lt ∙ e) m refl

-- Both branches of a test agree at an index.
if_at :
    (b : Bool) (f g : Mem) (i v : ℕ) → (b ≡ true → f i ≡ v) → g i ≡ v → (if b then f else g) i ≡ v
if_at true f g i v h k = h refl
if_at false f g i v h k = k

fits_mul : (x bound k n scale : ℕ) → k < n → x + n * scale ≤ bound → x + k * scale + scale ≤ bound
fits_mul x bound k n scale lt h = grind arith

-- The offset that centres a text no wider than its box.
pub centre : (x w t : ℕ) → t ≤ w → pos x +ℤ half_ℤ (pos w -ℤ pos t) ≡ pos (x + (w - t) / 2)
unfolding half_ℤ
centre x w t h = ap (λ z. pos x +ℤ half_ℤ z) (pos--ℤ-pos w t h) ∙ pos-+ℤ-pos x ((w - t) / 2)

-- Where the far border of an outline starts.
far_edge : (x w t : ℕ) → t ≤ w → pos x +ℤ pos w -ℤ pos t ≡ pos (x + w - t)
far_edge x w t h = ap (λ z. z -ℤ pos t) (pos-+ℤ-pos x w) ∙ pos--ℤ-pos (x + w) t (omega arith)

module _ (rx ry rw rh : ℕ) where
  set_pixel_keeps_at :
      (x y c : ℕ) (m : Mem) (i : ℕ)
      → rx ≤ x
      → x < rx + rw
      → ry ≤ y
      → y < ry + rh
      → inside rx ry rw rh i ≡ false
      → set_pixel (pos x) (pos y) c m i ≡ m i
  unfolding set_pixel poke
  set_pixel_keeps_at x y c m i h1 h2 h3 h4 out = ground arith

  plot_keeps :
      (x y c : ℕ) (m : Mem) (i : ℕ)
      → rx ≤ x
      → x < rx + rw
      → ry ≤ y
      → y < ry + rh
      → inside rx ry rw rh i ≡ false
      → plot (below? 1404 (pos x)) (some y) c m i ≡ m i
  unfolding plot poke
  plot_keeps x y c m i h1 h2 h3 h4 out = ground arith

  draw_row_keeps :
      (x y w c : ℕ) (m : Mem) (i : ℕ)
      → rx ≤ x
      → x + w ≤ rx + rw
      → ry ≤ y
      → y < ry + rh
      → inside rx ry rw rh i ≡ false
      → draw_row (some y) (pos x) w c m i ≡ m i
  unfolding draw_row
  draw_row_keeps x y w c m i h1 h2 h3 h4 out =
      for_to_at w (λ k s. plot (below? 1404 (pos x +ℤ pos k)) (some y) c s) m i
        (λ k s lt.
          ap (λ z. plot (below? 1404 z) (some y) c s i) (pos-+ℤ-pos x k)
          ∙ plot_keeps (x + k) y c s i (omega arith) (omega arith) h3 h4 out)

  pub draw_rect-Keeps :
      (x y w h c : ℕ) (m : Mem)
      → rx ≤ x
      → x + w ≤ rx + rw
      → ry ≤ y
      → y + h ≤ ry + rh
      → Keeps rx ry rw rh m (draw_rect (pos x) (pos y) w h c m)
  unfolding draw_rect
  draw_rect-Keeps x y w h c m h1 h2 h3 h4 i out =
      for_to_at h (λ k s. draw_row (below? 1872 (pos y +ℤ pos k)) (pos x) w c s) m i
        (λ k s lt.
          ap (λ z. draw_row (below? 1872 z) (pos x) w c s i) (pos-+ℤ-pos y k)
          ∙ row_at (y + k) s (omega arith) (omega arith))
    where
      row_at :
          (b : ℕ) (s : Mem)
          → ry ≤ b
          → b < ry + rh
          → draw_row (below? 1872 (pos b)) (pos x) w c s i ≡ s i
      row_at b s k1 k2 = elim (Bool-cases (ltb b 1872)) [
        | inl e ↦
            ap (λ (t : Mem). t i) (draw_row_on b (pos x) w c s e)
            ∙ draw_row_keeps x b w c s i h1 h2 k1 k2 out
        | inr e ↦ ap (λ (t : Mem). t i) (draw_row_off b (pos x) w c s e)
      ]

  set_pixel-Keeps :
      (x y c : ℕ) (m : Mem)
      → rx ≤ x
      → x < rx + rw
      → ry ≤ y
      → y < ry + rh
      → Keeps rx ry rw rh m (set_pixel (pos x) (pos y) c m)
  set_pixel-Keeps x y c m h1 h2 h3 h4 i out = set_pixel_keeps_at x y c m i h1 h2 h3 h4 out

  draw_block-Keeps :
      (x y scale c : ℕ) (m : Mem)
      → rx ≤ x
      → x + scale ≤ rx + rw
      → ry ≤ y
      → y + scale ≤ ry + rh
      → Keeps rx ry rw rh m (draw_block (pos x) (pos y) scale c m)
  unfolding draw_block
  draw_block-Keeps x y scale c m h1 h2 h3 h4 i out =
      for_to_at scale
        (λ sy s. for_to scale (λ sx t. set_pixel (pos x +ℤ pos sx) (pos y +ℤ pos sy) c t) s) m i
        (λ sy s lt.
          for_to_at scale (λ sx t. set_pixel (pos x +ℤ pos sx) (pos y +ℤ pos sy) c t) s i
            (λ sx t lt'.
              ap₂ (λ a b. set_pixel a b c t i) (pos-+ℤ-pos x sx) (pos-+ℤ-pos y sy)
              ∙ set_pixel-Keeps (x + sx) (y + sy) c t (omega arith) (omega arith) (omega arith)
                  (omega arith) i out))

  draw_dot-Keeps :
      (x y scale c bg : ℕ) (m : Mem)
      → rx ≤ x
      → x + scale ≤ rx + rw
      → ry ≤ y
      → y + scale ≤ ry + rh
      → Keeps rx ry rw rh m (draw_dot (pos x) (pos y) scale c bg m)
  unfolding draw_dot
  draw_dot-Keeps x y scale c bg m h1 h2 h3 h4 i out =
      if_at (scale == 1)
        (if not (c == bg) || not (bg == 0) then set_pixel (pos x) (pos y) c m else m)
        (draw_block (pos x) (pos y) scale c m) i (m i)
        (λ one.
          let e : scale ≡ 1 = (==_iff scale 1).0 one in
          if_at (not (c == bg) || not (bg == 0)) (set_pixel (pos x) (pos y) c m) m i (m i)
            (λ _. set_pixel-Keeps x y c m h1 (omega arith) h3 (omega arith) i out) refl)
        (draw_block-Keeps x y scale c m h1 h2 h3 h4 i out)

  -- A glyph whose dots have any colours.
  pub glyph-Keeps :
      (color : ℕ → ℕ → ℕ) (x y scale bg : ℕ) (m : Mem)
      → rx ≤ x
      → x + 8 * scale ≤ rx + rw
      → ry ≤ y
      → y + 16 * scale ≤ ry + rh
      → Keeps rx ry rw rh m (
          for_to 16
            (λ row s.
              for_to 8
                (λ col t.
                  draw_dot
                    (pos x +ℤ pos (col * scale))
                    (pos y +ℤ pos (row * scale))
                    scale
                    (color row col)
                    bg
                    t)
                s)
            m)
  glyph-Keeps color x y scale bg m h1 h2 h3 h4 i out =
      for_to_at 16 (λ row s. for_to 8 (dot row) s) m i
        (λ row s lt. for_to_at 8 (dot row) s i (λ col t lt'. dot_keeps row col t lt lt'))
    where
      dot : ℕ → ℕ → Mem → Mem
      dot row col t =
          draw_dot (pos x +ℤ pos (col * scale)) (pos y +ℤ pos (row * scale)) scale (color row col)
            bg t

      dot_keeps : (row col : ℕ) (t : Mem) → row < 16 → col < 8 → dot row col t i ≡ t i
      dot_keeps row col t lt lt' =
          ap₂ (λ a b. draw_dot a b scale (color row col) bg t i) (pos-+ℤ-pos x (col * scale))
            (pos-+ℤ-pos y (row * scale))
          ∙ draw_dot-Keeps (x + col * scale) (y + row * scale) scale (color row col) bg t
              (omega arith) (fits_mul x (rx + rw) col 8 scale lt' h2) (omega arith)
              (fits_mul y (ry + rh) row 16 scale lt h4) i out

  draw_char-Keeps :
      (x y ch scale fg bg : ℕ) (m : Mem)
      → rx ≤ x
      → x + 8 * scale ≤ rx + rw
      → ry ≤ y
      → y + 16 * scale ≤ ry + rh
      → Keeps rx ry rw rh m (draw_char (pos x) (pos y) ch scale fg bg m)
  unfolding draw_char
  draw_char-Keeps x y byte scale fg bg m h1 h2 h3 h4 =
      let ch : ℕ = if ltb byte 32 || ltb 126 byte then 32 else byte in
      glyph-Keeps (λ row col. glyph_color ch row col fg bg) x y scale bg m h1 h2 h3 h4

  pub draw_string-Keeps :
      (x y scale fg bg : ℕ) (str : List ℕ) (m : Mem)
      → rx ≤ x
      → x + length str * 8 * scale ≤ rx + rw
      → ry ≤ y
      → y + 16 * scale ≤ ry + rh
      → Keeps rx ry rw rh m (draw_string (pos x) (pos y) str scale fg bg m)
  unfolding draw_string
  draw_string-Keeps x y scale fg bg [] m h1 h2 h3 h4 i out = refl
  draw_string-Keeps x y scale fg bg (ch ∷ str) m h1 h2 h3 h4 i out =
      ap (λ a. draw_string a (pos y) str scale fg bg (draw_char (pos x) (pos y) ch scale fg bg m) i)
        (pos-+ℤ-pos x (8 * scale))
      ∙ draw_string-Keeps (x + 8 * scale) y scale fg bg str
          (draw_char (pos x) (pos y) ch scale fg bg m) (omega arith) (grind arith) h3 h4 i out
      ∙ draw_char-Keeps x y ch scale fg bg m h1 (grind arith) h3 h4 i out

  pub draw_string_centered-Keeps :
      (x y w h scale fg bg : ℕ) (str : List ℕ) (m : Mem)
      → length str * 8 * scale ≤ w
      → 16 * scale ≤ h
      → rx ≤ x
      → x + w ≤ rx + rw
      → ry ≤ y
      → y + h ≤ ry + rh
      → Keeps rx ry rw rh m (draw_string_centered (pos x) (pos y) w h str scale fg bg m)
  unfolding draw_string_centered half_ℤ
  draw_string_centered-Keeps x y w h scale fg bg str m f1 f2 h1 h2 h3 h4 i out =
      ap₂ (λ a b. draw_string a b str scale fg bg m i) (centre x w (length str * 8 * scale) f1)
        (centre y h (16 * scale) f2)
      ∙ draw_string-Keeps (x + (w - length str * 8 * scale) / 2) (y + (h - 16 * scale) / 2) scale fg
          bg str m (omega arith) (omega arith) (omega arith) (omega arith) i out

  pub draw_rect_outline-Keeps :
      (x y w h thickness c : ℕ) (m : Mem)
      → thickness ≤ w
      → thickness ≤ h
      → rx ≤ x
      → x + w ≤ rx + rw
      → ry ≤ y
      → y + h ≤ ry + rh
      → Keeps rx ry rw rh m (draw_rect_outline (pos x) (pos y) w h thickness c m)
  unfolding draw_rect_outline
  draw_rect_outline-Keeps x y w h t c m f1 f2 h1 h2 h3 h4 i out =
      ap₂
        (λ a b.
          draw_rect a (pos y) t h c
            (draw_rect (pos x) (pos y) t h c
              (draw_rect (pos x) b w t c (draw_rect (pos x) (pos y) w t c m)))
            i)
        (far_edge x w t f1) (far_edge y h t f2)
      ∙ draw_rect-Keeps (x + w - t) y t h c _ (omega arith) (omega arith) h3 h4 i out
      ∙ draw_rect-Keeps x y t h c _ h1 (omega arith) h3 h4 i out
      ∙ draw_rect-Keeps x (y + h - t) w t c _ h1 h2 (omega arith) (omega arith) i out
      ∙ draw_rect-Keeps x y w t c m h1 h2 h3 (omega arith) i out
