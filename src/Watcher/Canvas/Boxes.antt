-- ===== src/Watcher/Canvas/Boxes.antt =====
-- Drawing calls that write inside a box only: rectangles, outlines and texts that lie in it.
use nookobo.Prelude.{
  ℕ, ◌+◌, ◌*◌, ◌≤◌, ◌≡◌, refl, ◌∙◌, Bool, true, List, [], ◌∷◌, ◌&&◌, arith, leb, length,
}
use nookobo.Prelude.Int.{pos}
use nookobo.Watcher.Canvas.{
  Mem, draw_rect, draw_rect_outline, draw_string, draw_string_centered, paint_all,
}
use nookobo.Watcher.Canvas.Keeps.{
  Keeps, draw_rect-Keeps, draw_rect_outline-Keeps, draw_string-Keeps, draw_string_centered-Keeps,
}

-- Whether the box at (x, y) lies in the box at (rx, ry).
abbrev pub box_in : ℕ → ℕ → ℕ → ℕ → ℕ → ℕ → ℕ → ℕ → Bool
box_in rx ry rw rh x y w h = leb rx x && leb (x + w) (rx + rw) && leb ry y && leb (y + h) (ry + rh)

-- The operation writes inside the box only.
abbrev pub InBox : ℕ → ℕ → ℕ → ℕ → (Mem → Mem) → Type 0
InBox rx ry rw rh op = (m : Mem) → Keeps rx ry rw rh m (op m)

abbrev pub AllInBox : ℕ → ℕ → ℕ → ℕ → List (Mem → Mem) → Type 0
AllInBox rx ry rw rh [] = Unit
AllInBox rx ry rw rh (op ∷ ops) = InBox rx ry rw rh op × AllInBox rx ry rw rh ops

module _ (rx ry rw rh : ℕ) where
  pub rect_in :
      (x y w h c : ℕ)
      → box_in rx ry rw rh x y w h ≡ true
      → InBox rx ry rw rh (draw_rect (pos x) (pos y) w h c)
  rect_in x y w h c e m =
      draw_rect-Keeps rx ry rw rh x y w h c m (ground arith) (ground arith) (ground arith)
        (ground arith)

  pub outline_in :
      (x y w h t c : ℕ)
      → box_in rx ry rw rh x y w h && leb t w && leb t h ≡ true
      → InBox rx ry rw rh (draw_rect_outline (pos x) (pos y) w h t c)
  outline_in x y w h t c e m =
      draw_rect_outline-Keeps rx ry rw rh x y w h t c m (ground arith) (ground arith) (ground arith)
        (ground arith) (ground arith) (ground arith)

  pub text_in :
      (x y w h : ℕ) (str : List ℕ) (scale fg bg : ℕ)
      → length str * 8 * scale ≤ w
      → box_in rx ry rw rh x y w h && leb (16 * scale) h ≡ true
      → InBox rx ry rw rh (draw_string_centered (pos x) (pos y) w h str scale fg bg)
  text_in x y w h str scale fg bg fit e m =
      draw_string_centered-Keeps rx ry rw rh x y w h scale fg bg str m fit (ground arith)
        (ground arith) (ground arith) (ground arith) (ground arith)

  -- A text that is not centred.
  pub string_in :
      (x y : ℕ) (str : List ℕ) (scale fg bg : ℕ)
      → box_in rx ry rw rh x y (length str * 8 * scale) (16 * scale) ≡ true
      → InBox rx ry rw rh (draw_string (pos x) (pos y) str scale fg bg)
  string_in x y str scale fg bg e m =
      draw_string-Keeps rx ry rw rh x y scale fg bg str m (ground arith) (ground arith)
        (ground arith) (ground arith)

  pub paint_all_in :
      (ops : List (Mem → Mem)) → AllInBox rx ry rw rh ops → InBox rx ry rw rh (paint_all ops)
  unfolding paint_all
  paint_all_in [] h m i out = refl
  paint_all_in (op ∷ ops) h m i out = paint_all_in ops h.1 (op m) i out ∙ h.0 m i out
