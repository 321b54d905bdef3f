-- ===== src/Watcher/Canvas/Exact.antt =====
-- What a rectangle of components/system/src/btn-watcher.c paints: every visible pixel of it and
-- nothing else, also where it hangs over an edge of the panel.
use nookobo.Prelude.{
  ℕ, zero, suc, ◌+◌, ◌*◌, ◌<◌, ◌≡◌, refl, ap, ◌∙◌, Bool, true, false, some, none, ◌&&◌, arith, ltb,
  leb, for_to, if◌then◌else◌, Bool-cases, inl, inr, ◌==◌,
}
use nookobo.Prelude.Int.{ℤ, pos, negsuc, ◌+ℤ◌, below?, pos_part, neg_part}
use nookobo.Watcher.Canvas.{Mem, poke, plot, draw_row, draw_rect}

-- Whether the pixel coordinate `p` lies in the `n` pixels from `x` on.
abbrev pub spans : ℤ → ℕ → ℕ → Bool
spans x n p = leb (pos_part x) (p + neg_part x) && ltb (p + neg_part x) (pos_part x + n)

plot_at :
    (x : ℤ) (k y c : ℕ) (m : Mem) (px py : ℕ)
    → px < 1404
    → plot (below? 1404 (x +ℤ pos k)) (some y) c m (py * 1408 + px)
      ≡ (if (py == y) && spans (x +ℤ pos k) 1 px then c else m (py * 1408 + px))
unfolding plot poke ◌+ℤ◌
plot_at x k y c m px py h = ground arith

spans-suc :
    (x : ℤ) (n p : ℕ) → spans x (suc n) p ≡ (if spans (x +ℤ pos n) 1 p then true else spans x n p)
unfolding ◌+ℤ◌
spans-suc x n p = ground arith

draw_row_at :
    (w : ℕ) (x : ℤ) (y c : ℕ) (m : Mem) (px py : ℕ)
    → px < 1404
    → draw_row (some y) x w c m (py * 1408 + px)
      ≡ (if (py == y) && spans x w px then c else m (py * 1408 + px))
unfolding draw_row for_to
draw_row_at zero x y c m px py h = ground arith
draw_row_at (suc w) x y c m px py h =
    plot_at x w y c (draw_row (some y) x w c m) px py h
    ∙ ground (arith, draw_row_at w x y c m px py h, spans-suc x w px)

draw_row-none : (x : ℤ) (w c : ℕ) (m : Mem) → draw_row none x w c m ≡ m
unfolding draw_row
draw_row-none x w c m = refl

pub draw_row_off :
    (b : ℕ) (x : ℤ) (w c : ℕ) (m : Mem)
    → ltb b 1872 ≡ false
    → draw_row (below? 1872 (pos b)) x w c m ≡ m
unfolding draw_row
draw_row_off b x w c m e = rw e

pub draw_row_on :
    (b : ℕ) (x : ℤ) (w c : ℕ) (m : Mem)
    → ltb b 1872 ≡ true
    → draw_row (below? 1872 (pos b)) x w c m ≡ draw_row (some b) x w c m
draw_row_on b x w c m e = rw e

row_at :
    (y : ℤ) (k : ℕ) (x : ℤ) (w c : ℕ) (m : Mem) (px py : ℕ)
    → px < 1404
    → py < 1872
    → draw_row (below? 1872 (y +ℤ pos k)) x w c m (py * 1408 + px)
      ≡ (if spans (y +ℤ pos k) 1 py && spans x w px then c else m (py * 1408 + px))
row_at y k x w c m px py h1 h2 = go (y +ℤ pos k)
  where
    go :
        (z : ℤ)
        → draw_row (below? 1872 z) x w c m (py * 1408 + px)
          ≡ (if spans z 1 py && spans x w px then c else m (py * 1408 + px))
    go (pos b) = elim (Bool-cases (ltb b 1872)) [
      | inl e ↦
          ap (λ (s : Mem). s (py * 1408 + px)) (draw_row_on b x w c m e)
          ∙ draw_row_at w x b c m px py h1
          ∙ ground arith
      | inr e ↦ ap (λ (s : Mem). s (py * 1408 + px)) (draw_row_off b x w c m e) ∙ ground arith
    ]
    go (negsuc b) = ap (λ (s : Mem). s (py * 1408 + px)) (draw_row-none x w c m) ∙ ground arith

-- A rectangle paints every pixel of it that is on the panel, and no other, wherever its corner is.
pub draw_rect_exact :
    (h : ℕ) (x y : ℤ) (w c : ℕ) (m : Mem) (px py : ℕ)
    → px < 1404
    → py < 1872
    → draw_rect x y w h c m (py * 1408 + px)
      ≡ (if spans y h py && spans x w px then c else m (py * 1408 + px))
unfolding draw_rect for_to
draw_rect_exact zero x y w c m px py h1 h2 = ground arith
draw_rect_exact (suc h) x y w c m px py h1 h2 =
    row_at y h x w c (draw_rect x y w h c m) px py h1 h2
    ∙ ground (arith, draw_rect_exact h x y w c m px py h1 h2, spans-suc y h py)
