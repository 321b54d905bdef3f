-- ===== src/Webkey/Delivery.antt =====
-- From a request to components/netsurf/src/nook-webkey.c to the command that
-- components/netsurf/src/sdl_fb0_shim.c carries out.
use nookobo.Prelude.{
  ℕ, zero, suc, ◌≤◌, ◌<◌, ◌≡◌, ◌≢◌, refl, ap, ◌∙◌, Option, List, [], ◌∷◌, ◌++◌, take, length,
  length-append, arith,
}
use nookobo.Prelude.Text.{c_string}
use nookobo.Netsurf.Keyboard.Commands.{handle_fifo_command}
use nookobo.Netsurf.Worker.{Worker, fifo, split_lines, add_piece, strtok, commands, step}

-- A text of bytes without NUL and line breaks.
abbrev pub IsClean : List ℕ → Type 0
IsClean [] = Unit
IsClean (c ∷ s) = (c < 256) × (0 < c) × (c ≢ 10) × (c ≢ 13) × IsClean s

pub take_all : (n : ℕ) (xs : List ℕ) → length xs ≤ n → take n xs ≡ xs
take_all zero [] h = refl
take_all zero (x ∷ xs) h = absurd (omega arith)
take_all (suc n) [] h = refl
take_all (suc n) (x ∷ xs) h = ap (λ ys. x ∷ ys) (take_all n xs (omega arith))

c_string_clean : (s rest : List ℕ) → IsClean s → c_string (s ++ rest) ≡ s ++ c_string rest
unfolding c_string
c_string_clean [] rest h = refl
c_string_clean (c ∷ s) rest (a, b, d, e, h) = ground (arith, c_string_clean s rest h)

split_lines_clean : (s : List ℕ) → IsClean s → split_lines (s ++ 10 ∷ []) ≡ (s, [])
unfolding split_lines
split_lines_clean [] h = refl
split_lines_clean (c ∷ s) (a, b, d, e, h) = ground (arith, split_lines_clean s h)

strtok_line : (c : ℕ) (s : List ℕ) → IsClean (c ∷ s) → strtok ((c ∷ s) ++ 10 ∷ []) ≡ (c ∷ s) ∷ []
unfolding strtok
strtok_line c s h = ap (λ r. add_piece r.0 r.1) (split_lines_clean (c ∷ s) h)

-- One clean line through the FIFO is one command.
pub fifo_line :
    (sscanf : List ℕ → Option (ℕ × ℕ)) (c : ℕ) (s : List ℕ) (w : Worker)
    → IsClean (c ∷ s)
    → length s ≤ 253
    → step sscanf (fifo ((c ∷ s) ++ 10 ∷ [])) w
      ≡ record w { osk = handle_fifo_command sscanf (c ∷ s) w.osk }
unfolding step commands c_string
fifo_line sscanf c s w h short =
    let line = (c ∷ s) ++ 10 ∷ [] in
    let whole : strtok (c_string (take 255 line)) ≡ (c ∷ s) ∷ [] =
      ap (λ l. strtok (c_string l)) (take_all 255 line (omega (arith, length-append s (10 ∷ []))))
      ∙ ap strtok (c_string_clean (c ∷ s) (10 ∷ []) h)
      ∙ strtok_line c s h in
    ap (λ ls. record w { osk = commands sscanf ls w.osk }) whole
