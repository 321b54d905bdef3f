-- ===== src/Watcher/Drawn.antt =====
-- The toast and the media card of components/system/src/btn-watcher.c draw inside their boxes.
use nookobo.Prelude.{ℕ, ◌+◌, ◌≤◌, ◌≡◌, refl, ◌∙◌, true, List, [], ◌∷◌, arith, length}
use nookobo.Prelude.Text.{codes}
use nookobo.Watcher.Canvas.Boxes.{
  box_in, InBox, AllInBox, rect_in, outline_in, text_in, paint_all_in,
}
use nookobo.Watcher.Screen.{toast_ops, draw_toast}
use nookobo.Watcher.Card.{card_header, card_quadrant, card_footer, draw_card}

toast_ops-InBox :
    (title subtitle : List ℕ)
    → length title ≤ 50
    → length subtitle ≤ 75
    → AllInBox 102 60 1200 160 (toast_ops title subtitle)
unfolding toast_ops
toast_ops-InBox title [] h1 h2 = (
  rect_in 102 60 1200 160 102 60 1200 160 0 refl,
  (
    outline_in 102 60 1200 160 102 60 1200 160 4 0xFFFF refl,
    (text_in 102 60 1200 160 102 60 1200 160 title 3 0xFFFF 0 (omega arith) refl, tt),
  ),
)
toast_ops-InBox title (c ∷ subtitle) h1 h2 = (
  rect_in 102 60 1200 160 102 60 1200 160 0 refl,
  (
    outline_in 102 60 1200 160 102 60 1200 160 4 0xFFFF refl,
    (
      text_in 102 60 1200 160 102 85 1200 55 title 3 0xFFFF 0 (omega arith) refl,
      (text_in 102 60 1200 160 102 155 1200 40 (c ∷ subtitle) 2 0xDEFB 0 (omega arith) refl, tt),
    ),
  ),
)

-- A title of at most 50 characters and a subtitle of at most 75 stay inside the toast.
pub draw_toast-InBox :
    (title subtitle : List ℕ)
    → length title ≤ 50
    → length subtitle ≤ 75
    → InBox 102 60 1200 160 (draw_toast title subtitle)
unfolding draw_toast
draw_toast-InBox title subtitle h1 h2 =
    paint_all_in 102 60 1200 160 (toast_ops title subtitle) (toast_ops-InBox title subtitle h1 h2)

card_header-InBox :
    (status : List ℕ) → length status ≤ 73 → AllInBox 102 536 1200 800 (card_header status)
unfolding card_header
card_header-InBox status h = (
  rect_in 102 536 1200 800 102 536 1200 800 0xFFFF refl,
  (
    outline_in 102 536 1200 800 102 536 1200 800 6 0 refl,
    (
      outline_in 102 536 1200 800 112 546 1180 780 2 0 refl,
      (
        rect_in 102 536 1200 800 116 550 1172 125 0 refl,
        (
          text_in 102 536 1200 800 116 562 1172 50 (codes "MEDIA PLAYER CONTROLS") 3 0xFFFF 0
              (omega arith) refl,
          (text_in 102 536 1200 800 116 620 1172 36 status 2 0xFFFF 0 (omega arith) refl, tt),
        ),
      ),
    ),
  ),
)

card_quadrant-InBox :
    (x y : ℕ) (button action : List ℕ)
    → box_in 102 536 1200 800 x y 560 195 ≡ true
    → length button ≤ 35
    → length action ≤ 23
    → AllInBox 102 536 1200 800 (card_quadrant x y button action)
unfolding card_quadrant
card_quadrant-InBox x y button action e h1 h2 = (
  rect_in 102 536 1200 800 x y 560 195 0xFFFF e,
  (
    outline_in 102 536 1200 800 x y 560 195 3 0 (rw e),
    (
      text_in 102 536 1200 800 x (y + 35) 560 35 button 2 0 0xFFFF (omega arith) (ground arith),
      (
        text_in 102 536 1200 800 x (y + 95) 560 55 action 3 0 0xFFFF (omega arith) (ground arith),
        tt,
      ),
    ),
  ),
)

card_footer-InBox : AllInBox 102 536 1200 800 card_footer
unfolding card_footer
card_footer-InBox = (
  rect_in 102 536 1200 800 127 1121 1150 3 0 refl,
  (
    text_in 102 536 1200 800 102 1141 1200 35 _ 2 0 0xFFFF (omega arith) refl,
    (
      text_in 102 536 1200 800 102 1191 1200 35 _ 2 0 0xFFFF (omega arith) refl,
      (text_in 102 536 1200 800 102 1241 1200 35 _ 2 0 0xFFFF (omega arith) refl, tt),
    ),
  ),
)

-- A status of at most 73 characters stays inside the media card.
pub draw_card-InBox :
    (status : List ℕ) → length status ≤ 73 → InBox 102 536 1200 800 (draw_card status)
unfolding draw_card
draw_card-InBox status h m i out =
    paint_all_in 102 536 1200 800 _ card_footer-InBox _ i out
    ∙ paint_all_in 102 536 1200 800 _
        (card_quadrant-InBox 717 911 _ _ refl (omega arith) (omega arith)) _ i out
    ∙ paint_all_in 102 536 1200 800 _
        (card_quadrant-InBox 127 911 _ _ refl (omega arith) (omega arith)) _ i out
    ∙ paint_all_in 102 536 1200 800 _
        (card_quadrant-InBox 717 696 _ _ refl (omega arith) (omega arith)) _ i out
    ∙ paint_all_in 102 536 1200 800 _
        (card_quadrant-InBox 127 696 _ _ refl (omega arith) (omega arith)) _ i out
    ∙ paint_all_in 102 536 1200 800 _ (card_header-InBox status h) _ i out
