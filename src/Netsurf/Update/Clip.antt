-- ===== src/Netsurf/Update/Clip.antt =====
-- `SDL_UpdateRect` of components/netsurf/src/sdl_fb0_shim.c as a whole: it shows what NetSurf drew
-- and nothing under the keyboard.
use nookobo.Prelude.{
  ℕ, ◌+◌, ◌^◌, ◌≤◌, ◌<◌, ◌≡◌, refl, ap, ◌∙◌, Bool, true, false, List, [], ◌&&◌, ◌||◌, ◌==◌, leb,
  if◌then◌else◌, arith, Bool-cases, ◌⊎◌, inl, inr,
}
use nookobo.Prelude.Int.{ℤ, pos, negsuc, pos_part, neg_part}
use nookobo.Netsurf.Update.{
  UpdateEffect, clip_low, clip_high, Display, update_clipped, update_part, update_rect,
}
use nookobo.Netsurf.Update.Area.{refreshed}
use nookobo.Netsurf.Update.Covers.{
  update_shown_covers, update_shown_keyboard, refreshed-update_clipped,
}

-- The coordinate lies in the part of that start and size.
abbrev pub Within : ℤ → ℕ → ℕ → Type 0
Within start size p =
    (pos_part start ≤ p + neg_part start) × (p + neg_part start < pos_part start + size)

-- A part with a point on the panel is clipped to what of it is on the panel.
clip_covers :
    (most : ℕ) (start : ℤ) (size p : ℕ)
    → most ≤ 1872
    → size < 2 ^ 31
    → neg_part start ≤ 2 ^ 31
    → p < most
    → Within start size p
    → let from = (clip_low start size).0 in
      let rest = (clip_low start size).1 in
      (from < most)
      × (0 < rest)
      × (from ≤ p)
      × (p < from + clip_high most from rest)
      × (from + clip_high most from rest ≤ most)
unfolding clip_low clip_high
clip_covers most (pos n) size p h1 h2 h3 h4 h5 = ground arith
clip_covers most (negsuc n) size p h1 h2 h3 h4 h5 = ground arith

-- Any part whose size is an `int` is clipped to the panel.
clip_inside :
    (most : ℕ) (start : ℤ) (size : ℕ)
    → most ≤ 1872
    → size < 2 ^ 31
    → neg_part start ≤ 2 ^ 31
    → let from = (clip_low start size).0 in
      let rest = (clip_low start size).1 in from < most → from + clip_high most from rest ≤ most
unfolding clip_low clip_high
clip_inside most (pos n) size h1 h2 h3 h4 = ground arith
clip_inside most (negsuc n) size h1 h2 h3 h4 = ground arith

-- The choice of `update_part`, where there is an area.
part_refreshed :
    (px py : ℕ) (c : Bool) (d : Display) (u : List UpdateEffect × Display)
    → c ≡ false
    → refreshed px py (if◌then◌else◌ {A = List UpdateEffect × Display} c ([], d) u).0
      ≡ refreshed px py u.0
part_refreshed px py true d u h = cc
part_refreshed px py false d u h = refl

update_part_covers :
    (x y : ℤ) (w h px py : ℕ) (d : Display)
    → w < 2 ^ 31
    → h < 2 ^ 31
    → neg_part x ≤ 2 ^ 31
    → neg_part y ≤ 2 ^ 31
    → px < 1404
    → py < 1872
    → Within x w px
    → Within y h py
    → d.osk_active && leb 1272 py ≡ false
    → refreshed px py (update_part x y w h d).0 ≡ true
unfolding update_part
update_part_covers x y w h px py d h1 h2 h3 h4 h5 h6 in_x in_y free =
    let across = clip_covers 1404 x w px (omega arith) h1 h3 h5 in_x in
    let down = clip_covers 1872 y h py (omega arith) h2 h4 h6 in_y in
    part_refreshed px py
      (leb 1404 (clip_low x w).0
        || leb 1872 (clip_low y h).0
        || (clip_low x w).1 == 0
        || (clip_low y h).1 == 0)
      d _ (ground arith)
    ∙ refreshed-update_clipped _ _ _ _ px py d
    ∙ update_shown_covers _ _ _ _ px py d across.4 down.4 across.2 across.3 down.2 down.3 free

update_part_keyboard :
    (x y : ℤ) (w h px py : ℕ) (d : Display)
    → w < 2 ^ 31
    → h < 2 ^ 31
    → neg_part x ≤ 2 ^ 31
    → neg_part y ≤ 2 ^ 31
    → d.osk_active ≡ true
    → 1272 ≤ py
    → refreshed px py (update_part x y w h d).0 ≡ false
unfolding update_part
update_part_keyboard x y w h px py d h1 h2 h3 h4 up low =
    let left = (clip_low x w).0 in
    let top = (clip_low y h).0 in
    elim (Bool-cases
      (leb 1404 left || leb 1872 top || (clip_low x w).1 == 0 || (clip_low y h).1 == 0)) [
        | inl nothing ↦
            ap
              (λ c.
                refreshed px py
                  (if◌then◌else◌ {A = List UpdateEffect × Display} c ([], d)
                    (update_clipped left top (clip_high 1404 left (clip_low x w).1)
                      (clip_high 1872 top (clip_low y h).1) d)).0)
              nothing
        | inr something ↦
            part_refreshed px py _ d _ something
            ∙ refreshed-update_clipped _ _ _ _ px py d
            ∙ update_shown_keyboard _ _ _ _ px py d
                (clip_inside 1404 x w (omega arith) h1 h3 (ground arith))
                (clip_inside 1872 y h (omega arith) h2 h4 (ground arith)) up low
      ]

update_choice :
    (px py : ℕ) (r c : Bool) (u v : List UpdateEffect × Display)
    → (c ≡ true → refreshed px py u.0 ≡ r)
    → (c ≡ false → refreshed px py v.0 ≡ r)
    → refreshed px py (if c then u else v).0 ≡ r
update_choice px py r true u v h k = h refl
update_choice px py r false u v h k = k refl

-- Every pixel of the panel that NetSurf says it drew is shown, wherever the rectangle is, unless it
-- is under the on-screen keyboard: no width or no height stands for the whole panel. The rectangle's
-- numbers are those of C's `int`.
pub update_rect_covers :
    (x y : ℤ) (w h px py : ℕ) (d : Display)
    → w < 2 ^ 31
    → h < 2 ^ 31
    → neg_part x ≤ 2 ^ 31
    → neg_part y ≤ 2 ^ 31
    → px < 1404
    → py < 1872
    → ((w ≡ 0) ⊎ (h ≡ 0)) ⊎ (Within x w px × Within y h py)
    → d.osk_active && leb 1272 py ≡ false
    → refreshed px py (update_rect x y w h d).0 ≡ true
unfolding update_rect
update_rect_covers x y w h px py d h1 h2 h3 h4 h5 h6 drawn free =
    update_choice px py true (w == 0 || h == 0) _ _
      (λ whole.
        update_part_covers (pos 0) (pos 0) 1404 1872 px py d (omega arith) (omega arith)
          (omega arith) (omega arith) h5 h6 (omega arith, omega arith) (omega arith, omega arith)
          free)
      (λ part. elim drawn [
        | inl (inl e) ↦ absurd (ground arith)
        | inl (inr e) ↦ absurd (ground arith)
        | inr within ↦ update_part_covers x y w h px py d h1 h2 h3 h4 h5 h6 within.0 within.1 free
      ])

-- While the keyboard is up no pixel from its first row on is shown by an update of the page.
pub update_rect_keyboard :
    (x y : ℤ) (w h px py : ℕ) (d : Display)
    → w < 2 ^ 31
    → h < 2 ^ 31
    → neg_part x ≤ 2 ^ 31
    → neg_part y ≤ 2 ^ 31
    → d.osk_active ≡ true
    → 1272 ≤ py
    → refreshed px py (update_rect x y w h d).0 ≡ false
unfolding update_rect
update_rect_keyboard x y w h px py d h1 h2 h3 h4 up low =
    update_choice px py false (w == 0 || h == 0) _ _
      (λ whole.
        update_part_keyboard (pos 0) (pos 0) 1404 1872 px py d (omega arith) (omega arith)
          (omega arith) (omega arith) up low)
      (λ part. update_part_keyboard x y w h px py d h1 h2 h3 h4 up low)
