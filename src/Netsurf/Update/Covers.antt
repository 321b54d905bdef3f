-- ===== src/Netsurf/Update/Covers.antt =====
-- One update of the page in components/netsurf/src/sdl_fb0_shim.c, on the panel and above the
-- keyboard.
use nookobo.Prelude.{
  ℕ, ◌+◌, ◌-◌, ◌≤◌, ◌<◌, ◌≡◌, refl, ap, ap₂, ◌∙◌, Bool, true, false, List, [], ◌∷◌, ◌++◌, ◌&&◌, ltb,
  leb, if◌then◌else◌, arith, Bool-cases, dec_lt, inl, inr,
}
use nookobo.Prelude.Int.{pos, ◌+ℤ◌, pos-+ℤ-pos, ltb_ℤ}
use nookobo.Netsurf.Update.{
  UpdateEffect, url_bar, keyboard, epdc_refresh_area, as_int, Display, refresh_page, save_rows,
  update_shown, update_clipped,
}
use nookobo.Netsurf.Update.Area.{
  refreshed, as_int_small, epdc_refresh_area_covers, epdc_refresh_area_above,
}

refresh_page_area :
    (x y w h : ℕ) (d : Display)
    → w ≤ 2000
    → h ≤ 2000
    → (refresh_page x y w h d).0
      ≡ epdc_refresh_area x y
          (pos w)
          (pos h)
          2
          (if d.first_full_frame && (leb 1000 w && leb 1000 h) then 1 else 0)
          0
unfolding refresh_page
refresh_page_area x y w h d h1 h2 =
    either (d.first_full_frame && (leb 1000 w && leb 1000 h)) d
      (record d { first_full_frame = false })
    ∙ ap₂
        (λ a b.
          epdc_refresh_area x y a b 2
            (if d.first_full_frame && (leb 1000 w && leb 1000 h) then 1 else 0) 0)
        (as_int_small w h1) (as_int_small h h2)
  where
    either :
        (c : Bool) (d e : Display)
        → (if◌then◌else◌ {A = List UpdateEffect × Display} c
            (epdc_refresh_area x y (as_int w) (as_int h) 2 1 0, e)
            (epdc_refresh_area x y (as_int w) (as_int h) 2 0 0, d)).0
          ≡ epdc_refresh_area x y (as_int w) (as_int h) 2 (if c then 1 else 0) 0
    either true d e = refl
    either false d e = refl

refresh_page_covers :
    (x y w h px py : ℕ) (d : Display)
    → x + w ≤ 1404
    → y + h ≤ 1872
    → x ≤ px
    → px < x + w
    → y ≤ py
    → py < y + h
    → refreshed px py (refresh_page x y w h d).0 ≡ true
refresh_page_covers x y w h px py d h1 h2 h3 h4 h5 h6 =
    ap (refreshed px py) (refresh_page_area x y w h d (omega arith) (omega arith))
    ∙ epdc_refresh_area_covers x y w h 2 _ 0 px py h1 h2 h3 h4 h5 h6

refresh_page_above :
    (x y w h px py : ℕ) (d : Display)
    → x + w ≤ 1404
    → y + h ≤ 1272
    → 1272 ≤ py
    → refreshed px py (refresh_page x y w h d).0 ≡ false
refresh_page_above x y w h px py d h1 h2 h3 =
    ap (refreshed px py) (refresh_page_area x y w h d (omega arith) (omega arith))
    ∙ epdc_refresh_area_above x y w h 2 _ 0 px py h2 h3

refreshed-save_rows :
    (px py y h : ℕ) (d : Display) (es : List UpdateEffect)
    → refreshed px py (save_rows y h d ++ es) ≡ refreshed px py es
unfolding save_rows
refreshed-save_rows px py y h d es = elim (Bool-cases d.has_backup) [
  | inl yes_ ↦ rw yes_
  | inr no_ ↦ rw no_
]

-- Whether the update reaches the keyboard, for a size on the panel.
reaches : (y h : ℕ) → h ≤ 1872 → ltb_ℤ (pos 1272) (pos y +ℤ as_int h) ≡ ltb 1272 (y + h)
reaches y h le =
    ap (λ z. ltb_ℤ (pos 1272) z)
      (ap (λ z. pos y +ℤ z) (as_int_small h (omega arith)) ∙ pos-+ℤ-pos y h)
    ∙ ground arith

-- What a choice of updates refreshes.
chosen_refreshed :
    (px py y h : ℕ) (c low : Bool) (d e : Display) (above page : List UpdateEffect × Display)
    → refreshed px py
        (if◌then◌else◌ {A = List UpdateEffect × Display} c
          (if◌then◌else◌ {A = List UpdateEffect × Display} low
            (save_rows y h d ++ keyboard ∷ [], d)
            (save_rows y h d ++ keyboard ∷ above.0, above.1))
          page).0
      ≡ (if c then (if low then false else refreshed px py above.0) else refreshed px py page.0)
chosen_refreshed px py y h true true d e above page =
    refreshed-save_rows px py y h d (keyboard ∷ [])
chosen_refreshed px py y h true false d e above page =
    refreshed-save_rows px py y h d (keyboard ∷ above.0)
chosen_refreshed px py y h false low d e above page = refl

refreshed-update_shown :
    (x y w h px py : ℕ) (d : Display)
    → h ≤ 1872
    → refreshed px py (update_shown x y w h d).0 ≡ (
        if d.osk_active && ltb 1272 (y + h)
        then (if leb 1272 y then false else refreshed px py (refresh_page x y w (1272 - y) d).0)
        else refreshed px py (refresh_page x y w h d).0)
unfolding update_shown
refreshed-update_shown x y w h px py d le =
    chosen_refreshed px py y h (d.osk_active && ltb_ℤ (pos 1272) (pos y +ℤ as_int h)) (leb 1272 y) d
      d (refresh_page x y w (1272 - y) d) (refresh_page x y w h d)
    ∙ ap
        (λ c.
          if d.osk_active && c
          then (if leb 1272 y then false else refreshed px py (refresh_page x y w (1272 - y) d).0)
          else refreshed px py (refresh_page x y w h d).0)
        (reaches y h le)

pub update_shown_covers :
    (x y w h px py : ℕ) (d : Display)
    → x + w ≤ 1404
    → y + h ≤ 1872
    → x ≤ px
    → px < x + w
    → y ≤ py
    → py < y + h
    → d.osk_active && leb 1272 py ≡ false
    → refreshed px py (update_shown x y w h d).0 ≡ true
update_shown_covers x y w h px py d h1 h2 h3 h4 h5 h6 free =
    let page = refresh_page_covers x y w h px py d h1 h2 h3 h4 h5 h6 in
    refreshed-update_shown x y w h px py d (omega arith) ∙ elim (Bool-cases d.osk_active) [
      | inl up ↦
          let above =
            refresh_page_covers x y w (1272 - y) px py d h1 (ground arith) h3 h4 h5
              (ground arith) in
          ground arith
      | inr down ↦ ground arith
    ]

pub update_shown_keyboard :
    (x y w h px py : ℕ) (d : Display)
    → x + w ≤ 1404
    → y + h ≤ 1872
    → d.osk_active ≡ true
    → 1272 ≤ py
    → refreshed px py (update_shown x y w h d).0 ≡ false
update_shown_keyboard x y w h px py d h1 h2 up h3 =
    refreshed-update_shown x y w h px py d (omega arith) ∙ elim (dec_lt 1272 (y + h)) [
      | yes over ↦ elim (dec_lt y 1272) [
        | yes starts ↦
            let above = refresh_page_above x y w (1272 - y) px py d h1 (omega arith) h3 in
            ground arith
        | no below ↦ ground arith
      ]
      | no not_over ↦
          let page = refresh_page_above x y w h px py d h1 (omega arith) h3 in ground arith
    ]

pub refreshed-update_clipped :
    (x y w h px py : ℕ) (d : Display)
    → refreshed px py (update_clipped x y w h d).0 ≡ refreshed px py (update_shown x y w h d).0
unfolding update_clipped
refreshed-update_clipped x y w h px py d =
    url_bar_refreshed (ltb y 75 && ltb_ℤ (pos 140) (pos x +ℤ as_int w)) (update_shown x y w h d)
  where
    url_bar_refreshed :
        (c : Bool) (u : List UpdateEffect × Display)
        → refreshed px py
            (if◌then◌else◌ {A = List UpdateEffect × Display} c (url_bar ∷ u.0, u.1) (u.0, u.1)).0
          ≡ refreshed px py u.0
    url_bar_refreshed true u = refl
    url_bar_refreshed false u = refl
