-- ===== src/Netsurf/Panel/Updates.antt =====
-- What hiding the keyboard shows after NetSurf has updated rows under it, for
-- components/netsurf/src/sdl_fb0_shim.c.
use nookobo.Prelude.{
  ℕ, zero, suc, ◌+◌, ◌-◌, ◌*◌, ◌/◌, ◌%◌, ◌^◌, ◌≤◌, ◌<◌, ◌≡◌, ◌≢◌, ℕ_discrete, refl, ap, ap₂, sym,
  ◌∙◌, Bool, true, false, List, [], ◌∷◌, ◌&&◌, ◌==◌, leb, ltb, arith, if◌then◌else◌, Bool-cases,
  ◌⊎◌, inl, inr, for_to,
}
use nookobo.Prelude.Int.{pos, ◌+ℤ◌, ltb_ℤ, negsuc, pos-+ℤ-pos}
use nookobo.Watcher.Canvas.{Mem}
use nookobo.Watcher.Canvas.Keeps.{Keeps, inside}
use nookobo.Watcher.Area.{memcpy, memcpy_in, memcpy_out, restore_area_at}
use nookobo.Netsurf.Update.{
  Display, UpdateEffect, back_up_rows, keyboard, as_int, clip_low, clip_high, rows_end, save_rows,
  update_shown, update_clipped, update_part, update_rect,
}
use nookobo.Netsurf.Panel.{back_up, do_update, do_updates, restore_page}
use nookobo.Netsurf.Panel.Kept.{on_keyboard, backed_up}

sum_int : (y h : ℕ) → y + h ≤ 1872 → pos y +ℤ as_int h ≡ pos (y + h)
unfolding as_int
sum_int y h fits =
    ap (λ b. pos y +ℤ (if b then pos h else negsuc (2 ^ 32 - h - 1))) (small h (omega arith))
    ∙ pos-+ℤ-pos y h
  where
    small : (h : ℕ) → h ≤ 1872 → ltb h (2 ^ 31) ≡ true
    small h k = ground arith

clip_fits :
    (most start size : ℕ) → most < 2 ^ 31 → start + size ≤ most → clip_high most start size ≡ size
unfolding clip_high
clip_fits most start size big fits = ground arith

rows_all : (y h : ℕ) → y + h ≤ 1872 → rows_end (pos (y + h)) ≡ y + h
unfolding rows_end
rows_all y h fits = ground arith

save_rows_low :
    (y h : ℕ) (d : Display)
    → 1272 ≤ y
    → y + h ≤ 1872
    → d.has_backup ≡ true
    → save_rows y h d ≡ back_up_rows y (y + h) ∷ []
unfolding save_rows
save_rows_low y h d low fits has =
    rw (has, sum_int y h fits, rows_all y h fits)
      (ap (λ from. back_up_rows from (y + h) ∷ []) (first y low))
  where
    first : (y : ℕ) → 1272 ≤ y → (if ltb 1272 y then y else 1272) ≡ y
    first y k = ground arith

keyboard_only :
    (b c : Bool) (u v w : List UpdateEffect × Display)
    → b ≡ true
    → c ≡ true
    → (if◌then◌else◌ {A = List UpdateEffect × Display} b
        (if◌then◌else◌ {A = List UpdateEffect × Display} c u v)
        w).0
      ≡ u.0
keyboard_only b c u v w h k = rw (h, k) refl

shown_low :
    (x y w h : ℕ) (d : Display)
    → 1272 ≤ y
    → 0 < h
    → y + h ≤ 1872
    → d.osk_active ≡ true
    → d.has_backup ≡ true
    → (update_shown x y w h d).0 ≡ back_up_rows y (y + h) ∷ keyboard ∷ []
unfolding update_shown
shown_low x y w h d low some_rows fits up has =
    keyboard_only (d.osk_active && ltb_ℤ (pos 1272) (pos y +ℤ as_int h)) (leb 1272 y) _ _ _
      (rw (up, sum_int y h fits) (reaches (y + h) (omega arith))) (starts y low)
    ∙ rw (save_rows_low y h d low fits has) refl
  where
    reaches : (n : ℕ) → 1272 < n → ltb_ℤ (pos 1272) (pos n) ≡ true
    reaches n k = ground arith

    starts : (y : ℕ) → 1272 ≤ y → leb 1272 y ≡ true
    starts y k = ground arith

-- An update of rows under the keyboard copies them and draws the keyboard.
low_update :
    (x y w h : ℕ) (d : Display)
    → 0 < w
    → x + w ≤ 1404
    → 1272 ≤ y
    → 0 < h
    → y + h ≤ 1872
    → d.osk_active ≡ true
    → d.has_backup ≡ true
    → (update_rect (pos x) (pos y) w h d).0 ≡ back_up_rows y (y + h) ∷ keyboard ∷ []
unfolding update_rect update_part clip_low update_clipped
low_update x y w h d h1 h2 h3 h4 h5 up has =
    rw
      (
        is_zero w h1,
        is_zero h h4,
        below 1404 x (omega arith),
        below 1872 y (omega arith),
        clip_fits 1404 x w (omega arith) h2,
        clip_fits 1872 y h (omega arith) h5,
        high y h3,
      )
      (shown_low x y w h d h3 h4 h5 up has)
  where
    is_zero : (n : ℕ) → 0 < n → n == 0 ≡ false
    is_zero n k = ground arith

    below : (a b : ℕ) → b < a → leb a b ≡ false
    below a b k = ground arith

    high : (y : ℕ) → 1272 ≤ y → ltb y 75 ≡ false
    high y k = ground arith

-- The copied rows, and the rows around them.
rows_at :
    (n from : ℕ) (fb backup : Mem) (r c : ℕ)
    → 1272 ≤ from
    → 1272 ≤ r
    → c < 1408
    → for_to n
        (λ k b. memcpy ((from + k - 1272) * 1408) fb ((from + k) * 1408) 1408 b)
        backup
        ((r - 1272) * 1408 + c)
      ≡ (if leb from r && ltb r (from + n)
          then fb (r * 1408 + c)
          else backup ((r - 1272) * 1408 + c))
unfolding for_to
rows_at zero from fb backup r c h1 h2 h3 = ground arith
rows_at (suc n) from fb backup r c h1 h2 h3 =
    let earlier =
      for_to n (λ k b. memcpy ((from + k - 1272) * 1408) fb ((from + k) * 1408) 1408 b) backup in
    let last = (from + n - 1272) * 1408 in
    elim (ℕ_discrete r (from + n)) [
      | yes e ↦
          memcpy_in last fb ((from + n) * 1408) 1408 earlier ((r - 1272) * 1408 + c) c
            (ap (λ t. (t - 1272) * 1408 + c) e) h3
          ∙ ap (λ t. fb (t * 1408 + c)) (sym e)
          ∙ copied r (from + suc n) (omega arith) (omega arith)
      | no d ↦
          memcpy_out last fb ((from + n) * 1408) 1408 earlier ((r - 1272) * 1408 + c)
            (other_row r (from + n) c h2 (omega arith) h3 d)
          ∙ rows_at n from fb backup r c h1 h2 h3
          ∙ ap (λ b. if leb from r && b then fb (r * 1408 + c) else backup ((r - 1272) * 1408 + c))
              (next_row r (from + n) (from + suc n) (omega arith) d)
    ]
  where
    copied :
        (r top : ℕ)
        → from ≤ r
        → r < top
        → fb (r * 1408 + c)
          ≡ (if leb from r && ltb r top then fb (r * 1408 + c) else backup ((r - 1272) * 1408 + c))
    copied r top k k' = ground arith

    next_row : (r m m' : ℕ) → m' ≡ suc m → r ≢ m → ltb r m ≡ ltb r m'
    next_row r m m' e k = ground arith

    other_row :
        (r m c : ℕ)
        → 1272 ≤ r
        → 1272 ≤ m
        → c < 1408
        → r ≢ m
        → ((r - 1272) * 1408 + c < (m - 1272) * 1408)
          ⊎ ((m - 1272) * 1408 + 1408 ≤ (r - 1272) * 1408 + c)
    other_row r m c k1 k2 k3 k4 = ground arith

column : (i : ℕ) → i % 1408 < 1408
column i = omega arith

place : (i : ℕ) → i / 1408 * 1408 + i % 1408 ≡ i
place i = omega arith

under_keyboard : (i : ℕ) → on_keyboard i ≡ true → 1272 ≤ i / 1408
under_keyboard i on = ground arith

-- While the keyboard is up NetSurf draws inside a rectangle of rows under it and calls
-- SDL_UpdateRect; the keyboard is then hidden. In the rectangle's rows the panel shows what NetSurf
-- drew, but beside the rectangle it shows what was there before, which is the keyboard; in the other
-- rows it shows the backup.
pub update_then_hide :
    (x y w h : ℕ) (d : Display) (bar osk : Mem → Mem) (before now backup : Mem) (i : ℕ)
    → 0 < w
    → x + w ≤ 1404
    → 1272 ≤ y
    → 0 < h
    → y + h ≤ 1872
    → d.osk_active ≡ true
    → d.has_backup ≡ true
    → Keeps x y w h before now
    → on_keyboard i ≡ true
    → (restore_page (
          do_updates bar osk
            (update_rect (pos x) (pos y) w h d).0
            (record { fb = now; osk_backup = backup }))).fb
        i
      ≡ (if leb y (i / 1408) && ltb (i / 1408) (y + h)
          then (if inside x y w h i then now i else before i)
          else backed_up backup i)
unfolding restore_page do_updates do_update back_up
update_then_hide x y w h d bar osk before now backup i h1 h2 h3 h4 h5 up has keeps on =
    rw (low_update x y w h d h1 h2 h3 h4 h5 up has) (
      restore_area_at 600 0 1272 1408 (back_up y (y + h) now backup) (osk now) i (omega arith)
      ∙ rw on (
          ap₂
            (λ n c.
              for_to n (λ k b. memcpy ((y + k - 1272) * 1408) now ((y + k) * 1408) 1408 b) backup
                ((i / 1408 - 1272) * 1408 + c))
            (omega arith) (omega arith)
          ∙ rows_at h y now backup (i / 1408) (i % 1408) h3 (under_keyboard i on) (column i)
          ∙ ap₂ (λ v b. if leb y (i / 1408) && ltb (i / 1408) (y + h) then v else b)
              (ap now (place i) ∙ kept (Bool-cases (inside x y w h i))) (ap backup (omega arith))))
  where
    kept :
        (inside x y w h i ≡ true) ⊎ (inside x y w h i ≡ false)
        → now i ≡ (if inside x y w h i then now i else before i)
    kept (inl e) = rw e refl
    kept (inr e) = rw e (keeps i e)
