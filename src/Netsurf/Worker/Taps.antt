-- ===== src/Netsurf/Worker/Taps.antt =====
-- What NetSurf sees of a tap, in components/netsurf/src/sdl_fb0_shim.c.
use nookobo.Prelude.{
  ℕ, ◌≡◌, refl, ap, ◌∙◌, Bool, true, false, [], ◌∷◌, ◌++◌, ◌&&◌, ltb, leb, if◌then◌else◌, arith,
}
use nookobo.Prelude.Int.{pos, ◌-ℤ◌}
use nookobo.Netsurf.Events.{motion, button}
use nookobo.Netsurf.Keyboard.{queued, act}
use nookobo.Netsurf.Worker.{
  Worker, mapped_x, mapped_y, pressed, queue_touch_motion, page_touch, keyboard_touch,
  hotspot_touch, touch_report,
}

-- The state when a press on the page has been reported.
abbrev after_press : ℕ → ℕ → Worker → Worker
after_press x y w = record w {
  osk = record w.osk {
    url_bar_focused = false;
    effects =
        (w.osk.effects
          ++ queued (motion 0 x y (pos x -ℤ pos w.last_touch_x) (pos y -ℤ pos w.last_touch_y)) ∷ [])
        ++ queued (button true x y) ∷ [];
  };
  touch_down = true;
  last_touch_x = x;
  last_touch_y = y;
}

page_press :
    (x y : ℕ) (w : Worker)
    → w.cur_down ≡ true
    → w.touch_down ≡ false
    → leb 75 y ≡ true
    → page_touch x y w ≡ after_press x y w
unfolding page_touch queue_touch_motion act
page_press x y w d u h = ground arith

page_lift :
    (x y : ℕ) (w : Worker)
    → w.cur_down ≡ false
    → w.touch_down ≡ true
    → ((page_touch x y w).osk.effects ≡ w.osk.effects ++ queued (button false x y) ∷ [])
      × ((page_touch x y w).touch_down ≡ false)
unfolding page_touch act
page_lift x y w d u = ground arith

-- A report off the hotspots, with the keyboard hidden, is a touch of the page.
report_page :
    (w : Worker) (x y : ℕ)
    → ltb y 75 && leb 140 x && pressed w ≡ false
    → leb 1320 x && leb 1800 y && pressed w ≡ false
    → hotspot_touch x y w ≡ page_touch x y w
unfolding hotspot_touch
report_page w x y a b = ground arith

high_press : (a b c : Bool) → a ≡ false → a && b && c ≡ false
high_press a b c h = ground arith

off_press : (a b c : Bool) → a && b ≡ false → a && b && c ≡ false
off_press a b c h = ground arith

high : (y : ℕ) → leb 75 y ≡ true → ltb y 75 ≡ false
high y h = ground arith

shown : (b : Bool) (v w : Worker) → b ≡ false → (if b then v else w) ≡ w
shown b v w h = ground arith

-- The finger goes down, and then up at the same place.
abbrev pub tapped : Worker → Worker
tapped w = touch_report (record (touch_report w) { cur_down = false })

-- With the keyboard hidden and no finger down before, a tap on the page, below line 75 and off the
-- corner from x = 1320 and y = 1800 on that calls the keyboard up, moves the cursor there, presses
-- and releases, and the state is then ready for the next tap.
pub page_tap :
    (w : Worker)
    → w.cur_down ≡ true
    → w.touch_down ≡ false
    → w.osk.osk_active ≡ false
    → leb 75 (mapped_y w) ≡ true
    → leb 1320 (mapped_x w) && leb 1800 (mapped_y w) ≡ false
    → ((tapped w).osk.effects
        ≡ ((w.osk.effects
              ++ queued (
                  motion 0
                    (mapped_x w)
                    (mapped_y w)
                    (pos (mapped_x w) -ℤ pos w.last_touch_x)
                    (pos (mapped_y w) -ℤ pos w.last_touch_y))
                ∷ [])
            ++ queued (button true (mapped_x w) (mapped_y w)) ∷ [])
          ++ queued (button false (mapped_x w) (mapped_y w)) ∷ [])
      × ((tapped w).touch_down ≡ false)
unfolding touch_report
page_tap w down up hidden low off =
    let x = mapped_x w in
    let y = mapped_y w in
    let down_eq : touch_report w ≡ after_press x y w =
      shown w.osk.osk_active (keyboard_touch x y w) (hotspot_touch x y w) hidden
      ∙ report_page w x y (high_press (ltb y 75) (leb 140 x) (pressed w) (high y low))
          (off_press (leb 1320 x) (leb 1800 y) (pressed w) off)
      ∙ page_press x y w down up low in
    let v : Worker = record (after_press x y w) { cur_down = false } in
    let up_eq : touch_report v ≡ page_touch x y v =
      shown w.osk.osk_active (keyboard_touch x y v) (hotspot_touch x y v) hidden
      ∙ report_page v x y (high_press (ltb y 75) (leb 140 x) (pressed v) (high y low))
          (off_press (leb 1320 x) (leb 1800 y) (pressed v) off) in
    let both : tapped w ≡ page_touch x y v =
      ap (λ t. touch_report (record t { cur_down = false })) down_eq ∙ up_eq in
    let (effects, ready) = page_lift x y v refl refl in
    (ap (λ t. t.osk.effects) both ∙ effects, ap (λ t. t.touch_down) both ∙ ready)
