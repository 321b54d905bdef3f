-- ===== src/Tools/Clicks.antt =====
-- What NetSurf sees of components/system/src/touch_inject.c, through the input thread of
-- components/netsurf/src/sdl_fb0_shim.c.
use nookobo.Prelude.{
  ℕ, ◌-◌, ◌≤◌, ◌≡◌, refl, ap, ap₂, ◌∙◌, true, false, Option, List, [], ◌∷◌, ◌++◌, ◌&&◌, leb, arith,
}
use nookobo.Prelude.Int.{ℤ, pos, ◌-ℤ◌, clamp, pos--ℤ-pos}
use nookobo.Netsurf.Events.{motion, button}
use nookobo.Netsurf.Keyboard.{queued}
use nookobo.Netsurf.Worker.{Worker, Input, touch, mapped_x, mapped_y, touch_event, step, steps}
use nookobo.Netsurf.Worker.Taps.{page_tap}
use nookobo.Tools.Inject.{Event, Action, written, slept, touch_at, touch_inject}

-- The events as the thread reads them from the touch screen.
abbrev pub touches_of : List Event → List Input
touches_of [] = []
touches_of (e ∷ es) = touch e.type e.code e.value ∷ touches_of es

abbrev pub touch_inputs : List Action → List Input
touch_inputs [] = []
touch_inputs (written es ∷ actions) = touches_of es ++ touch_inputs actions
touch_inputs (slept us ∷ actions) = touch_inputs actions

inside : (x : ℕ) → x ≤ 1403 → clamp 1403 (pos 1403 -ℤ (pos 1403 -ℤ pos x)) ≡ x
inside x h =
    ap (λ z. clamp 1403 (pos 1403 -ℤ z)) (pos--ℤ-pos 1403 x h)
    ∙ ap (clamp 1403) (pos--ℤ-pos 1403 (1403 - x) (omega arith))
    ∙ ground arith

below : (y : ℕ) → y ≤ 1871 → clamp 1871 (pos y) ≡ y
below y h = ground arith

-- Given the numbers x and y of a point of the page, below the URL bar and off the corner that calls
-- up the keyboard, with the keyboard hidden and no finger down, touch_inject exits with code 0, if
-- /dev/input/event1 opens, and what it writes makes NetSurf move the cursor to exactly that point, press there and release.
pub touch_inject-clicks :
    (atoi : List ℕ → ℤ) (sscanf : List ℕ → Option (ℕ × ℕ)) (a b : List ℕ) (x y : ℕ) (w : Worker)
    → atoi a ≡ pos x
    → atoi b ≡ pos y
    → x ≤ 1403
    → leb 75 y ≡ true
    → y ≤ 1871
    → leb 1320 x && leb 1800 y ≡ false
    → w.touch_down ≡ false
    → w.osk.osk_active ≡ false
    → ((touch_inject atoi (a ∷ b ∷ []) true).1 ≡ 0)
      × ((steps sscanf (touch_inputs (touch_inject atoi (a ∷ b ∷ []) true).0) w).osk.effects
          ≡ ((w.osk.effects
                ++ queued (motion 0 x y (pos x -ℤ pos w.last_touch_x) (pos y -ℤ pos w.last_touch_y))
                  ∷ [])
              ++ queued (button true x y) ∷ [])
            ++ queued (button false x y) ∷ [])
      × ((steps sscanf (touch_inputs (touch_inject atoi (a ∷ b ∷ []) true).0) w).touch_down ≡ false)
unfolding touch_inject touch_at steps step touch_event
touch_inject-clicks atoi sscanf a b x y w ea eb h1 h2 h3 off up hidden =
    let v : Worker = record w { cur_x = pos y; cur_y = pos 1403 -ℤ pos x; cur_down = true } in
    let ex : mapped_x v ≡ x = inside x h1 in
    let ey : mapped_y v ≡ y = below y h3 in
    let (effects, ready) =
      page_tap v refl up hidden (ap (leb 75) ey ∙ h2)
        (ap₂ (λ c d. leb 1320 c && leb 1800 d) ex ey ∙ off) in
    rw (ea, eb)
      (
        refl,
        effects
            ∙ ap₂
                (λ c d.
                  ((w.osk.effects
                      ++ queued
                          (motion 0 c d (pos c -ℤ pos w.last_touch_x) (pos d -ℤ pos w.last_touch_y))
                        ∷ [])
                    ++ queued (button true c d) ∷ [])
                  ++ queued (button false c d) ∷ [])
                ex ey,
        ready,
      )
