-- ===== src/AppSwitcher/Main/Taps.antt =====
-- A tap on a button that leaves the dialog of components/system/src/app-switcher.c, event by event.
use nookobo.Prelude.{
  ℕ, ◌-◌, ◌≤◌, ◌≡◌, refl, ap, ap₂, ◌∙◌, Bool, true, false, List, [], ◌∷◌, ◌&&◌, not, if◌then◌else◌,
  arith,
}
use nookobo.Prelude.Int.{ℤ, pos, ◌-ℤ◌, pos--ℤ-pos, clamp}
use nookobo.AppSwitcher.Buttons.{ButtonId, button_at}
use nookobo.AppSwitcher.Buttons.Hits.{OnButton, button_at_lem}
use nookobo.AppSwitcher.Session.{Switcher, System}
use nookobo.AppSwitcher.Touch.{
  TouchEvent, non_negative, screen_x, screen_y, has_position, touch_press, outside_dialog,
  touch_release, touch_report, touch_event, touch_events,
}
use nookobo.AppSwitcher.Main.Presses.{
  leaves, Left, touch_press-Pressed, touch_release-Left, OnButton-inside,
}

abbrev event : (type code : ℕ) → ℤ → TouchEvent
event type code value = record { type = type; code = code; value = value }

-- A finger that goes down at a raw position and up again.
abbrev pub tap : (raw_x raw_y : ℕ) → List TouchEvent
tap raw_x raw_y =
    event 3 53 (pos raw_x)
    ∷ event 3 54 (pos raw_y)
    ∷ event 1 330 (pos 1)
    ∷ event 0 0 (pos 0)
    ∷ event 1 330 (pos 0)
    ∷ event 0 0 (pos 0)
    ∷ []

if_same : (b : Bool) (s : Switcher) → (if b then s else s) ≡ s
if_same true s = refl
if_same false s = refl

touch_events-step :
    (sys : System) (e : TouchEvent) (es : List TouchEvent) (s : Switcher)
    → (touch_event sys e s).running ≡ true
    → touch_events sys (e ∷ es) s ≡ touch_events sys es (touch_event sys e s)
unfolding touch_events
touch_events-step sys e es s h = rw h

last_event :
    (sys : System) (e : TouchEvent) (s : Switcher)
    → touch_events sys (e ∷ []) s ≡ touch_event sys e s
unfolding touch_events
last_event sys e s = if_same (touch_event sys e s).running (touch_event sys e s)

-- The screen position of a raw one.
position_x : (raw_y : ℕ) → raw_y ≤ 1403 → clamp 1403 (pos 1403 -ℤ pos raw_y) ≡ 1403 - raw_y
position_x raw_y h = ap (clamp 1403) (pos--ℤ-pos 1403 raw_y h) ∙ ground arith

position_y : (raw_x : ℕ) → raw_x ≤ 1871 → clamp 1871 (pos raw_x) ≡ raw_x
position_y raw_x h = ground arith

-- The finger is down at the position, and then the press is read.
abbrev touched : (raw_x raw_y : ℕ) → Switcher → Switcher
touched raw_x raw_y s = record s {
  last_raw_x = pos raw_x;
  last_raw_y = pos raw_y;
  is_contact_down = true;
}

report_press :
    (sys : System) (s : Switcher)
    → s.was_contact_down ≡ false
    → s.is_contact_down ≡ true
    → touch_report sys s ≡ touch_press s
unfolding touch_report
report_press sys s up down =
    ap₂ (λ a c. if not a && c then touch_press s else if a && not c then touch_release sys s else s)
      up down

report_release :
    (sys : System) (s : Switcher)
    → s.was_contact_down ≡ true
    → s.is_contact_down ≡ false
    → touch_report sys s ≡ touch_release sys s
unfolding touch_report
report_release sys s down up =
    ap₂ (λ a c. if not a && c then touch_press s else if a && not c then touch_release sys s else s)
      down up

-- The last two events of a tap.
abbrev lifting : List TouchEvent
lifting = event 1 330 (pos 0) ∷ event 0 0 (pos 0) ∷ []

-- After the first four events of a tap the button is pressed.
tap_presses :
    (sys : System) (raw_x raw_y : ℕ) (s t : Switcher)
    → s.running ≡ true
    → touch_report sys (touched raw_x raw_y s) ≡ t
    → t.running ≡ true
    → touch_events sys (tap raw_x raw_y) s ≡ touch_events sys lifting t
unfolding touch_event
tap_presses sys raw_x raw_y s t run e going =
    let s1 : Switcher = record s { last_raw_x = pos raw_x } in
    let s2 : Switcher = record s1 { last_raw_y = pos raw_y } in
    let report = event 0 0 (pos 0) ∷ lifting in
    let finger = event 1 330 (pos 1) ∷ report in
    touch_events-step sys (event 3 53 (pos raw_x)) (event 3 54 (pos raw_y) ∷ finger) s run
    ∙ touch_events-step sys (event 3 54 (pos raw_y)) finger s1 run
    ∙ touch_events-step sys (event 1 330 (pos 1)) report s2 run
    ∙ touch_events-step sys (event 0 0 (pos 0)) lifting (touched raw_x raw_y s)
        (ap (λ r. r.running) e ∙ going)
    ∙ ap (touch_events sys lifting) e

-- The last two events release it.
lifting_releases :
    (sys : System) (s : Switcher)
    → s.running ≡ true
    → s.was_contact_down ≡ true
    → touch_events sys lifting s ≡ touch_release sys (record s { is_contact_down = false })
unfolding touch_event
lifting_releases sys s run down =
    let lifted : Switcher = record s { is_contact_down = false } in
    touch_events-step sys (event 1 330 (pos 0)) (event 0 0 (pos 0) ∷ []) s run
    ∙ last_event sys (event 0 0 (pos 0)) lifted
    ∙ report_release sys lifted down refl

-- A tap on a button that leaves the dialog: it leaves its loop, with that button chosen.
pub touch_events-tap :
    (sys : System) (id : ButtonId) (raw_x raw_y : ℕ) (s : Switcher)
    → leaves id ≡ true
    → raw_x ≤ 1871
    → raw_y ≤ 1403
    → OnButton id (1403 - raw_y) raw_x
    → s.running ≡ true
    → s.was_contact_down ≡ false
    → Left id (touch_events sys (tap raw_x raw_y) s)
touch_events-tap sys id raw_x raw_y s l h1 h2 on run up =
    let s3 = touched raw_x raw_y s in
    let across = position_x raw_y h2 in
    let down = position_y raw_x h1 in
    let found = ap₂ button_at across down ∙ button_at_lem id (1403 - raw_y) raw_x on in
    let pressed = touch_press-Pressed id s3 refl found in
    let s5 : Switcher = record (touch_press s3) { is_contact_down = false } in
    let here : has_position s5 ≡ true =
      ap₂ (λ a b. non_negative a && non_negative b) pressed.3 pressed.4 in
    let within : outside_dialog (screen_x s5) (screen_y s5) ≡ false =
      ap₂ (λ a b. outside_dialog (clamp 1403 (pos 1403 -ℤ b)) (clamp 1871 a)) pressed.3 pressed.4
      ∙ ap₂ outside_dialog across down
      ∙ OnButton-inside id (1403 - raw_y) raw_x on in
    let going = pressed.2 ∙ run in
    let events =
      tap_presses sys raw_x raw_y s (touch_press s3) run (report_press sys s3 up refl) going
      ∙ lifting_releases sys (touch_press s3) going pressed.0 in
    let left = touch_release-Left sys id s5 l here within pressed.1 in
    (ap (λ r. r.chosen_action) events ∙ left.0, ap (λ r. r.running) events ∙ left.1)
