-- ===== src/AppSwitcher/Main/Restores.antt =====
-- Every run of the loop of components/system/src/app-switcher.c keeps the screen outside the dialog.
use nookobo.Prelude.{
  ◌≡◌, refl, Bool, true, false, Option, none, List, [], ◌∷◌, ◌&&◌, ◌||◌, not, ◌==◌, if◌then◌else◌,
  arith,
}
use nookobo.Prelude.Int.{ℤ}
use nookobo.Watcher.Canvas.{Mem}
use nookobo.AppSwitcher.Buttons.{btn_close}
use nookobo.AppSwitcher.Session.{Switcher, System}
use nookobo.AppSwitcher.Touch.{
  TouchEvent, non_negative, screen_x, screen_y, unhighlight, touch_press, target, perform_target,
  touch_release, touch_report, tracking, touch_event, touch_events, choose,
}
use nookobo.AppSwitcher.Main.{Round, touches, sigterm, select_error, round, rounds}
use nookobo.AppSwitcher.Main.Held.{
  event_inside, events_inside, round_inside, rounds_inside, Held, touch_press-Held,
  perform_target-Held, unhighlight-Held,
}

module _ (m : Mem) (b : Option Mem) where
  pub if_Held :
      (c : Bool) (t u : Switcher) → Held m b t → Held m b u → Held m b (if c then t else u)
  if_Held true t u h k = h
  if_Held false t u h k = k

  touch_release-Held : (sys : System) (s : Switcher) → Held m b s → Held m b (touch_release sys s)
  unfolding touch_release
  touch_release-Held sys s h =
      let r : Switcher = record s { was_contact_down = false } in
      let t = unhighlight s.active_pressed_btn r in
      let aim = target s.active_pressed_btn (screen_x s) (screen_y s) in
      let lifted = unhighlight-Held m b s.active_pressed_btn r h in
      if_Held _ _ r
        (if_Held _ (choose btn_close t)
          (record (perform_target sys aim t) { active_pressed_btn = none }) lifted
          (perform_target-Held m b sys aim t lifted))
        h

  touch_report-Held : (sys : System) (s : Switcher) → Held m b s → Held m b (touch_report sys s)
  unfolding touch_report
  touch_report-Held sys s h =
      if_Held (not s.was_contact_down && s.is_contact_down) (touch_press s) _
        (touch_press-Held m b s h)
        (if_Held (s.was_contact_down && not s.is_contact_down) (touch_release sys s) s
          (touch_release-Held sys s h) h)

  tracking-Held : (v : ℤ) (s : Switcher) → Held m b s → Held m b (tracking v s)
  unfolding tracking
  tracking-Held v s h = if_Held _ _ _ h (if_Held (non_negative v) _ s h h)

  choice_Held :
      (c : Bool) (t u : Switcher)
      → (c ≡ true → Held m b t)
      → (c ≡ false → Held m b u)
      → Held m b (if c then t else u)
  choice_Held true t u h k = h refl
  choice_Held false t u h k = k refl

  touch_event-Held :
      (sys : System) (e : TouchEvent) (s : Switcher)
      → event_inside e ≡ true
      → Held m b s
      → Held m b (touch_event sys e s)
  unfolding touch_event
  touch_event-Held sys e s i h =
      let at_x : Switcher = record s { last_raw_x = e.value } in
      let at_y : Switcher = record s { last_raw_y = e.value } in
      choice_Held (e.type == 3) _ _
        (λ abs.
          choice_Held (e.code == 53 || e.code == 0) at_x _ (λ x. (h.0, h.1, ground arith, h.3, h.4))
            (λ no_x.
              choice_Held (e.code == 54 || e.code == 1) at_y _
                (λ y. (h.0, h.1, h.2, ground arith, h.4))
                (λ no_y.
                  if_Held (e.code == 57) (tracking e.value s) s (tracking-Held e.value s h) h)))
        (λ other. if_Held (e.type == 1 && e.code == 330) _ _ h (
          if_Held (e.type == 0 && e.code == 0) (touch_report sys s) s (touch_report-Held sys s h)
            h))

  touch_events-Held :
      (sys : System) (es : List TouchEvent) (s : Switcher)
      → events_inside es ≡ true
      → Held m b s
      → Held m b (touch_events sys es s)
  unfolding touch_events
  touch_events-Held sys [] s i h = h
  touch_events-Held sys (e ∷ es) s i h =
      let t = touch_event sys e s in
      let one = touch_event-Held sys e s (ground arith) h in
      if_Held t.running (touch_events sys es t) t (touch_events-Held sys es t (ground arith) one)
        one

  round-Held :
      (sys : System) (r : Round) (s : Switcher)
      → round_inside r ≡ true
      → Held m b s
      → Held m b (round sys r s)
  unfolding round
  round-Held sys (touches es) s i h =
      if_Held sys.touch_opens (touch_events sys es s) s (touch_events-Held sys es s i h) h
  round-Held sys sigterm s i h = h
  round-Held sys select_error s i h = h

  pub rounds-Held :
      (sys : System) (rs : List Round) (s : Switcher)
      → rounds_inside rs ≡ true
      → Held m b s
      → Held m b (rounds sys rs s)
  unfolding rounds
  rounds-Held sys [] s i h = h
  rounds-Held sys (r ∷ rs) s i h =
      let t = round sys r s in
      if_Held s.running (rounds sys rs t) s
        (rounds-Held sys rs t (ground arith) (round-Held sys r s (ground arith) h)) h
