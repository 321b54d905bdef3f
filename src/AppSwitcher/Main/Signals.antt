-- ===== src/AppSwitcher/Main/Signals.antt =====
-- Which processes components/system/src/app-switcher.c leaves stopped when it exits.
use nookobo.Prelude.{
  ℕ, ◌≡◌, refl, ◌∙◌, Bool, true, false, Option, none, some, List, [], ◌∷◌, ◌++◌, arith,
  if◌then◌else◌,
}
use nookobo.Watcher.Canvas.{Mem}
use nookobo.AppSwitcher.Buttons.{
  ButtonId, btn_koreader, btn_plato, btn_netsurf, btn_music_prev, btn_music_play, btn_music_next,
  btn_music_shuffle, btn_frontlight, btn_close, button_at,
}
use nookobo.AppSwitcher.Session.{
  Switcher, System, Effect, act, killall, shell, refresh, Signal, Process, luajit, ld, plato_bin,
  netsurf_fb, draw_widget, redraw_music, open_dialog, save_backup,
}
use nookobo.AppSwitcher.Touch.{
  TouchEvent, screen_x, screen_y, draw_mark, highlight, unhighlight, touch_press, perform, target,
  perform_target, touch_release, touch_report, tracking, touch_event, touch_events, choose,
}
use nookobo.AppSwitcher.Main.{Round, touches, sigterm, select_error, round, rounds, prepare}

abbrev pub same_process : Process → Process → Bool
same_process luajit luajit = true
same_process ld ld = true
same_process plato_bin plato_bin = true
same_process netsurf_fb netsurf_fb = true
same_process _ _ = false

abbrev pub signal_of : Process → Effect → Option Signal → Option Signal
signal_of p (killall sig q) last = if same_process p q then some sig else last
signal_of p (shell c) last = last
signal_of p (refresh left top width height mode) last = last

-- The last signal that a process gets, after `last` from before.
abbrev signal_after : Process → Option Signal → List Effect → Option Signal
signal_after p last [] = last
signal_after p last (e ∷ es) = signal_after p (signal_of p e last) es

abbrev pub last_signal : Process → List Effect → Option Signal
last_signal p log = signal_after p none log

signal_after-append :
    (p : Process) (last : Option Signal) (log : List Effect) (e : Effect)
    → signal_after p last (log ++ e ∷ []) ≡ signal_of p e (signal_after p last log)
signal_after-append p last [] e = refl
signal_after-append p last (x ∷ log) e = signal_after-append p (signal_of p x last) log e

pub last_signal-act :
    (p : Process) (e : Effect) (log : List Effect)
    → last_signal p (log ++ e ∷ []) ≡ signal_of p e (last_signal p log)
last_signal-act p e log = signal_after-append p none log e

-- From `s` to `t` the process gets no signal, and the active app stays.
abbrev pub Quiet : Process → Switcher → Switcher → Type 0
Quiet p s t = (last_signal p t.log ≡ last_signal p s.log) × (t.active_app ≡ s.active_app)

Quiet-trans : (p : Process) (s t u : Switcher) → Quiet p s t → Quiet p t u → Quiet p s u
Quiet-trans p s t u a b = (b.0 ∙ a.0, b.1 ∙ a.1)

if_Quiet :
    (p : Process) (b : Bool) (s t u : Switcher)
    → Quiet p s t
    → Quiet p s u
    → Quiet p s (if b then t else u)
if_Quiet p true s t u h k = h
if_Quiet p false s t u h k = k

module _ (p : Process) where
  draw_widget-Quiet :
      (id : ButtonId) (pressed : Bool) (s : Switcher) → Quiet p s (draw_widget id pressed s)
  unfolding draw_widget
  draw_widget-Quiet id pressed s = (last_signal-act p _ s.log, refl)

  redraw_music-Quiet : (sys : System) (s : Switcher) → Quiet p s (redraw_music sys s)
  unfolding redraw_music
  redraw_music-Quiet sys s = (last_signal-act p _ s.log, refl)

  open_dialog-Quiet : (sys : System) (s : Switcher) → Quiet p s (open_dialog sys s)
  unfolding open_dialog
  open_dialog-Quiet sys s = (last_signal-act p _ s.log, refl)

  save_backup-Quiet : (room : Option Mem) (s : Switcher) → Quiet p s (save_backup room s)
  unfolding save_backup
  save_backup-Quiet none s = (refl, refl)
  save_backup-Quiet (some b) s = (refl, refl)

  pub prepare-Quiet : (sys : System) (s : Switcher) → Quiet p s (prepare sys s)
  unfolding prepare
  prepare-Quiet sys s =
      Quiet-trans p s (save_backup sys.room s) (open_dialog sys (save_backup sys.room s))
        (save_backup-Quiet sys.room s) (open_dialog-Quiet sys (save_backup sys.room s))

  highlight-Quiet : (o : Option ButtonId) (s : Switcher) → Quiet p s (highlight o s)
  unfolding highlight
  highlight-Quiet none s = (refl, refl)
  highlight-Quiet (some id) s = draw_widget-Quiet id true s

  unhighlight-Quiet : (o : Option ButtonId) (s : Switcher) → Quiet p s (unhighlight o s)
  unfolding unhighlight
  unhighlight-Quiet none s = (refl, refl)
  unhighlight-Quiet (some id) s = draw_widget-Quiet id false s

  draw_mark-Quiet : (x y : ℕ) (s : Switcher) → Quiet p s (draw_mark x y s)
  unfolding draw_mark
  draw_mark-Quiet x y s = (last_signal-act p _ s.log, refl)

  touch_press-Quiet : (s : Switcher) → Quiet p s (touch_press s)
  unfolding touch_press
  touch_press-Quiet s =
      let x = screen_x s in
      let y = screen_y s in
      let t : Switcher = record s { was_contact_down = true } in
      let u : Switcher = record (draw_mark x y t) { active_pressed_btn = button_at x y } in
      if_Quiet p _ s (highlight (button_at x y) u) t
        (Quiet-trans p s u (highlight (button_at x y) u) (draw_mark-Quiet x y t)
          (highlight-Quiet (button_at x y) u))
        (refl, refl)

  music-Quiet :
      (sys : System) (c : List ℕ) (s : Switcher) → Quiet p s (redraw_music sys (act (shell c) s))
  music-Quiet sys c s =
      Quiet-trans p s (act (shell c) s) (redraw_music sys (act (shell c) s))
        (last_signal-act p (shell c) s.log, refl) (redraw_music-Quiet sys (act (shell c) s))

  perform-Quiet : (sys : System) (id : ButtonId) (s : Switcher) → Quiet p s (perform sys id s)
  unfolding perform
  perform-Quiet sys btn_music_prev s = music-Quiet sys _ s
  perform-Quiet sys btn_music_play s = music-Quiet sys _ s
  perform-Quiet sys btn_music_next s = music-Quiet sys _ s
  perform-Quiet sys btn_music_shuffle s = music-Quiet sys _ s
  perform-Quiet sys btn_frontlight s = (last_signal-act p _ s.log, refl)
  perform-Quiet sys btn_koreader s = (refl, refl)
  perform-Quiet sys btn_plato s = (refl, refl)
  perform-Quiet sys btn_netsurf s = (refl, refl)
  perform-Quiet sys btn_close s = (refl, refl)

  perform_target-Quiet :
      (sys : System) (o : Option ButtonId) (s : Switcher) → Quiet p s (perform_target sys o s)
  unfolding perform_target
  perform_target-Quiet sys none s = (refl, refl)
  perform_target-Quiet sys (some id) s = perform-Quiet sys id s

  touch_release-Quiet : (sys : System) (s : Switcher) → Quiet p s (touch_release sys s)
  unfolding touch_release
  touch_release-Quiet sys s =
      let r : Switcher = record s { was_contact_down = false } in
      let t = unhighlight s.active_pressed_btn r in
      let aim = target s.active_pressed_btn (screen_x s) (screen_y s) in
      let lifted = unhighlight-Quiet s.active_pressed_btn r in
      if_Quiet p _ s _ r
        (if_Quiet p _ s (choose btn_close t)
          (record (perform_target sys aim t) { active_pressed_btn = none }) lifted
          (Quiet-trans p s t (perform_target sys aim t) lifted (perform_target-Quiet sys aim t)))
        (refl, refl)

  touch_event-Quiet :
      (sys : System) (e : TouchEvent) (s : Switcher) → Quiet p s (touch_event sys e s)
  unfolding touch_event touch_report tracking
  touch_event-Quiet sys e s = ground (arith, touch_press-Quiet s, touch_release-Quiet sys s)

  touch_events-Quiet :
      (sys : System) (es : List TouchEvent) (s : Switcher) → Quiet p s (touch_events sys es s)
  unfolding touch_events
  touch_events-Quiet sys [] s = (refl, refl)
  touch_events-Quiet sys (e ∷ es) s =
      let t = touch_event sys e s in
      let one = touch_event-Quiet sys e s in
      if_Quiet p t.running s (touch_events sys es t) t
        (Quiet-trans p s t (touch_events sys es t) one (touch_events-Quiet sys es t)) one

  round-Quiet : (sys : System) (r : Round) (s : Switcher) → Quiet p s (round sys r s)
  unfolding round
  round-Quiet sys (touches es) s =
      if_Quiet p sys.touch_opens s (touch_events sys es s) s (touch_events-Quiet sys es s)
        (refl, refl)
  round-Quiet sys sigterm s = (refl, refl)
  round-Quiet sys select_error s = (refl, refl)

  pub rounds-Quiet : (sys : System) (rs : List Round) (s : Switcher) → Quiet p s (rounds sys rs s)
  unfolding rounds
  rounds-Quiet sys [] s = (refl, refl)
  rounds-Quiet sys (r ∷ rs) s =
      let t = round sys r s in
      if_Quiet p s.running s (rounds sys rs t) s
        (Quiet-trans p s t (rounds sys rs t) (round-Quiet sys r s) (rounds-Quiet sys rs t))
        (refl, refl)
