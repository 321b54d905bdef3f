-- ===== src/AppSwitcher/Main/Held.antt =====
-- What components/system/src/app-switcher.c draws at a touch stays in the dialog.
use nookobo.Prelude.{
  ℕ, ◌-◌, ◌≤◌, ◌≡◌, ap, ◌∙◌, Bool, true, false, Option, none, some, List, [], ◌∷◌, ◌&&◌, ◌||◌, ◌==◌,
  leb, if◌then◌else◌, inl, inr, arith, Bool-cases,
}
use nookobo.Prelude.Int.{ℤ, pos, negsuc, ◌-ℤ◌, pos--ℤ-pos, clamp}
use nookobo.Watcher.Canvas.{Mem, draw_rect}
use nookobo.Watcher.Canvas.Boxes.{rect_in}
use nookobo.Watcher.Canvas.Keeps.{Keeps}
use nookobo.AppSwitcher.Buttons.{
  ButtonId, btn_koreader, btn_plato, btn_netsurf, btn_music_prev, btn_music_play, btn_music_next,
  btn_music_shuffle, btn_frontlight, btn_close, button_at,
}
use nookobo.AppSwitcher.Status.{query_music_status-status, query_music_status}
use nookobo.AppSwitcher.Dialog.{draw_button_widget, draw_music_section}
use nookobo.AppSwitcher.Dialog.InBox.{
  TextsFit, draw_button_widget-Inside, draw_music_section-Inside, music_texts-TextsFit, Inside,
}
use nookobo.AppSwitcher.Session.{Switcher, System, act, draw_widget, redraw_music}
use nookobo.AppSwitcher.Touch.{
  TouchEvent, non_negative, screen_x, screen_y, has_position, draw_mark, highlight, unhighlight,
  touch_press, perform, perform_target,
}
use nookobo.AppSwitcher.Main.{Round, touches, sigterm, select_error}

-- A raw position, if it is one, at which the mark under the finger is inside the dialog.
abbrev pub raw_x_inside : ℤ → Bool
raw_x_inside (pos n) = leb 206 n && leb n 1664
raw_x_inside (negsuc n) = true

abbrev pub raw_y_inside : ℤ → Bool
raw_y_inside (pos n) = leb 137 n && leb n 1265
raw_y_inside (negsuc n) = true

-- The event reports no position outside that.
abbrev pub event_inside : TouchEvent → Bool
event_inside e =
    if e.type == 3
    then (if e.code == 53 || e.code == 0
        then raw_x_inside e.value
        else if e.code == 54 || e.code == 1
        then raw_y_inside e.value
        else true)
    else true

abbrev pub events_inside : List TouchEvent → Bool
events_inside [] = true
events_inside (e ∷ es) = event_inside e && events_inside es

abbrev pub round_inside : Round → Bool
round_inside (touches es) = events_inside es
round_inside sigterm = true
round_inside select_error = true

abbrev pub rounds_inside : List Round → Bool
rounds_inside [] = true
rounds_inside (r ∷ rs) = round_inside r && rounds_inside rs

-- The screen differs from `m` in the dialog only, and what the next drawings read keeps it so.
abbrev pub Held : Mem → Option Mem → Switcher → Type 0
Held m b s =
    Keeps 132 200 1140 1470 m s.memory
    × TextsFit s.texts
    × (raw_x_inside s.last_raw_x ≡ true)
    × (raw_y_inside s.last_raw_y ≡ true)
    × (s.backup ≡ b)

pub Keeps-op :
    (m s : Mem) (op : Mem → Mem)
    → Inside op
    → Keeps 132 200 1140 1470 m s
    → Keeps 132 200 1140 1470 m (op s)
Keeps-op m s op h k i out = h s i out ∙ k i out

mark_Inside :
    (x y : ℕ)
    → 138 ≤ x
    → x ≤ 1266
    → 206 ≤ y
    → y ≤ 1664
    → Inside (draw_rect (pos x -ℤ pos 6) (pos y -ℤ pos 6) 12 12 0)
mark_Inside x y h1 h2 h3 h4 s i out =
    ap (λ z. draw_rect z (pos y -ℤ pos 6) 12 12 0 s i) (pos--ℤ-pos x 6 (omega arith))
    ∙ ap (λ z. draw_rect (pos (x - 6)) z 12 12 0 s i) (pos--ℤ-pos y 6 (omega arith))
    ∙ rect_in 132 200 1140 1470 (x - 6) (y - 6) 12 12 0 (ground arith) s i out

turned_inside :
    (v : ℤ)
    → raw_y_inside v ≡ true
    → non_negative v ≡ true
    → (138 ≤ clamp 1403 (pos 1403 -ℤ v)) × (clamp 1403 (pos 1403 -ℤ v) ≤ 1266)
turned_inside (pos n) h1 h2 =
    let e = ap (clamp 1403) (pos--ℤ-pos 1403 n (ground arith)) in ground arith
turned_inside (negsuc n) h1 h2 = cc

kept_inside :
    (v : ℤ)
    → raw_x_inside v ≡ true
    → non_negative v ≡ true
    → (206 ≤ clamp 1871 v) × (clamp 1871 v ≤ 1664)
kept_inside (pos n) h1 h2 = ground arith
kept_inside (negsuc n) h1 h2 = cc

module _ (m : Mem) (b : Option Mem) where
  draw_mark-Held :
      (s : Switcher)
      → has_position s ≡ true
      → Held m b s
      → Held m b (draw_mark (screen_x s) (screen_y s) s)
  unfolding draw_mark
  draw_mark-Held s e h =
      let across = turned_inside s.last_raw_y h.3 (ground arith) in
      let down = kept_inside s.last_raw_x h.2 (ground arith) in
      (
        Keeps-op m s.memory _
            (mark_Inside (screen_x s) (screen_y s) across.0 across.1 down.0 down.1) h.0,
        h.1,
        h.2,
        h.3,
        h.4,
      )

  draw_widget-Held :
      (id : ButtonId) (pressed : Bool) (s : Switcher)
      → Held m b s
      → Held m b (draw_widget id pressed s)
  unfolding draw_widget
  draw_widget-Held id pressed s h = (
    Keeps-op m s.memory (draw_button_widget s.texts s.active_app id pressed)
        (draw_button_widget-Inside s.texts s.active_app id pressed h.1) h.0,
    h.1,
    h.2,
    h.3,
    h.4,
  )

  redraw_music-Held : (sys : System) (s : Switcher) → Held m b s → Held m b (redraw_music sys s)
  unfolding redraw_music
  redraw_music-Held sys s h =
      let music = query_music_status (sys.music s.queries) in
      (
        Keeps-op m s.memory (draw_music_section music s.active_app)
            (draw_music_section-Inside music s.active_app
              (query_music_status-status (sys.music s.queries)))
            h.0,
        music_texts-TextsFit music,
        h.2,
        h.3,
        h.4,
      )

  highlight-Held : (o : Option ButtonId) (s : Switcher) → Held m b s → Held m b (highlight o s)
  unfolding highlight
  highlight-Held none s h = h
  highlight-Held (some id) s h = draw_widget-Held id true s h

  pub unhighlight-Held :
      (o : Option ButtonId) (s : Switcher) → Held m b s → Held m b (unhighlight o s)
  unfolding unhighlight
  unhighlight-Held none s h = h
  unhighlight-Held (some id) s h = draw_widget-Held id false s h

  pub touch_press-Held : (s : Switcher) → Held m b s → Held m b (touch_press s)
  unfolding touch_press
  touch_press-Held s h = elim (Bool-cases (has_position s)) [
    | inl here ↦
        let t : Switcher = record s { was_contact_down = true } in
        rw here (highlight-Held (button_at (screen_x s) (screen_y s)) _ (draw_mark-Held t here h))
    | inr nowhere ↦ rw nowhere h
  ]

  perform-Held :
      (sys : System) (id : ButtonId) (s : Switcher) → Held m b s → Held m b (perform sys id s)
  unfolding perform
  perform-Held sys btn_music_prev s h = redraw_music-Held sys (act _ s) h
  perform-Held sys btn_music_play s h = redraw_music-Held sys (act _ s) h
  perform-Held sys btn_music_next s h = redraw_music-Held sys (act _ s) h
  perform-Held sys btn_music_shuffle s h = redraw_music-Held sys (act _ s) h
  perform-Held sys btn_frontlight s h = h
  perform-Held sys btn_koreader s h = h
  perform-Held sys btn_plato s h = h
  perform-Held sys btn_netsurf s h = h
  perform-Held sys btn_close s h = h

  pub perform_target-Held :
      (sys : System) (o : Option ButtonId) (s : Switcher)
      → Held m b s
      → Held m b (perform_target sys o s)
  unfolding perform_target
  perform_target-Held sys none s h = h
  perform_target-Held sys (some id) s h = perform-Held sys id s h
