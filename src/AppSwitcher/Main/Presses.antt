-- ===== src/AppSwitcher/Main/Presses.antt =====
-- What the press and the release of a finger do in components/system/src/app-switcher.c.
use nookobo.Prelude.{
  ℕ, ◌≡◌, refl, ap, ◌∙◌, Bool, true, false, Option, none, some, if◌then◌else◌, arith,
}
use nookobo.AppSwitcher.Buttons.{
  ButtonId, btn_koreader, btn_plato, btn_netsurf, btn_music_prev, btn_music_play, btn_music_next,
  btn_music_shuffle, btn_frontlight, btn_close, button, button_at,
}
use nookobo.AppSwitcher.Buttons.Hits.{OnButton}
use nookobo.AppSwitcher.Session.{Switcher, System, draw_widget}
use nookobo.AppSwitcher.Touch.{
  screen_x, screen_y, has_position, draw_mark, highlight, unhighlight, touch_press, outside_dialog,
  perform, target, perform_target, touch_release, choose,
}

-- The buttons that end the program.
abbrev pub leaves : ButtonId → Bool
leaves btn_koreader = true
leaves btn_plato = true
leaves btn_netsurf = true
leaves btn_close = true
leaves _ = false

-- The button is pressed and nothing else changed that the release reads.
abbrev pub Pressed : ButtonId → Switcher → Switcher → Type 0
Pressed id s t =
    (t.was_contact_down ≡ true)
    × (t.active_pressed_btn ≡ some id)
    × (t.running ≡ s.running)
    × (t.last_raw_x ≡ s.last_raw_x)
    × (t.last_raw_y ≡ s.last_raw_y)

Pressed-if :
    (id : ButtonId) (c : Bool) (o : Option ButtonId) (x y : ℕ) (s : Switcher)
    → c ≡ true
    → o ≡ some id
    → let t : Switcher = record s { was_contact_down = true } in
      Pressed id s
        (if c then highlight o (record (draw_mark x y t) { active_pressed_btn = o }) else t)
unfolding highlight draw_widget draw_mark
Pressed-if id true none x y s h found = cc
Pressed-if id true (some i) x y s h found = (refl, found, refl, refl, refl)
Pressed-if id false o x y s h found = cc

pub touch_press-Pressed :
    (id : ButtonId) (s : Switcher)
    → has_position s ≡ true
    → button_at (screen_x s) (screen_y s) ≡ some id
    → Pressed id s (touch_press s)
unfolding touch_press
touch_press-Pressed id s h found =
    Pressed-if id (has_position s) (button_at (screen_x s) (screen_y s)) (screen_x s) (screen_y s) s
      h found

perform-leaves :
    (sys : System) (id : ButtonId) (s : Switcher)
    → leaves id ≡ true
    → perform sys id s ≡ choose id s
unfolding perform
perform-leaves sys btn_koreader s l = refl
perform-leaves sys btn_plato s l = refl
perform-leaves sys btn_netsurf s l = refl
perform-leaves sys btn_close s l = refl
perform-leaves sys btn_music_prev s l = cc
perform-leaves sys btn_music_play s l = cc
perform-leaves sys btn_music_next s l = cc
perform-leaves sys btn_music_shuffle s l = cc
perform-leaves sys btn_frontlight s l = cc

-- The program leaves its loop with that button chosen.
abbrev pub Left : ButtonId → Switcher → Type 0
Left id t = (t.chosen_action ≡ some id) × (t.running ≡ false)

Left-if :
    (sys : System) (id : ButtonId) (c out : Bool) (o : Option ButtonId) (x y : ℕ) (s : Switcher)
    → leaves id ≡ true
    → c ≡ true
    → out ≡ false
    → o ≡ some id
    → Left id (
        if c
        then (if out
            then choose btn_close (unhighlight o s)
            else record (perform_target sys (target o x y) (unhighlight o s)) {
              active_pressed_btn = none;
            })
        else s)
unfolding target perform_target
Left-if sys id true false (some i) x y s l h k e =
    let same : i ≡ id = cc in
    let chosen = perform-leaves sys i (unhighlight (some i) s) (rw same l) in
    (ap (λ r. r.chosen_action) chosen ∙ e, ap (λ r. r.running) chosen)
Left-if sys id true false none x y s l h k e = cc
Left-if sys id true true o x y s l h k e = cc
Left-if sys id false out o x y s l h k e = cc

-- The release leaves the program if the button is one that does.
pub touch_release-Left :
    (sys : System) (id : ButtonId) (s : Switcher)
    → leaves id ≡ true
    → has_position s ≡ true
    → outside_dialog (screen_x s) (screen_y s) ≡ false
    → s.active_pressed_btn ≡ some id
    → Left id (touch_release sys s)
unfolding touch_release
touch_release-Left sys id s l h out pressed =
    Left-if sys id (has_position s) (outside_dialog (screen_x s) (screen_y s)) s.active_pressed_btn
      (screen_x s) (screen_y s) (record s { was_contact_down = false }) l h out pressed

-- A button is inside the dialog.
pub OnButton-inside : (id : ButtonId) (x y : ℕ) → OnButton id x y → outside_dialog x y ≡ false
unfolding button
OnButton-inside btn_koreader x y h = ground arith
OnButton-inside btn_plato x y h = ground arith
OnButton-inside btn_netsurf x y h = ground arith
OnButton-inside btn_music_prev x y h = ground arith
OnButton-inside btn_music_play x y h = ground arith
OnButton-inside btn_music_next x y h = ground arith
OnButton-inside btn_music_shuffle x y h = ground arith
OnButton-inside btn_frontlight x y h = ground arith
OnButton-inside btn_close x y h = ground arith
