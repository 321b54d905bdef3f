-- ===== src/AppSwitcher/Main/Ends.antt =====
-- A tap on a button that leaves the dialog of components/system/src/app-switcher.c ends the program.
use nookobo.Prelude.{
  ℕ, ◌-◌, ◌≤◌, ◌≡◌, refl, sym, ap, ap₂, map, ◌++◌, ◌∙◌, Bool, true, false, Option, none, some, List,
  [], ◌∷◌, ◌&&◌, if◌then◌else◌,
}
use nookobo.Prelude.Text.{codes, text_eq}
use nookobo.Watcher.Canvas.{Mem}
use nookobo.Watcher.Apps.{Files}
use nookobo.AppSwitcher.Buttons.{ButtonId}
use nookobo.AppSwitcher.Buttons.Hits.{OnButton}
use nookobo.AppSwitcher.Session.{
  Switcher, System, Signal, stop_signal, signal_active, suspend_active_app, open_dialog,
  save_backup,
}
use nookobo.AppSwitcher.Touch.{TouchEvent, touch_event, touch_events}
use nookobo.AppSwitcher.Main.{Round, touches, round, rounds, start, prepare, finish, main}
use nookobo.AppSwitcher.Main.Presses.{leaves}
use nookobo.AppSwitcher.Main.Taps.{tap, touch_events-tap}
use nookobo.AppSwitcher.Main.Resumes.{finish-SameChoice}

rounds_left :
    (sys : System) (rs : List Round) (s : Switcher) → s.running ≡ false → rounds sys rs s ≡ s
unfolding rounds
rounds_left sys [] s h = refl
rounds_left sys (r ∷ rs) s h = ap (λ c. if c then rounds sys rs (round sys r s) else s) h

-- The rounds after some rounds.
rounds_append :
    (sys : System) (before after : List Round) (s : Switcher)
    → rounds sys (before ++ after) s ≡ rounds sys after (rounds sys before s)
unfolding rounds
rounds_append sys [] after s = refl
rounds_append sys (r ∷ before) after s =
    either s.running (rounds sys after) (λ e. rounds_append sys before after (round sys r s))
      (λ e. sym (rounds_left sys after s e))
  where
    either :
        (c : Bool) {x y z : Switcher} (k : Switcher → Switcher)
        → (c ≡ true → x ≡ k y)
        → (c ≡ false → z ≡ k z)
        → (if c then x else z) ≡ k (if c then y else z)
    either true k h1 h2 = h1 refl
    either false k h1 h2 = h2 refl

-- The events that some reads return.
abbrev pub joined : List (List TouchEvent) → List TouchEvent
joined [] = []
joined (es ∷ reads) = es ++ joined reads

choose_left : (c : Bool) (t u : Switcher) → c ≡ true → t ≡ (if c then t else u)
choose_left true t u h = refl
choose_left false t u h = cc

choose_right : (c : Bool) (t u : Switcher) → c ≡ false → u ≡ (if c then t else u)
choose_right true t u h = cc
choose_right false t u h = refl

touch_events_append :
    (sys : System) (before after : List TouchEvent) (s : Switcher)
    → s.running ≡ true
    → let t = touch_events sys before s in
      touch_events sys (before ++ after) s ≡ (if t.running then touch_events sys after t else t)
unfolding touch_events
touch_events_append sys [] after s run = choose_left s.running _ s run
touch_events_append sys (e ∷ before) after s run =
    let t = touch_event sys e s in
    stays t.running t refl (touch_events sys (before ++ after) t) (touch_events sys before t)
      (touch_events sys after) (touch_events_append sys before after t)
  where
    stays :
        (c : Bool) (t : Switcher)
        → t.running ≡ c
        → (whole first : Switcher) (next : Switcher → Switcher)
        → (t.running ≡ true → whole ≡ (if first.running then next first else first))
        → let u = if c then first else t in
          (if c then whole else t) ≡ (if u.running then next u else u)
    stays true t e whole first next h = h e
    stays false t e whole first next h = choose_right t.running (next t) t e

-- Events come to the same however they are split over reads.
rounds-reads :
    (sys : System) (reads : List (List TouchEvent)) (rs : List Round) (s : Switcher)
    → sys.touch_opens ≡ true
    → s.running ≡ true
    → rounds sys (map touches reads ++ rs) s ≡ rounds sys rs (touch_events sys (joined reads) s)
unfolding rounds round touch_events
rounds-reads sys [] rs s opens run = refl
rounds-reads sys (es ∷ reads) rs s opens run =
    let t = touch_events sys es s in
    let later = map touches reads ++ rs in
    ap (λ c. if c then rounds sys later (round sys (touches es) s) else s) run
    ∙ ap (λ c. rounds sys later (if c then t else s)) opens
    ∙ either t.running (rounds sys rs) (λ e. rounds-reads sys reads rs t opens e)
        (λ e. rounds_left sys later t e ∙ sym (rounds_left sys rs t e))
    ∙ ap (rounds sys rs) (sym (touch_events_append sys es (joined reads) s run))
  where
    either :
        (c : Bool) {x y z : Switcher} (k : Switcher → Switcher)
        → (c ≡ true → x ≡ k y)
        → (c ≡ false → x ≡ k z)
        → x ≡ k (if c then y else z)
    either true k h1 h2 = h1 refl
    either false k h1 h2 = h2 refl

-- The loop goes on and no finger is down.
abbrev pub Ready : Switcher → Type 0
Ready s = (s.running ≡ true) × (s.was_contact_down ≡ false)

if_Ready : (c : Bool) (t u : Switcher) → Ready t → Ready u → Ready (if c then t else u)
if_Ready true t u h k = h
if_Ready false t u h k = k

signal_active-Ready : (sig : Signal) (s : Switcher) → Ready s → Ready (signal_active sig s)
unfolding signal_active
signal_active-Ready sig s h = if_Ready (text_eq s.active_app (codes "koreader")) _ _ h (
    if_Ready (text_eq s.active_app (codes "plato")) _ _ h
      (if_Ready (text_eq s.active_app (codes "netsurf")) _ s h h))

save_backup-Ready : (room : Option Mem) (s : Switcher) → Ready s → Ready (save_backup room s)
unfolding save_backup
save_backup-Ready none s h = h
save_backup-Ready (some b) s h = h

pub prepare-Ready :
    (sys : System) (files : Files) (m : Mem)
    → Ready (prepare sys (suspend_active_app (start files m)))
unfolding prepare open_dialog suspend_active_app start
prepare-Ready sys files m =
    save_backup-Ready sys.room (signal_active stop_signal (start files m))
      (signal_active-Ready stop_signal (start files m) (refl, refl))

-- A round without touches.
pub rounds_idle : (sys : System) (s : Switcher) → Ready s → Ready (rounds sys (touches [] ∷ []) s)
unfolding rounds round touch_events
rounds_idle sys s h =
    if_Ready s.running (round sys (touches []) s) s (if_Ready sys.touch_opens s s h h) h

main_exits :
    (opened running : Bool) (x y : Switcher)
    → opened ≡ true
    → running ≡ false
    → if◌then◌else◌ {A = Option (ℕ × Switcher)} opened
        (if running then none else some (0, x))
        (some (1, y))
      ≡ some (0, x)
main_exits opened running x y h k = rw (h, k)

-- The program ends when a button that leaves the dialog is tapped, at the start or after any rounds
-- after which the loop still runs and no finger is down: if the panel and the touch panel opened,
-- then, whatever comes after the tap, it exits with code 0 and with that button chosen. The tap is on
-- the button, more than 15 pixels from its left border; its events may be split over several reads.
pub main-tap :
    (sys : System) (files : Files) (m : Mem) (before : List Round) (id : ButtonId) (raw_x raw_y : ℕ)
    (reads : List (List TouchEvent)) (rs : List Round)
    → sys.fb_opens ≡ true
    → sys.fb_maps ≡ true
    → sys.touch_opens ≡ true
    → leaves id ≡ true
    → raw_x ≤ 1871
    → raw_y ≤ 1403
    → OnButton id (1403 - raw_y) raw_x
    → joined reads ≡ tap raw_x raw_y
    → (rounds sys before (prepare sys (suspend_active_app (start files m)))).running ≡ true
    → (rounds sys before (prepare sys (suspend_active_app (start files m)))).was_contact_down
      ≡ false
    → (t : Switcher) × (main sys files m (before ++ (map touches reads ++ rs)) ≡ some (0, t))
      × (t.chosen_action ≡ some id)
unfolding main
main-tap sys files m before id raw_x raw_y reads rs o1 o2 o3 l h1 h2 on split runs up =
    let first = prepare sys (suspend_active_app (start files m)) in
    let s = rounds sys before first in
    let u = rounds sys (before ++ (map touches reads ++ rs)) first in
    let tapped = touch_events sys (tap raw_x raw_y) s in
    let left = touch_events-tap sys id raw_x raw_y s l h1 h2 on runs up in
    let ended : u ≡ tapped =
      rounds_append sys before (map touches reads ++ rs) first
      ∙ rounds-reads sys reads rs s o3 runs
      ∙ ap (λ es. rounds sys rs (touch_events sys es s)) split
      ∙ rounds_left sys rs tapped left.1 in
    let stopped = ap (λ r. r.running) ended ∙ left.1 in
    (
      finish u.chosen_action u,
      main_exits (sys.fb_opens && sys.fb_maps) u.running _ _ (ap₂ ◌&&◌ o1 o2) stopped,
      (finish-SameChoice u.chosen_action u).1 ∙ ap (λ r. r.chosen_action) ended ∙ left.0,
    )
