-- ===== src/AppSwitcher/Main/Closes.antt =====
-- When the dialog of components/system/src/app-switcher.c is closed, the screen is what it was.
use nookobo.Prelude.{
  ℕ, ◌≤◌, ◌≡◌, refl, sym, ap, ap₂, ◌∙◌, Bool, true, false, Option, none, some, List, length,
  if◌then◌else◌, inl, inr, arith,
}
use nookobo.Prelude.Text.{codes, text_eq}
use nookobo.Watcher.Canvas.{Mem}
use nookobo.Watcher.Canvas.Keeps.{Keeps}
use nookobo.Watcher.Area.{save_area, restore_area-save_area}
use nookobo.Watcher.Apps.{Files}
use nookobo.AppSwitcher.Buttons.{
  ButtonId, btn_koreader, btn_plato, btn_netsurf, btn_music_prev, btn_music_play, btn_music_next,
  btn_music_shuffle, btn_frontlight, btn_close, initial_texts,
}
use nookobo.AppSwitcher.Status.{
  query_music_status-status, query_battery_status, length-query_battery_status, query_music_status,
}
use nookobo.AppSwitcher.Dialog.{dlg_x, dlg_y, dlg_w, dlg_h, draw_dialog}
use nookobo.AppSwitcher.Dialog.InBox.{draw_dialog-Inside, music_texts-TextsFit}
use nookobo.AppSwitcher.Session.{
  Switcher, System, Signal, stop_signal, continue_signal, signal_active, suspend_active_app,
  resume_active_app, open_dialog, save_backup, restore_memory, restore_screen,
}
use nookobo.AppSwitcher.Main.{Round, rounds, start, prepare, finish, main}
use nookobo.AppSwitcher.Main.Held.{rounds_inside, Held, Keeps-op}
use nookobo.AppSwitcher.Main.Restores.{if_Held, rounds-Held}
use nookobo.AppSwitcher.Main.Resumes.{main_cases, redrawn, finish-SameChoice}

-- The button resumes the active app: it is not one that starts another.
abbrev pub resumes : List ℕ → Option ButtonId → Bool
resumes active (some btn_koreader) = text_eq active (codes "koreader")
resumes active (some btn_plato) = text_eq active (codes "plato")
resumes active (some btn_netsurf) = false
resumes active c = true

finish-resumes :
    (c : Option ButtonId) (s : Switcher)
    → resumes s.active_app c ≡ true
    → finish c s ≡ restore_screen s
unfolding finish
finish-resumes (some btn_koreader) s h = rw h
finish-resumes (some btn_plato) s h = rw h
finish-resumes (some btn_netsurf) s h = cc
finish-resumes none s h = refl
finish-resumes (some btn_music_prev) s h = refl
finish-resumes (some btn_music_play) s h = refl
finish-resumes (some btn_music_next) s h = refl
finish-resumes (some btn_music_shuffle) s h = refl
finish-resumes (some btn_frontlight) s h = refl
finish-resumes (some btn_close) s h = refl

if_memory :
    (c : Bool) (t u : Switcher) (v : Mem)
    → t.memory ≡ v
    → u.memory ≡ v
    → (if c then t else u).memory ≡ v
if_memory true t u v h k = h
if_memory false t u v h k = k

signal_active-memory : (sig : Signal) (s : Switcher) → (signal_active sig s).memory ≡ s.memory
unfolding signal_active
signal_active-memory sig s = if_memory (text_eq s.active_app (codes "koreader")) _ _ s.memory refl (
    if_memory (text_eq s.active_app (codes "plato")) _ _ s.memory refl
      (if_memory (text_eq s.active_app (codes "netsurf")) _ s s.memory refl refl))

restore_screen-memory :
    (s : Switcher) → (restore_screen s).memory ≡ restore_memory s.backup s.memory
unfolding restore_screen resume_active_app
restore_screen-memory s = signal_active-memory continue_signal (redrawn s)

signal_active-Held :
    (m : Mem) (b : Option Mem) (sig : Signal) (s : Switcher)
    → Held m b s
    → Held m b (signal_active sig s)
unfolding signal_active
signal_active-Held m b sig s h = if_Held m b (text_eq s.active_app (codes "koreader")) _ _ h (
    if_Held m b (text_eq s.active_app (codes "plato")) _ _ h
      (if_Held m b (text_eq s.active_app (codes "netsurf")) _ s h h))

Kept : (m : Mem) → Keeps 132 200 1140 1470 m m
Kept m i out = refl

suspend_active_app-Held :
    (files : Files) (m : Mem) → Held m none (suspend_active_app (start files m))
unfolding suspend_active_app start initial_texts
suspend_active_app-Held files m =
    signal_active-Held m none stop_signal (start files m)
      (Kept m, (omega arith, omega arith), refl, refl, refl)

open_dialog-Held :
    (m : Mem) (b : Option Mem) (sys : System) (s : Switcher)
    → ((n : ℕ) → n ≤ 100 → length (sys.digits n) ≤ 3)
    → Held m b s
    → Held m b (open_dialog sys s)
unfolding open_dialog
open_dialog-Held m b sys s d h =
    let output = sys.music s.queries in
    let music = query_music_status output in
    let battery = query_battery_status sys.digits sys.battery in
    let drawn =
      draw_dialog-Inside s.texts music battery s.active_app h.1 (query_music_status-status output)
        (length-query_battery_status sys.digits sys.battery d) in
    (
      Keeps-op m s.memory (draw_dialog s.texts music battery s.active_app) drawn h.0,
      music_texts-TextsFit music,
      h.2,
      h.3,
      h.4,
    )

prepare-Held :
    (m : Mem) (sys : System) (room : Mem) (s : Switcher)
    → sys.room ≡ some room
    → ((n : ℕ) → n ≤ 100 → length (sys.digits n) ≤ 3)
    → Held m none s
    → Held s.memory (some (save_area dlg_x dlg_y dlg_w dlg_h s.memory room)) (prepare sys s)
unfolding prepare save_backup
prepare-Held m sys room s e d h =
    let b = some (save_area dlg_x dlg_y dlg_w dlg_h s.memory room) in
    let saved : Held s.memory b (save_backup sys.room s) =
      rw e (Kept s.memory, h.1, h.2, h.3, refl) in
    open_dialog-Held s.memory b sys (save_backup sys.room s) d saved

restored :
    (m room : Mem) (s : Switcher) (i : ℕ)
    → Held m (some (save_area dlg_x dlg_y dlg_w dlg_h m room)) s
    → (restore_screen s).memory i ≡ m i
unfolding restore_memory
restored m room s i h =
    ap (λ f. f i) (restore_screen-memory s)
    ∙ ap (λ b. restore_memory b s.memory i) h.4
    ∙ restore_area-save_area dlg_x dlg_y dlg_w dlg_h m room s.memory (omega arith) h.0 i

-- The whole run gives the screen back: if the dialog was closed, or KOReader or Plato was active and
-- was chosen again, every pixel is what it was at the start. It needs memory for the backup, that `%d` prints numbers
-- up to 100 in at most three characters, and that every reported position is inside the dialog by
-- the six pixels of the mark that is drawn under the finger.
pub main_restores :
    (sys : System) (files : Files) (m room : Mem) (rs : List Round) (code : ℕ) (t : Switcher)
    → sys.room ≡ some room
    → ((n : ℕ) → n ≤ 100 → length (sys.digits n) ≤ 3)
    → rounds_inside rs ≡ true
    → main sys files m rs ≡ some (code, t)
    → resumes t.active_app t.chosen_action ≡ true
    → (i : ℕ) → t.memory i ≡ m i
unfolding suspend_active_app resume_active_app start
main_restores sys files m room rs code t e d within run chosen i =
    let s = suspend_active_app (start files m) in
    let u = rounds sys rs (prepare sys s) in
    let same = finish-SameChoice u.chosen_action u in
    let start_memory = signal_active-memory stop_signal (start files m) in
    let held =
      rounds-Held s.memory _ sys rs (prepare sys s) within
        (prepare-Held m sys room s e d (suspend_active_app-Held files m)) in
    elim (main_cases sys files m rs code t run) [
      | inl x ↦
          let resumed =
            ap₂ resumes (sym same.0 ∙ ap (λ r. r.active_app) x)
              (sym same.1 ∙ ap (λ r. r.chosen_action) x)
            ∙ chosen in
          ap (λ r. r.memory i) (sym x)
          ∙ ap (λ r. r.memory i) (finish-resumes u.chosen_action u resumed)
          ∙ restored s.memory room u i held
          ∙ ap (λ f. f i) start_memory
      | inr y ↦
          ap (λ r. r.memory i) (sym y)
          ∙ ap (λ f. f i) (signal_active-memory continue_signal s)
          ∙ ap (λ f. f i) start_memory
    ]
