-- ===== src/AppSwitcher/Main/Resumes.antt =====
-- No process stays stopped when components/system/src/app-switcher.c exits, unless NetSurf is
-- launched from NetSurf.
use nookobo.Prelude.{
  ℕ, ◌≡◌, ◌≢◌, refl, sym, ap, ◌∙◌, Bool, true, false, Option, none, some, List, ◌&&◌, if◌then◌else◌,
  ◌⊎◌, inl, inr, arith,
}
use nookobo.Prelude.Text.{codes, text_eq}
use nookobo.Watcher.Canvas.{Mem}
use nookobo.Watcher.Apps.{Files, get_active_app}
use nookobo.AppSwitcher.Buttons.{
  ButtonId, btn_koreader, btn_plato, btn_netsurf, btn_music_prev, btn_music_play, btn_music_next,
  btn_music_shuffle, btn_frontlight, btn_close,
}
use nookobo.Prelude.Int.{pos}
use nookobo.AppSwitcher.Dialog.{dlg_x, dlg_y, dlg_w, dlg_h}
use nookobo.AppSwitcher.Session.{
  luajit, restore_memory, Switcher, System, act, killall, shell, refresh, Signal, stop_signal,
  continue_signal, kill_signal, Process, ld, plato_bin, netsurf_fb, signal_active,
  suspend_active_app, resume_active_app, restore_screen,
}
use nookobo.AppSwitcher.Main.{
  start, Round, rounds, switch_to_koreader, switch_to_plato, launch_netsurf, finish, prepare, main,
}
use nookobo.AppSwitcher.Main.Exits.{
  last_signal-act-act, kill_readers, runs_in, Suspended, Awake, continued, finish-Awake,
  last_signal-signal_active,
}
use nookobo.AppSwitcher.Main.Signals.{last_signal, Quiet, rounds-Quiet, prepare-Quiet}

-- Only the log changed.
abbrev SameChoice : Switcher → Switcher → Type 0
SameChoice s t = (t.active_app ≡ s.active_app) × (t.chosen_action ≡ s.chosen_action)

if_SameChoice :
    (b : Bool) (s t u : Switcher)
    → SameChoice s t
    → SameChoice s u
    → SameChoice s (if b then t else u)
if_SameChoice true s t u h k = h
if_SameChoice false s t u h k = k

chain_SameChoice :
    (k l n : Bool) (sig : Signal) (s : Switcher)
    → SameChoice s (
        if k
        then act (killall sig luajit) s
        else if l
        then act (killall sig plato_bin) (act (killall sig ld) s)
        else if n
        then act (killall sig netsurf_fb) s
        else s)
chain_SameChoice true l n sig s = (refl, refl)
chain_SameChoice false true n sig s = (refl, refl)
chain_SameChoice false false true sig s = (refl, refl)
chain_SameChoice false false false sig s = (refl, refl)

signal_active-SameChoice : (sig : Signal) (s : Switcher) → SameChoice s (signal_active sig s)
unfolding signal_active
signal_active-SameChoice sig s =
    chain_SameChoice (text_eq s.active_app (codes "koreader"))
      (text_eq s.active_app (codes "plato")) (text_eq s.active_app (codes "netsurf")) sig s

abbrev pub redrawn : Switcher → Switcher
redrawn s =
    act (refresh (pos dlg_x) (pos dlg_y) dlg_w dlg_h 1)
      (record s { memory = restore_memory s.backup s.memory })

restore_screen-SameChoice : (s : Switcher) → SameChoice s (restore_screen s)
unfolding restore_screen resume_active_app
restore_screen-SameChoice s = signal_active-SameChoice continue_signal (redrawn s)

pub finish-SameChoice : (c : Option ButtonId) (s : Switcher) → SameChoice s (finish c s)
unfolding finish switch_to_koreader switch_to_plato launch_netsurf
finish-SameChoice (some btn_koreader) s =
    if_SameChoice _ s (restore_screen s) _ (restore_screen-SameChoice s) (refl, refl)
finish-SameChoice (some btn_plato) s =
    if_SameChoice _ s (restore_screen s) _ (restore_screen-SameChoice s) (refl, refl)
finish-SameChoice (some btn_netsurf) s = (refl, refl)
finish-SameChoice none s = restore_screen-SameChoice s
finish-SameChoice (some btn_music_prev) s = restore_screen-SameChoice s
finish-SameChoice (some btn_music_play) s = restore_screen-SameChoice s
finish-SameChoice (some btn_music_next) s = restore_screen-SameChoice s
finish-SameChoice (some btn_music_shuffle) s = restore_screen-SameChoice s
finish-SameChoice (some btn_frontlight) s = restore_screen-SameChoice s
finish-SameChoice (some btn_close) s = restore_screen-SameChoice s

suspend_active_app-Suspended :
    (p : Process) (files : Files) (m : Mem) → Suspended p (suspend_active_app (start files m))
unfolding suspend_active_app start
suspend_active_app-Suspended p files m =
    let s = start files m in
    last_signal-signal_active p stop_signal s
    ∙ ap (λ a. if runs_in a p then some stop_signal else none)
        (sym (signal_active-SameChoice stop_signal s).0)

Suspended-Quiet : (p : Process) (s t : Switcher) → Suspended p s → Quiet p s t → Suspended p t
Suspended-Quiet p s t h q =
    q.0 ∙ h ∙ ap (λ a. if runs_in a p then some stop_signal else none) (sym q.1)

exit_state :
    (opened running : Bool) (code : ℕ) (x y t : Switcher)
    → if◌then◌else◌ {A = Option (ℕ × Switcher)} opened
        (if running then none else some (0, x))
        (some (1, y))
      ≡ some (code, t)
    → (x ≡ t) ⊎ (y ≡ t)
exit_state opened running code x y t h = ground arith

-- The exit from the loop, in terms of the state at the exit.
finished_Awake :
    (p : Process) (u t : Switcher) (active : List ℕ)
    → Suspended p u
    → u.active_app ≡ active
    → finish u.chosen_action u ≡ t
    → (active ≢ codes "netsurf") ⊎ (t.chosen_action ≢ some btn_netsurf)
    → Awake p t
finished_Awake p u t active h a x o e =
    let same = finish-SameChoice u.chosen_action u in
    let before =
      elim o as (λ c. (u.active_app ≢ codes "netsurf") ⊎ (u.chosen_action ≢ some btn_netsurf)) [
        | inl n ↦ inl (λ k. n (sym a ∙ k))
        | inr c ↦ inr (λ k. c (ap (λ s. s.chosen_action) (sym x) ∙ same.1 ∙ k))
      ] in
    finish-Awake p u.chosen_action u h before (ap (λ s. last_signal p s.log) x ∙ e)

resumed_Awake : (p : Process) (s : Switcher) → Suspended p s → Awake p (resume_active_app s)
unfolding resume_active_app
resumed_Awake p s h e =
    continued (runs_in s.active_app p) (last_signal p s.log) h
      (sym (last_signal-signal_active p continue_signal s) ∙ e)

rounds-Suspended :
    (p : Process) (sys : System) (files : Files) (m : Mem) (rs : List Round)
    → Suspended p (rounds sys rs (prepare sys (suspend_active_app (start files m))))
rounds-Suspended p sys files m rs =
    let s = suspend_active_app (start files m) in
    let u = prepare sys s in
    Suspended-Quiet p u (rounds sys rs u)
      (Suspended-Quiet p s u (suspend_active_app-Suspended p files m) (prepare-Quiet p sys s))
      (rounds-Quiet p sys rs u)

rounds_active :
    (sys : System) (files : Files) (m : Mem) (rs : List Round)
    → (rounds sys rs (prepare sys (suspend_active_app (start files m)))).active_app
      ≡ get_active_app files
unfolding suspend_active_app start
rounds_active sys files m rs =
    let s = suspend_active_app (start files m) in
    (rounds-Quiet luajit sys rs (prepare sys s)).1
    ∙ (prepare-Quiet luajit sys s).1
    ∙ (signal_active-SameChoice stop_signal (start files m)).0

-- The two ways to exit.
pub main_cases :
    (sys : System) (files : Files) (m : Mem) (rs : List Round) (code : ℕ) (t : Switcher)
    → main sys files m rs ≡ some (code, t)
    → let s = suspend_active_app (start files m) in
      let u = rounds sys rs (prepare sys s) in
      (finish u.chosen_action u ≡ t) ⊎ (resume_active_app s ≡ t)
unfolding main
main_cases sys files m rs code t e =
    let s = suspend_active_app (start files m) in
    let u = rounds sys rs (prepare sys s) in
    exit_state (sys.fb_opens && sys.fb_maps) u.running code (finish u.chosen_action u)
      (resume_active_app s) t e

-- When the program exits, no process is left stopped: the last of the signals STOP, CONT and KILL
-- that a process got, if any, is not STOP. This needs that NetSurf is not the active app or that
-- NetSurf is not what was chosen.
pub main_Awake :
    (sys : System) (files : Files) (m : Mem) (rs : List Round) (code : ℕ) (t : Switcher)
    → main sys files m rs ≡ some (code, t)
    → (get_active_app files ≢ codes "netsurf") ⊎ (t.chosen_action ≢ some btn_netsurf)
    → (p : Process) → last_signal p t.log ≢ some stop_signal
main_Awake sys files m rs code t e o p k = elim (main_cases sys files m rs code t e) [
  | inl x ↦
      finished_Awake p _ t (get_active_app files) (rounds-Suspended p sys files m rs)
        (rounds_active sys files m rs) x o k
  | inr y ↦
      resumed_Awake p _ (suspend_active_app-Suspended p files m)
        (ap (λ r. last_signal p r.log) y ∙ k)
]

signals_lost :
    (s : Switcher) → last_signal netsurf_fb (launch_netsurf s).log ≡ last_signal netsurf_fb s.log
unfolding launch_netsurf
signals_lost s =
    last_signal-act-act netsurf_fb (killall kill_signal luajit)
      (shell (codes "/opt/start_browser.sh &")) (kill_readers s).log
    ∙ last_signal-act-act netsurf_fb (killall kill_signal ld) (killall kill_signal plato_bin) s.log

finished_netsurf :
    (u t : Switcher)
    → Suspended netsurf_fb u
    → u.active_app ≡ codes "netsurf"
    → finish u.chosen_action u ≡ t
    → t.chosen_action ≡ some btn_netsurf
    → last_signal netsurf_fb t.log ≡ some stop_signal
unfolding finish text_eq
finished_netsurf u t h active x c =
    let same = finish-SameChoice u.chosen_action u in
    let chosen = sym same.1 ∙ ap (λ s. s.chosen_action) x ∙ c in
    ap (λ s. last_signal netsurf_fb s.log) (sym x)
    ∙ ap (λ o. last_signal netsurf_fb (finish o u).log) chosen
    ∙ signals_lost u
    ∙ h
    ∙ ap (λ n. if runs_in n netsurf_fb then some stop_signal else none) active

resumed_chosen :
    (files : Files) (m : Mem)
    → (resume_active_app (suspend_active_app (start files m))).chosen_action ≢ some btn_netsurf
unfolding resume_active_app suspend_active_app start
resumed_chosen files m e =
    let s = start files m in
    let none_chosen : Option.none ≡ some btn_netsurf =
      sym (
        (signal_active-SameChoice continue_signal (signal_active stop_signal s)).1
        ∙ (signal_active-SameChoice stop_signal s).1)
      ∙ e in
    cc

-- When the program exits with NetSurf as the active app and NetSurf chosen, the last signal that
-- netsurf-fb got is STOP: it is neither continued nor killed.
pub main_netsurf_stopped :
    (sys : System) (files : Files) (m : Mem) (rs : List Round) (code : ℕ) (t : Switcher)
    → main sys files m rs ≡ some (code, t)
    → get_active_app files ≡ codes "netsurf"
    → t.chosen_action ≡ some btn_netsurf
    → last_signal netsurf_fb t.log ≡ some stop_signal
main_netsurf_stopped sys files m rs code t e a c = elim (main_cases sys files m rs code t e) [
  | inl x ↦
      finished_netsurf _ t (rounds-Suspended netsurf_fb sys files m rs)
        (rounds_active sys files m rs ∙ a) x c
  | inr y ↦ absurd (resumed_chosen files m (ap (λ r. r.chosen_action) y ∙ c))
]
