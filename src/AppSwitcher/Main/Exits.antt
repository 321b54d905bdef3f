-- ===== src/AppSwitcher/Main/Exits.antt =====
-- The signals of each way out of components/system/src/app-switcher.c.
use nookobo.Prelude.{
  ℕ, ◌≡◌, ◌≢◌, refl, sym, ap, ◌∙◌, Bool, true, false, Option, none, some, List, [], ◌∷◌, ◌++◌, ◌||◌,
  if◌then◌else◌, ◌⊎◌, inl, inr, arith, Bool-cases,
}
use nookobo.Prelude.Text.{codes, text_eq, eq_of_text_eq}
use nookobo.AppSwitcher.Buttons.{
  ButtonId, btn_koreader, btn_plato, btn_netsurf, btn_music_prev, btn_music_play, btn_music_next,
  btn_music_shuffle, btn_frontlight, btn_close,
}
use nookobo.AppSwitcher.Session.{
  Switcher, Effect, act, killall, shell, Signal, stop_signal, continue_signal, kill_signal, Process,
  luajit, ld, plato_bin, netsurf_fb, signal_active, resume_active_app, restore_screen,
}
use nookobo.AppSwitcher.Main.{switch_to_koreader, switch_to_plato, launch_netsurf, finish}
use nookobo.AppSwitcher.Main.Signals.{last_signal, last_signal-act, signal_of, same_process}

-- Whether a process is of the active app, from the tests for the three names.
abbrev pub of_active : (k l n : Bool) → Process → Bool
of_active k l n p =
    if k
    then same_process p luajit
    else if l
    then same_process p ld || same_process p plato_bin
    else if n
    then same_process p netsurf_fb
    else false

-- Whether the process is of the app of that name.
abbrev pub runs_in : List ℕ → Process → Bool
runs_in name p =
    of_active (text_eq name (codes "koreader")) (text_eq name (codes "plato"))
      (text_eq name (codes "netsurf")) p

signal_both :
    (p : Process) (sig : Signal) (last : Option Signal)
    → signal_of p (killall sig plato_bin) (signal_of p (killall sig ld) last)
      ≡ (if same_process p ld || same_process p plato_bin then some sig else last)
signal_both luajit sig last = refl
signal_both ld sig last = refl
signal_both plato_bin sig last = refl
signal_both netsurf_fb sig last = refl

signal_active_if :
    (p : Process) (sig : Signal) (s : Switcher) (k l n : Bool)
    → last_signal p
        (if k
          then act (killall sig luajit) s
          else if l
          then act (killall sig plato_bin) (act (killall sig ld) s)
          else if n
          then act (killall sig netsurf_fb) s
          else s).log
      ≡ (if of_active k l n p then some sig else last_signal p s.log)
signal_active_if p sig s true l n = last_signal-act p (killall sig luajit) s.log
signal_active_if p sig s false true n =
    last_signal-act p (killall sig plato_bin) (act (killall sig ld) s).log
    ∙ ap (signal_of p (killall sig plato_bin)) (last_signal-act p (killall sig ld) s.log)
    ∙ signal_both p sig (last_signal p s.log)
signal_active_if p sig s false false true = last_signal-act p (killall sig netsurf_fb) s.log
signal_active_if p sig s false false false = refl

pub last_signal-signal_active :
    (p : Process) (sig : Signal) (s : Switcher)
    → last_signal p (signal_active sig s).log
      ≡ (if runs_in s.active_app p then some sig else last_signal p s.log)
unfolding signal_active
last_signal-signal_active p sig s = signal_active_if p sig s _ _ _

-- The app's processes are stopped, and the others got no signal.
abbrev pub Suspended : Process → Switcher → Type 0
Suspended p s = last_signal p s.log ≡ (if runs_in s.active_app p then some stop_signal else none)

abbrev pub Awake : Process → Switcher → Type 0
Awake p s = last_signal p s.log ≢ some stop_signal

pub continued :
    (b : Bool) (last : Option Signal)
    → last ≡ (if b then some stop_signal else none)
    → (if b then some continue_signal else last) ≢ some stop_signal
continued b last h = ground arith

restore_screen-Awake : (p : Process) (s : Switcher) → Suspended p s → Awake p (restore_screen s)
unfolding restore_screen resume_active_app
restore_screen-Awake p s h e =
    continued (runs_in s.active_app p) _ (last_signal-act p _ s.log ∙ h)
      (sym (last_signal-signal_active p continue_signal _) ∙ e)

killed_koreader :
    (p : Process) (k l n : Bool) (last : Option Signal)
    → last ≡ (if of_active k l n p then some stop_signal else none)
    → k ≡ false
    → signal_of p
        (killall kill_signal netsurf_fb)
        (signal_of p (killall kill_signal plato_bin) (signal_of p (killall kill_signal ld) last))
      ≢ some stop_signal
killed_koreader luajit k l n last h a = ground arith
killed_koreader ld k l n last h a = ground arith
killed_koreader plato_bin k l n last h a = ground arith
killed_koreader netsurf_fb k l n last h a = ground arith

killed_plato :
    (p : Process) (k l n : Bool) (last : Option Signal)
    → last ≡ (if of_active k l n p then some stop_signal else none)
    → l ≡ false
    → signal_of p (killall kill_signal netsurf_fb) (signal_of p (killall kill_signal luajit) last)
      ≢ some stop_signal
killed_plato luajit k l n last h a = ground arith
killed_plato ld k l n last h a = ground arith
killed_plato plato_bin k l n last h a = ground arith
killed_plato netsurf_fb k l n last h a = ground arith

killed_netsurf :
    (p : Process) (k l n : Bool) (last : Option Signal)
    → last ≡ (if of_active k l n p then some stop_signal else none)
    → n ≡ false
    → signal_of p
        (killall kill_signal luajit)
        (signal_of p (killall kill_signal plato_bin) (signal_of p (killall kill_signal ld) last))
      ≢ some stop_signal
killed_netsurf luajit k l n last h a = ground arith
killed_netsurf ld k l n last h a = ground arith
killed_netsurf plato_bin k l n last h a = ground arith
killed_netsurf netsurf_fb k l n last h a = ground arith

pub last_signal-act-act :
    (p : Process) (d e : Effect) (log : List Effect)
    → last_signal p ((log ++ d ∷ []) ++ e ∷ []) ≡ signal_of p e (signal_of p d (last_signal p log))
last_signal-act-act p d e log =
    last_signal-act p e (log ++ d ∷ []) ∙ ap (signal_of p e) (last_signal-act p d log)

abbrev pub kill_readers : Switcher → Switcher
kill_readers s = act (killall kill_signal plato_bin) (act (killall kill_signal ld) s)

switch_to_koreader-Awake :
    (p : Process) (s : Switcher)
    → Suspended p s
    → text_eq s.active_app (codes "koreader") ≡ false
    → Awake p (switch_to_koreader s)
unfolding switch_to_koreader
switch_to_koreader-Awake p s h a e =
    let kills =
      last_signal-act p (killall kill_signal netsurf_fb) (kill_readers s).log
      ∙ ap (signal_of p (killall kill_signal netsurf_fb))
          (last_signal-act-act p (killall kill_signal ld) (killall kill_signal plato_bin) s.log) in
    killed_koreader p _ _ _ (last_signal p s.log) h a (sym kills ∙ e)

switch_to_plato-Awake :
    (p : Process) (s : Switcher)
    → Suspended p s
    → text_eq s.active_app (codes "plato") ≡ false
    → Awake p (switch_to_plato s)
unfolding switch_to_plato
switch_to_plato-Awake p s h a e =
    let kills =
      last_signal-act-act p (killall kill_signal luajit) (killall kill_signal netsurf_fb) s.log in
    killed_plato p _ _ _ (last_signal p s.log) h a (sym kills ∙ e)

launch_netsurf-Awake :
    (p : Process) (s : Switcher)
    → Suspended p s
    → text_eq s.active_app (codes "netsurf") ≡ false
    → Awake p (launch_netsurf s)
unfolding launch_netsurf
launch_netsurf-Awake p s h a e =
    let kills =
      last_signal-act-act p (killall kill_signal luajit) (shell (codes "/opt/start_browser.sh &"))
        (kill_readers s).log
      ∙ ap (signal_of p (killall kill_signal luajit))
          (last_signal-act-act p (killall kill_signal ld) (killall kill_signal plato_bin) s.log) in
    killed_netsurf p _ _ _ (last_signal p s.log) h a (sym kills ∙ e)

if_Awake :
    (p : Process) (b : Bool) (t u : Switcher)
    → Awake p t
    → (b ≡ false → Awake p u)
    → Awake p (if b then t else u)
if_Awake p true t u h k = h
if_Awake p false t u h k = k refl

is_netsurf : (name : List ℕ) → name ≢ codes "netsurf" → text_eq name (codes "netsurf") ≡ false
is_netsurf name h = elim (Bool-cases (text_eq name (codes "netsurf"))) [
  | inl same ↦ absurd (h (eq_of_text_eq name (codes "netsurf") same))
  | inr other ↦ other
]

pub finish-Awake :
    (p : Process) (c : Option ButtonId) (s : Switcher)
    → Suspended p s
    → (s.active_app ≢ codes "netsurf") ⊎ (c ≢ some btn_netsurf)
    → Awake p (finish c s)
unfolding finish
finish-Awake p (some btn_koreader) s h o =
    if_Awake p _ (restore_screen s) (switch_to_koreader s) (restore_screen-Awake p s h)
      (switch_to_koreader-Awake p s h)
finish-Awake p (some btn_plato) s h o =
    if_Awake p _ (restore_screen s) (switch_to_plato s) (restore_screen-Awake p s h)
      (switch_to_plato-Awake p s h)
finish-Awake p (some btn_netsurf) s h (inl o) =
    launch_netsurf-Awake p s h (is_netsurf s.active_app o)
finish-Awake p (some btn_netsurf) s h (inr o) = absurd (o refl)
finish-Awake p none s h o = restore_screen-Awake p s h
finish-Awake p (some btn_music_prev) s h o = restore_screen-Awake p s h
finish-Awake p (some btn_music_play) s h o = restore_screen-Awake p s h
finish-Awake p (some btn_music_next) s h o = restore_screen-Awake p s h
finish-Awake p (some btn_music_shuffle) s h o = restore_screen-Awake p s h
finish-Awake p (some btn_frontlight) s h o = restore_screen-Awake p s h
finish-Awake p (some btn_close) s h o = restore_screen-Awake p s h
