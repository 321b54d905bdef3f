-- ===== src/Watcher/Setup/Enabled.antt =====
-- The events that the loop of components/system/src/btn-watcher.c emits, and those that its virtual
-- device is made for.
use nookobo.Prelude.{
  ℕ, ◌≡◌, refl, Bool, true, false, Option, none, some, List, [], ◌∷◌, ◌++◌, ◌&&◌, ◌||◌, ◌==◌, not,
  leb, arith, if◌then◌else◌,
}
use nookobo.Prelude.Text.{codes}
use nookobo.Watcher.State.{
  push, State, System, InputEvent, Effect, emit, inject, wait, shell, emit_event, emit_syn,
  emit_key_click, inject_plato_frontlight, ev_key, ev_sw, ev_syn, key_home, key_power,
}
use nookobo.Watcher.Timers.{
  check_toast, check_power, check_home_held, check_home_tap, timers, toast_expires, power_tap,
  home_held, home_tap,
}
use nookobo.Watcher.Handler.{
  leave_media, power_down, double_tap, home_press, home_key_down, home_tapped, home_key_up,
  set_keys, power_key, home_key, chord_koreader, chord_plato, chord_netsurf, chord_media, chord,
  media_key, page_key, lid, handle, app_is,
}
use nookobo.Watcher.Loop.{Round, after_select, round, run}
use nookobo.Watcher.Setup.{Setup, SetupAct, grabbed, created, linked, device_bits, set_up, enabled}

-- The keys, the lid, the reports, and any other switch.
abbrev expected : InputEvent → Bool
expected e =
    (e.type == ev_key
      && (e.code == key_power || e.code == key_home || (leb 191 e.code && leb e.code 194)))
    || e.type == ev_sw
    || e.type == ev_syn

abbrev AllExpected : List Effect → Type 0
AllExpected [] = Unit
AllExpected (emit e ∷ es) = (expected e ≡ true) × AllExpected es
AllExpected (inject events ∷ es) = AllExpected es
AllExpected (wait us ∷ es) = AllExpected es
AllExpected (shell command ∷ es) = AllExpected es

-- What a log keeps that grows by events that are expected.
abbrev Fine : State → Type 0
Fine w = AllExpected w.log

if-Fine :
    (b : Bool) (v w : State)
    → (b ≡ true → Fine v)
    → (b ≡ false → Fine w)
    → Fine (if b then v else w)
if-Fine true v w h k = h refl
if-Fine false v w h k = k refl

power_key-Fine : (now : ℕ) (ev : InputEvent) (w : State) → Fine w → Fine (power_key now ev w)
unfolding power_key power_down
power_key-Fine now ev w f = ground arith

home_key-Fine :
    (sys : System) (now : ℕ) (ev : InputEvent) (w : State) → Fine w → Fine (home_key sys now ev w)
unfolding home_key home_key_down home_key_up home_press home_tapped double_tap emit_event emit_syn
home_key-Fine sys now ev w f = ground arith

chord_koreader-Fine :
    (sys : System) (now : ℕ) (w : State) → Fine w → Fine (chord_koreader sys now w)
unfolding chord_koreader leave_media emit_event emit_syn
chord_koreader-Fine sys now w f = ground arith

chord_plato-Fine : (sys : System) (now : ℕ) (w : State) → Fine w → Fine (chord_plato sys now w)
unfolding chord_plato leave_media inject_plato_frontlight
chord_plato-Fine sys now w f = ground arith

chord_netsurf-Fine : (sys : System) (now : ℕ) (w : State) → Fine w → Fine (chord_netsurf sys now w)
unfolding chord_netsurf leave_media
chord_netsurf-Fine sys now w f = ground arith

chord_media-Fine : (sys : System) (now : ℕ) (w : State) → Fine w → Fine (chord_media sys now w)
unfolding chord_media
chord_media-Fine sys now w f = ground arith

chord-Fine : (sys : System) (now code : ℕ) (w : State) → Fine w → Fine (chord sys now code w)
unfolding chord
chord-Fine sys now code w f =
    let w' : State =
      set_keys (record (w.keys) { home_combo_consumed = true; home_pending_single = false }) w in
    if-Fine (code == 191) _ _ (λ _. chord_koreader-Fine sys now w' f)
      (λ _.
        if-Fine (code == 192) _ _ (λ _. chord_plato-Fine sys now w' f)
          (λ _.
            if-Fine (code == 193) _ _ (λ _. chord_netsurf-Fine sys now w' f)
              (λ _. chord_media-Fine sys now w' f)))

media_key-Fine : (sys : System) (code : ℕ) (w : State) → Fine w → Fine (media_key sys code w)
unfolding media_key
media_key-Fine sys code w f = ground arith

page_key-Fine :
    (sys : System) (now : ℕ) (ev : InputEvent) (w : State)
    → expected ev ≡ true
    → Fine w
    → Fine (page_key sys now ev w)
unfolding page_key emit_event
page_key-Fine sys now ev w e f =
    if-Fine (ev.value == 1) _ _
      (λ _.
        if-Fine w.keys.home_down _ _ (λ _. chord-Fine sys now ev.code w f)
          (λ _. if-Fine w.keys.media_mode _ _ (λ _. media_key-Fine sys ev.code w f) (λ _. (e, f))))
      (λ _.
        if-Fine (ev.value == 0) _ w
          (λ _.
            if-Fine (w.keys.home_combo_consumed || w.keys.media_mode) w _ (λ _. f) (λ _. (e, f)))
          (λ _. f))

lid-Fine : (ev : InputEvent) (w : State) → expected ev ≡ true → Fine w → Fine (lid ev w)
unfolding lid emit_event
lid-Fine ev w e f = (
  e,
  if-Fine (ev.value == 1 && not (app_is (codes "koreader") w))
      (push (shell "echo mem > /sys/power/state 2>/dev/null") w) w (λ _. f) (λ _. f),
)

handle-Fine :
    (sys : System) (now : ℕ) (ev : InputEvent) (w : State) → Fine w → Fine (handle sys now ev w)
unfolding handle emit_event
handle-Fine sys now ev w f =
    if-Fine (ev.type == ev_key && ev.code == key_power) _ _ (λ _. power_key-Fine now ev w f)
      (λ _.
        if-Fine (ev.type == ev_key && ev.code == key_home) _ _ (λ _. home_key-Fine sys now ev w f)
          (λ _.
            if-Fine (ev.type == ev_key && leb 191 ev.code && leb ev.code 194) _ _
              (λ h. page_key-Fine sys now ev w (ground arith) f)
              (λ _.
                if-Fine (ev.type == ev_sw && ev.code == 0) _ _ (λ h. lid-Fine ev w (ground arith) f)
                  (λ _.
                    if-Fine (ev.type == ev_sw || ev.type == ev_syn) _ w (λ h. (ground arith, f))
                      (λ _. f)))))

timers-Fine : (now : ℕ) (w : State) → Fine w → Fine (timers now w).0
unfolding timers check_toast check_power check_home_held check_home_tap toast_expires power_tap
    home_held home_tap emit_key_click emit_event emit_syn
timers-Fine now w f = ground arith

round-Fine : (sys : System) (r : Round) (w : State) → Fine w → Fine (round sys r w)
unfolding round after_select
round-Fine sys r w f = after sys r.input (timers r.now w).0 (timers-Fine r.now w f)
  where
    after :
        (sys : System) (i : Option (ℕ × InputEvent)) (w : State)
        → Fine w
        → Fine (after_select sys i w)
    after sys none w f = f
    after sys (some (now, ev)) w f = handle-Fine sys now ev w f

run-Fine : (sys : System) (rs : List Round) (w : State) → Fine w → Fine (run sys rs w)
unfolding run
run-Fine sys [] w f = f
run-Fine sys (r ∷ rs) w f = run-Fine sys rs (round sys r w) (round-Fine sys r w f)

-- A switch that is not the lid.
abbrev pub other_switch : InputEvent → Bool
other_switch e = e.type == ev_sw && not (e.code == 0)

-- Every event of the log is one that the device was made for, or another switch.
abbrev pub AllMade : List SetupAct → List Effect → Type 0
AllMade acts [] = Unit
AllMade acts (emit e ∷ es) = (enabled acts e || other_switch e ≡ true) × AllMade acts es
AllMade acts (inject events ∷ es) = AllMade acts es
AllMade acts (wait us ∷ es) = AllMade acts es
AllMade acts (shell command ∷ es) = AllMade acts es

abbrev ready : List SetupAct
ready = (grabbed ∷ device_bits) ++ created ∷ linked ∷ []

set_up-ready : (s : Setup) → (set_up s).0 ≡ true → (set_up s).1 ≡ ready
unfolding set_up
set_up-ready s h = ground arith

expected_made : (e : InputEvent) → expected e ≡ true → enabled ready e || other_switch e ≡ true
unfolding device_bits
expected_made e h = ground arith

all_made : (es : List Effect) → AllExpected es → AllMade ready es
all_made [] h = tt
all_made (emit e ∷ es) h = (expected_made e h.0, all_made es h.1)
all_made (inject events ∷ es) h = all_made es h
all_made (wait us ∷ es) h = all_made es h
all_made (shell command ∷ es) h = all_made es h

-- When the set-up succeeds, every event that the main loop ever emits is of a type, and has a key
-- or switch, that the virtual device was made with, except switches other than the lid, which are
-- passed on to a device without them.
pub run_made :
    (s : Setup) (sys : System) (rs : List Round) (w : State)
    → (set_up s).0 ≡ true
    → w.log ≡ []
    → AllMade (set_up s).1 (run sys rs w).log
run_made s sys rs w done none_yet =
    rw (set_up-ready s done) (all_made (run sys rs w).log (run-Fine sys rs w (rw none_yet tt)))
