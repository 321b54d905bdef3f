-- ===== src/Watcher/Loop/Invariant.antt =====
-- The flags of the Home button in components/system/src/btn-watcher.c: what holds between rounds.
use nookobo.Prelude.{
  ℕ, ◌≡◌, refl, Bool, true, false, Option, none, some, List, [], ◌∷◌, arith, ◌==◌, if◌then◌else◌,
}
use nookobo.Watcher.State.{State, Keys, System, InputEvent, initial_keys}
use nookobo.Watcher.Timers.{check_toast, check_power, check_home_held, check_home_tap, timers}
use nookobo.Watcher.Handler.{
  set_keys, power_key, home_key, chord_koreader, chord_plato, chord_netsurf, chord_media, chord,
  media_key, page_key, lid, handle,
}
use nookobo.Watcher.Loop.{Round, after_select, round, run}

-- A single tap waits only while Home is up, with no long press or double tap under way; a chord is
-- remembered only while Home is down.
pub record Inv (k : Keys) : Type 0 where
  pub pending_up : k.home_pending_single ≡ true → k.home_down ≡ false
  pub pending_short : k.home_pending_single ≡ true → k.home_long_sent ≡ false
  pub pending_not_double : k.home_pending_single ≡ true → k.home_double_consumed ≡ false
  pub combo_down : k.home_combo_consumed ≡ true → k.home_down ≡ true

-- A state chosen by a test has valid flags if each choice has.
if_Inv :
    (b : Bool) (x y : State)
    → (b ≡ true → Inv x.keys)
    → (b ≡ false → Inv y.keys)
    → Inv (if b then x else y).keys
if_Inv true x y h k = h refl
if_Inv false x y h k = k refl

power_key-Inv : (now : ℕ) (ev : InputEvent) (w : State) → Inv w.keys → Inv (power_key now ev w).keys
unfolding power_key
power_key-Inv now ev w v = ground arith

home_key-Inv :
    (sys : System) (now : ℕ) (ev : InputEvent) (w : State)
    → Inv w.keys
    → Inv (home_key sys now ev w).keys
unfolding home_key
home_key-Inv sys now ev w v = ground arith

chord_koreader-Inv :
    (sys : System) (now : ℕ) (w : State) → Inv w.keys → Inv (chord_koreader sys now w).keys
unfolding chord_koreader
chord_koreader-Inv sys now w v = ground arith

chord_plato-Inv :
    (sys : System) (now : ℕ) (w : State) → Inv w.keys → Inv (chord_plato sys now w).keys
unfolding chord_plato
chord_plato-Inv sys now w v = ground arith

chord_netsurf-Inv :
    (sys : System) (now : ℕ) (w : State) → Inv w.keys → Inv (chord_netsurf sys now w).keys
unfolding chord_netsurf
chord_netsurf-Inv sys now w v = ground arith

chord_media-Inv :
    (sys : System) (now : ℕ) (w : State) → Inv w.keys → Inv (chord_media sys now w).keys
unfolding chord_media
chord_media-Inv sys now w v = ground arith

chord-Inv :
    (sys : System) (now code : ℕ) (w : State)
    → w.keys.home_down ≡ true
    → Inv (chord sys now code w).keys
unfolding chord
chord-Inv sys now code w h =
    let w' : State =
      set_keys (record (w.keys) { home_combo_consumed = true; home_pending_single = false }) w in
    let v : Inv (w'.keys) = record {
      pending_up = λ e. cc;
      pending_short = λ e. cc;
      pending_not_double = λ e. cc;
      combo_down = λ e. h;
    } in
    if_Inv (code == 191) _ _ (λ _. chord_koreader-Inv sys now w' v)
      (λ _.
        if_Inv (code == 192) _ _ (λ _. chord_plato-Inv sys now w' v)
          (λ _.
            if_Inv (code == 193) _ _ (λ _. chord_netsurf-Inv sys now w' v)
              (λ _. chord_media-Inv sys now w' v)))

media_key-Inv : (sys : System) (code : ℕ) (w : State) → Inv w.keys → Inv (media_key sys code w).keys
unfolding media_key
media_key-Inv sys code w v = ground arith

page_key-Inv :
    (sys : System) (now : ℕ) (ev : InputEvent) (w : State)
    → Inv w.keys
    → Inv (page_key sys now ev w).keys
unfolding page_key
page_key-Inv sys now ev w v =
    ground (arith, chord-Inv sys now ev.code w, media_key-Inv sys ev.code w v)

lid-Inv : (ev : InputEvent) (w : State) → Inv w.keys → Inv (lid ev w).keys
unfolding lid
lid-Inv ev w v = ground arith

timers-Inv : (now : ℕ) (w : State) → Inv w.keys → Inv (timers now w).0.keys
unfolding timers check_toast check_power check_home_held check_home_tap
timers-Inv now w v = ground arith

handle-Inv :
    (sys : System) (now : ℕ) (ev : InputEvent) (w : State)
    → Inv w.keys
    → Inv (handle sys now ev w).keys
unfolding handle
handle-Inv sys now ev w v = ground (
  arith,
  power_key-Inv now ev w v,
  home_key-Inv sys now ev w v,
  page_key-Inv sys now ev w v,
  lid-Inv ev w v,
)

after_select-Inv :
    (sys : System) (i : Option (ℕ × InputEvent)) (w : State)
    → Inv w.keys
    → Inv (after_select sys i w).keys
unfolding after_select
after_select-Inv sys none w v = v
after_select-Inv sys (some (now, ev)) w v = handle-Inv sys now ev w v

-- The flags stay consistent in every run of the loop, whatever events come and whatever the clock
-- reads.
pub run-Inv : (sys : System) (rs : List Round) (w : State) → Inv w.keys → Inv (run sys rs w).keys
unfolding run round
run-Inv sys [] w v = v
run-Inv sys (r ∷ rs) w v =
    run-Inv sys rs (round sys r w)
      (after_select-Inv sys r.input (timers r.now w).0 (timers-Inv r.now w v))

pub initial_keys-Inv : Inv initial_keys
unfolding initial_keys
initial_keys-Inv = ground arith
