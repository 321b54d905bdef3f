-- ===== src/Watcher/Loop/Faults.antt =====
-- Sequences of button events after which components/system/src/btn-watcher.c does not do what its
-- header describes.
use nookobo.Prelude.{
  ℕ, ◌+◌, ◌≤◌, ◌≡◌, ◌⊎◌, ◌∙◌, true, false, ◌&&◌, List, [], ◌∷◌, arith, ◌==◌, if◌then◌else◌, Option,
  some,
}
use nookobo.Prelude.Text.{codes, text_eq}
use nookobo.Watcher.Apps.{get_active_app}
use nookobo.Watcher.State.{
  State, Keys, System, event, Effect, emit, inject, wait, shell, ev_key, ev_syn, key_home,
}
use nookobo.Watcher.Timers.{check_home_held, check_toast, check_power, check_home_tap, timers}
use nookobo.Watcher.Screen.{Device, Screen, hide_toast}
use nookobo.Watcher.Card.{show_media_card}
use nookobo.Watcher.Loop.Timing.{Recent}
use nookobo.Watcher.Handler.{
  handle, page_key, chord, chord_koreader, chord_plato, chord_netsurf, chord_media, leave_media,
  home_key, home_key_down, home_key_up, within_window,
}

-- Home pressed and released within a moment, with no round of timers in between.
abbrev pub tap_home : System → ℕ → ℕ → State → State
tap_home sys t1 t2 w =
    handle sys t2 (event ev_key key_home 0) (handle sys t1 (event ev_key key_home 1) w)

-- A double tap whose second press is still held in a later round: the first tap from `t0` to `t1`,
-- the second press at `t2`, the round's timers at `t3` and the release at `t4`.
abbrev pub held_double_tap : System → ℕ → ℕ → ℕ → ℕ → ℕ → State → State
held_double_tap sys t0 t1 t2 t3 t4 w =
    handle sys t4 (event ev_key key_home 0)
      (timers t3 (handle sys t2 (event ev_key key_home 1) (tap_home sys t0 t1 w))).0

-- Reading mode, with nothing left of an earlier tap of Home.
abbrev pub Resting : Keys → Type 0
Resting k =
    (k.home_pending_single ≡ false) × (k.home_double_consumed ≡ false) × (k.media_mode ≡ false)

first_tap :
    (sys : System) (t0 t1 : ℕ) (w : State)
    → Resting w.keys
    → let k : Keys = (tap_home sys t0 t1 w).keys in
      (k.home_pending_single ≡ true)
      × (k.home_single_time ≡ t1)
      × (k.home_double_consumed ≡ false)
      × (k.media_mode ≡ false)
unfolding handle home_key home_key_down home_key_up
first_tap sys t0 t1 w r = ground arith

second_press :
    (sys : System) (t1 t2 : ℕ) (w : State)
    → w.keys.home_pending_single ≡ true
    → w.keys.home_single_time ≡ t1
    → w.keys.home_double_consumed ≡ false
    → w.keys.media_mode ≡ false
    → within_window t2 t1 ≡ true
    → let k : Keys = (handle sys t2 (event ev_key key_home 1) w).keys in
      (k.home_down ≡ true)
      × (k.home_down_time ≡ t2)
      × (k.home_combo_consumed ≡ false)
      × (k.home_long_sent ≡ false)
      × (k.home_pending_single ≡ false)
      × (k.home_double_consumed ≡ true)
      × (k.media_mode ≡ false)
unfolding handle home_key home_key_down
second_press sys t1 t2 w p s d m v = ground arith

held_round :
    (t2 t3 : ℕ) (w : State)
    → w.keys.home_down ≡ true
    → w.keys.home_down_time ≡ t2
    → w.keys.home_combo_consumed ≡ false
    → w.keys.home_long_sent ≡ false
    → w.keys.home_pending_single ≡ false
    → Recent t3 t2
    → t2 + 500 ≤ t3
    → let k : Keys = (timers t3 w).0.keys in
      (k.home_combo_consumed ≡ false)
      × (k.home_long_sent ≡ true)
      × (k.home_pending_single ≡ false)
      × (k.home_double_consumed ≡ w.keys.home_double_consumed)
      × (k.media_mode ≡ w.keys.media_mode)
unfolding timers check_toast check_power check_home_held check_home_tap hide_toast
held_round t2 t3 w down time combo long single r e = ground arith

dropped_tap :
    (sys : System) (t4 t5 t6 : ℕ) (w : State)
    → w.keys.home_combo_consumed ≡ false
    → w.keys.home_long_sent ≡ true
    → w.keys.home_pending_single ≡ false
    → w.keys.home_double_consumed ≡ true
    → w.keys.media_mode ≡ false
    → let released = handle sys t4 (event ev_key key_home 0) w in
      let tapped = tap_home sys t5 t6 released in
      (released.keys.home_double_consumed ≡ true)
      × (tapped.log ≡ released.log)
      × (tapped.keys.home_pending_single ≡ false)
unfolding handle home_key home_key_down home_key_up
dropped_tap sys t4 t5 t6 w c l p d m = ground arith

-- A double tap of Home in reading mode, from a state in which nothing of an earlier tap is left,
-- whose second press comes within 400 ms of the first release and is still held when a round starts
-- 500 ms or more (and less than 2^31 ms) after it: the release leaves `home_double_consumed` set, and
-- the next tap of Home is dropped, it emits nothing and no single tap is left pending.
pub tap_after_held_double :
    (sys : System) (t0 t1 t2 t3 t4 t5 t6 : ℕ) (w : State)
    → Resting w.keys
    → within_window t2 t1 ≡ true
    → Recent t3 t2
    → t2 + 500 ≤ t3
    → let released = held_double_tap sys t0 t1 t2 t3 t4 w in
      let tapped = tap_home sys t5 t6 released in
      (released.keys.home_double_consumed ≡ true)
      × (tapped.log ≡ released.log)
      × (tapped.keys.home_pending_single ≡ false)
tap_after_held_double sys t0 t1 t2 t3 t4 t5 t6 w r v recent e =
    let tapped = tap_home sys t0 t1 w in
    let f = first_tap sys t0 t1 w r in
    let pressed = handle sys t2 (event ev_key key_home 1) tapped in
    let p = second_press sys t1 t2 tapped f.0 f.1 f.2 f.3 v in
    let h = held_round t2 t3 pressed p.0 p.1 p.2 p.3 p.4 recent e in
    dropped_tap sys t4 t5 t6 (timers t3 pressed).0 h.0 h.1 h.2 (h.3 ∙ p.5) (h.4 ∙ p.6)

-- The chord that opens KOReader's light dialog leaves Home marked as held and no chord in
-- progress: once 500 ms have passed since the press, the next round emits a second KEY_HOME press.
pub second_hold_after_koreader_chord :
    (sys : System) (t1 t2 : ℕ) (w : State)
    → w.keys.home_down ≡ true
    → w.keys.home_long_sent ≡ false
    → text_eq (get_active_app w.files) (codes "koreader") ≡ true
    → Recent t2 w.keys.home_down_time
    → w.keys.home_down_time + 500 ≤ t2
    → let after = handle sys t1 (event ev_key 191 1) w in
      (check_home_held t2 (after, 1000)).0.log
      ≡ emit (event ev_syn 0 0) ∷ emit (event ev_key key_home 1) ∷ after.log
unfolding handle page_key chord chord_koreader leave_media check_home_held
second_hold_after_koreader_chord sys t1 t2 w h l a r e = ground arith

-- The releases of KEY_HOME that reach the virtual device.
unfoldable pub home_releases : List Effect → ℕ
home_releases [] = 0
home_releases (emit e ∷ log) =
    (if (e.type == 1) && (e.code == 102) && (e.value == 0) then 1 else 0) + home_releases log
home_releases (inject es ∷ log) = home_releases log
home_releases (wait n ∷ log) = home_releases log
home_releases (shell c ∷ log) = home_releases log

chord-home_releases :
    (sys : System) (now code : ℕ) (w : State)
    → 192 ≤ code
    → home_releases (chord sys now code w).log ≡ home_releases w.log
unfolding chord chord_koreader chord_plato chord_netsurf chord_media home_releases
chord-home_releases sys now code w h = ground arith

chord-combo :
    (sys : System) (now code : ℕ) (w : State)
    → 192 ≤ code
    → let k : Keys = (chord sys now code w).keys in
      (k.home_combo_consumed ≡ true) × (k.home_long_sent ≡ w.keys.home_long_sent)
unfolding chord chord_koreader chord_plato chord_netsurf chord_media
chord-combo sys now code w h = ground arith

-- A chord with Bottom Left, Top Right or Bottom Right during a long press: the release of Home is
-- taken for the chord's, and the next press forgets the long press, so the KEY_HOME that went down
-- is not released.
pub chord_loses_home_release :
    (sys : System) (t1 t2 t3 code : ℕ) (w : State)
    → 192 ≤ code
    → code ≤ 194
    → w.keys.home_down ≡ true
    → w.keys.home_long_sent ≡ true
    → let after =
        handle sys t3
          (event ev_key key_home 1)
          (handle sys t2 (event ev_key key_home 0) (handle sys t1 (event ev_key code 1) w)) in
      (home_releases after.log ≡ home_releases w.log) × (after.keys.home_long_sent ≡ false)
unfolding handle page_key home_key home_key_down home_key_up home_releases
chord_loses_home_release sys t1 t2 t3 code w h1 h2 d l =
    ground (arith, chord-home_releases sys t1 code w h1, chord-combo sys t1 code w h1)

chord-media :
    (sys : System) (now code : ℕ) (w : State)
    → (code ≡ 192) ⊎ (code ≡ 193)
    → let k : Keys = (chord sys now code w).keys in
      (k.media_mode ≡ false) × (k.home_combo_consumed ≡ true)
unfolding chord chord_plato chord_netsurf leave_media
chord-media sys now code w h = ground arith

-- After a chord with Bottom Left or Top Right, a page button that is let go after Home is passed
-- on as a release without a press.
pub chord_leaks_page_release :
    (sys : System) (t1 t2 t3 code : ℕ) (w : State)
    → (code ≡ 192) ⊎ (code ≡ 193)
    → w.keys.home_down ≡ true
    → let home_up =
        handle sys t2 (event ev_key key_home 0) (handle sys t1 (event ev_key code 1) w) in
      (handle sys t3 (event ev_key code 0) home_up).log ≡ emit (event ev_key code 0) ∷ home_up.log
unfolding handle page_key home_key home_key_up
chord_leaks_page_release sys t1 t2 t3 code w h d = ground (arith, chord-media sys t1 code w h)

timers-card : (now : ℕ) (w : State) → (timers now w).0.screen.card_active ≡ w.screen.card_active
unfolding timers check_toast check_power check_home_held check_home_tap hide_toast
timers-card now w = ground arith

show-card_active :
    (d : Device) (status : Option (List ℕ)) (s : Screen)
    → s.mapped ≡ true
    → (show_media_card d status s).card_active ≡ true
unfolding show_media_card
show-card_active d status s h = ground arith

-- A double tap of Home in reading mode puts up the media card without entering media mode, and
-- no timer takes the card down again.
pub double_tap_leaves_card :
    (sys : System) (t1 t2 : ℕ) (w : State)
    → w.keys.home_pending_single ≡ true
    → w.keys.home_double_consumed ≡ false
    → within_window t1 w.keys.home_single_time ≡ true
    → w.keys.media_mode ≡ false
    → w.screen.mapped ≡ true
    → let after = handle sys t1 (event ev_key key_home 1) w in
      (after.keys.media_mode ≡ false) × ((timers t2 after).0.screen.card_active ≡ true)
unfolding handle home_key home_key_down
double_tap_leaves_card sys t1 t2 w p d v m h = (
  ground arith,
  timers-card t2 (handle sys t1 (event ev_key key_home 1) w)
      ∙ ground (
        arith,
        show-card_active sys.device (some (codes "PLAYBACK: PLAY / PAUSE TOGGLED  >||")) w.screen h,
      ),
)
