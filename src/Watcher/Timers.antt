-- ===== src/Watcher/Timers.antt =====
-- The timers at the top of the main loop of components/system/src/btn-watcher.c.
use nookobo.Prelude.{
  ℕ, ◌+◌, ◌-◌, ◌%◌, ◌^◌, Bool, true, false, ◌&&◌, ◌||◌, not, ltb, leb, ◌==◌, if◌then◌else◌, ◌|>◌,
}
use nookobo.Watcher.Screen.{hide_toast}
use nookobo.Watcher.State.{State, emit_event, emit_syn, emit_key_click, ev_key, key_home, key_power}

-- (int)(deadline - now) over uint64_t, as a 32-bit pattern.
abbrev pub remaining : ℕ → ℕ → ℕ
remaining deadline now = (deadline + 2 ^ 64 - now) % 2 ^ 64 % 2 ^ 32

-- rem <= 0
abbrev pub expired : ℕ → Bool
expired rem = rem == 0 || leb (2 ^ 31) rem

abbrev pub earlier : ℕ → ℕ → ℕ
earlier rem timeout = if ltb rem timeout then rem else timeout

-- One check: act when the deadline has passed, else shorten the wait.
abbrev pub check : Bool → ℕ → ℕ → (State → State) → State × ℕ → State × ℕ
check armed deadline now act (w, timeout) =
    if armed
    then (if expired (remaining deadline now)
        then (act w, timeout)
        else (w, earlier (remaining deadline now) timeout))
    else (w, timeout)

unfoldable pub toast_expires : State → State
toast_expires w = record w { screen = hide_toast w.screen }

unfoldable pub power_tap : State → State
unfolding emit_key_click
power_tap w =
    let w' : State = emit_key_click key_power w in
    record w' { keys = record (w'.keys) { power_pending = false } }

unfoldable pub home_held : State → State
unfolding emit_event emit_syn
home_held w =
    let w' : State = w |> emit_event ev_key key_home 1 |> emit_syn in
    record w' { keys = record (w'.keys) { home_long_sent = true; home_pending_single = false } }

unfoldable pub home_tap : State → State
unfolding emit_key_click
home_tap w =
    let w' : State = emit_key_click key_home w in
    record w' { keys = record (w'.keys) { home_pending_single = false } }

unfoldable pub check_toast : ℕ → State × ℕ → State × ℕ
unfolding toast_expires
check_toast now (w, t) =
    check w.screen.toast_active w.screen.toast_expire_time now toast_expires (w, t)

unfoldable pub check_power : ℕ → State × ℕ → State × ℕ
unfolding power_tap
check_power now (w, t) =
    check w.keys.power_pending ((w.keys.power_down_time + 400) % 2 ^ 64) now power_tap (w, t)

unfoldable pub check_home_held : ℕ → State × ℕ → State × ℕ
unfolding home_held
check_home_held now (w, t) =
    check (w.keys.home_down && not w.keys.home_combo_consumed && not w.keys.home_long_sent)
      ((w.keys.home_down_time + 500) % 2 ^ 64) now home_held (w, t)

unfoldable pub check_home_tap : ℕ → State × ℕ → State × ℕ
unfolding home_tap
check_home_tap now (w, t) =
    check w.keys.home_pending_single ((w.keys.home_single_time + 400) % 2 ^ 64) now home_tap (w, t)

-- The state and the timeout in milliseconds with which the loop reaches `select`.
unfoldable pub timers : ℕ → State → State × ℕ
timers now w =
    (w, 1000) |> check_toast now |> check_power now |> check_home_held now |> check_home_tap now
