-- ===== src/Watcher/Loop/Timing.antt =====
-- When the timers of components/system/src/btn-watcher.c fire, and how long the loop sleeps.
use nookobo.Prelude.{
  ℕ, ◌+◌, ◌-◌, ◌%◌, ◌^◌, ◌≤◌, ◌<◌, ◌≡◌, sym, ◌∙◌, Bool, true, false, ◌&&◌, not, arith, leb,
  if◌then◌else◌, Bool-cases, inl, inr,
}
use native.Mathlib.Nat.{le_trans}
use nookobo.Watcher.State.{State, Keys}
use nookobo.Watcher.Timers.{
  remaining, expired, earlier, check_toast, check_power, check_home_held, check_home_tap, timers,
  power_tap,
}

-- The clock has moved on from `t` by less than 2^31 ms, about 24 days, and is far from wrapping.
abbrev pub Recent : ℕ → ℕ → Type 0
Recent now t = (t ≤ now) × (now < t + 2 ^ 31) × (t + 500 < 2 ^ 64)

-- The test `(int)(t + d - now) <= 0` is `t + d <= now`.
expired_lem :
    (t d now : ℕ)
    → d ≤ 500
    → Recent now t
    → expired (remaining ((t + d) % 2 ^ 64) now) ≡ leb (t + d) now
expired_lem t d now h r = ground arith

remaining_lem :
    (t d now : ℕ)
    → d ≤ 500
    → Recent now t
    → leb (t + d) now ≡ false
    → remaining ((t + d) % 2 ^ 64) now ≡ t + d - now
remaining_lem t d now h r e = ground arith

-- A pending power press becomes a click of KEY_POWER in the first round that starts 400 ms or more
-- after it; before that the round waits no longer than the rest of the 400 ms.
pub check_power_lem :
    (now t : ℕ) (w : State)
    → w.keys.power_pending ≡ true
    → Recent now w.keys.power_down_time
    → check_power now (w, t) ≡ (
        if leb (w.keys.power_down_time + 400) now
        then (power_tap w, t)
        else (w, earlier (w.keys.power_down_time + 400 - now) t))
unfolding check_power
check_power_lem now t w p r =
    rw (p, expired_lem w.keys.power_down_time 400 now (omega arith) r)
      (elim (Bool-cases (leb (w.keys.power_down_time + 400) now)) [
        | inl e ↦ rw e
        | inr e ↦ rw (e, remaining_lem w.keys.power_down_time 400 now (omega arith) r e)
      ])

-- The clock is in range for every timer that is armed.
pub record ClockOk (now : ℕ) (k : Keys) : Type 0 where
  pub power_clock : k.power_pending ≡ true → Recent now k.power_down_time
  pub held_clock :
      k.home_down && not k.home_combo_consumed && not k.home_long_sent ≡ true
      → Recent now k.home_down_time
  pub tap_clock : k.home_pending_single ≡ true → Recent now k.home_single_time

abbrev pub held : Keys → Bool
held k = k.home_down && not k.home_combo_consumed && not k.home_long_sent

record After (now t : ℕ) (armed : Bool) (due : ℕ) (t' : ℕ) : Type 0 where
  positive : 0 < t → 0 < t'
  shorter : t' ≤ t
  in_time : armed ≡ true → now + t' ≤ due

-- The fields that the other checks read.
abbrev SameHome : Keys → Keys → Type 0
SameHome k k' =
    (k'.home_down ≡ k.home_down)
    × (k'.home_combo_consumed ≡ k.home_combo_consumed)
    × (k'.home_down_time ≡ k.home_down_time)
    × (k'.home_single_time ≡ k.home_single_time)
    × (k'.power_down_time ≡ k.power_down_time)

module _ (now t : ℕ) (w : State) where
  power_After :
      ClockOk now w.keys
      → let r = check_power now (w, t) in
        After now t r.0.keys.power_pending (r.0.keys.power_down_time + 400) r.1
        × SameHome w.keys r.0.keys
        × (r.0.keys.home_long_sent ≡ w.keys.home_long_sent)
        × (r.0.keys.home_pending_single ≡ w.keys.home_pending_single)
        × (r.0.keys.power_pending ≡ true → w.keys.power_pending ≡ true)
  unfolding check_power
  power_After c = ground arith

  held-After :
      ClockOk now w.keys
      → let r = check_home_held now (w, t) in
        After now t
          (r.0.keys.home_down && not r.0.keys.home_combo_consumed && not r.0.keys.home_long_sent)
          (r.0.keys.home_down_time + 500)
          r.1
        × SameHome w.keys r.0.keys
        × (r.0.keys.power_pending ≡ w.keys.power_pending)
        × (r.0.keys.home_pending_single ≡ true → w.keys.home_pending_single ≡ true)
        × (held r.0.keys ≡ true → held w.keys ≡ true)
  unfolding check_home_held
  held-After c = ground arith

  tap_After :
      ClockOk now w.keys
      → let r = check_home_tap now (w, t) in
        After now t r.0.keys.home_pending_single (r.0.keys.home_single_time + 400) r.1
        × SameHome w.keys r.0.keys
        × (r.0.keys.power_pending ≡ w.keys.power_pending)
        × (r.0.keys.home_long_sent ≡ w.keys.home_long_sent)
  unfolding check_home_tap
  tap_After c = ground arith

  toast_After :
      let r = check_toast now (w, t) in (0 < t → 0 < r.1) × (r.1 ≤ t) × (r.0.keys ≡ w.keys)
  unfolding check_toast
  toast_After = ground arith

held_of :
    (k k' : Keys)
    → SameHome k k'
    → k'.home_long_sent ≡ k.home_long_sent
    → held k' ≡ true
    → held k ≡ true
held_of k k' h l e = ground arith

-- The clock stays in range where the checks only disarm.
ClockOk-of :
    (now : ℕ) (k k' : Keys)
    → ClockOk now k
    → SameHome k k'
    → (k'.power_pending ≡ true → k.power_pending ≡ true)
    → (held k' ≡ true → held k ≡ true)
    → (k'.home_pending_single ≡ true → k.home_pending_single ≡ true)
    → ClockOk now k'
ClockOk-of now k k' c h p q r = record {
  power_clock = λ e. rw (h.4) (c.power_clock (p e));
  held_clock = λ e. rw (h.2) (c.held_clock (q e));
  tap_clock = λ e. rw (h.3) (c.tap_clock (r e));
}

abbrev pub InTime : ℕ → Keys → ℕ → Type 0
InTime now k t =
    (0 < t)
    × (t ≤ 1000)
    × (k.power_pending ≡ true → now + t ≤ k.power_down_time + 400)
    × (held k ≡ true → now + t ≤ k.home_down_time + 500)
    × (k.home_pending_single ≡ true → now + t ≤ k.home_single_time + 400)

chain :
    (now t1 t2 t3 t4 : ℕ) (k2 k3 k4 : Keys)
    → 0 < t1
    → t1 ≤ 1000
    → After now t1 k2.power_pending (k2.power_down_time + 400) t2
    → After now t2 (held k3) (k3.home_down_time + 500) t3
    → SameHome k2 k3
    → k3.power_pending ≡ k2.power_pending
    → After now t3 k4.home_pending_single (k4.home_single_time + 400) t4
    → SameHome k3 k4
    → k4.power_pending ≡ k3.power_pending
    → k4.home_long_sent ≡ k3.home_long_sent
    → InTime now k4 t4
chain now t1 t2 t3 t4 k2 k3 k4 h1 h2 p h s3 e3 a s4 e4 l4 = (
  omega arith,
  omega arith,
  λ e. rw (s4.4, s3.4) (le_trans (omega arith) (p.in_time (sym e3 ∙ sym e4 ∙ e))),
  λ e. rw (s4.2) (le_trans (omega arith) (h.in_time (held_of k3 k4 s4 l4 e))),
  λ e. a.in_time e,
)

-- The loop sleeps between 1 and 1000 ms, and never past the moment at which a power tap, a held Home
-- or a Home tap that is still waiting falls due, if each of these that is armed was armed less than
-- 2^31 ms ago and its deadline does not wrap around 2^64.
pub timers-InTime :
    (now : ℕ) (w : State) → ClockOk now w.keys → InTime now (timers now w).0.keys (timers now w).1
unfolding timers
timers-InTime now w c =
    let r1 : State × ℕ = check_toast now (w, 1000) in
    let t = toast_After now 1000 w in
    let c1 : ClockOk now (r1.0.keys) = rw (t.2) c in
    let r2 : State × ℕ = check_power now r1 in
    let p = power_After now r1.1 r1.0 c1 in
    let c2 : ClockOk now (r2.0.keys) =
      ClockOk-of now r1.0.keys r2.0.keys c1 p.1 p.4 (held_of r1.0.keys r2.0.keys p.1 p.2)
        (λ e. sym p.3 ∙ e) in
    let r3 : State × ℕ = check_home_held now r2 in
    let h = held-After now r2.1 r2.0 c2 in
    let c3 : ClockOk now (r3.0.keys) =
      ClockOk-of now r2.0.keys r3.0.keys c2 h.1 (λ e. sym h.2 ∙ e) h.4 h.3 in
    let a = tap_After now r3.1 r3.0 c3 in
    chain now r1.1 r2.1 r3.1 (check_home_tap now r3).1 r2.0.keys r3.0.keys
      (check_home_tap now r3).0.keys (t.0 (omega arith)) t.1 p.0 h.0 h.1 h.2 a.0 a.1 a.2 a.3
