-- ===== src/Netsurf/Timers.antt =====
-- The timers of components/netsurf/src/sdl_fb0_shim.c: 16 slots under a mutex, which the worker
-- leaves while a callback runs. Each part that holds the mutex is a step.
pub mod Slots
use nookobo.Prelude.{
  ℕ, zero, suc, ◌+◌, ◌%◌, ◌^◌, Bool, true, false, Option, none, some, ◌&&◌, ◌==◌, ltb, leb,
  if◌then◌else◌,
}

-- `struct SDL_TimerID_t`; a callback is its address, and NULL is `none`.
pub record Timer : Type 0 where
  pub active : Bool
  pub interval_ms : ℕ
  pub next_expire_ms : ℕ
  pub cb : Option ℕ
  pub param : ℕ

-- `g_timers`, of which the first 16 are used.
abbrev pub Timers : Type 0
Timers = ℕ → Timer

abbrev pub set_timer : ℕ → Timer → Timers → Timers
set_timer i t ts j = if j == i then t else ts j

-- The first of the slots from `i` on, `n` in all, that is not active.
unfoldable pub free_slot : ℕ → ℕ → Timers → Option ℕ
free_slot zero i ts = none
free_slot (suc n) i ts =
    let later = free_slot n (suc i) ts in if (ts i).active then later else some i

unfoldable pub started : ℕ → ℕ → ℕ → ℕ → Timer
started now interval callback param = record {
  active = true;
  interval_ms = interval;
  next_expire_ms = (now + interval) % 2 ^ 64;
  cb = some callback;
  param = param;
}

-- `SDL_AddTimer` with a callback, at the time `now`: the slot stands for the pointer.
unfoldable pub add_timer : ℕ → ℕ → ℕ → ℕ → Timers → Option ℕ × Timers
add_timer now interval callback param ts = elim (free_slot 16 0 ts) [
  | none ↦ (none, ts)
  | some i ↦ (some i, set_timer i (started now interval callback param) ts)
]

unfoldable pub stopped : Timer → Timer
stopped t = record t { active = false; cb = none }

-- `SDL_RemoveTimer`
unfoldable pub remove_timer : ℕ → Timers → Bool × Timers
remove_timer i ts = if ltb i 16 then (true, set_timer i (stopped (ts i)) ts) else (false, ts)

abbrev has_cb : Option ℕ → Bool
has_cb none = false
has_cb (some c) = true

-- The test of `timer_worker`
unfoldable pub due : ℕ → Timer → Bool
due now t = t.active && (has_cb t.cb && leb t.next_expire_ms now)

-- The arguments that `timer_worker` takes with it when it leaves the mutex: the callback, its
-- interval and its parameter.
unfoldable pub take_callback : ℕ → ℕ → Timers → Option (ℕ × ℕ × ℕ)
take_callback now i ts =
    if due now (ts i)
    then (elim (ts i).cb [ none ↦ none | some c ↦ some (c, (ts i).interval_ms, (ts i).param) ])
    else none

-- What `timer_worker` does with the value `next` of a callback, once it has the mutex again.
unfoldable pub put_back : ℕ → ℕ → ℕ → Timers → Timers
put_back now i next ts =
    let t = ts i in
    if t.active
    then (if next == 0
        then set_timer i (stopped t) ts
        else set_timer i (record t { interval_ms = next; next_expire_ms = (now + next) % 2 ^ 64 })
            ts)
    else ts
