-- ===== src/Netsurf/Timers/Slots.antt =====
-- What adding a timer in components/netsurf/src/sdl_fb0_shim.c promises, and a timer that is lost.
use nookobo.Prelude.{
  ℕ, zero, suc, ◌+◌, ◌^◌, ◌≤◌, ◌<◌, ◌≡◌, ◌≢◌, refl, sym, ap, ◌∙◌, true, false, Option, none, some,
  leb, if◌then◌else◌, arith, ◌⊎◌, inl, inr, Bool-cases, dec_lt,
}
use nookobo.Netsurf.Timers.{
  Timer, Timers, set_timer, free_slot, started, add_timer, stopped, remove_timer, due, put_back,
}

-- The search at one slot.
free_slot_busy :
    (n i : ℕ) (ts : Timers) → (ts i).active ≡ true → free_slot (suc n) i ts ≡ free_slot n (suc i) ts
unfolding free_slot
free_slot_busy n i ts busy = rw busy

free_slot_idle : (n i : ℕ) (ts : Timers) → (ts i).active ≡ false → free_slot (suc n) i ts ≡ some i
unfolding free_slot
free_slot_idle n i ts idle = rw idle

free_slot-some :
    (n i k : ℕ) (ts : Timers) → free_slot n i ts ≡ some k → (k < i + n) × ((ts k).active ≡ false)
unfolding free_slot
free_slot-some zero i k ts h = cc
free_slot-some (suc n) i k ts h = elim (Bool-cases (ts i).active) [
  | inl busy ↦
      let rest = free_slot-some n (suc i) k ts (sym (free_slot_busy n i ts busy) ∙ h) in
      (omega arith, rest.1)
  | inr idle ↦
      let found : some i ≡ some k = sym (free_slot_idle n i ts idle) ∙ h in
      let same : i ≡ k = cc in (omega arith, ap (λ j. (ts j).active) (sym same) ∙ idle)
]

free_slot-none :
    (n i k : ℕ) (ts : Timers) → free_slot n i ts ≡ none → i ≤ k → k < i + n → (ts k).active ≡ true
unfolding free_slot
free_slot-none zero i k ts h h1 h2 = absurd (omega arith)
free_slot-none (suc n) i k ts h h1 h2 = elim (Bool-cases (ts i).active) [
  | inl busy ↦ elim (dec_lt i k) [
    | yes after ↦
        free_slot-none n (suc i) k ts (sym (free_slot_busy n i ts busy) ∙ h) (omega arith)
          (omega arith)
    | no here ↦ let same : i ≡ k = omega arith in ap (λ j. (ts j).active) (sym same) ∙ busy
  ]
  | inr idle ↦ let found : some i ≡ Option.none = sym (free_slot_idle n i ts idle) ∙ h in absurd cc
]

-- The timer added at slot `i`: it was free, no other slot changes, and it is due exactly from
-- `interval` milliseconds on.
abbrev pub Added : (now interval callback param i : ℕ) → Timers → Timers → Type 0
Added now interval callback param i ts ts' =
    (i < 16)
    × ((ts i).active ≡ false)
    × ((j : ℕ) → j ≢ i → ts' j ≡ ts j)
    × ((later : ℕ) → due later (ts' i) ≡ leb (now + interval) later)
    × ((ts' i).cb ≡ some callback)
    × ((ts' i).param ≡ param)

set_timer_same : (i : ℕ) (t : Timer) (ts : Timers) → set_timer i t ts i ≡ t
set_timer_same i t ts = ground arith

set_timer_other : (i j : ℕ) (t : Timer) (ts : Timers) → j ≢ i → set_timer i t ts j ≡ ts j
set_timer_other i j t ts h = ground arith

due-started :
    (now interval callback param later : ℕ)
    → now + interval < 2 ^ 64
    → due later (started now interval callback param) ≡ leb (now + interval) later
unfolding due started
due-started now interval callback param later h = ground arith

-- `SDL_AddTimer` uses a free slot if there is one, and touches no other: its timer is due exactly
-- from `interval` milliseconds after `now` on. Otherwise all 16 are active, it returns NULL and
-- nothing changes. The clock plus the interval fits 64 bits.
pub add_timer_lem :
    (now interval callback param : ℕ) (ts : Timers)
    → now + interval < 2 ^ 64
    → let (slot, ts') = add_timer now interval callback param ts in
      ((i : ℕ) × (slot ≡ some i) × Added now interval callback param i ts ts')
      ⊎ ((slot ≡ none) × ((i : ℕ) → i < 16 → (ts i).active ≡ true) × (ts' ≡ ts))
unfolding add_timer started
add_timer_lem now interval callback param ts h = go (free_slot 16 0 ts) refl
  where
    go :
        (o : Option ℕ)
        → free_slot 16 0 ts ≡ o
        → let r : Option ℕ × Timers = elim o [
          | none ↦ (none, ts)
          | some i ↦ (some i, set_timer i (started now interval callback param) ts)
        ] in
          ((i : ℕ) × (r.0 ≡ some i) × Added now interval callback param i ts r.1)
          ⊎ ((r.0 ≡ none) × ((i : ℕ) → i < 16 → (ts i).active ≡ true) × (r.1 ≡ ts))
    go none e = inr (refl, λ i lt. free_slot-none 16 0 i ts e (omega arith) (omega arith), refl)
    go (some i) e =
        let t = started now interval callback param in
        let free = free_slot-some 16 0 i ts e in
        let added : Added now interval callback param i ts (set_timer i t ts) = (
          omega arith,
          free.1,
          λ j other. set_timer_other i j t ts other,
          λ later.
              ap (due later) (set_timer_same i t ts)
              ∙ due-started now interval callback param later h,
          ap (λ u. u.cb) (set_timer_same i t ts),
          ap (λ u. u.param) (set_timer_same i t ts),
        ) in
        inl (i, refl, added)

put_back_ended :
    (end i : ℕ) (t : Timer) (ts : Timers)
    → t.active ≡ true
    → put_back end i 0 (set_timer i t ts) i ≡ stopped t
unfolding put_back
put_back_ended end i t ts h =
    ended (set_timer i t ts i) (set_timer i t ts) (ap (λ u. u.active) (set_timer_same i t ts) ∙ h)
    ∙ ap stopped (set_timer_same i t ts)
  where
    ended :
        (u : Timer) (us : Timers)
        → u.active ≡ true
        → (if u.active then set_timer i (stopped u) us else us) i ≡ stopped u
    ended u us a =
        ap (λ c. (if c then set_timer i (stopped u) us else us) i) a
        ∙ set_timer_same i (stopped u) us

-- A timer is removed while its callback runs, and `SDL_AddTimer` gives its slot to a new timer
-- before the callback returns 0: the new timer is stopped and is never due.
pub put_back-add_timer :
    (now interval callback param i end later : ℕ) (ts : Timers)
    → free_slot 16 0 (remove_timer i ts).1 ≡ some i
    → let (slot, ts') = add_timer now interval callback param (remove_timer i ts).1 in
      (slot ≡ some i) × (due later (put_back end i 0 ts' i) ≡ false)
unfolding add_timer started stopped due
put_back-add_timer now interval callback param i end later ts h =
    let t = started now interval callback param in
    let us = (remove_timer i ts).1 in
    let added =
      ap
        (λ o. elim o as (λ r. Option ℕ × Timers) [
          | none ↦ (none, us)
          | some k ↦ (some k, set_timer k t us)
        ])
        h in
    (
      ap (λ r. r.0) added,
      ap (λ r. due later (put_back end i 0 r.1 i)) added
          ∙ ap (due later) (put_back_ended end i t us refl),
    )
