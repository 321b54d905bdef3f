-- ===== src/Watcher/Loop.antt =====
-- The main loop of components/system/src/btn-watcher.c as steps over its inputs.
pub mod Invariant
pub mod Timing
pub mod Reading
pub mod Chords
pub mod Faults
use nookobo.Prelude.{ℕ, Option, none, some, List, [], ◌∷◌}
use nookobo.Watcher.State.{State, System, InputEvent}
use nookobo.Watcher.Timers.{timers}
use nookobo.Watcher.Handler.{handle}

-- What one round of the loop meets: the clock at its top, and, unless `select` times out or the
-- read is short, the event with the clock after it.
pub record Round : Type 0 where
  pub now : ℕ
  pub input : Option (ℕ × InputEvent)

unfoldable pub after_select : System → Option (ℕ × InputEvent) → State → State
after_select sys none w = w
after_select sys (some (now, ev)) w = handle sys now ev w

unfoldable pub round : System → Round → State → State
unfolding after_select
round sys r w = after_select sys r.input (timers r.now w).0

unfoldable pub run : System → List Round → State → State
run sys [] w = w
run sys (r ∷ rs) w = run sys rs (round sys r w)
