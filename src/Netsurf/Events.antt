-- ===== src/Netsurf/Events.antt =====
-- The events of components/netsurf/src/sdl_fb0_shim.c and its queue: a ring of 2048 slots, of
-- which one stays free; when it is full the new event is lost.
pub mod Fifo
use nookobo.Prelude.{
  ℕ, suc, ◌+◌, ◌-◌, ◌%◌, ◌≤◌, ◌<◌, Bool, true, false, Option, none, some, ◌==◌, if◌then◌else◌,
}
use nookobo.Prelude.Int.{ℤ}

-- The members of `SDL_Event` that the shim fills in. A `bool` says whether the key or the button
-- goes down.
pub data SdlEvent : Type 0 where
  key : Bool → (sym scancode unicode : ℕ) → SdlEvent
  motion : (state x y : ℕ) → (xrel yrel : ℤ) → SdlEvent
  button : Bool → (x y : ℕ) → SdlEvent

-- `event_queue`, `eq_head` and `eq_tail`
pub record EventQueue : Type 0 where
  pub slots : ℕ → SdlEvent
  pub eq_head : ℕ
  pub eq_tail : ℕ

abbrev pub write : ℕ → SdlEvent → (ℕ → SdlEvent) → ℕ → SdlEvent
write i e slots j = if j == i then e else slots j

unfoldable pub queue_event : SdlEvent → EventQueue → EventQueue
queue_event e q =
    if (q.eq_tail + 1) % 2048 == q.eq_head
    then q
    else record q { slots = write q.eq_tail e q.slots; eq_tail = (q.eq_tail + 1) % 2048 }

unfoldable pub dequeue_event : EventQueue → Option (SdlEvent × EventQueue)
dequeue_event q =
    if q.eq_head == q.eq_tail
    then none
    else some (q.slots q.eq_head, record q { eq_head = (q.eq_head + 1) % 2048 })
