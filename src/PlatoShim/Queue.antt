-- ===== src/PlatoShim/Queue.antt =====
-- The event ring of components/system/src/plato_shim.c: 128 slots, of which one stays free; when
-- it is full the oldest event gives way.
pub mod Fifo
use nookobo.Prelude.{
  ℕ, zero, suc, ◌+◌, ◌-◌, ◌%◌, ◌<◌, Bool, true, false, List, [], ◌∷◌, not, ◌==◌, if◌then◌else◌,
}

-- `struct plato_input_event`
pub record TouchEvent : Type 0 where
  pub tv_sec : ℕ
  pub tv_usec : ℕ
  pub type : ℕ
  pub code : ℕ
  pub value : ℕ

-- `s_queue`, `s_qhead` and `s_qtail`
pub record Ring : Type 0 where
  pub slots : ℕ → TouchEvent
  pub head : ℕ
  pub tail : ℕ

abbrev pub put_slot : ℕ → TouchEvent → (ℕ → TouchEvent) → ℕ → TouchEvent
put_slot i e slots j = if j == i then e else slots j

unfoldable pub enqueue_event : TouchEvent → Ring → Ring
enqueue_event e q = record {
  slots = put_slot q.tail e q.slots;
  head = if (q.tail + 1) % 128 == q.head then (q.head + 1) % 128 else q.head;
  tail = (q.tail + 1) % 128;
}

-- The copy loop of `read`, with room for `n` more events.
unfoldable pub copy_out : ℕ → Ring → List TouchEvent × Ring
copy_out zero q = ([], q)
copy_out (suc n) q =
    let (rest, q') = copy_out n (record q { head = (q.head + 1) % 128 }) in
    if q.head == q.tail then ([], q) else (q.slots q.head ∷ rest, q')
