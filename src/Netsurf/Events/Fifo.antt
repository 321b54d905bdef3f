-- ===== src/Netsurf/Events/Fifo.antt =====
-- The event queue of components/netsurf/src/sdl_fb0_shim.c is a FIFO of at most 2047 events.
use nookobo.Prelude.{
  ℕ, zero, suc, ◌+◌, ◌-◌, ◌%◌, ◌<◌, ◌≡◌, ◌≢◌, refl, sym, ap, ap₂, ◌∙◌, Option, none, some, List, [],
  ◌∷◌, ◌++◌, arith, length, ltb, ◌==◌, if◌then◌else◌, Bool-cases, inl, inr,
}
use nookobo.Netsurf.Events.{SdlEvent, EventQueue, write, queue_event, dequeue_event}

-- The `n` events from slot `h` on.
abbrev run_from : (ℕ → SdlEvent) → ℕ → ℕ → List SdlEvent
run_from slots h zero = []
run_from slots h (suc n) = slots h ∷ run_from slots ((h + 1) % 2048) n

abbrev filled : EventQueue → ℕ
filled q = (q.eq_tail + 2048 - q.eq_head) % 2048

-- The waiting events, the oldest first.
abbrev pub waiting : EventQueue → List SdlEvent
waiting q = run_from q.slots q.eq_head (filled q)

pub record IsRing (q : EventQueue) : Type 0 where
  pub head_in : q.eq_head < 2048
  pub tail_in : q.eq_tail < 2048

-- The abstract queue: the event at the end, unless 2047 wait already.
abbrev pub offer : SdlEvent → List SdlEvent → List SdlEvent
offer e es = if ltb (length es) 2047 then es ++ e ∷ [] else es

abbrev pub pop : List SdlEvent → Option (SdlEvent × List SdlEvent)
pop [] = none
pop (e ∷ es) = some (e, es)

abbrev pub view : Option (SdlEvent × EventQueue) → Option (SdlEvent × List SdlEvent)
view none = none
view (some (e, q)) = some (e, waiting q)

length-run_from : (slots : ℕ → SdlEvent) (h n : ℕ) → length (run_from slots h n) ≡ n
length-run_from slots h zero = refl
length-run_from slots h (suc n) = ap suc (length-run_from slots ((h + 1) % 2048) n)

write_hit : (slots : ℕ → SdlEvent) (e : SdlEvent) (h i : ℕ) → h ≡ i → write i e slots h ≡ e
write_hit slots e h i p = ground arith

write_miss : (slots : ℕ → SdlEvent) (e : SdlEvent) (h i : ℕ) → h ≢ i → write i e slots h ≡ slots h
write_miss slots e h i p = ground arith

run_from-write :
    (slots : ℕ → SdlEvent) (e : SdlEvent) (n h i : ℕ)
    → n < 2048
    → h < 2048
    → i ≡ (h + n) % 2048
    → run_from (write i e slots) h (suc n) ≡ run_from slots h n ++ e ∷ []
run_from-write slots e zero h i ln lh eq = ap (λ x. x ∷ []) (write_hit slots e h i (omega arith))
run_from-write slots e (suc n) h i ln lh eq =
    ap₂ ◌∷◌ (write_miss slots e h i (omega arith))
      (run_from-write slots e n ((h + 1) % 2048) i (omega arith) (omega arith) (omega arith))

offer_full : (e : SdlEvent) (es : List SdlEvent) → length es ≡ 2047 → es ≡ offer e es
offer_full e es h = ground arith

offer_space : (e : SdlEvent) (es : List SdlEvent) → length es < 2047 → es ++ e ∷ [] ≡ offer e es
offer_space e es h = ground arith

module _ (e : SdlEvent) (q : EventQueue) (v : IsRing q) where
  full_case : (q.eq_tail + 1) % 2048 ≡ q.eq_head → waiting q ≡ offer e (waiting q)
  full_case h =
      offer_full e (waiting q) (length-run_from q.slots q.eq_head (filled q) ∙ (omega arith))

  space_case :
      (q.eq_tail + 1) % 2048 ≢ q.eq_head
      → run_from
          (write q.eq_tail e q.slots)
          q.eq_head
          (((q.eq_tail + 1) % 2048 + 2048 - q.eq_head) % 2048)
        ≡ offer e (waiting q)
  space_case h =
      let n : ((q.eq_tail + 1) % 2048 + 2048 - q.eq_head) % 2048 ≡ suc (filled q) = omega arith in
      ap (run_from (write q.eq_tail e q.slots) q.eq_head) n
      ∙ run_from-write q.slots e (filled q) q.eq_head q.eq_tail (omega arith) (omega arith)
          (omega arith)
      ∙ offer_space e (waiting q) (omega (arith, length-run_from q.slots q.eq_head (filled q)))

-- `queue_event` keeps the ring in range and offers the event to the FIFO, which refuses it when
-- 2047 events wait.
pub queue_event_refines :
    (e : SdlEvent) (q : EventQueue)
    → IsRing q
    → (waiting (queue_event e q) ≡ offer e (waiting q)) × IsRing (queue_event e q)
unfolding queue_event
queue_event_refines e q v = elim (Bool-cases ((q.eq_tail + 1) % 2048 == q.eq_head)) [
  | inl full ↦ ground (arith, full_case e q v)
  | inr space ↦ ground (arith, space_case e q v)
]

none_filled : (t h : ℕ) → h ≡ t → (t + 2048 - h) % 2048 ≡ 0
none_filled t h e = ground arith

take_empty : (q : EventQueue) → q.eq_head ≡ q.eq_tail → none ≡ pop (waiting q)
take_empty q h =
    ap (λ n. pop (run_from q.slots q.eq_head n)) (sym (none_filled q.eq_tail q.eq_head h))

take_first :
    (q : EventQueue)
    → IsRing q
    → q.eq_head ≢ q.eq_tail
    → some (q.slots q.eq_head, waiting (record q { eq_head = (q.eq_head + 1) % 2048 }))
      ≡ pop (waiting q)
take_first q v h =
    let k : filled q ≡ suc ((q.eq_tail + 2048 - (q.eq_head + 1) % 2048) % 2048) = omega arith in
    ap (λ n. pop (run_from q.slots q.eq_head n)) (sym k)

-- `dequeue_event` takes the oldest waiting event, and says so when there is none.
pub dequeue_event_refines : (q : EventQueue) → IsRing q → view (dequeue_event q) ≡ pop (waiting q)
unfolding dequeue_event
dequeue_event_refines q v = elim (Bool-cases (q.eq_head == q.eq_tail)) [
  | inl same ↦ ground (arith, take_empty q)
  | inr more ↦ ground (arith, take_first q v)
]
