-- ===== src/Netsurf/Calls/Waits.antt =====
-- The loop of SDL_WaitEvent of components/netsurf/src/sdl_fb0_shim.c.
use nookobo.Prelude.{
  ℕ, ◌≡◌, refl, ap, ◌∙◌, Bool, true, false, Option, none, some, List, [], ◌∷◌, ◌++◌, if◌then◌else◌,
  ltb, length,
}
use nookobo.Netsurf.Events.{SdlEvent, EventQueue, queue_event, dequeue_event}
use nookobo.Netsurf.Events.Fifo.{
  IsRing, waiting, offer, pop, view, queue_event_refines, dequeue_event_refines,
}
use nookobo.Netsurf.Calls.{queue_all, at_once, a_pause_later, or_else, wait_event}

-- The first of the events that wait and then of those that arrive in the rounds, with the number of
-- rounds before it.
abbrev pub first_event : List SdlEvent → List (List SdlEvent) → Option (ℕ × SdlEvent)
first_event (e ∷ es) rounds = some (0, e)
first_event [] [] = none
first_event [] (arrivals ∷ later) = a_pause_later (first_event arrivals later)

queue_all-IsRing : (es : List SdlEvent) (q : EventQueue) → IsRing q → IsRing (queue_all es q)
queue_all-IsRing [] q ring = ring
queue_all-IsRing (e ∷ es) q ring =
    queue_all-IsRing es (queue_event e q) (queue_event_refines e q ring).1

-- More events leave the first one where it is.
first_stays :
    (es : List SdlEvent) (q : EventQueue) (x : SdlEvent) (xs : List SdlEvent)
    (rounds : List (List SdlEvent))
    → IsRing q
    → waiting q ≡ x ∷ xs
    → first_event (waiting (queue_all es q)) rounds ≡ some (0, x)
first_stays [] q x xs rounds ring w = ap (λ ws. first_event ws rounds) w
first_stays (e ∷ es) q x xs rounds ring w =
    let refines = queue_event_refines e q ring in
    let next = behind (ltb (length (waiting q)) 2047) refines.0 in
    first_stays es (queue_event e q) x next.0 rounds refines.1 next.1
  where
    behind :
        (b : Bool)
        → waiting (queue_event e q) ≡ (if b then waiting q ++ e ∷ [] else waiting q)
        → (more : List SdlEvent) × (waiting (queue_event e q) ≡ x ∷ more)
    behind true k = (xs ++ e ∷ [], k ∙ ap (λ ws. ws ++ e ∷ []) w)
    behind false k = (xs, k ∙ w)

-- What arrives at an empty queue.
first_arrives :
    (es : List SdlEvent) (q : EventQueue) (rounds : List (List SdlEvent))
    → IsRing q
    → waiting q ≡ []
    → first_event (waiting (queue_all es q)) rounds ≡ first_event es rounds
first_arrives [] q rounds ring w = ap (λ ws. first_event ws rounds) w
first_arrives (e ∷ es) q rounds ring w =
    let refines = queue_event_refines e q ring in
    first_stays es (queue_event e q) e [] rounds refines.1 (refines.0 ∙ ap (offer e) w)

abbrev oldest : Option (SdlEvent × List SdlEvent) → Option (ℕ × SdlEvent)
oldest none = none
oldest (some (e, es)) = some (0, e)

at_once-view : (d : Option (SdlEvent × EventQueue)) → at_once d ≡ oldest (view d)
at_once-view none = refl
at_once-view (some (e, q)) = refl

-- SDL_WaitEvent comes back as soon as there is an event, and with the first one: what waits already
-- comes without a pause, and otherwise the first event of the first pause in which one arrives.
pub wait_event_first :
    (rounds : List (List SdlEvent)) (q : EventQueue)
    → IsRing q
    → wait_event rounds q ≡ first_event (waiting q) rounds
unfolding wait_event
wait_event_first [] q ring =
    at_once-view (dequeue_event q) ∙ ap oldest (dequeue_event_refines q ring) ∙ seen (waiting q)
  where
    seen : (ws : List SdlEvent) → oldest (pop ws) ≡ first_event ws []
    seen [] = refl
    seen (e ∷ es) = refl
wait_event_first (arrivals ∷ later) q ring =
    let after = wait_event later (queue_all arrivals q) in
    ap (λ r. or_else r (a_pause_later after))
      (at_once-view (dequeue_event q) ∙ ap oldest (dequeue_event_refines q ring))
    ∙ seen (waiting q)
        (λ w.
          wait_event_first later (queue_all arrivals q) (queue_all-IsRing arrivals q ring)
          ∙ first_arrives arrivals q later ring w)
        refl
  where
    seen :
        (ws : List SdlEvent)
        → (waiting q ≡ [] → wait_event later (queue_all arrivals q) ≡ first_event arrivals later)
        → waiting q ≡ ws
        → or_else (oldest (pop ws)) (a_pause_later (wait_event later (queue_all arrivals q)))
          ≡ first_event ws (arrivals ∷ later)
    seen [] empty w = ap a_pause_later (empty w)
    seen (e ∷ es) empty w = refl
