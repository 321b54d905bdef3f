-- ===== src/PlatoShim/Touch/Stream.antt =====
-- Between the touch panel and Plato, components/system/src/plato_shim.c loses no packet.
use nookobo.Prelude.{
  ℕ, ◌+◌, ◌*◌, ◌≤◌, ◌<◌, ◌≡◌, refl, sym, ap, ap₂, ◌∙◌, Bool, true, false, List, [], ◌∷◌, ◌++◌,
  arith, length, length-append, take, drop, take-append-drop, ◌==◌, ◌&&◌, if◌then◌else◌, ==_iff,
}
use mathlib.Core.List.{append-nil, append_assoc}
use nookobo.PlatoShim.Queue.{TouchEvent, Ring, enqueue_event, copy_out}
use nookobo.PlatoShim.Queue.Fifo.{
  InRange, contents, push, enqueue_event-InRange, enqueue_event_refines, copy_out_refines, empty,
}
use nookobo.PlatoShim.Touch.{
  Contact, Shim, track_abs, track_key, packet, enqueue_all, report, raw_event, raw_events, RawRead,
  failed, got, ReadReturn, blocked, code, events, read_touch,
}

-- The packet that a SYN_REPORT calls for: the finger is down, or has just been lifted.
abbrev reported : Contact → TouchEvent → List TouchEvent
reported c e = if c.new_down then packet c 100 e else if c.is_down then packet c 0 e else []

-- The contact after an event, and the packets for a whole sequence, without the ring.
abbrev contact_after : TouchEvent → Contact → Contact
contact_after e c =
    if e.type == 3
    then track_abs e.code e.value c
    else if e.type == 1
    then track_key e.code e.value c
    else if e.type == 0 && e.code == 0
    then record c { is_down = c.new_down }
    else c

abbrev emitted : TouchEvent → Contact → List TouchEvent
emitted e c = if e.type == 0 && e.code == 0 then reported c e else []

unfoldable pub packets : List TouchEvent → Contact → List TouchEvent
packets [] c = []
packets (e ∷ es) c = emitted e c ++ packets es (contact_after e c)

push_room : (e : TouchEvent) (xs : List TouchEvent) → length xs < 127 → push e xs ≡ xs ++ e ∷ []
push_room e xs h = ground arith

enqueue_all_lem :
    (es : List TouchEvent) (q : Ring)
    → InRange q
    → length (contents q) + length es ≤ 127
    → InRange (enqueue_all es q) × (contents (enqueue_all es q) ≡ contents q ++ es)
unfolding enqueue_all
enqueue_all_lem [] q v h = (v, sym (append-nil (contents q)))
enqueue_all_lem (e ∷ es) q v h =
    let grown : contents (enqueue_event e q) ≡ contents q ++ e ∷ [] =
      enqueue_event_refines e q v ∙ push_room e (contents q) (omega arith) in
    let (v', same) =
      enqueue_all_lem es (enqueue_event e q) (enqueue_event-InRange e q v)
        (rw (grown, length-append (contents q) (e ∷ [])) (omega arith)) in
    (v', same ∙ ap (λ xs. xs ++ es) grown ∙ append_assoc (contents q) (e ∷ []) es)

-- The contact after a sequence of events.
contacts : List TouchEvent → Contact → Contact
contacts [] c = c
contacts (e ∷ es) c = contacts es (contact_after e c)

packets-append :
    (es fs : List TouchEvent) (c : Contact)
    → packets (es ++ fs) c ≡ packets es c ++ packets fs (contacts es c)
unfolding packets contacts
packets-append [] fs c = refl
packets-append (e ∷ es) fs c =
    ap (λ xs. emitted e c ++ xs) (packets-append es fs (contact_after e c))
    ∙ sym (append_assoc (emitted e c) (packets es (contact_after e c)) _)

length-emitted : (e : TouchEvent) (c : Contact) → length (emitted e c) ≤ 5
unfolding packet
length-emitted e c = ground arith

-- One event changes the ring by its packet, and the contact.
raw_event-ring :
    (e : TouchEvent) (s : Shim) → (raw_event e s).ring ≡ enqueue_all (emitted e s.contact) s.ring
unfolding raw_event report enqueue_all
raw_event-ring e s = ground arith

raw_event-contact :
    (e : TouchEvent) (s : Shim) → (raw_event e s).contact ≡ contact_after e s.contact
unfolding raw_event report
raw_event-contact e s = ground arith

raw_events_lem :
    (es : List TouchEvent) (s : Shim)
    → InRange s.ring
    → length (contents s.ring) + 5 * length es ≤ 127
    → InRange (raw_events es s).ring
      × (contents (raw_events es s).ring ≡ contents s.ring ++ packets es s.contact)
      × ((raw_events es s).contact ≡ contacts es s.contact)
unfolding raw_events packets contacts
raw_events_lem [] s v h = (v, sym (append-nil (contents s.ring)), refl)
raw_events_lem (e ∷ es) s v h =
    let one =
      enqueue_all_lem (emitted e s.contact) s.ring v (omega (arith, length-emitted e s.contact)) in
    let ring = raw_event-ring e s in
    let grown : contents (raw_event e s).ring ≡ contents s.ring ++ emitted e s.contact =
      ap contents ring ∙ one.1 in
    let contact = raw_event-contact e s in
    let v' : InRange (raw_event e s).ring = rw ring one.0 in
    let rest = raw_events_lem es (raw_event e s) v' (
      rw (grown, length-append (contents s.ring) (emitted e s.contact))
        (omega (arith, length-emitted e s.contact))) in
    (
      rest.0,
      rest.1
          ∙ ap₂ (λ xs c. xs ++ packets es c) grown contact
          ∙ append_assoc (contents s.ring) (emitted e s.contact)
              (packets es (contact_after e s.contact)),
      rest.2 ∙ ap (contacts es) contact,
    )

-- What one call of `read` hands to Plato.
abbrev pub delivered : ReadReturn → List TouchEvent
delivered blocked = []
delivered (code n) = []
delivered (events es) = es

-- The events that the panel sends over a sequence of answers.
abbrev pub sent : List RawRead → List TouchEvent
sent [] = []
sent (failed n ∷ rs) = sent rs
sent (got es ∷ rs) = es ++ sent rs

-- The buffer of `read` holds 16 events.
abbrev pub AtMost16 : List RawRead → Type 0
AtMost16 [] = Unit
AtMost16 (failed n ∷ rs) = AtMost16 rs
AtMost16 (got es ∷ rs) = (length es ≤ 16) × AtMost16 rs

-- Events handed over, events waiting in the ring and packets still to be built make one stream,
-- which a call of `read` does not change.
abbrev pub Conserved : List TouchEvent → ReadReturn × Shim × List RawRead → Type 0
Conserved stream (r, s, rs) =
    (delivered r ++ (contents s.ring ++ packets (sent rs) s.contact) ≡ stream)
    × InRange s.ring
    × AtMost16 rs

from_ring :
    (n : ℕ) (s : Shim) (rs : List RawRead)
    → InRange s.ring
    → AtMost16 rs
    → Conserved
        (contents s.ring ++ packets (sent rs) s.contact)
        (events (copy_out n s.ring).0, record s { ring = (copy_out n s.ring).1 }, rs)
from_ring n s rs v small =
    let (out, rest, v') = copy_out_refines n s.ring v in
    (
      ap₂ (λ xs ys. xs ++ (ys ++ packets (sent rs) s.contact)) out rest
          ∙ sym (append_assoc (take n (contents s.ring)) (drop n (contents s.ring)) _)
          ∙ ap (λ xs. xs ++ packets (sent rs) s.contact) (take-append-drop n (contents s.ring)),
      v',
      small,
    )

if_Conserved :
    (b : Bool) (stream : List TouchEvent) (x y : ReadReturn × Shim × List RawRead)
    → (b ≡ true → Conserved stream x)
    → Conserved stream y
    → Conserved stream (if b then x else y)
if_Conserved true stream x y p q = p refl
if_Conserved false stream x y p q = q

-- With at most 16 events in each answer, a call of `read` neither loses nor reorders nor invents a
-- packet: what it hands over, what then waits in the ring and what the answers not used will give
-- make the stream there was, and the ring stays in range.
pub read_touch_conserves :
    (n : ℕ) (rs : List RawRead) (s : Shim)
    → InRange s.ring
    → AtMost16 rs
    → Conserved (contents s.ring ++ packets (sent rs) s.contact) (read_touch n rs s)
unfolding read_touch
read_touch_conserves n [] s v small =
    if_Conserved (s.ring.head == s.ring.tail) _ (blocked, s, [])
      (events (copy_out n s.ring).0, record s { ring = (copy_out n s.ring).1 }, [])
      (λ _. (refl, v, small)) (from_ring n s [] v small)
read_touch_conserves n (failed k ∷ rs) s v small =
    if_Conserved (s.ring.head == s.ring.tail) _ (code k, s, rs)
      (events (copy_out n s.ring).0, record s { ring = (copy_out n s.ring).1 }, failed k ∷ rs)
      (λ _. (refl, v, small)) (from_ring n s (failed k ∷ rs) v small)
read_touch_conserves n (got es ∷ rs) s v small =
    if_Conserved (s.ring.head == s.ring.tail) _ (read_touch n rs (raw_events es s))
      (events (copy_out n s.ring).0, record s { ring = (copy_out n s.ring).1 }, got es ∷ rs)
      (λ e.
        let gone : contents s.ring ≡ [] = empty s.ring ((==_iff s.ring.head s.ring.tail).0 e) in
        let (v', grown, contact) = raw_events_lem es s v (rw gone (omega arith)) in
        let (same, v2, small2) = read_touch_conserves n rs (raw_events es s) v' small.1 in
        (
          same
              ∙ ap₂ (λ xs c. xs ++ packets (sent rs) c) grown contact
              ∙ append_assoc (contents s.ring) (packets es s.contact) _
              ∙ ap (λ xs. contents s.ring ++ xs) (sym (packets-append es (sent rs) s.contact)),
          v2,
          small2,
        ))
      (from_ring n s (got es ∷ rs) v small)
