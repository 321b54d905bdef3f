-- ===== src/PlatoShim/Queue/Fifo.antt =====
-- The ring of components/system/src/plato_shim.c is a FIFO of at most 127 events.
use nookobo.Prelude.{
  ℕ, zero, suc, ◌+◌, ◌-◌, ◌%◌, ◌<◌, ◌≡◌, ◌≢◌, refl, sym, ap, ap₂, ◌∙◌, List, [], ◌∷◌, ◌++◌, arith,
  length, take, drop, ◌==◌, if◌then◌else◌, Bool-cases, inl, inr,
}
use nookobo.PlatoShim.Queue.{TouchEvent, Ring, put_slot, enqueue_event, copy_out}

-- The `n` events from slot `h` on, going round.
abbrev window : (ℕ → TouchEvent) → ℕ → ℕ → List TouchEvent
window slots h zero = []
window slots h (suc n) = slots h ∷ window slots ((h + 1) % 128) n

abbrev pub used : Ring → ℕ
used q = (q.tail + 128 - q.head) % 128

-- The stored events, the oldest first.
abbrev pub contents : Ring → List TouchEvent
contents q = window q.slots q.head (used q)

pub record InRange (q : Ring) : Type 0 where
  pub head_in : q.head < 128
  pub tail_in : q.tail < 128

-- The abstract queue: one more event, and the oldest dropped if 127 were there.
abbrev pub push : TouchEvent → List TouchEvent → List TouchEvent
push e q = if length q == 127 then drop 1 q ++ e ∷ [] else q ++ e ∷ []

length-window : (slots : ℕ → TouchEvent) (h n : ℕ) → length (window slots h n) ≡ n
length-window slots h zero = refl
length-window slots h (suc n) = ap suc (length-window slots ((h + 1) % 128) n)

pub length-contents : (q : Ring) → length (contents q) ≡ used q
length-contents q = length-window q.slots q.head (used q)

slot_hit : (slots : ℕ → TouchEvent) (e : TouchEvent) (h i : ℕ) → h ≡ i → put_slot i e slots h ≡ e
slot_hit slots e h i p = ground arith

slot_miss :
    (slots : ℕ → TouchEvent) (e : TouchEvent) (h i : ℕ) → h ≢ i → put_slot i e slots h ≡ slots h
slot_miss slots e h i p = ground arith

-- Writing the slot behind a window appends the event.
window-put_slot :
    (slots : ℕ → TouchEvent) (e : TouchEvent) (n h i : ℕ)
    → n < 128
    → h < 128
    → i ≡ (h + n) % 128
    → window (put_slot i e slots) h (suc n) ≡ window slots h n ++ e ∷ []
window-put_slot slots e zero h i ln lh eq = ap (λ x. x ∷ []) (slot_hit slots e h i (omega arith))
window-put_slot slots e (suc n) h i ln lh eq =
    ap₂ ◌∷◌ (slot_miss slots e h i (omega arith))
      (window-put_slot slots e n ((h + 1) % 128) i (omega arith) (omega arith) (omega arith))

-- The ring stays in range.
pub enqueue_event-InRange : (e : TouchEvent) (q : Ring) → InRange q → InRange (enqueue_event e q)
unfolding enqueue_event
enqueue_event-InRange e q v = ground arith

push_full :
    (e : TouchEvent) (xs : List TouchEvent) → length xs ≡ 127 → drop 1 xs ++ e ∷ [] ≡ push e xs
push_full e xs h = ground arith

push_space : (e : TouchEvent) (xs : List TouchEvent) → length xs ≢ 127 → xs ++ e ∷ [] ≡ push e xs
push_space e xs h = ground arith

module _ (e : TouchEvent) (q : Ring) (v : InRange q) where
  full_case :
      (q.tail + 1) % 128 ≡ q.head
      → window
          (put_slot q.tail e q.slots)
          ((q.head + 1) % 128)
          (((q.tail + 1) % 128 + 128 - (q.head + 1) % 128) % 128)
        ≡ push e (contents q)
  full_case h =
      let n : used q ≡ 127 = omega arith in
      ap (window (put_slot q.tail e q.slots) ((q.head + 1) % 128)) {y = 127} (omega arith)
      ∙ window-put_slot q.slots e 126 ((q.head + 1) % 128) q.tail (omega arith) (omega arith)
          (omega arith)
      ∙ ap (λ k. drop 1 (window q.slots q.head k) ++ e ∷ []) (sym n)
      ∙ push_full e (contents q) (length-contents q ∙ n)

  space_case :
      (q.tail + 1) % 128 ≢ q.head
      → window (put_slot q.tail e q.slots) q.head (((q.tail + 1) % 128 + 128 - q.head) % 128)
        ≡ push e (contents q)
  space_case h =
      let n : ((q.tail + 1) % 128 + 128 - q.head) % 128 ≡ suc (used q) = omega arith in
      ap (window (put_slot q.tail e q.slots) q.head) n
      ∙ window-put_slot q.slots e (used q) q.head q.tail (omega arith) (omega arith) (omega arith)
      ∙ push_space e (contents q) (omega (arith, length-contents q))

-- `enqueue_event` is a push on the FIFO that drops the oldest of 127 events.
pub enqueue_event_refines :
    (e : TouchEvent) (q : Ring) → InRange q → contents (enqueue_event e q) ≡ push e (contents q)
unfolding enqueue_event
enqueue_event_refines e q v = elim (Bool-cases ((q.tail + 1) % 128 == q.head)) [
  | inl full ↦ ground (arith, full_case e q v)
  | inr space ↦ ground (arith, space_case e q v)
]

empty_used : (t h : ℕ) → h ≡ t → (t + 128 - h) % 128 ≡ 0
empty_used t h e = ground arith

pub empty : (q : Ring) → q.head ≡ q.tail → contents q ≡ []
empty q h = ap (window q.slots q.head) {y = 0} (empty_used q.tail q.head h)

copy_out_step :
    (q : Ring)
    → InRange q
    → q.head ≢ q.tail
    → contents q ≡ q.slots q.head ∷ contents (record q { head = (q.head + 1) % 128 })
copy_out_step q v h =
    let k : used q ≡ suc ((q.tail + 128 - (q.head + 1) % 128) % 128) = omega arith in
    ap (window q.slots q.head) k

-- The copy loop hands over the oldest `n` events in order, or all of them, and keeps the others.
pub copy_out_refines :
    (n : ℕ) (q : Ring)
    → InRange q
    → let (out, q') = copy_out n q in
      (out ≡ take n (contents q)) × (contents q' ≡ drop n (contents q)) × InRange q'
unfolding copy_out
copy_out_refines zero q v = (refl, refl, v)
copy_out_refines (suc n) q v = elim (Bool-cases (q.head == q.tail)) [
  | inl same ↦ ground (arith, empty q)
  | inr more ↦ ground (
    arith,
    copy_out_step q v,
    copy_out_refines n (record q { head = (q.head + 1) % 128 }) (omega arith),
  )
]
