-- ===== src/PlatoShim/Calls/Ready.antt =====
-- What `poll` of components/system/src/plato_shim.c answers by itself, its `read` has.
use nookobo.Prelude.{
  Option, none, some, ℕ, ◌+◌, ◌%◌, ◌<◌, ◌≡◌, refl, ap, ap₂, ◌∙◌, Bool, true, false, List, [], ◌∷◌,
  map, take, drop, length, ◌&&◌, ◌||◌, not, ◌==◌, if◌then◌else◌, arith,
}
use nookobo.Prelude.Int.{ℤ, pos, negsuc}
use nookobo.PlatoShim.Queue.{Ring, copy_out}
use nookobo.PlatoShim.Queue.Fifo.{InRange, contents, length-contents, copy_out_refines}
use nookobo.PlatoShim.Touch.{Shim, RawRead, ReadReturn, failed, got, events, read_touch}
use nookobo.PlatoShim.Calls.{
  Process, opened, same_fd, is_touch_fd, read, PollFd, mark_ready, pending, poll,
}

-- The entry is for the touch node, and asks for POLLIN (1).
abbrev pub asks : ℤ → PollFd → Bool
asks touch f = (f.events % 2 == 1) && same_fd touch f.fd

-- Some entry asks for input from the touch node.
abbrev pub any_asks : ℤ → List PollFd → Bool
any_asks touch [] = false
any_asks touch (f ∷ fds) = asks touch f || any_asks touch fds

-- The entries that ask for input from the touch node.
abbrev pub asking : ℤ → List PollFd → ℕ
asking touch [] = 0
asking touch (f ∷ fds) = asking touch fds + (if asks touch f then 1 else 0)

-- POLLIN on an entry that asks for input from the touch node, nothing on the others.
abbrev pub answered : ℤ → PollFd → PollFd
answered touch f = record f { revents = if asks touch f then 1 else 0 }

same_fd_comm : (a b : ℤ) → same_fd a b ≡ same_fd b a
same_fd_comm (pos m) (pos n) = ground arith
same_fd_comm (pos m) (negsuc n) = ground arith
same_fd_comm (negsuc m) (pos n) = ground arith
same_fd_comm (negsuc m) (negsuc n) = ground arith

mark_ready_lem :
    (touch : ℤ) (fds : List PollFd)
    → mark_ready touch fds ≡ (asking touch fds, map (answered touch) fds)
unfolding mark_ready
mark_ready_lem touch [] = refl
mark_ready_lem touch (f ∷ fds) = ground (arith, mark_ready_lem touch fds, same_fd_comm f.fd touch)

asking-any_asks :
    (touch : ℤ) (fds : List PollFd) → (asking touch fds == 0) ≡ not (any_asks touch fds)
asking-any_asks touch [] = refl
asking-any_asks touch (f ∷ fds) = ground (arith, asking-any_asks touch fds)

-- With an event waiting, the touch node asked for input makes `poll` answer by itself.
poll_answers :
    (real_poll : List PollFd → ℤ × List PollFd) (fds : List PollFd) (p : Process)
    → opened p.touch_fd ≡ true
    → pending p.shim.ring ≡ true
    → any_asks p.touch_fd fds ≡ true
    → (poll real_poll fds p ≡ (pos (asking p.touch_fd fds), map (answered p.touch_fd) fds))
      × (0 < asking p.touch_fd fds)
unfolding poll
poll_answers real_poll fds p h1 h2 h3 =
    let marked = mark_ready_lem p.touch_fd fds in
    let asked : (asking p.touch_fd fds == 0) ≡ false = asking-any_asks p.touch_fd fds ∙ ap not h3 in
    (
      either (opened p.touch_fd && pending p.shim.ring) ((mark_ready p.touch_fd fds).0 == 0) _ _ _
            (ap₂ ◌&&◌ h1 h2) (ap (λ r. r.0 == 0) marked ∙ asked)
          ∙ ap (λ r. (pos r.0, r.1)) marked,
      ground arith,
    )
  where
    either :
        (here none_found : Bool) (asks answers all : ℤ × List PollFd)
        → here ≡ true
        → none_found ≡ false
        → (if here then (if none_found then asks else answers) else all) ≡ answers
    either here none_found asks answers all h k = rw (h, k)

read_has :
    (n : ℕ) (answers : List RawRead) (s : Shim)
    → pending s.ring ≡ true
    → read_touch n answers s
      ≡ (events (copy_out n s.ring).0, record s { ring = (copy_out n s.ring).1 }, answers)
unfolding read_touch
read_has n [] s h = let waits : (s.ring.head == s.ring.tail) ≡ false = ground arith in rw waits
read_has n (failed k ∷ answers) s h =
    let waits : (s.ring.head == s.ring.tail) ≡ false = ground arith in rw waits
read_has n (got es ∷ answers) s h =
    let waits : (s.ring.head == s.ring.tail) ≡ false = ground arith in rw waits

some_waiting : (q : Ring) → InRange q → pending q ≡ true → 0 < length (contents q)
some_waiting q v h =
    let apart : (q.head == q.tail) ≡ false = ground arith in
    let r : InRange q = v in
    let a = r.head_in in let b = r.tail_in in ground (arith, length-contents q)

same_fd_self : (fd : ℤ) → same_fd fd fd ≡ true
same_fd_self (pos n) = ground arith
same_fd_self (negsuc n) = ground arith

module _ (real_readlink : ℤ → Option (List ℕ)) where
  is_touch_fd_own :
      (p : Process) → opened p.touch_fd ≡ true → is_touch_fd real_readlink p.touch_fd p ≡ (true, p)
  unfolding is_touch_fd
  is_touch_fd_own p h =
      own (opened p.touch_fd) (same_fd p.touch_fd p.touch_fd) _ h (same_fd_self p.touch_fd)
    where
      own :
          (o same : Bool) (rest : Bool × Process)
          → o ≡ true
          → same ≡ true
          → if◌then◌else◌ {A = Bool × Process}
              (not o)
              (false, p)
              (if◌then◌else◌ {A = Bool × Process} same (true, p) rest)
            ≡ (true, p)
      own o same rest a b = rw (a, b)

  read_own :
      (p : Process) (n : ℕ) (answers : List RawRead)
      → opened p.touch_fd ≡ true
      → read real_readlink p.touch_fd n answers p ≡ (
        some ((read_touch n answers p.shim).0, (read_touch n answers p.shim).2),
        record p { shim = (read_touch n answers p.shim).1 },
      )
  unfolding read
  read_own p n answers h =
      ap
        (λ t.
          let r = read_touch n answers t.1.shim in
          if◌then◌else◌ {A = Option (ReadReturn × List RawRead) × Process} t.0
            (some (r.0, r.2), record (t.1) { shim = r.1 }) (none, t.1))
        (is_touch_fd_own p h)

-- If an event waits in the ring and the touch node is asked for input, then `poll` answers by
-- itself with the number of the entries that ask for it, at least one, and marks these and no others
-- with POLLIN; at least one event waits, and a `read` of the touch node with room for `n` events hands
-- over the oldest `n` of those that wait, all if there are fewer, keeps the others, and does not ask
-- the C library. The ring's indices are in range.
pub poll-read :
    (real_readlink : ℤ → Option (List ℕ)) (real_poll : List PollFd → ℤ × List PollFd)
    (fds : List PollFd) (p : Process) (n : ℕ) (answers : List RawRead)
    → InRange p.shim.ring
    → opened p.touch_fd ≡ true
    → pending p.shim.ring ≡ true
    → any_asks p.touch_fd fds ≡ true
    → (poll real_poll fds p ≡ (pos (asking p.touch_fd fds), map (answered p.touch_fd) fds))
      × (0 < asking p.touch_fd fds)
      × (0 < length (contents p.shim.ring))
      × ((q : Ring) × (read real_readlink p.touch_fd n answers p ≡ (
        some (events (take n (contents p.shim.ring)), answers),
        record p { shim = record (p.shim) { ring = q } },
      ))
          × (contents q ≡ drop n (contents p.shim.ring)))
poll-read real_readlink real_poll fds p n answers v h1 h2 h3 =
    let self = poll_answers real_poll fds p h1 h2 h3 in
    let (out, rest, v') = copy_out_refines n p.shim.ring v in
    let handed = read_has n answers p.shim h2 in
    let kept = (copy_out n p.shim.ring).1 in
    (
      self.0,
      self.1,
      some_waiting p.shim.ring v h2,
      (
        kept,
        read_own real_readlink p n answers h1
            ∙ ap (λ r. (some (r.0, r.2), record p { shim = r.1 })) handed
            ∙ ap
                (λ es.
                  (some (events es, answers), record p { shim = record (p.shim) { ring = kept } }))
                out,
        rest,
      ),
    )
