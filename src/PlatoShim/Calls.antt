-- ===== src/PlatoShim/Calls.antt =====
-- `open`, `close`, `read` and `poll` of components/system/src/plato_shim.c, which follow the touch node and
-- its ring; the C library's functions are parameters.
pub mod Ready
use nookobo.Prelude.{
  ℕ, suc, ◌+◌, ◌%◌, Bool, true, false, Option, none, some, List, [], ◌∷◌, ◌++◌, ◌&&◌, ◌||◌, not,
  ◌==◌, if◌then◌else◌, take,
}
use nookobo.Prelude.Int.{ℤ, pos, negsuc}
use nookobo.Prelude.Text.{codes, has_prefix, c_string}
use nookobo.PlatoShim.Queue.{TouchEvent, Ring}
use nookobo.PlatoShim.Touch.{Contact, Shim, RawRead, ReadReturn, read_touch}

-- `s_touch_fd` with the ring and the contact.
pub record Process : Type 0 where
  pub touch_fd : ℤ
  pub shim : Shim

-- strstr(s, needle) != NULL
unfoldable pub has_text : List ℕ → List ℕ → Bool
has_text needle [] = has_prefix needle []
has_text needle (c ∷ s) = let later = has_text needle s in has_prefix needle (c ∷ s) || later

-- A path may be NULL.
unfoldable pub path_has : List ℕ → Option (List ℕ) → Bool
path_has needle none = false
path_has needle (some path) = has_text needle path

abbrev pub opened : ℤ → Bool
opened (pos n) = true
opened (negsuc n) = false

-- fd == other, for `int`s.
abbrev pub same_fd : ℤ → ℤ → Bool
same_fd (pos a) (pos b) = a == b
same_fd (negsuc a) (negsuc b) = a == b
same_fd a b = false

-- What an opened touch node starts with.
abbrev no_contact : Contact
no_contact = record { is_down = false; new_down = false; tracking_id = 0; last_x = 0; last_y = 0 }

unfoldable pub reset_open : ℤ → Process → Process
reset_open fd p = record {
  touch_fd = fd;
  shim = record { ring = record p.shim.ring { head = 0; tail = 0 }; contact = no_contact };
}

-- The C library's `open` and `open64` as one function: whether it is `open64`, and the path.
module _ (real_open : Bool → Option (List ℕ) → ℤ) where
  -- The call after the light sensor's file.
  unfoldable pub open_node : Bool → Option (List ℕ) → Process → ℤ × Process
  open_node is_64 path p =
      let ret = real_open is_64 path in
      if not (opened ret) && path_has (codes "rtc0") path
      then (real_open is_64 (some (codes "/dev/null")), p)
      else if opened ret && path_has (codes "event1") path
      then (ret, reset_open ret p)
      else (ret, p)

  -- The light sensor's file is made up; the write of "100\n" to it is not modelled.
  unfoldable pub handle_open : Bool → Option (List ℕ) → Process → ℤ × Process
  handle_open is_64 path p =
      let als = real_open false (some (codes "/tmp/als_vis_data")) in
      if path_has (codes "als_vis_data") path && opened als
      then (als, p)
      else open_node is_64 path p

-- The state that `close` leaves; it returns what the C library's `close` does.
unfoldable pub close : ℤ → Process → Process
close fd p =
    if same_fd fd p.touch_fd
    then record {
      touch_fd = negsuc 0;
      shim = record {
        ring = record p.shim.ring { head = 0; tail = 0 };
        contact = record p.shim.contact { is_down = false; new_down = false };
      };
    }
    else p

-- The text of the link /proc/self/fd/`fd`, of which 127 bytes are read; none if there is none.
module _ (real_readlink : ℤ → Option (List ℕ)) where
  abbrev linked : ℤ → Bool
  linked fd = elim (real_readlink fd) [
    | none ↦ false
    | some link ↦ has_text (codes "event1") (c_string (take 127 link))
  ]

  -- A touch node that was opened before the shim was loaded is found by its name.
  unfoldable pub is_touch_fd : ℤ → Process → Bool × Process
  is_touch_fd fd p =
      if not (opened fd)
      then (false, p)
      else if same_fd fd p.touch_fd
      then (true, p)
      else if opened p.touch_fd
      then (false, p)
      else if linked fd
      then (true, record p { touch_fd = fd })
      else (false, p)

  -- `read` with room for `n` events; `none` where the C library's `read` answers.
  unfoldable pub read :
      ℤ → ℕ → List RawRead → Process → Option (ReadReturn × List RawRead) × Process
  read fd n answers p =
      let (touch, q) = is_touch_fd fd p in
      let (out, s, rest) = read_touch n answers q.shim in
      if touch then (some (out, rest), record q { shim = s }) else (none, q)

-- `struct pollfd`
pub record PollFd : Type 0 where
  pub fd : ℤ
  pub events : ℕ
  pub revents : ℕ

-- fds[i].fd == s_touch_fd && (fds[i].events & POLLIN)
abbrev pub asks_touch : ℤ → PollFd → Bool
asks_touch touch f = same_fd f.fd touch && f.events % 2 == 1

-- The loop of `poll`, with the number of entries found.
unfoldable pub mark_ready : ℤ → List PollFd → ℕ × List PollFd
mark_ready touch [] = (0, [])
mark_ready touch (f ∷ fds) =
    let (found, marked) = mark_ready touch fds in
    if asks_touch touch f
    then (found + 1, record f { revents = 1 } ∷ marked)
    else (found, record f { revents = 0 } ∷ marked)

abbrev pub pending : Ring → Bool
pending q = not (q.head == q.tail)

-- `poll` over the C library's `poll`: the result and the entries as they are left.
unfoldable pub poll : (List PollFd → ℤ × List PollFd) → List PollFd → Process → ℤ × List PollFd
poll real_poll fds p =
    let (found, marked) = mark_ready p.touch_fd fds in
    if opened p.touch_fd && pending p.shim.ring
    then (if found == 0 then real_poll marked else (pos found, marked))
    else real_poll fds
