-- ===== src/PlatoShim/Touch.antt =====
-- The touch state of components/system/src/plato_shim.c: `read` turns the panel's events into the
-- packets that Plato expects, one for each report while the finger is down and one at its lift.
pub mod Stream
use nookobo.Prelude.{
  ℕ, ◌+◌, ◌-◌, ◌*◌, ◌^◌, Bool, true, false, Option, none, some, List, [], ◌∷◌, ◌++◌, ◌&&◌, ◌||◌,
  not, ltb, ◌==◌, if◌then◌else◌,
}
use nookobo.PlatoShim.Queue.{TouchEvent, Ring, enqueue_event, copy_out}

-- `s_is_down`, `s_new_down`, `s_tracking_id`, `s_last_x` and `s_last_y`; an int32 is its bit
-- pattern.
pub record Contact : Type 0 where
  pub is_down : Bool
  pub new_down : Bool
  pub tracking_id : ℕ
  pub last_x : ℕ
  pub last_y : ℕ

pub record Shim : Type 0 where
  pub ring : Ring
  pub contact : Contact

-- linux/input.h
abbrev ev_key : ℕ
ev_key = 1

abbrev pub ev_abs : ℕ
ev_abs = 3

abbrev abs_mt_touch_major : ℕ
abs_mt_touch_major = 48

abbrev abs_mt_position_x : ℕ
abs_mt_position_x = 53

abbrev abs_mt_position_y : ℕ
abs_mt_position_y = 54

abbrev abs_mt_tracking_id : ℕ
abs_mt_tracking_id = 57

abbrev btn_touch : ℕ
btn_touch = 330

unfoldable pub track_abs : ℕ → ℕ → Contact → Contact
track_abs code value c =
    if code == abs_mt_tracking_id
    then (if ltb value (2 ^ 31) then record c { tracking_id = value } else c)
    else if code == abs_mt_position_x
    then record c { last_x = value }
    else if code == abs_mt_position_y
    then record c { last_y = value }
    else c

unfoldable pub track_key : ℕ → ℕ → Contact → Contact
track_key code value c = if code == btn_touch then record c { new_down = not (value == 0) } else c

-- The five events of a packet, which `read` enqueues one after the other.
unfoldable pub packet : Contact → ℕ → TouchEvent → List TouchEvent
packet c major e =
    at ev_abs abs_mt_tracking_id c.tracking_id
    ∷ at ev_abs abs_mt_position_x c.last_x
    ∷ at ev_abs abs_mt_position_y c.last_y
    ∷ at ev_abs abs_mt_touch_major major
    ∷ at 0 0 0
    ∷ []
  where
    at : ℕ → ℕ → ℕ → TouchEvent
    at t k v = record e { type = t; code = k; value = v }

unfoldable pub enqueue_all : List TouchEvent → Ring → Ring
enqueue_all [] q = q
enqueue_all (e ∷ es) q = enqueue_all es (enqueue_event e q)

-- SYN_REPORT
unfoldable pub report : TouchEvent → Shim → Shim
report e s =
    let c : Contact = s.contact in
    if not c.is_down && c.new_down
    then record {
      ring = enqueue_all (packet c 100 e) s.ring;
      contact = record c { is_down = true };
    }
    else if c.is_down && c.new_down
    then record s { ring = enqueue_all (packet c 100 e) s.ring }
    else if c.is_down && not c.new_down
    then record { ring = enqueue_all (packet c 0 e) s.ring; contact = record c { is_down = false } }
    else s

-- The body of the loop over the raw events.
unfoldable pub raw_event : TouchEvent → Shim → Shim
raw_event e s =
    if e.type == ev_abs
    then record s { contact = track_abs e.code e.value s.contact }
    else if e.type == ev_key
    then record s { contact = track_key e.code e.value s.contact }
    else if e.type == 0 && e.code == 0
    then report e s
    else s

unfoldable pub raw_events : List TouchEvent → Shim → Shim
raw_events [] s = s
raw_events (e ∷ es) s = raw_events es (raw_event e s)

-- What the C library's `read` returns: a count that is not positive, or whole events, of which
-- the buffer holds 16.
pub data RawRead : Type 0 where
  failed : ℕ → RawRead
  got : List TouchEvent → RawRead

pub data ReadReturn : Type 0 where
  blocked : ReadReturn
  code : ℕ → ReadReturn
  events : List TouchEvent → ReadReturn

-- `read` on the touch node with room for `n` events, over the answers that the C library's `read`
-- will give; `blocked` when there are none left. With the return value come the state and the
-- answers not used.
unfoldable pub read_touch : ℕ → List RawRead → Shim → ReadReturn × Shim × List RawRead
read_touch n [] s =
    let (out, q) = copy_out n s.ring in
    if s.ring.head == s.ring.tail then (blocked, s, []) else (events out, record s { ring = q }, [])
read_touch n (failed k ∷ rs) s =
    let (out, q) = copy_out n s.ring in
    if s.ring.head == s.ring.tail
    then (code k, s, rs)
    else (events out, record s { ring = q }, failed k ∷ rs)
read_touch n (got es ∷ rs) s =
    let more = read_touch n rs (raw_events es s) in
    let (out, q) = copy_out n s.ring in
    if s.ring.head == s.ring.tail then more else (events out, record s { ring = q }, got es ∷ rs)
