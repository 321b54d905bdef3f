-- ===== src/Watcher/Setup.antt =====
-- The start of `main` of components/system/src/btn-watcher.c: the grabbed event node and the virtual
-- device, over which of the system's calls succeed. The messages are left out, and the shell command
-- that links the new node is given by its purpose.
pub mod Enabled
use nookobo.Prelude.{
  ℕ, ◌+◌, Bool, true, false, List, [], ◌∷◌, ◌++◌, ◌&&◌, ◌||◌, ◌==◌, not, if◌then◌else◌,
}
use nookobo.Watcher.State.{InputEvent, ev_syn, ev_key, ev_sw}

-- What is done to the two nodes: UI_SET_EVBIT, UI_SET_KEYBIT, UI_SET_SWBIT, UI_DEV_CREATE.
pub data SetupAct : Type 0 where
  grabbed : SetupAct
  set_evbit : ℕ → SetupAct
  set_keybit : ℕ → SetupAct
  set_swbit : ℕ → SetupAct
  created : SetupAct
  closed_uinput : SetupAct
  closed_events : SetupAct
  linked : SetupAct

-- Which calls succeed: the opens of the event node and of the two names of uinput, the write of the
-- description and the creation.
pub record Setup : Type 0 where
  pub events_open : Bool
  pub uinput_opens : Bool
  pub input_uinput_opens : Bool
  pub describes : Bool
  pub creates : Bool

unfoldable pub device_bits : List SetupAct
device_bits =
    set_evbit 1
    ∷ set_evbit 5
    ∷ set_evbit 0
    ∷ set_keybit 116
    ∷ set_keybit 102
    ∷ set_keybit 191
    ∷ set_keybit 192
    ∷ set_keybit 193
    ∷ set_keybit 194
    ∷ set_swbit 0
    ∷ []

-- Whether the loop is reached; if not the program exits with 1.
unfoldable pub set_up : Setup → Bool × List SetupAct
set_up s =
    if not s.events_open
    then (false, [])
    else if not (s.uinput_opens || s.input_uinput_opens)
    then (false, grabbed ∷ closed_events ∷ [])
    else if not s.describes
    then (false, (grabbed ∷ device_bits) ++ closed_uinput ∷ closed_events ∷ [])
    else if not s.creates
    then (false, (grabbed ∷ device_bits) ++ closed_uinput ∷ closed_events ∷ [])
    else (true, (grabbed ∷ device_bits) ++ created ∷ linked ∷ [])

-- Whether the device was made for an event: its type and, for a key or a switch, its code.
abbrev pub has_type : ℕ → List SetupAct → Bool
has_type t [] = false
has_type t (set_evbit u ∷ acts) = (t == u) || has_type t acts
has_type t (a ∷ acts) = has_type t acts

abbrev pub has_key : ℕ → List SetupAct → Bool
has_key c [] = false
has_key c (set_keybit d ∷ acts) = (c == d) || has_key c acts
has_key c (a ∷ acts) = has_key c acts

abbrev pub has_switch : ℕ → List SetupAct → Bool
has_switch c [] = false
has_switch c (set_swbit d ∷ acts) = (c == d) || has_switch c acts
has_switch c (a ∷ acts) = has_switch c acts

abbrev pub enabled : List SetupAct → InputEvent → Bool
enabled acts e =
    has_type e.type acts
    && ((not (e.type == ev_key) || has_key e.code acts)
        && (not (e.type == ev_sw) || has_switch e.code acts))
