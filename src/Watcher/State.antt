-- ===== src/Watcher/State.antt =====
-- The state of the main loop of components/system/src/btn-watcher.c, and what the loop does to
-- the rest of the system.
use Prim.Native.String.{String}
use nookobo.Prelude.{ℕ, ◌-◌, ◌^◌, Bool, false, List, [], ◌∷◌, if◌then◌else◌, ◌|>◌}
use nookobo.Watcher.Screen.{Device, Screen}
use nookobo.Watcher.Apps.{Files}

-- `struct input_event` without its time stamp; an int32 value is its bit pattern.
pub record InputEvent : Type 0 where
  pub type : ℕ
  pub code : ℕ
  pub value : ℕ

abbrev pub event : ℕ → ℕ → ℕ → InputEvent
event t c v = record { type = t; code = c; value = v }

-- linux/input.h
abbrev pub ev_syn : ℕ
ev_syn = 0

abbrev pub ev_key : ℕ
ev_key = 1

abbrev pub ev_abs : ℕ
ev_abs = 3

abbrev pub ev_sw : ℕ
ev_sw = 5

abbrev pub key_home : ℕ
key_home = 102

abbrev pub key_power : ℕ
key_power = 116

-- -1 as an int32.
abbrev pub minus_one : ℕ
minus_one = 2 ^ 32 - 1

-- What leaves the program: events on the virtual device, events written to the touch panel, waits
-- and shell commands.
pub data Effect : Type 0 where
  emit : InputEvent → Effect
  inject : List InputEvent → Effect
  wait : ℕ → Effect
  shell : String → Effect

-- The local variables of `main`, and `media_mode`.
pub record Keys : Type 0 where
  pub power_pending : Bool
  pub power_down_time : ℕ
  pub home_down : Bool
  pub home_combo_consumed : Bool
  pub home_pending_single : Bool
  pub home_long_sent : Bool
  pub home_down_time : ℕ
  pub home_single_time : ℕ
  pub home_double_consumed : Bool
  pub media_mode : Bool

-- `log` has the newest effect first.
pub record State : Type 0 where
  pub keys : Keys
  pub screen : Screen
  pub files : Files
  pub log : List Effect

-- What the system answers: the framebuffer, and whether /dev/input/event1 opens for writing.
pub record System : Type 0 where
  pub device : Device
  pub touch_opens : Bool

unfoldable pub initial_keys : Keys
initial_keys = record {
  power_pending = false;
  power_down_time = 0;
  home_down = false;
  home_combo_consumed = false;
  home_pending_single = false;
  home_long_sent = false;
  home_down_time = 0;
  home_single_time = 0;
  home_double_consumed = false;
  media_mode = false;
}

abbrev pub push : Effect → State → State
push e w = record w { log = e ∷ w.log }

unfoldable pub emit_event : ℕ → ℕ → ℕ → State → State
emit_event t c v w = push (emit (event t c v)) w

unfoldable pub emit_syn : State → State
unfolding emit_event
emit_syn w = emit_event ev_syn 0 0 w

unfoldable pub emit_key_click : ℕ → State → State
unfolding emit_event emit_syn
emit_key_click code w =
    w
    |> emit_event ev_key code 1
    |> emit_syn
    |> push (wait 20000)
    |> emit_event ev_key code 0
    |> emit_syn

-- One tap at (35, 180) of the touch panel: the two writes with the wait between them.
abbrev tap : State → State
tap w =
    w
    |> push (
        inject (
          event ev_abs 57 1
          ∷ event ev_abs 53 35
          ∷ event ev_abs 54 180
          ∷ event ev_key 330 1
          ∷ event ev_syn 0 0
          ∷ []))
    |> push (wait 40000)
    |> push (inject (event ev_abs 57 minus_one ∷ event ev_key 330 0 ∷ event ev_syn 0 0 ∷ []))

unfoldable pub inject_plato_frontlight : System → State → State
inject_plato_frontlight sys w = if sys.touch_opens then w |> tap |> push (wait 180000) |> tap else w
