-- ===== src/Tools/Inject.antt =====
-- components/system/src/touch_inject.c, key_inject.c and send_key.c: what they write to a device and
-- how long they wait, with their exit codes. `atoi` is the C library's; the arguments leave out the
-- program's name.
use nookobo.Prelude.{ℕ, zero, suc, ◌-◌, ◌%◌, ◌==◌, Bool, List, [], ◌∷◌, ◌++◌, if◌then◌else◌}
use nookobo.Prelude.Int.{ℤ, pos, negsuc, ◌-ℤ◌}

pub record Event : Type 0 where
  pub type : ℕ
  pub code : ℕ
  pub value : ℤ

abbrev pub event : (type code : ℕ) → ℤ → Event
event type code value = record { type = type; code = code; value = value }

-- A `write` of events, or a `usleep`.
pub data Action : Type 0 where
  written : List Event → Action
  slept : ℕ → Action

-- The conversion of an `int` to `__u16`.
unfoldable pub as_u16 : ℤ → ℕ
as_u16 (pos n) = n % 65536
as_u16 (negsuc n) = 65535 - n % 65536

-- `1403 - x` is taken to be in range for an `int`.
unfoldable pub touch_at : ℤ → ℤ → List Action
touch_at x y =
    let phys_x = y in
    let phys_y = pos 1403 -ℤ x in
    written (event 3 47 (pos 0) ∷ event 3 57 (pos 0) ∷ event 3 53 phys_x ∷ event 3 54 phys_y ∷ [])
    ∷ written
        (event 3 48 (pos 100) ∷ event 3 50 (pos 10) ∷ event 1 330 (pos 1) ∷ event 0 0 (pos 0) ∷ [])
    ∷ slept 50000
    ∷ written
        (event 3 47 (pos 0) ∷ event 3 57 (negsuc 0) ∷ event 1 330 (pos 0) ∷ event 0 0 (pos 0) ∷ [])
    ∷ []

unfoldable pub press_and_release : ℕ → ℕ → List Action
press_and_release us code =
    written (event 1 code (pos 1) ∷ event 0 0 (pos 0) ∷ [])
    ∷ slept us
    ∷ written (event 1 code (pos 0) ∷ event 0 0 (pos 0) ∷ [])
    ∷ []

-- One tap of `send_key`: its `emit` writes one event at a time.
unfoldable pub tap : ℕ → List Action
tap code =
    written (event 1 code (pos 1) ∷ [])
    ∷ written (event 0 0 (pos 0) ∷ [])
    ∷ slept 50000
    ∷ written (event 1 code (pos 0) ∷ [])
    ∷ written (event 0 0 (pos 0) ∷ [])
    ∷ []

-- The loop of `send_key`: a pause between two taps, none after the last.
unfoldable pub taps : ℕ → ℕ → List Action
taps zero code = []
taps (suc n) code =
    let rest = taps n code in tap code ++ (if n == 0 then [] else slept 120000 ∷ rest)

unfoldable pub times : ℤ → ℕ
times (pos n) = n
times (negsuc n) = 0

module _ (atoi : List ℕ → ℤ) where
  unfoldable pub touch_inject : List (List ℕ) → Bool → List Action × ℕ
  touch_inject (x ∷ y ∷ []) opened = if opened then (touch_at (atoi x) (atoi y), 0) else ([], 1)
  touch_inject args opened = ([], 1)

  unfoldable pub key_inject : List (List ℕ) → Bool → List Action × ℕ
  key_inject (code ∷ []) opened =
      if opened then (press_and_release 20000 (as_u16 (atoi code)), 0) else ([], 1)
  key_inject args opened = ([], 1)

  -- `code` and `count` of `main`; the device is the first argument or /dev/input/event0.
  unfoldable pub key_of : List (List ℕ) → ℤ
  key_of (dev ∷ code ∷ rest) = atoi code
  key_of args = pos 102

  unfoldable pub count_of : List (List ℕ) → ℤ
  count_of (dev ∷ code ∷ count ∷ rest) = atoi count
  count_of args = pos 2

  unfoldable pub send_key : List (List ℕ) → Bool → List Action × ℕ
  send_key args opened =
      if opened then (taps (times (count_of args)) (as_u16 (key_of args)), 0) else ([], 1)
