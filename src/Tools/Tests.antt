-- ===== src/Tools/Tests.antt =====
-- The theorems on the small tools of components/system/src at concrete inputs.
use nookobo.Prelude.{
  ℕ, ◌≡◌, refl, true, false, Option, none, some, List, [], ◌∷◌, ◌++◌, arith, if◌then◌else◌,
}
use nookobo.Prelude.Int.{ℤ, pos, ◌-ℤ◌}
use nookobo.Prelude.Text.{codes, text_eq}
use nookobo.Netsurf.Events.{motion, button}
use nookobo.Netsurf.Keyboard.{queued}
use nookobo.Netsurf.Keyboard.Commands.{handle_fifo_command}
use nookobo.Netsurf.Worker.{Worker, fifo, step, steps}
use nookobo.Tools.Inject.{touch_inject}
use nookobo.Tools.Clicks.{touch_inputs, touch_inject-clicks}
use nookobo.Tools.Fifo.{fifo_write, fifo_write-command}
use nookobo.Tools.Probe.{Answers, probe}
use nookobo.Tools.Healthy.{probe-healthy, auto_after, probe_gives_back}

abbrev no_numbers : List ℕ → Option (ℕ × ℕ)
no_numbers s = none

-- A number for two texts.
abbrev atoi : List ℕ → ℤ
atoi s = if text_eq s (codes "300") then pos 300 else pos 800

abbrev idle : Worker
idle = record {
  osk = record {
    mapped = true;
    osk_active = false;
    clip_height = 1872;
    osk_lang = false;
    osk_shift = false;
    osk_symbols = false;
    osk_keys = [];
    current_url = [];
    url_bar_focused = true;
    left_string = false;
    effects = [];
  };
  cur_x = pos 0;
  cur_y = pos 0;
  cur_down = false;
  touch_down = false;
  last_touch_x = 0;
  last_touch_y = 0;
}

touch_inject-clicks_example :
    ((touch_inject atoi (codes "300" ∷ codes "800" ∷ []) true).1 ≡ 0)
    × ((steps no_numbers
          (touch_inputs (touch_inject atoi (codes "300" ∷ codes "800" ∷ []) true).0)
          idle).osk.effects
        ≡ (([] ++ queued (motion 0 300 800 (pos 300 -ℤ pos 0) (pos 800 -ℤ pos 0)) ∷ [])
            ++ queued (button true 300 800) ∷ [])
          ++ queued (button false 300 800) ∷ [])
    × ((steps no_numbers
          (touch_inputs (touch_inject atoi (codes "300" ∷ codes "800" ∷ []) true).0)
          idle).touch_down
        ≡ false)
unfolding text_eq
touch_inject-clicks_example =
    touch_inject-clicks atoi no_numbers (codes "300") (codes "800") 300 800 idle refl refl
      (omega arith) refl (omega arith) refl refl refl

fifo_write-command_example :
    (fifo_write (codes "KEY:tab" ∷ []) true true ≡ (some (codes "KEY:tab" ++ 10 ∷ []), 0))
    × (step no_numbers (fifo (codes "KEY:tab" ++ 10 ∷ [])) idle
        ≡ record idle { osk = handle_fifo_command no_numbers (codes "KEY:tab") idle.osk })
fifo_write-command_example =
    fifo_write-command no_numbers 75 (69 ∷ 89 ∷ 58 ∷ 116 ∷ 97 ∷ 98 ∷ []) [] idle
      (
        omega arith,
        omega arith,
        (λ e. omega arith),
        (λ e. omega arith),
        (
          omega arith,
          omega arith,
          (λ e. omega arith),
          (λ e. omega arith),
          (
            omega arith,
            omega arith,
            (λ e. omega arith),
            (λ e. omega arith),
            (
              omega arith,
              omega arith,
              (λ e. omega arith),
              (λ e. omega arith),
              (
                omega arith,
                omega arith,
                (λ e. omega arith),
                (λ e. omega arith),
                (
                  omega arith,
                  omega arith,
                  (λ e. omega arith),
                  (λ e. omega arith),
                  (omega arith, omega arith, (λ e. omega arith), (λ e. omega arith), tt),
                ),
              ),
            ),
          ),
        ),
      )
      (omega arith)

-- The first wait fails and the second does not.
abbrev answers : Answers
answers = record {
  opens = true;
  vinfo = some (record { xres = 1404; yres = 1872; bits_per_pixel = 16 });
  line_length = some 2816;
  auto_orig = pos 1;
  silence_opens = true;
  restore_opens = true;
  sends = true;
  completes = false;
  completes_again = true;
}

probe-healthy_example : (probe answers).0 ≡ 0
probe-healthy_example = probe-healthy answers

probe_gives_back_example : auto_after (probe answers).1.acts 1 ≡ 1
probe_gives_back_example = probe_gives_back answers 1 refl refl
