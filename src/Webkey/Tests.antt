-- ===== src/Webkey/Tests.antt =====
-- The theorems on components/netsurf/src/nook-webkey.c at concrete inputs.
use nookobo.Prelude.{ℕ, true, false, Option, none, List, []}
use nookobo.Prelude.Int.{pos}
use nookobo.Netsurf.Keyboard.{Osk}
use nookobo.Netsurf.Worker.{Worker}

abbrev keyboard : Osk
keyboard = record {
  mapped = true;
  osk_active = false;
  clip_height = 1872;
  osk_lang = false;
  osk_shift = false;
  osk_symbols = false;
  osk_keys = [];
  current_url = [];
  url_bar_focused = true;
  left_string = false;
  effects = [];
}

abbrev worker : Worker
worker = record {
  osk = keyboard;
  cur_x = pos 0;
  cur_y = pos 0;
  cur_down = false;
  touch_down = false;
  last_touch_x = 0;
  last_touch_y = 0;
}

abbrev no_numbers : List ℕ → Option (ℕ × ℕ)
no_numbers s = none

abbrev same : List ℕ → List ℕ
same s = s
