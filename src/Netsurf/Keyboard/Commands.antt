-- ===== src/Netsurf/Keyboard/Commands.antt =====
-- The commands that arrive on /tmp/netsurf_input.fifo: `handle_fifo_command` of
-- components/netsurf/src/sdl_fb0_shim.c.
use nookobo.Prelude.{
  ℕ, ◌+◌, ◌^◌, true, false, Option, none, some, List, ◌++◌, not, ◌&&◌, ltb, leb, length, take, drop,
  ◌|>◌, if◌then◌else◌,
}
use nookobo.Prelude.Text.{codes, text_eq, has_prefix}
use nookobo.Netsurf.Keyboard.{
  Osk, pause, act, osk_inject_key, simulate_click, clear_browser_url_bar, redraw_osk, show_osk,
  toggle_osk,
}
use nookobo.Netsurf.Keyboard.Touch.{type_text, url_bar}

-- A change of the layout is drawn when the keyboard is on the screen.
unfoldable pub redraw_if_shown : Osk → Osk
redraw_if_shown s = if s.osk_active then redraw_osk s else s

unfoldable pub focus_url : Osk → Osk
focus_url s =
    record s { url_bar_focused = true } |> simulate_click 300 35 |> osk_inject_key 279 0 |> show_osk

unfoldable pub key_command : List ℕ → Osk → Osk
key_command k s =
    if text_eq k (codes "enter")
    then osk_inject_key 13 13 s
    else if text_eq k (codes "backspace")
    then osk_inject_key 8 8 s
    else if text_eq k (codes "escape")
    then osk_inject_key 27 27 s
    else if text_eq k (codes "tab")
    then osk_inject_key 9 9 s
    else if text_eq k (codes "pageup")
    then osk_inject_key 280 0 s
    else if text_eq k (codes "pagedown")
    then osk_inject_key 281 0 s
    else if text_eq k (codes "home")
    then osk_inject_key 278 0 s
    else if text_eq k (codes "osk")
    then toggle_osk s
    else if text_eq k (codes "lang")
    then redraw_if_shown (record s { osk_lang = not s.osk_lang })
    else if text_eq k (codes "shift")
    then redraw_if_shown (record s { osk_shift = not s.osk_shift })
    else if text_eq k (codes "sym")
    then redraw_if_shown (record s { osk_symbols = not s.osk_symbols })
    else if text_eq k (codes "back")
    then simulate_click 25 48 s
    else if text_eq k (codes "focus_url")
    then focus_url s
    else s

unfoldable pub text_command : List ℕ → Osk → Osk
text_command p s = type_text 2000 p (
    if ltb (length s.current_url + length p) 1023
    then url_bar (record s { current_url = s.current_url ++ p })
    else s)

unfoldable pub url_command : List ℕ → Osk → Osk
url_command url s =
    record s { current_url = take 1023 url }
    |> url_bar
    |> simulate_click 300 35
    |> act (pause 25000)
    |> clear_browser_url_bar
    |> act (pause 10000)
    |> type_text 800 url
    |> act (pause 20000)
    |> osk_inject_key 13 13

-- The numbers that the C library's `sscanf(…, "%d,%d", …)` reads, as bit patterns, when it reads
-- both.
unfoldable pub click_command : Option (ℕ × ℕ) → Osk → Osk
click_command none s = s
click_command (some (cx, cy)) s =
    simulate_click cx cy
      (if ltb cy (2 ^ 31) && leb 75 cy then record s { url_bar_focused = false } else s)

module _ (sscanf : List ℕ → Option (ℕ × ℕ)) where
  unfoldable pub handle_fifo_command : List ℕ → Osk → Osk
  handle_fifo_command cmd s =
      if has_prefix (codes "KEY:") cmd
      then key_command (drop 4 cmd) s
      else if has_prefix (codes "TEXT:") cmd
      then text_command (drop 5 cmd) s
      else if has_prefix (codes "URL:") cmd
      then url_command (drop 4 cmd) s
      else if has_prefix (codes "CLICK:") cmd
      then click_command (sscanf (drop 6 cmd)) s
      else s
