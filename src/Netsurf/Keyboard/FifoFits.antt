-- ===== src/Netsurf/Keyboard/FifoFits.antt =====
-- A command from the FIFO leaves the text of the URL bar inside `g_current_url[1024]` of
-- components/netsurf/src/sdl_fb0_shim.c.
use nookobo.Prelude.{
  ℕ, ◌+◌, ◌^◌, ◌≡◌, refl, ◌∙◌, false, Option, none, some, List, ◌++◌, not, ◌&&◌, ltb, leb, length,
  length-append, take, drop, if◌then◌else◌, arith,
}
use nookobo.Netsurf.Keyboard.{Osk, act, simulate_click, redraw_osk}
use nookobo.Netsurf.Keyboard.Touch.{type_text, url_bar}
use nookobo.Netsurf.Keyboard.Commands.{
  redraw_if_shown, focus_url, key_command, text_command, url_command, click_command,
  handle_fifo_command,
}
use nookobo.Netsurf.Keyboard.Fits.{
  UrlFits, if_same-url, if_UrlFits, same_url-UrlFits, url_bar-url, type_text-url,
  osk_inject_key-url, simulate_click-url, clear_browser_url_bar-url, show_osk-url, toggle_osk-url,
  redraw_osk-url, take-short, below_1024,
}

redraw_if_shown-url : (s : Osk) → (redraw_if_shown s).current_url ≡ s.current_url
unfolding redraw_if_shown
redraw_if_shown-url s =
    if_same-url s.osk_active s.current_url (redraw_osk s) s (redraw_osk-url s) refl

pub focus_url-url : (s : Osk) → (focus_url s).current_url ≡ s.current_url
unfolding focus_url
focus_url-url s = show_osk-url _ ∙ osk_inject_key-url 279 0 _ ∙ simulate_click-url 300 35 _

key_command-url : (k : List ℕ) (s : Osk) → (key_command k s).current_url ≡ s.current_url
unfolding key_command
key_command-url k s = ground (
  arith,
  osk_inject_key-url 13 13 s,
  osk_inject_key-url 8 8 s,
  osk_inject_key-url 27 27 s,
  osk_inject_key-url 9 9 s,
  osk_inject_key-url 280 0 s,
  osk_inject_key-url 281 0 s,
  osk_inject_key-url 278 0 s,
  toggle_osk-url s,
  redraw_if_shown-url (record s { osk_lang = not s.osk_lang }),
  redraw_if_shown-url (record s { osk_shift = not s.osk_shift }),
  redraw_if_shown-url (record s { osk_symbols = not s.osk_symbols }),
  simulate_click-url 25 48 s,
  focus_url-url s,
)

text_command-UrlFits : (p : List ℕ) (s : Osk) → UrlFits s → UrlFits (text_command p s)
unfolding text_command
text_command-UrlFits p s h =
    let long : Osk = record s { current_url = s.current_url ++ p } in
    let r : Osk = if ltb (length s.current_url + length p) 1023 then url_bar long else s in
    same_url-UrlFits r (type_text 2000 p r) (type_text-url 2000 p r) (
      if_UrlFits (ltb (length s.current_url + length p) 1023) (url_bar long) s
        (λ g.
          same_url-UrlFits long (url_bar long) (url_bar-url long)
            (ground (arith, length-append s.current_url p)))
        h)

url_command-url : (url : List ℕ) (s : Osk) → (url_command url s).current_url ≡ take 1023 url
unfolding url_command act
url_command-url url s =
    osk_inject_key-url 13 13 _
    ∙ type_text-url 800 url _
    ∙ clear_browser_url_bar-url _
    ∙ simulate_click-url 300 35 _
    ∙ url_bar-url _

url_command-UrlFits : (url : List ℕ) (s : Osk) → UrlFits (url_command url s)
url_command-UrlFits url s =
    rw (url_command-url url s) (below_1024 (length (take 1023 url)) (take-short 1023 url))

click_command-UrlFits : (o : Option (ℕ × ℕ)) (s : Osk) → UrlFits s → UrlFits (click_command o s)
unfolding click_command
click_command-UrlFits none s h = h
click_command-UrlFits (some (cx, cy)) s h =
    let r : Osk =
      if ltb cy (2 ^ 31) && leb 75 cy then record s { url_bar_focused = false } else s in
    same_url-UrlFits r (simulate_click cx cy r) (simulate_click-url cx cy r) (
      if_UrlFits (ltb cy (2 ^ 31) && leb 75 cy) (record s { url_bar_focused = false }) s (λ _. h) h)

-- Whatever `sscanf` answers, a command from the FIFO leaves the text of the URL bar within its
-- array.
pub handle_fifo_command-UrlFits :
    (sscanf : List ℕ → Option (ℕ × ℕ)) (cmd : List ℕ) (s : Osk)
    → UrlFits s
    → UrlFits (handle_fifo_command sscanf cmd s)
unfolding handle_fifo_command
handle_fifo_command-UrlFits sscanf cmd s h = ground (
  arith,
  same_url-UrlFits s (key_command (drop 4 cmd) s) (key_command-url (drop 4 cmd) s) h,
  text_command-UrlFits (drop 5 cmd) s h,
  url_command-UrlFits (drop 4 cmd) s,
  click_command-UrlFits (sscanf (drop 6 cmd)) s h,
)
