-- ===== src/Netsurf/Keyboard/Touch.antt =====
-- A touch on the on-screen keyboard: `handle_osk_touch` of components/netsurf/src/sdl_fb0_shim.c.
use nookobo.Prelude.{
  ℕ, ◌+◌, ◌-◌, Bool, true, false, Option, none, some, List, [], ◌∷◌, ◌++◌, not, ◌&&◌, ◌||◌, ltb,
  leb, ◌==◌, length, take, ◌|>◌, if◌then◌else◌,
}
use nookobo.Prelude.Text.{codes, has_prefix}
use nookobo.Netsurf.Utf8.{decode, encode}
use nookobo.Netsurf.Layout.{
  OskKey, KeyAction, act_char, act_backspace, act_enter, act_space, act_shift, act_symbols,
  act_lang, act_hide, act_clear, act_dotcom, key_at,
}
use nookobo.Netsurf.Keyboard.{
  Osk, pause, draw_osk_key, refresh_fast, act, osk_inject_key, send_ctrl_key, simulate_click,
  inject_times, clear_browser_url_bar, draw_url_bar_overlay, draw_osk_input_preview, redraw_osk,
  hide_osk,
}

-- strchr(s, c) != NULL
unfoldable pub strchr : ℕ → List ℕ → Bool
strchr c [] = false
strchr c (d ∷ s) = (c == d) || strchr c s

-- strstr(s, t) != NULL
unfoldable pub strstr : List ℕ → List ℕ → Bool
strstr t [] = has_prefix t []
strstr t (d ∷ s) = has_prefix t (d ∷ s) || strstr t s

-- while (*trimmed == ' ') trimmed++;
unfoldable pub trim : List ℕ → List ℕ
trim [] = []
trim (c ∷ s) = let rest = trim s in if c == 32 then rest else c ∷ s

-- The loop that writes `+` for a blank.
unfoldable pub query_enc : List ℕ → List ℕ
query_enc [] = []
query_enc (c ∷ s) = (if c == 32 then 43 else c) ∷ query_enc s

-- `target` of ACT_ENTER: a search, or the text itself, cut to the array's 1023 bytes; `query_enc`
-- takes 1022.
unfoldable pub enter_target : List ℕ → List ℕ
enter_target url =
    let trimmed = trim url in
    if strchr 32 trimmed || (not (strstr (codes "://") trimmed) && not (strchr 46 trimmed))
    then take 1023 (codes "https://lite.duckduckgo.com/lite/?q=" ++ take 1022 (query_enc trimmed))
    else take 1023 trimmed

-- The ASCII part of tolower; the argument is below 128.
abbrev tolower : ℕ → ℕ
tolower c = if leb 65 c && leb c 90 then c + 32 else c

abbrev pub key_sym : ℕ → ℕ
key_sym cp = if ltb cp 128 then tolower cp else cp

-- The loop that types code points, with a pause after each; it skips ends of lines.
unfoldable pub type_points : ℕ → List ℕ → Osk → Osk
type_points us [] s = s
type_points us (cp ∷ cps) s =
    type_points us cps
      (if cp == 10 || cp == 13 then s else act (pause us) (osk_inject_key (key_sym cp) cp s))

unfoldable pub type_text : ℕ → List ℕ → Osk → Osk
type_text us text s =
    let (cps, left) = decode text in
    type_points us cps (record s { left_string = s.left_string || left })

-- The preview and the URL bar after a change of the text.
unfoldable pub show_url : Osk → Osk
show_url s =
    s
    |> draw_osk_input_preview
    |> act (refresh_fast 202 1275 1000 46)
    |> draw_url_bar_overlay
    |> act (refresh_fast 145 6 1175 58)

unfoldable pub url_bar : Osk → Osk
url_bar s = act (refresh_fast 145 6 1175 58) (draw_url_bar_overlay s)

-- The end of `handle_osk_touch` for the actions that break out of the switch.
unfoldable pub release_key : OskKey → Osk → Osk
release_key k s =
    s |> act (pause 40000) |> draw_osk_key k false |> act (refresh_fast k.x k.y k.w k.h)

unfoldable pub clear_key : Osk → Osk
clear_key s =
    let t : Osk = if s.url_bar_focused then record s { current_url = [] } else s in
    let u = act (refresh_fast 202 1275 1000 46) (draw_osk_input_preview t) in
    if s.url_bar_focused
    then u |> url_bar |> simulate_click 300 35 |> clear_browser_url_bar
    else u |> send_ctrl_key 117 117 |> inject_times 50 8 8

unfoldable pub backspace_key : Osk → Osk
backspace_key s = osk_inject_key 8 8 (
    if s.url_bar_focused && ltb 0 (length s.current_url)
    then show_url (record s { current_url = take (length s.current_url - 1) s.current_url })
    else s)

unfoldable pub space_key : Osk → Osk
space_key s = osk_inject_key 32 32 (
    if s.url_bar_focused && ltb (length s.current_url) 1022
    then show_url (record s { current_url = s.current_url ++ 32 ∷ [] })
    else s)

unfoldable pub enter_url : Osk → Osk
enter_url s =
    record s { current_url = enter_target s.current_url }
    |> url_bar
    |> simulate_click 300 35
    |> act (pause 15000)
    |> clear_browser_url_bar
    |> act (pause 10000)
    |> type_text 800 (enter_target s.current_url)
    |> act (pause 15000)

unfoldable pub enter_key : Osk → Osk
enter_key s =
    (if s.url_bar_focused && ltb 0 (length s.current_url) then enter_url s else s)
    |> osk_inject_key 13 13
    |> hide_osk

-- The loop over `ext`.
unfoldable pub type_ext : List ℕ → Osk → Osk
type_ext [] s = s
type_ext (c ∷ cs) s = type_ext cs (act (pause 2000) (osk_inject_key c c s))

unfoldable pub dotcom_key : Osk → Osk
dotcom_key s =
    let ext = if s.osk_lang then codes ".ru" else codes ".com" in
    type_ext ext (
      if s.url_bar_focused && ltb (length s.current_url) 1018
      then show_url (record s { current_url = s.current_url ++ ext })
      else s)

-- The code point that a letter stands for.
unfoldable pub key_point : OskKey → Osk → ℕ
key_point k s =
    if s.osk_symbols then k.unicode_sym else if s.osk_shift then k.unicode_shift else k.unicode_norm

unfoldable pub char_key : OskKey → Osk → Osk
char_key k s =
    let cp = key_point k s in
    let t : Osk = osk_inject_key (key_sym cp) cp (
      if s.url_bar_focused && ltb (length s.current_url) 1018
      then show_url (record s { current_url = s.current_url ++ encode cp })
      else s) in
    if s.osk_shift then redraw_osk (record t { osk_shift = false }) else release_key k t

-- switch (k->action)
unfoldable pub press_key : KeyAction → OskKey → Osk → Osk
press_key act_hide k s = hide_osk s
press_key act_clear k s = release_key k (clear_key s)
press_key act_shift k s = redraw_osk (record s { osk_shift = not s.osk_shift })
press_key act_symbols k s = redraw_osk (record s { osk_symbols = not s.osk_symbols })
press_key act_lang k s = redraw_osk (record s { osk_lang = not s.osk_lang })
press_key act_backspace k s = release_key k (backspace_key s)
press_key act_space k s = release_key k (space_key s)
press_key act_enter k s = enter_key s
press_key act_dotcom k s = release_key k (dotcom_key s)
press_key act_char k s = char_key k s

abbrev pub touch_key : Option OskKey → Osk → Osk
touch_key none s = s
touch_key (some k) s =
    s |> draw_osk_key k true |> act (refresh_fast k.x k.y k.w k.h) |> press_key k.action k

unfoldable pub handle_osk_touch : ℕ → ℕ → Osk → Osk
handle_osk_touch x y s = touch_key (key_at x y s.osk_keys) s
