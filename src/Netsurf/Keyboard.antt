-- ===== src/Netsurf/Keyboard.antt =====
-- The on-screen keyboard of components/netsurf/src/sdl_fb0_shim.c: its state, what it sends to
-- NetSurf and to the panel, and its showing and hiding.
pub mod Touch
pub mod Commands
pub mod Fits
pub mod FifoFits
pub mod Preview
use nookobo.Prelude.{
  ℕ, zero, suc, ◌+◌, ◌-◌, ◌%◌, ◌^◌, Bool, true, false, List, [], ◌∷◌, ◌++◌, not, ◌||◌, ltb, ◌==◌,
  length, take, drop, ◌|>◌, if◌then◌else◌,
}
use nookobo.Prelude.Int.{ℤ, pos}
use nookobo.Prelude.Text.{codes}
use nookobo.Netsurf.Utf8.{utf8}
use nookobo.Netsurf.Events.{SdlEvent, key, motion, button}
use nookobo.Netsurf.Layout.{OskKey, build_osk_layout}

-- What the shim does, in order: an event for the queue, a pause in microseconds, a key, the
-- keyboard's background or all its keys drawn (each key with its label and the scale of its
-- letters), the preview (a hint or not) and the URL bar drawn, the calls of `epdc_refresh_fast`,
-- `epdc_refresh_gray` and `epdc_refresh_full`, and the copies to and from `osk_backup`.
pub data Effect : Type 0 where
  queued : SdlEvent → Effect
  pause : ℕ → Effect
  osk_key_drawn : OskKey → Bool → List ℕ → ℕ → Effect
  background_drawn : Effect
  osk_drawn : List (OskKey × List ℕ × ℕ) → Effect
  preview_drawn : Bool → List ℕ → Effect
  url_bar_drawn : List ℕ → Effect
  refresh_fast : (left top width height : ℕ) → Effect
  refresh_gray : (left top width height : ℕ) → Effect
  refresh_full : (left top width height : ℕ) → Effect
  saved : Effect
  restored : Effect

-- The globals of the keyboard, `main_surface.clip_rect.h`, `g_current_url` without its NUL,
-- `g_url_bar_focused`, and whether `fb_mem` is mapped; and the effects so far. `left_string` says
-- that a loop over `utf8_next` has left its string.
pub record Osk : Type 0 where
  pub mapped : Bool
  pub osk_active : Bool
  pub clip_height : ℕ
  pub osk_lang : Bool
  pub osk_shift : Bool
  pub osk_symbols : Bool
  pub osk_keys : List OskKey
  pub current_url : List ℕ
  pub url_bar_focused : Bool
  pub left_string : Bool
  pub effects : List Effect

unfoldable pub act : Effect → Osk → Osk
act e s = record s { effects = s.effects ++ e ∷ [] }

abbrev pub send : SdlEvent → Osk → Osk
send e s = act (queued e) s

unfoldable pub osk_inject_key : ℕ → ℕ → Osk → Osk
osk_inject_key sym unicode s =
    s
    |> send (key true sym (sym % 2 ^ 8) (unicode % 2 ^ 16))
    |> send (key false sym (sym % 2 ^ 8) (unicode % 2 ^ 16))

abbrev pub sdlk_lctrl : ℕ
sdlk_lctrl = 306

unfoldable pub send_ctrl_key : ℕ → ℕ → Osk → Osk
send_ctrl_key sym unicode s =
    let scancode = if ltb sym 256 then sym else 0 in
    s
    |> send (key true sdlk_lctrl 0 0)
    |> send (key true sym scancode (unicode % 2 ^ 16))
    |> send (key false sym scancode (unicode % 2 ^ 16))
    |> send (key false sdlk_lctrl 0 0)

-- The coordinates are bit patterns.
unfoldable pub simulate_click : ℕ → ℕ → Osk → Osk
simulate_click x y s =
    s
    |> send (motion 0 (x % 2 ^ 16) (y % 2 ^ 16) (pos 0) (pos 0))
    |> act (pause 10000)
    |> send (button true (x % 2 ^ 16) (y % 2 ^ 16))
    |> act (pause 25000)
    |> send (button false (x % 2 ^ 16) (y % 2 ^ 16))

-- `for (i = 0; i < n; i++) osk_inject_key(sym, unicode);`
unfoldable pub inject_times : ℕ → ℕ → ℕ → Osk → Osk
inject_times zero sym unicode s = s
inject_times (suc n) sym unicode s = inject_times n sym unicode (osk_inject_key sym unicode s)

unfoldable pub clear_browser_url_bar : Osk → Osk
clear_browser_url_bar s =
    s
    |> osk_inject_key 279 0
    |> inject_times 15 275 0
    |> send_ctrl_key 117 117
    |> inject_times 50 8 8
    |> send_ctrl_key 117 117

-- What `draw_url_bar_overlay` writes: 79 bytes at most, and three dots after 61 when they are more
-- than 64.
unfoldable pub overlay_text : List ℕ → List ℕ
overlay_text url =
    let display_buf = take 79 (codes "URL: " ++ url) in
    if ltb 64 (length display_buf) then take 61 display_buf ++ codes "..." else display_buf

-- What `draw_osk_input_preview` writes: a hint, or the last 58 of the first 127 bytes.
unfoldable pub preview_text : Osk → List ℕ
preview_text s =
    let osk_buf = take 127 s.current_url in
    if not s.url_bar_focused
    then (if s.osk_lang
        then utf8 "Введите текст в поле страницы..."
        else utf8 "Tap keys to type in the page field...")
    else if length s.current_url == 0
    then (if s.osk_lang
        then utf8 "Введите адрес или поисковый запрос..."
        else utf8 "Tap keys to type URL / Search query...")
    else if ltb 58 (length osk_buf)
    then drop (length osk_buf - 58) osk_buf
    else osk_buf

-- Both need the mapping.
unfoldable pub draw_url_bar_overlay : Osk → Osk
draw_url_bar_overlay s = if s.mapped then act (url_bar_drawn (overlay_text s.current_url)) s else s

-- Whether the preview shows a hint, which is grey.
unfoldable pub shows_hint : Osk → Bool
shows_hint s = not s.url_bar_focused || (length s.current_url == 0)

unfoldable pub draw_osk_input_preview : Osk → Osk
draw_osk_input_preview s =
    if s.mapped then act (preview_drawn (shows_hint s) (preview_text s)) s else s

-- The label that `draw_osk_key` writes, and its scale.
unfoldable pub key_label : Osk → OskKey → List ℕ
key_label s k =
    if s.osk_symbols then k.sym_label else if s.osk_shift then k.shift_label else k.normal_label

unfoldable pub label_scale : List ℕ → ℕ
label_scale label = if ltb 7 (length label) then 1 else if ltb 3 (length label) then 2 else 3

unfoldable pub draw_osk_key : OskKey → Bool → Osk → Osk
draw_osk_key k pressed s =
    act (osk_key_drawn k pressed (key_label s k) (label_scale (key_label s k))) s

unfoldable pub labelled : Osk → List OskKey → List (OskKey × List ℕ × ℕ)
labelled s [] = []
labelled s (k ∷ ks) = (k, key_label s k, label_scale (key_label s k)) ∷ labelled s ks

unfoldable pub draw_osk : Osk → Osk
draw_osk s =
    let t : Osk = record s { osk_keys = build_osk_layout s.osk_lang } in
    t |> act background_drawn |> draw_osk_input_preview |> act (osk_drawn (labelled t t.osk_keys))

-- `draw_osk` and its refresh of the keyboard's area
unfoldable pub redraw_osk : Osk → Osk
redraw_osk s = act (refresh_gray 0 1272 1404 600) (draw_osk s)

-- `saved` and `restored` are the copies to and from `osk_backup`, whose `malloc` is taken to
-- succeed.
unfoldable pub show_osk : Osk → Osk
show_osk s =
    if s.osk_active
    then s
    else if s.mapped
    then redraw_osk (record (act saved s) { osk_active = true; clip_height = 1272 })
    else s

unfoldable pub hide_osk : Osk → Osk
hide_osk s =
    if s.osk_active
    then (if s.mapped
        then act (refresh_full 0 1272 1404 600)
            (record (act restored s) { osk_active = false; clip_height = 1872 })
        else s)
    else s

unfoldable pub toggle_osk : Osk → Osk
toggle_osk s = if s.osk_active then hide_osk s else show_osk s

-- SDL_ShowKeyboardForTextInput
unfoldable pub show_keyboard_for_text_input : Osk → Osk
show_keyboard_for_text_input s = show_osk (record s { url_bar_focused = false })
