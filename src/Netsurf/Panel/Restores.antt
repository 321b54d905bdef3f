-- ===== src/Netsurf/Panel/Restores.antt =====
-- The page under the commands of the FIFO and the hardware buttons, for
-- components/netsurf/src/sdl_fb0_shim.c.
use nookobo.Prelude.{
  ℕ, ◌+◌, ◌^◌, refl, sym, Bool, true, false, Option, none, some, List, [], ◌∷◌, ◌++◌, not, ◌&&◌,
  ltb, leb, ◌==◌, length, take, if◌then◌else◌,
}
use nookobo.Prelude.Text.{codes, text_eq, has_prefix}
use nookobo.Watcher.Canvas.{Mem}
use nookobo.Netsurf.Keyboard.{
  Osk, pause, osk_inject_key, simulate_click, show_osk, hide_osk, toggle_osk,
}
use nookobo.Netsurf.Keyboard.Touch.{url_bar}
use nookobo.Netsurf.Keyboard.Commands.{
  redraw_if_shown, focus_url, key_command, text_command, url_command, click_command,
  handle_fifo_command,
}
use nookobo.Netsurf.Panel.{Panel}
use nookobo.Netsurf.Panel.Kept.{Kept, calm-Kept, if-Kept, if_true-Kept, if_false-Kept}
use nookobo.Netsurf.Panel.Touches.{
  osk_inject_key-Kept, simulate_click-Kept, clear_browser_url_bar-Kept, url_bar-Kept,
  type_text-Kept, redraw_osk-Kept,
}
use nookobo.Netsurf.Panel.Presses.{Still, shown, hidden, hide_osk-Kept, show_osk-Kept}
use nookobo.Netsurf.Worker.{key_press, commands}

module _ {page : Mem} {start : Panel} {up : Bool} where
  text_command-Kept :
      (p : List ℕ) (s : Osk) → Kept page start up s → Kept page start up (text_command p s)
  unfolding text_command
  text_command-Kept p s h =
      let long : Osk = record s { current_url = s.current_url ++ p } in
      type_text-Kept 2000 p _ (
        if-Kept (ltb (length s.current_url + length p) 1023) (url_bar long) s (url_bar-Kept long h)
          h)

  url_command-Kept :
      (url : List ℕ) (s : Osk) → Kept page start up s → Kept page start up (url_command url s)
  unfolding url_command
  url_command-Kept url s h =
      let t : Osk = record s { current_url = take 1023 url } in
      osk_inject_key-Kept 13 13 _ (
        calm-Kept (pause 20000) _ refl (
          type_text-Kept 800 url _ (
            calm-Kept (pause 10000) _ refl (
              clear_browser_url_bar-Kept _ (
                calm-Kept (pause 25000) _ refl
                  (simulate_click-Kept 300 35 _ (url_bar-Kept t h)))))))

module _ {page : Mem} {start : Panel} where
  -- An operation that keeps the page up or down.
  pub each :
      (s t : Osk)
      → ((up : Bool) → Kept page start up s → Kept page start up t)
      → Still page start s
      → Still page start t
  each s t f (shown h) = shown (f true h)
  each s t f (hidden h) = hidden (f false h)

  pub if-Still :
      (b : Bool) (s t : Osk)
      → Still page start s
      → Still page start t
      → Still page start (if b then s else t)
  if-Still true s t h k = h
  if-Still false s t h k = k

  inject-Still :
      (sym unicode : ℕ) (s : Osk)
      → Still page start s
      → Still page start (osk_inject_key sym unicode s)
  inject-Still sym unicode s h =
      each s (osk_inject_key sym unicode s) (λ up k. osk_inject_key-Kept sym unicode s k) h

  pub click-Still :
      (x y : ℕ) (s : Osk) → Still page start s → Still page start (simulate_click x y s)
  click-Still x y s h = each s (simulate_click x y s) (λ up k. simulate_click-Kept x y s k) h

  pub show_osk-Still : (s : Osk) → Still page start s → Still page start (show_osk s)
  unfolding show_osk
  show_osk-Still s (shown h) = shown (if_true-Kept s.osk_active s _ h.is_up h)
  show_osk-Still s (hidden h) = shown (show_osk-Kept page start s h)

  pub hide_osk-Still : (s : Osk) → Still page start s → Still page start (hide_osk s)
  unfolding hide_osk
  hide_osk-Still s (shown h) = hidden (hide_osk-Kept page start s h)
  hide_osk-Still s (hidden h) = hidden (if_false-Kept s.osk_active _ s h.is_up h)

  toggle_osk-Still : (s : Osk) → Still page start s → Still page start (toggle_osk s)
  unfolding toggle_osk
  toggle_osk-Still s h =
      if-Still s.osk_active (hide_osk s) (show_osk s) (hide_osk-Still s h) (show_osk-Still s h)

  redraw_if_shown-Still : (s : Osk) → Still page start s → Still page start (redraw_if_shown s)
  unfolding redraw_if_shown
  redraw_if_shown-Still s (shown h) =
      shown (if_true-Kept s.osk_active _ s h.is_up (redraw_osk-Kept s h))
  redraw_if_shown-Still s (hidden h) = hidden (if_false-Kept s.osk_active _ s h.is_up h)

  pub focus_url-Still : (s : Osk) → Still page start s → Still page start (focus_url s)
  unfolding focus_url
  focus_url-Still s h =
      let t : Osk = record s { url_bar_focused = true } in
      show_osk-Still _ (inject-Still 279 0 _ (click-Still 300 35 t (each s t (λ up k. k) h)))

  key_command-Still :
      (k : List ℕ) (s : Osk) → Still page start s → Still page start (key_command k s)
  unfolding key_command
  key_command-Still k s h = if-Still (text_eq k (codes "enter")) _ _ (inject-Still 13 13 s h) (
      if-Still (text_eq k (codes "backspace")) _ _ (inject-Still 8 8 s h) (
        if-Still (text_eq k (codes "escape")) _ _ (inject-Still 27 27 s h) (
          if-Still (text_eq k (codes "tab")) _ _ (inject-Still 9 9 s h) (
            if-Still (text_eq k (codes "pageup")) _ _ (inject-Still 280 0 s h) (
              if-Still (text_eq k (codes "pagedown")) _ _ (inject-Still 281 0 s h) (
                if-Still (text_eq k (codes "home")) _ _ (inject-Still 278 0 s h) (
                  if-Still (text_eq k (codes "osk")) _ _ (toggle_osk-Still s h) (
                    if-Still (text_eq k (codes "lang")) _ _
                      (redraw_if_shown-Still _
                        (each s (record s { osk_lang = not s.osk_lang }) (λ up k. k) h))
                      (if-Still (text_eq k (codes "shift")) _ _
                        (redraw_if_shown-Still _
                          (each s (record s { osk_shift = not s.osk_shift }) (λ up k. k) h))
                        (if-Still (text_eq k (codes "sym")) _ _
                          (redraw_if_shown-Still _
                            (each s (record s { osk_symbols = not s.osk_symbols }) (λ up k. k) h))
                          (if-Still (text_eq k (codes "back")) _ _ (click-Still 25 48 s h) (
                            if-Still (text_eq k (codes "focus_url")) _ s (focus_url-Still s h)
                              h))))))))))))

  text_command-Still :
      (p : List ℕ) (s : Osk) → Still page start s → Still page start (text_command p s)
  text_command-Still p s h = each s (text_command p s) (λ up k. text_command-Kept p s k) h

  url_command-Still :
      (url : List ℕ) (s : Osk) → Still page start s → Still page start (url_command url s)
  url_command-Still url s h = each s (url_command url s) (λ up k. url_command-Kept url s k) h

  click_command-Still :
      (o : Option (ℕ × ℕ)) (s : Osk) → Still page start s → Still page start (click_command o s)
  unfolding click_command
  click_command-Still none s h = h
  click_command-Still (some (cx, cy)) s h = click-Still cx cy _ (
      if-Still (ltb cy (2 ^ 31) && leb 75 cy) (record s { url_bar_focused = false }) s
        (each s _ (λ up k. k) h) h)

  pub key_press-Still :
      (code : ℕ) (s : Osk) → Still page start s → Still page start (key_press code s)
  unfolding key_press
  key_press-Still code s h = if-Still (code == 191) _ _ (inject-Still 280 0 s h) (
      if-Still (code == 192) _ _ (inject-Still 281 0 s h) (
        if-Still (code == 193) _ _
          (if-Still (s.osk_active) _ _ (hide_osk-Still s h) (click-Still 13 35 s h))
          (if-Still (code == 194) _ _ (toggle_osk-Still s h)
            (if-Still (code == 102) _ s (focus_url-Still s h) h))))

  handle_fifo_command-Still :
      (sscanf : List ℕ → Option (ℕ × ℕ)) (cmd : List ℕ) (s : Osk)
      → Still page start s
      → Still page start (handle_fifo_command sscanf cmd s)
  unfolding handle_fifo_command
  handle_fifo_command-Still sscanf cmd s h =
      if-Still (has_prefix (codes "KEY:") cmd) _ _ (key_command-Still _ s h) (
        if-Still (has_prefix (codes "TEXT:") cmd) _ _ (text_command-Still _ s h) (
          if-Still (has_prefix (codes "URL:") cmd) _ _ (url_command-Still _ s h)
            (if-Still (has_prefix (codes "CLICK:") cmd) _ s (click_command-Still _ s h) h)))

  pub commands-Still :
      (sscanf : List ℕ → Option (ℕ × ℕ)) (lines : List (List ℕ)) (s : Osk)
      → Still page start s
      → Still page start (commands sscanf lines s)
  unfolding commands
  commands-Still sscanf [] s h = h
  commands-Still sscanf (line ∷ rest) s h =
      commands-Still sscanf rest _ (handle_fifo_command-Still sscanf line s h)
