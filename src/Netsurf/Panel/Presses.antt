-- ===== src/Netsurf/Panel/Presses.antt =====
-- The page under a touch on the keyboard of components/netsurf/src/sdl_fb0_shim.c, and its
-- showing and hiding.
use nookobo.Prelude.{
  ℕ, ◌≡◌, refl, Bool, true, false, Option, some, List, [], ◌∷◌, ◌&&◌, arith, if◌then◌else◌,
}
use nookobo.Watcher.Canvas.{Mem}
use nookobo.Netsurf.Layout.{
  OskKey, KeyAction, act_char, act_backspace, act_enter, act_space, act_shift, act_symbols,
  act_lang, act_hide, act_clear, act_dotcom, hit, key_at,
}
use nookobo.Netsurf.Keyboard.{
  Osk, refresh_fast, refresh_full, saved, restored, act, draw_osk_input_preview, show_osk, hide_osk,
}
use nookobo.Netsurf.Keyboard.Touch.{
  key_sym, key_point, show_url, clear_key, backspace_key, space_key, enter_key, dotcom_key,
  char_key, press_key, touch_key, handle_osk_touch,
}
use nookobo.Netsurf.Panel.{Panel, do_effect}
use nookobo.Netsurf.Panel.Boxes.{key_fits, keys_fit}
use nookobo.Netsurf.Panel.Kept.{
  Kept, save_page-PageKept, restore_page-PageKept, calm-Kept, if-Kept, if_true-Kept, if_false-Kept,
  do_effects-append,
}
use nookobo.Netsurf.Panel.Touches.{
  osk_inject_key-Kept, send_ctrl_key-Kept, simulate_click-Kept, inject_times-Kept,
  clear_browser_url_bar-Kept, url_bar-Kept, type_ext-Kept, enter_url-Kept,
  draw_osk_input_preview-Kept, show_url-Kept, draw_osk_key-Kept, redraw_osk-Kept, release_key-Kept,
}

first_fits : (a b : Bool) → a && b ≡ true → a ≡ true
first_fits a b h = ground arith

rest_fit : (a b : Bool) → a && b ≡ true → b ≡ true
rest_fit a b h = ground arith

-- The page is kept, whether the keyboard is up or down.
pub data Still (page : Mem) (start : Panel) (s : Osk) : Type 0 where
  shown : Kept page start true s → Still page start s
  hidden : Kept page start false s → Still page start s

module _ (page : Mem) (start : Panel) where
  appended-Kept :
      (b : Bool) (t s : Osk)
      → Kept page start true t
      → Kept page start true s
      → Kept page start true (if b then show_url t else s)
  appended-Kept b t s h k = if-Kept b (show_url t) s (show_url-Kept t h) k

  clear_key-Kept : (s : Osk) → Kept page start true s → Kept page start true (clear_key s)
  unfolding clear_key
  clear_key-Kept s h =
      let t : Osk = if s.url_bar_focused then record s { current_url = [] } else s in
      let u = act (refresh_fast 202 1275 1000 46) (draw_osk_input_preview t) in
      let t_kept : Kept page start true t =
        if-Kept s.url_bar_focused (record s { current_url = [] }) s h h in
      let u_kept : Kept page start true u =
        calm-Kept _ _ refl (draw_osk_input_preview-Kept t t_kept) in
      if-Kept s.url_bar_focused _ _
        (clear_browser_url_bar-Kept _ (simulate_click-Kept 300 35 _ (url_bar-Kept u u_kept)))
        (inject_times-Kept 50 8 8 _ (send_ctrl_key-Kept 117 117 u u_kept))

  backspace_key-Kept : (s : Osk) → Kept page start true s → Kept page start true (backspace_key s)
  unfolding backspace_key
  backspace_key-Kept s h = osk_inject_key-Kept 8 8 _ (appended-Kept _ _ s h h)

  space_key-Kept : (s : Osk) → Kept page start true s → Kept page start true (space_key s)
  unfolding space_key
  space_key-Kept s h = osk_inject_key-Kept 32 32 _ (appended-Kept _ _ s h h)

  dotcom_key-Kept : (s : Osk) → Kept page start true s → Kept page start true (dotcom_key s)
  unfolding dotcom_key
  dotcom_key-Kept s h = type_ext-Kept _ _ (appended-Kept _ _ s h h)

  char_key-Kept :
      (k : OskKey) (s : Osk)
      → key_fits k ≡ true
      → Kept page start true s
      → Kept page start true (char_key k s)
  unfolding char_key
  char_key-Kept k s fits h =
      let cp = key_point k s in
      let typed = osk_inject_key-Kept (key_sym cp) cp _ (appended-Kept _ _ s h h) in
      if-Kept s.osk_shift _ _ (redraw_osk-Kept _ typed) (release_key-Kept k _ fits typed)

  pub hide_osk-Kept : (s : Osk) → Kept page start true s → Kept page start false (hide_osk s)
  unfolding hide_osk act do_effect
  hide_osk-Kept s h =
      let t : Osk = record (act restored s) { osk_active = false; clip_height = 1872 } in
      let down : Kept page start false t = record {
        is_mapped = h.is_mapped;
        layout_fits = h.layout_fits;
        is_up = refl;
        page_kept =
            rw (do_effects-append s.effects restored start)
              (restore_page-PageKept page _ h.page_kept);
      } in
      if_true-Kept s.osk_active _ s h.is_up (
        if_true-Kept s.mapped _ s h.is_mapped
          (calm-Kept (refresh_full 0 1272 1404 600) t refl down))

  pub show_osk-Kept : (s : Osk) → Kept page start false s → Kept page start true (show_osk s)
  unfolding show_osk act do_effect
  show_osk-Kept s h =
      let t : Osk = record (act saved s) { osk_active = true; clip_height = 1272 } in
      let raised : Kept page start true t = record {
        is_mapped = h.is_mapped;
        layout_fits = h.layout_fits;
        is_up = refl;
        page_kept =
            rw (do_effects-append s.effects saved start) (save_page-PageKept page _ h.page_kept);
      } in
      if_false-Kept s.osk_active s _ h.is_up
        (if_true-Kept s.mapped _ s h.is_mapped (redraw_osk-Kept t raised))

  enter_key-Kept : (s : Osk) → Kept page start true s → Kept page start false (enter_key s)
  unfolding enter_key
  enter_key-Kept s h =
      hide_osk-Kept _ (osk_inject_key-Kept 13 13 _ (if-Kept _ _ s (enter_url-Kept s h) h))

  press_key-Still :
      (a : KeyAction) (k : OskKey) (s : Osk)
      → key_fits k ≡ true
      → Kept page start true s
      → Still page start (press_key a k s)
  unfolding press_key
  press_key-Still act_hide k s fits h = hidden (hide_osk-Kept s h)
  press_key-Still act_clear k s fits h = shown (release_key-Kept k _ fits (clear_key-Kept s h))
  press_key-Still act_shift k s fits h = shown (redraw_osk-Kept _ h)
  press_key-Still act_symbols k s fits h = shown (redraw_osk-Kept _ h)
  press_key-Still act_lang k s fits h = shown (redraw_osk-Kept _ h)
  press_key-Still act_backspace k s fits h =
      shown (release_key-Kept k _ fits (backspace_key-Kept s h))
  press_key-Still act_space k s fits h = shown (release_key-Kept k _ fits (space_key-Kept s h))
  press_key-Still act_enter k s fits h = hidden (enter_key-Kept s h)
  press_key-Still act_dotcom k s fits h = shown (release_key-Kept k _ fits (dotcom_key-Kept s h))
  press_key-Still act_char k s fits h = shown (char_key-Kept k s fits h)

  touch_key-Still :
      (x y : ℕ) (ks : List OskKey) (s : Osk)
      → keys_fit ks ≡ true
      → Kept page start true s
      → Still page start (touch_key (key_at x y ks) s)
  unfolding key_at
  touch_key-Still x y [] s fits h = shown h
  touch_key-Still x y (k ∷ ks) s fits h =
      found (hit x y k) (key_at x y ks) (touch_key-Still x y ks s (rest_fit _ _ fits) h)
    where
      found :
          (b : Bool) (rest : Option OskKey)
          → Still page start (touch_key rest s)
          → Still page start (touch_key (if b then some k else rest) s)
      found true rest later =
          press_key-Still k.action k _ (first_fits _ _ fits)
            (calm-Kept _ _ refl (draw_osk_key-Kept k true s (first_fits _ _ fits) h))
      found false rest later = later

  pub handle_osk_touch-Still :
      (x y : ℕ) (s : Osk) → Kept page start true s → Still page start (handle_osk_touch x y s)
  unfolding handle_osk_touch
  handle_osk_touch-Still x y s h = touch_key-Still x y s.osk_keys s h.layout_fits h
