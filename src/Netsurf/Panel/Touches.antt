-- ===== src/Netsurf/Panel/Touches.antt =====
-- The page under the operations of the keyboard of
-- components/netsurf/src/sdl_fb0_shim.c.
use nookobo.Prelude.{ℕ, zero, suc, ◌≡◌, refl, Bool, true, false, List, [], ◌∷◌, ◌||◌, ◌==◌}
use nookobo.Watcher.Canvas.{Mem}
use nookobo.Netsurf.Layout.{OskKey, build_osk_layout}
use nookobo.Netsurf.Keyboard.{
  Osk, pause, background_drawn, osk_drawn, preview_drawn, url_bar_drawn, refresh_fast, act,
  osk_inject_key, send_ctrl_key, simulate_click, inject_times, clear_browser_url_bar,
  draw_url_bar_overlay, draw_osk_input_preview, draw_osk, draw_osk_key, redraw_osk, overlay_text,
  preview_text, shows_hint, key_label, label_scale, labelled, osk_key_drawn,
}
use nookobo.Netsurf.Keyboard.Touch.{
  type_text, type_points, key_sym, type_ext, url_bar, show_url, release_key, enter_url,
  enter_target,
}
use nookobo.Netsurf.Panel.{
  Panel, do_effect, key_pixels, keys_pixels, background_pixels, preview_pixels, url_bar_pixels,
}
use nookobo.Netsurf.Panel.Boxes.{
  key_fits, layout_fits, background-OnKeyboard, key-OnKeyboard, keys-OnKeyboard, preview-OnKeyboard,
  url_bar-OnUrlBar,
}
use nookobo.Netsurf.Panel.Kept.{
  Kept, url_bar-PageKept, keyboard-PageKept, act-Kept, calm-Kept, if-Kept,
}

module _ {page : Mem} {start : Panel} {up : Bool} where
  pub osk_inject_key-Kept :
      (sym unicode : ℕ) (s : Osk)
      → Kept page start up s
      → Kept page start up (osk_inject_key sym unicode s)
  unfolding osk_inject_key
  osk_inject_key-Kept sym unicode s h = calm-Kept _ _ refl (calm-Kept _ s refl h)

  pub send_ctrl_key-Kept :
      (sym unicode : ℕ) (s : Osk)
      → Kept page start up s
      → Kept page start up (send_ctrl_key sym unicode s)
  unfolding send_ctrl_key
  send_ctrl_key-Kept sym unicode s h =
      calm-Kept _ _ refl (calm-Kept _ _ refl (calm-Kept _ _ refl (calm-Kept _ s refl h)))

  pub simulate_click-Kept :
      (x y : ℕ) (s : Osk) → Kept page start up s → Kept page start up (simulate_click x y s)
  unfolding simulate_click
  simulate_click-Kept x y s h =
      calm-Kept _ _ refl
        (calm-Kept _ _ refl (calm-Kept _ _ refl (calm-Kept _ _ refl (calm-Kept _ s refl h))))

  pub inject_times-Kept :
      (n sym unicode : ℕ) (s : Osk)
      → Kept page start up s
      → Kept page start up (inject_times n sym unicode s)
  unfolding inject_times
  inject_times-Kept zero sym unicode s h = h
  inject_times-Kept (suc n) sym unicode s h =
      inject_times-Kept n sym unicode _ (osk_inject_key-Kept sym unicode s h)

  pub clear_browser_url_bar-Kept :
      (s : Osk) → Kept page start up s → Kept page start up (clear_browser_url_bar s)
  unfolding clear_browser_url_bar
  clear_browser_url_bar-Kept s h = send_ctrl_key-Kept 117 117 _ (
      inject_times-Kept 50 8 8 _ (
        send_ctrl_key-Kept 117 117 _
          (inject_times-Kept 15 275 0 _ (osk_inject_key-Kept 279 0 s h))))

  draw_url_bar_overlay-Kept :
      (s : Osk) → Kept page start up s → Kept page start up (draw_url_bar_overlay s)
  unfolding draw_url_bar_overlay do_effect
  draw_url_bar_overlay-Kept s h =
      if-Kept s.mapped _ s
        (act-Kept (url_bar_drawn (overlay_text s.current_url)) s
          (λ p k.
            url_bar-PageKept page (url_bar_pixels (overlay_text s.current_url)) up p
              (url_bar-OnUrlBar s.current_url) k)
          h)
        h

  pub url_bar-Kept : (s : Osk) → Kept page start up s → Kept page start up (url_bar s)
  unfolding url_bar
  url_bar-Kept s h = calm-Kept _ _ refl (draw_url_bar_overlay-Kept s h)

  type_points-Kept :
      (us : ℕ) (cps : List ℕ) (s : Osk)
      → Kept page start up s
      → Kept page start up (type_points us cps s)
  unfolding type_points
  type_points-Kept us [] s h = h
  type_points-Kept us (cp ∷ cps) s h = type_points-Kept us cps _ (
      if-Kept (cp == 10 || cp == 13) s _ h
        (calm-Kept (pause us) _ refl (osk_inject_key-Kept (key_sym cp) cp s h)))

  pub type_text-Kept :
      (us : ℕ) (text : List ℕ) (s : Osk)
      → Kept page start up s
      → Kept page start up (type_text us text s)
  unfolding type_text
  type_text-Kept us text s h = type_points-Kept us _ _ h

  pub type_ext-Kept :
      (ext : List ℕ) (s : Osk) → Kept page start up s → Kept page start up (type_ext ext s)
  unfolding type_ext
  type_ext-Kept [] s h = h
  type_ext-Kept (c ∷ cs) s h =
      type_ext-Kept cs _ (calm-Kept (pause 2000) _ refl (osk_inject_key-Kept c c s h))

  pub enter_url-Kept : (s : Osk) → Kept page start up s → Kept page start up (enter_url s)
  unfolding enter_url
  enter_url-Kept s h =
      let t : Osk = record s { current_url = enter_target s.current_url } in
      calm-Kept (pause 15000) _ refl (
        type_text-Kept 800 (enter_target s.current_url) _ (
          calm-Kept (pause 10000) _ refl (
            clear_browser_url_bar-Kept _
              (calm-Kept (pause 15000) _ refl (simulate_click-Kept 300 35 _ (url_bar-Kept t h))))))

-- With the keyboard up.
module _ {page : Mem} {start : Panel} where
  pub draw_osk_input_preview-Kept :
      (s : Osk) → Kept page start true s → Kept page start true (draw_osk_input_preview s)
  unfolding draw_osk_input_preview do_effect
  draw_osk_input_preview-Kept s h =
      if-Kept s.mapped _ s
        (act-Kept (preview_drawn (shows_hint s) (preview_text s)) s
          (λ p k.
            keyboard-PageKept page (preview_pixels (shows_hint s) (preview_text s)) p
              (preview-OnKeyboard s (shows_hint s)) k)
          h)
        h

  pub show_url-Kept : (s : Osk) → Kept page start true s → Kept page start true (show_url s)
  unfolding show_url url_bar
  show_url-Kept s h =
      let t = act (refresh_fast 202 1275 1000 46) (draw_osk_input_preview s) in
      url_bar-Kept t (calm-Kept _ _ refl (draw_osk_input_preview-Kept s h))

  pub draw_osk_key-Kept :
      (k : OskKey) (pressed : Bool) (s : Osk)
      → key_fits k ≡ true
      → Kept page start true s
      → Kept page start true (draw_osk_key k pressed s)
  unfolding draw_osk_key do_effect
  draw_osk_key-Kept k pressed s fits h =
      act-Kept (osk_key_drawn k pressed (key_label s k) (label_scale (key_label s k))) s
        (λ p kept.
          keyboard-PageKept page
            (key_pixels k pressed (key_label s k) (label_scale (key_label s k))) p
            (key-OnKeyboard s k pressed fits) kept)
        h

  draw_osk-Kept : (s : Osk) → Kept page start true s → Kept page start true (draw_osk s)
  unfolding draw_osk do_effect
  draw_osk-Kept s h =
      let fits = layout_fits s.osk_lang in
      let t : Osk = record s { osk_keys = build_osk_layout s.osk_lang } in
      act-Kept (osk_drawn (labelled t t.osk_keys)) _
        (λ p k.
          keyboard-PageKept page (keys_pixels (labelled t t.osk_keys)) p
            (keys-OnKeyboard t t.osk_keys fits) k)
        (draw_osk_input_preview-Kept _ (
          act-Kept background_drawn t
            (λ p k. keyboard-PageKept page background_pixels p background-OnKeyboard k)
            (record {
              is_mapped = h.is_mapped;
              layout_fits = fits;
              is_up = h.is_up;
              page_kept = h.page_kept;
            })))

  pub redraw_osk-Kept : (s : Osk) → Kept page start true s → Kept page start true (redraw_osk s)
  unfolding redraw_osk
  redraw_osk-Kept s h = calm-Kept _ _ refl (draw_osk-Kept s h)

  pub release_key-Kept :
      (k : OskKey) (s : Osk)
      → key_fits k ≡ true
      → Kept page start true s
      → Kept page start true (release_key k s)
  unfolding release_key
  release_key-Kept k s fits h =
      calm-Kept _ _ refl (draw_osk_key-Kept k false _ fits (calm-Kept (pause 40000) s refl h))
