-- ===== src/Netsurf/Keyboard/Fits.antt =====
-- The text of the URL bar stays inside `g_current_url[1024]` of
-- components/netsurf/src/sdl_fb0_shim.c.
use nookobo.Prelude.{
  ℕ, zero, suc, ◌+◌, ◌-◌, ◌≤◌, ◌<◌, ◌≡◌, refl, sym, ◌∙◌, Bool, true, false, Option, none, some,
  List, [], ◌∷◌, ◌++◌, not, ◌&&◌, ◌||◌, ltb, ◌==◌, length, length-append, length-take, take,
  if◌then◌else◌, arith,
}
use nookobo.Prelude.Text.{codes}
use nookobo.Netsurf.Utf8.{encode}
use nookobo.Netsurf.Layout.{
  OskKey, KeyAction, act_char, act_backspace, act_enter, act_space, act_shift, act_symbols,
  act_lang, act_hide, act_clear, act_dotcom, key_at,
}
use nookobo.Netsurf.Keyboard.{
  Osk, act, osk_inject_key, send_ctrl_key, simulate_click, inject_times, clear_browser_url_bar,
  draw_url_bar_overlay, draw_osk_input_preview, draw_osk, draw_osk_key, refresh_fast, redraw_osk,
  hide_osk, show_osk, toggle_osk,
}
use nookobo.Netsurf.Keyboard.Touch.{
  type_text, type_points, key_sym, key_point, type_ext, url_bar, show_url, release_key, clear_key,
  backspace_key, space_key, enter_key, enter_url, enter_target, query_enc, strchr, strstr, trim,
  dotcom_key, char_key, press_key, touch_key, handle_osk_touch,
}

-- The text of the URL bar after some effects is the text before.
inject_times-url :
    (n sym unicode : ℕ) (s : Osk) → (inject_times n sym unicode s).current_url ≡ s.current_url
unfolding inject_times osk_inject_key act
inject_times-url zero sym unicode s = refl
inject_times-url (suc n) sym unicode s =
    inject_times-url n sym unicode (osk_inject_key sym unicode s)

send_ctrl_key-url :
    (sym unicode : ℕ) (s : Osk) → (send_ctrl_key sym unicode s).current_url ≡ s.current_url
unfolding send_ctrl_key act
send_ctrl_key-url sym unicode s = refl

pub osk_inject_key-url :
    (sym unicode : ℕ) (s : Osk) → (osk_inject_key sym unicode s).current_url ≡ s.current_url
unfolding osk_inject_key act
osk_inject_key-url sym unicode s = refl

pub simulate_click-url : (x y : ℕ) (s : Osk) → (simulate_click x y s).current_url ≡ s.current_url
unfolding simulate_click act
simulate_click-url x y s = refl

pub clear_browser_url_bar-url : (s : Osk) → (clear_browser_url_bar s).current_url ≡ s.current_url
unfolding clear_browser_url_bar
clear_browser_url_bar-url s =
    let a = osk_inject_key 279 0 s in
    let b = inject_times 15 275 0 a in
    let c = send_ctrl_key 117 117 b in
    let d = inject_times 50 8 8 c in
    send_ctrl_key-url 117 117 d
    ∙ inject_times-url 50 8 8 c
    ∙ send_ctrl_key-url 117 117 b
    ∙ inject_times-url 15 275 0 a
    ∙ osk_inject_key-url 279 0 s

pub if_same-url :
    (b : Bool) (url : List ℕ) (s t : Osk)
    → s.current_url ≡ url
    → t.current_url ≡ url
    → (if b then s else t).current_url ≡ url
if_same-url true url s t p q = p
if_same-url false url s t p q = q

draws-url : (s : Osk) → (draw_osk_input_preview s).current_url ≡ s.current_url
unfolding draw_osk_input_preview act
draws-url s = ground arith

overlay-url : (s : Osk) → (draw_url_bar_overlay s).current_url ≡ s.current_url
unfolding draw_url_bar_overlay act
overlay-url s = ground arith

pub url_bar-url : (s : Osk) → (url_bar s).current_url ≡ s.current_url
unfolding url_bar act
url_bar-url s = overlay-url s

show_url-url : (s : Osk) → (show_url s).current_url ≡ s.current_url
unfolding show_url act
show_url-url s = overlay-url _ ∙ draws-url s

pub redraw_osk-url : (s : Osk) → (redraw_osk s).current_url ≡ s.current_url
unfolding redraw_osk draw_osk act
redraw_osk-url s = draws-url _

pub hide_osk-url : (s : Osk) → (hide_osk s).current_url ≡ s.current_url
unfolding hide_osk act
hide_osk-url s = ground arith

pub show_osk-url : (s : Osk) → (show_osk s).current_url ≡ s.current_url
unfolding show_osk act
show_osk-url s =
    if_same-url s.osk_active _ s _ refl (if_same-url s.mapped _ _ s (redraw_osk-url _) refl)

pub toggle_osk-url : (s : Osk) → (toggle_osk s).current_url ≡ s.current_url
unfolding toggle_osk
toggle_osk-url s = ground (arith, hide_osk-url s, show_osk-url s)

type_points-url :
    (us : ℕ) (cps : List ℕ) (s : Osk) → (type_points us cps s).current_url ≡ s.current_url
unfolding type_points act
type_points-url us [] s = refl
type_points-url us (cp ∷ cps) s =
    type_points-url us cps _
    ∙ if_same-url (cp == 10 || cp == 13) _ s _ refl (osk_inject_key-url (key_sym cp) cp s)

pub type_text-url :
    (us : ℕ) (text : List ℕ) (s : Osk) → (type_text us text s).current_url ≡ s.current_url
unfolding type_text
type_text-url us text s = type_points-url us _ _

type_ext-url : (ext : List ℕ) (s : Osk) → (type_ext ext s).current_url ≡ s.current_url
unfolding type_ext act
type_ext-url [] s = refl
type_ext-url (c ∷ cs) s = type_ext-url cs _ ∙ osk_inject_key-url c c s

-- `g_current_url` and its NUL take at most 1024 bytes.
abbrev pub UrlFits : Osk → Type 0
UrlFits s = length s.current_url < 1024

pub same_url-UrlFits : (s t : Osk) → t.current_url ≡ s.current_url → UrlFits s → UrlFits t
same_url-UrlFits s t e h = rw e h

pub take-short : (n : ℕ) (xs : List ℕ) → length (take n xs) ≤ n
take-short n xs = omega (arith, length-take n xs)

pub if_UrlFits :
    (b : Bool) (s t : Osk) → (b ≡ true → UrlFits s) → UrlFits t → UrlFits (if b then s else t)
if_UrlFits true s t f h = f refl
if_UrlFits false s t f h = h

pub below_1024 : (n : ℕ) → n ≤ 1023 → n < 1024
below_1024 n h = omega arith

if_short :
    (b : Bool) (xs ys : List ℕ)
    → length xs < 1024
    → length ys < 1024
    → length (if b then xs else ys) < 1024
if_short true xs ys p q = p
if_short false xs ys p q = q

enter_target-short : (url : List ℕ) → length (enter_target url) < 1024
unfolding enter_target
enter_target-short url =
    let trimmed = trim url in
    let search = codes "https://lite.duckduckgo.com/lite/?q=" ++ take 1022 (query_enc trimmed) in
    if_short (strchr 32 trimmed || (not (strstr (codes "://") trimmed) && not (strchr 46 trimmed)))
      (take 1023 search) (take 1023 trimmed)
      (below_1024 (length (take 1023 search)) (take-short 1023 search))
      (below_1024 (length (take 1023 trimmed)) (take-short 1023 trimmed))

-- The bytes `extra` at the end of the text, where the guard leaves room for them.
abbrev appended : Osk → List ℕ → ℕ → Osk
appended s extra room =
    if s.url_bar_focused && ltb (length s.current_url) room
    then show_url (record s { current_url = s.current_url ++ extra })
    else s

and_right : (a b : Bool) → a && b ≡ true → b ≡ true
and_right a b h = ground arith

pub append-short :
    (xs ys : List ℕ) (room : ℕ)
    → room + length ys ≤ 1024
    → ltb (length xs) room ≡ true
    → length (xs ++ ys) < 1024
append-short xs ys room e g = ground (arith, length-append xs ys)

ext-short : (b : Bool) → 1018 + length (if b then codes ".ru" else codes ".com") ≤ 1024
ext-short true = omega arith
ext-short false = omega arith

module _ (s : Osk) (h : UrlFits s) where
  clear_key-UrlFits : UrlFits (clear_key s)
  unfolding clear_key act
  clear_key-UrlFits =
      let t : Osk = if s.url_bar_focused then record s { current_url = [] } else s in
      let u : Osk = act (refresh_fast 202 1275 1000 46) (draw_osk_input_preview t) in
      let v = simulate_click 300 35 (url_bar u) in
      let t_fits : UrlFits t =
        if_UrlFits s.url_bar_focused (record s { current_url = [] }) s (λ _. omega arith) h in
      let u_fits : UrlFits u = same_url-UrlFits t u (draws-url t) t_fits in
      if_UrlFits s.url_bar_focused _ _
        (λ _.
          same_url-UrlFits u (clear_browser_url_bar v)
            (clear_browser_url_bar-url v ∙ simulate_click-url 300 35 (url_bar u) ∙ url_bar-url u)
            u_fits)
        (same_url-UrlFits u (inject_times 50 8 8 (send_ctrl_key 117 117 u))
          (inject_times-url 50 8 8 (send_ctrl_key 117 117 u) ∙ send_ctrl_key-url 117 117 u) u_fits)

  backspace_key-UrlFits : UrlFits (backspace_key s)
  unfolding backspace_key
  backspace_key-UrlFits =
      let short : Osk = record s { current_url = take (length s.current_url - 1) s.current_url } in
      let r : Osk =
        if s.url_bar_focused && ltb 0 (length s.current_url) then show_url short else s in
      same_url-UrlFits r (osk_inject_key 8 8 r) (osk_inject_key-url 8 8 r) (
        if_UrlFits (s.url_bar_focused && ltb 0 (length s.current_url)) (show_url short) s
          (λ _.
            same_url-UrlFits short (show_url short) (show_url-url short)
              (omega (arith, take-short (length s.current_url - 1) s.current_url)))
          h)

  append-UrlFits :
      (extra : List ℕ) (room : ℕ) → room + length extra ≤ 1024 → UrlFits (appended s extra room)
  append-UrlFits extra room e =
      let long : Osk = record s { current_url = s.current_url ++ extra } in
      if_UrlFits (s.url_bar_focused && ltb (length s.current_url) room) (show_url long) s
        (λ guard. same_url-UrlFits long (show_url long) (show_url-url long) (
          append-short s.current_url extra room e
            (and_right s.url_bar_focused (ltb (length s.current_url) room) guard)))
        h

  space_key-UrlFits : UrlFits (space_key s)
  unfolding space_key
  space_key-UrlFits =
      let r = appended s (32 ∷ []) 1022 in
      same_url-UrlFits r (osk_inject_key 32 32 r) (osk_inject_key-url 32 32 r)
        (append-UrlFits (32 ∷ []) 1022 (omega arith))

  dotcom_key-UrlFits : UrlFits (dotcom_key s)
  unfolding dotcom_key
  dotcom_key-UrlFits =
      let ext : List ℕ = if s.osk_lang then codes ".ru" else codes ".com" in
      let r = appended s ext 1018 in
      same_url-UrlFits r (type_ext ext r) (type_ext-url ext r)
        (append-UrlFits ext 1018 (ext-short s.osk_lang))

  enter_url-url : (enter_url s).current_url ≡ enter_target s.current_url
  unfolding enter_url act
  enter_url-url =
      type_text-url 800 (enter_target s.current_url) _
      ∙ clear_browser_url_bar-url _
      ∙ simulate_click-url 300 35 _
      ∙ url_bar-url _

  enter_key-UrlFits : UrlFits (enter_key s)
  unfolding enter_key
  enter_key-UrlFits =
      let r : Osk = if s.url_bar_focused && ltb 0 (length s.current_url) then enter_url s else s in
      let t = osk_inject_key 13 13 r in
      same_url-UrlFits r (hide_osk t) (hide_osk-url t ∙ osk_inject_key-url 13 13 r) (
        if_UrlFits (s.url_bar_focused && ltb 0 (length s.current_url)) (enter_url s) s
          (λ _. rw enter_url-url (enter_target-short s.current_url)) h)

encode-short : (cp : ℕ) → length (encode cp) ≤ 2
unfolding encode
encode-short cp = ground arith

release_key-url : (k : OskKey) (s : Osk) → (release_key k s).current_url ≡ s.current_url
unfolding release_key draw_osk_key act
release_key-url k s = refl

char_key-UrlFits : (k : OskKey) (s : Osk) → UrlFits s → UrlFits (char_key k s)
unfolding char_key
char_key-UrlFits k s h =
    let cp = key_point k s in
    let r = appended s (encode cp) 1018 in
    let fits : UrlFits r = append-UrlFits s h (encode cp) 1018 (omega (arith, encode-short cp)) in
    let t : Osk = osk_inject_key (key_sym cp) cp r in
    let t_fits : UrlFits t = same_url-UrlFits r t (osk_inject_key-url (key_sym cp) cp r) fits in
    let u : Osk = record t { osk_shift = false } in
    if_UrlFits s.osk_shift (redraw_osk u) (release_key k t)
      (λ _. same_url-UrlFits t (redraw_osk u) (redraw_osk-url u) t_fits)
      (same_url-UrlFits t (release_key k t) (release_key-url k t) t_fits)

press_key-UrlFits : (a : KeyAction) (k : OskKey) (s : Osk) → UrlFits s → UrlFits (press_key a k s)
unfolding press_key
press_key-UrlFits act_hide k s h = same_url-UrlFits s (hide_osk s) (hide_osk-url s) h
press_key-UrlFits act_clear k s h = rw (release_key-url k (clear_key s)) (clear_key-UrlFits s h)
press_key-UrlFits act_shift k s h =
    let t : Osk = record s { osk_shift = not s.osk_shift } in
    same_url-UrlFits s (redraw_osk t) (redraw_osk-url t) h
press_key-UrlFits act_symbols k s h =
    let t : Osk = record s { osk_symbols = not s.osk_symbols } in
    same_url-UrlFits s (redraw_osk t) (redraw_osk-url t) h
press_key-UrlFits act_lang k s h =
    let t : Osk = record s { osk_lang = not s.osk_lang } in
    same_url-UrlFits s (redraw_osk t) (redraw_osk-url t) h
press_key-UrlFits act_backspace k s h =
    rw (release_key-url k (backspace_key s)) (backspace_key-UrlFits s h)
press_key-UrlFits act_space k s h = rw (release_key-url k (space_key s)) (space_key-UrlFits s h)
press_key-UrlFits act_enter k s h = enter_key-UrlFits s h
press_key-UrlFits act_dotcom k s h = rw (release_key-url k (dotcom_key s)) (dotcom_key-UrlFits s h)
press_key-UrlFits act_char k s h = char_key-UrlFits k s h

touch_key-UrlFits : (o : Option OskKey) (s : Osk) → UrlFits s → UrlFits (touch_key o s)
unfolding draw_osk_key act
touch_key-UrlFits none s h = h
touch_key-UrlFits (some k) s h = press_key-UrlFits k.action k _ h

-- A touch on the keyboard, wherever it lies, leaves the text of the URL bar within its array.
pub handle_osk_touch-UrlFits : (x y : ℕ) (s : Osk) → UrlFits s → UrlFits (handle_osk_touch x y s)
unfolding handle_osk_touch
handle_osk_touch-UrlFits x y s h = touch_key-UrlFits (key_at x y s.osk_keys) s h
