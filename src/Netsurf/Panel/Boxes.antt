-- ===== src/Netsurf/Panel/Boxes.antt =====
-- Where the keyboard, its preview and the URL bar of components/netsurf/src/sdl_fb0_shim.c
-- draw.
use nookobo.Prelude.{
  ℕ, ◌-◌, ◌*◌, ◌≤◌, ◌≡◌, refl, Bool, true, false, not, List, [], ◌∷◌, ◌++◌, ◌&&◌, arith, leb, ltb,
  ◌==◌, length, length-append, length-take, length-drop, take, drop, if◌then◌else◌,
}
use nookobo.Prelude.Text.{codes}
use nookobo.Watcher.Canvas.{Mem, paint_all}
use nookobo.Watcher.Canvas.Boxes.{box_in, InBox, AllInBox, rect_in, outline_in, paint_all_in}
use nookobo.Netsurf.Utf8.{decode, encode, utf8}
use nookobo.Netsurf.Layout.{OskKey, english_keys, russian_keys, build_osk_layout}
use nookobo.Netsurf.Draw.{utf8_string_len}
use nookobo.Netsurf.Draw.Keeps.{
  utf8_string-InBox, utf8_string_centered-InBox, utf8_string_len-length,
}
use nookobo.Netsurf.Keyboard.{Osk, preview_text, overlay_text, key_label, label_scale, labelled}
use nookobo.Netsurf.Panel.{
  key_pixels, keys_pixels, background_pixels, preview_pixels, url_bar_pixels,
}

-- The keyboard's rows, and the box of the URL bar.
abbrev pub OnKeyboard : (Mem → Mem) → Type 0
OnKeyboard op = InBox 0 1272 1408 600 op

abbrev pub OnUrlBar : (Mem → Mem) → Type 0
OnUrlBar op = InBox 145 6 1175 58 op

-- A label in its key.
unfoldable pub label_fits : OskKey → List ℕ → Bool
label_fits k label =
    leb (utf8_string_len label * 8 * label_scale label) k.w && leb (16 * label_scale label) k.h

-- A key on the keyboard with its three labels in it.
unfoldable pub key_fits : OskKey → Bool
key_fits k =
    (box_in 0 1272 1408 600 k.x k.y k.w k.h && (leb 2 k.w && leb 2 k.h))
    && (label_fits k k.normal_label && (label_fits k k.shift_label && label_fits k k.sym_label))

abbrev pub keys_fit : List OskKey → Bool
keys_fit [] = true
keys_fit (k ∷ ks) = key_fits k && keys_fit ks

english_fits : keys_fit (build_osk_layout false) ≡ true
unfolding build_osk_layout english_keys key_fits label_fits label_scale utf8_string_len decode
    encode
english_fits = refl

russian_fits : keys_fit (build_osk_layout true) ≡ true
unfolding build_osk_layout russian_keys key_fits label_fits label_scale utf8_string_len decode
    encode
russian_fits = refl

pub layout_fits : (russian : Bool) → keys_fit (build_osk_layout russian) ≡ true
layout_fits true = russian_fits
layout_fits false = english_fits

pub background-OnKeyboard : OnKeyboard (paint_all background_pixels)
unfolding background_pixels
background-OnKeyboard = paint_all_in 0 1272 1408 600 background_pixels (
  rect_in 0 1272 1408 600 0 1272 1404 600 61309 refl,
  (rect_in 0 1272 1408 600 0 1272 1404 3 0 refl, tt),
)

key_box : (k : OskKey) → key_fits k ≡ true → box_in 0 1272 1408 600 k.x k.y k.w k.h ≡ true
unfolding key_fits
key_box k h = ground arith

key_wide : (k : OskKey) → key_fits k ≡ true → leb 2 k.w && leb 2 k.h ≡ true
unfolding key_fits
key_wide k h = ground arith

labels_fit :
    (a b c d e : Bool) → (a && b) && (c && (d && e)) ≡ true → (c ≡ true) × (d ≡ true) × (e ≡ true)
labels_fit a b c d e h = ground arith

label-fits : (s : Osk) (k : OskKey) → key_fits k ≡ true → label_fits k (key_label s k) ≡ true
unfolding key_fits key_label
label-fits s k h =
    let fit =
      labels_fit (box_in 0 1272 1408 600 k.x k.y k.w k.h) (leb 2 k.w && leb 2 k.h) _ _ _ h in
    choice s.osk_symbols _ _ fit.2 (choice s.osk_shift _ _ fit.1 fit.0)
  where
    choice :
        (b : Bool) (l l' : List ℕ)
        → label_fits k l ≡ true
        → label_fits k l' ≡ true
        → label_fits k (if b then l else l') ≡ true
    choice true l l' h h' = h
    choice false l l' h h' = h'

both : (a b : Bool) → a ≡ true → b ≡ true → a && b ≡ true
both a b h k = ground arith

both_more : (a b c : Bool) → a ≡ true → b && c ≡ true → a && b && c ≡ true
both_more a b c h k = ground arith

low : (a b : Bool) → a && b ≡ true → a ≡ true
low a b h = ground arith

high : (a b : Bool) → a && b ≡ true → b ≡ true
high a b h = ground arith

leb_le : (a b : ℕ) → leb a b ≡ true → a ≤ b
leb_le a b h = ground arith

-- A key that fits is drawn on the keyboard, pressed or not, with whichever label.
pub key-OnKeyboard :
    (s : Osk) (k : OskKey) (down : Bool)
    → key_fits k ≡ true
    → OnKeyboard (paint_all (key_pixels k down (key_label s k) (label_scale (key_label s k))))
unfolding key_pixels label_fits
key-OnKeyboard s k down h =
    let label = key_label s k in
    let fit = label-fits s k h in
    paint_all_in 0 1272 1408 600 (key_pixels k down label (label_scale label)) (
      rect_in 0 1272 1408 600 k.x k.y k.w k.h _ (key_box k h),
      (
        outline_in 0 1272 1408 600 k.x k.y k.w k.h 2 0
            (both_more _ _ _ (key_box k h) (key_wide k h)),
        (
          utf8_string_centered-InBox 0 1272 1408 600 k.x k.y k.w k.h label (label_scale label) _ _
              (leb_le _ _ (low _ _ fit)) (both _ _ (key_box k h) (high _ _ fit)),
          tt,
        ),
      ),
    )

keys-AllInBox :
    (s : Osk) (ks : List OskKey)
    → keys_fit ks ≡ true
    → AllInBox 0 1272 1408 600 (keys_pixels (labelled s ks))
unfolding keys_pixels labelled
keys-AllInBox s [] h = tt
keys-AllInBox s (k ∷ ks) h = (
  key-OnKeyboard s k false (low (key_fits k) (keys_fit ks) h),
  keys-AllInBox s ks (high (key_fits k) (keys_fit ks) h),
)

pub keys-OnKeyboard :
    (s : Osk) (ks : List OskKey)
    → keys_fit ks ≡ true
    → OnKeyboard (paint_all (keys_pixels (labelled s ks)))
keys-OnKeyboard s ks h =
    paint_all_in 0 1272 1408 600 (keys_pixels (labelled s ks)) (keys-AllInBox s ks h)

len_choice :
    (b : Bool) (t u : List ℕ) (n : ℕ)
    → (b ≡ true → utf8_string_len t ≤ n)
    → (b ≡ false → utf8_string_len u ≤ n)
    → utf8_string_len (if b then t else u) ≤ n
len_choice true t u n h k = h refl
len_choice false t u n h k = k refl

hints_short :
    (leb (utf8_string_len (utf8 "Введите текст в поле страницы...")) 58 ≡ true)
    × (leb (utf8_string_len (utf8 "Tap keys to type in the page field...")) 58 ≡ true)
    × (leb (utf8_string_len (utf8 "Введите адрес или поисковый запрос...")) 58 ≡ true)
    × (leb (utf8_string_len (utf8 "Tap keys to type URL / Search query...")) 58 ≡ true)
unfolding utf8_string_len decode encode
hints_short = (refl, refl, refl, refl)

length-last : (xs : List ℕ) → length (drop (length xs - 58) xs) ≤ 58
length-last xs = omega (arith, length-drop (length xs - 58) xs)

short : (a b : ℕ) → ltb a b ≡ false → b ≤ a
short a b h = ground arith

-- The preview shows at most 58 letters.
preview_text-short : (s : Osk) → utf8_string_len (preview_text s) ≤ 58
unfolding preview_text
preview_text-short s =
    let osk_buf = take 127 s.current_url in
    let last = drop (length osk_buf - 58) osk_buf in
    len_choice (not s.url_bar_focused) _ _ 58
      (λ _.
        len_choice s.osk_lang _ _ 58 (λ _. leb_le _ _ hints_short.0)
          (λ _. leb_le _ _ hints_short.1))
      (λ _.
        len_choice (length s.current_url == 0) _ _ 58
          (λ _.
            len_choice s.osk_lang _ _ 58 (λ _. leb_le _ _ hints_short.2)
              (λ _. leb_le _ _ hints_short.3))
          (λ _.
            len_choice (ltb 58 (length osk_buf)) _ _ 58
              (λ over. omega (arith, utf8_string_len-length last, length-last osk_buf))
              (λ under.
                omega (arith, utf8_string_len-length osk_buf, short 58 (length osk_buf) under))))

pub preview-OnKeyboard :
    (s : Osk) (hint : Bool) → OnKeyboard (paint_all (preview_pixels hint (preview_text s)))
unfolding preview_pixels
preview-OnKeyboard s hint =
    let fits = preview_text-short s in
    paint_all_in 0 1272 1408 600 (preview_pixels hint (preview_text s)) (
      rect_in 0 1272 1408 600 202 1275 1000 46 65535 refl,
      (
        outline_in 0 1272 1408 600 202 1275 1000 46 2 0 refl,
        (utf8_string-InBox 0 1272 1408 600 216 1282 (preview_text s) 2 _ 65535 (ground arith), tt),
      ),
    )

overlay_text-short : (url : List ℕ) → length (overlay_text url) ≤ 64
unfolding overlay_text
overlay_text-short url =
    let display_buf = take 79 (codes "URL: " ++ url) in
    cut_length (ltb 64 (length display_buf)) (take 61 display_buf ++ codes "...") display_buf
      (omega (arith, length-append (take 61 display_buf) (codes "..."), length-take 61 display_buf))
      (λ under. short 64 (length display_buf) under)
  where
    cut_length :
        (b : Bool) (t u : List ℕ)
        → length t ≤ 64
        → (b ≡ false → length u ≤ 64)
        → length (if b then t else u) ≤ 64
    cut_length true t u h k = h
    cut_length false t u h k = k refl

-- The URL bar's text is at most 64 letters, inside its box.
pub url_bar-OnUrlBar : (url : List ℕ) → OnUrlBar (paint_all (url_bar_pixels (overlay_text url)))
unfolding url_bar_pixels
url_bar-OnUrlBar url =
    let text = overlay_text url in
    let fits : utf8_string_len text ≤ 64 =
      omega (arith, utf8_string_len-length text, overlay_text-short url) in
    paint_all_in 145 6 1175 58 (url_bar_pixels text) (
      rect_in 145 6 1175 58 145 6 1175 58 65535 refl,
      (
        outline_in 145 6 1175 58 145 6 1175 58 2 0 refl,
        (utf8_string-InBox 145 6 1175 58 160 19 text 2 0 65535 (ground arith), tt),
      ),
    )
