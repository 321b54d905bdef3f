-- ===== src/Netsurf/Keyboard/Preview.antt =====
-- The preview over the keyboard of components/netsurf/src/sdl_fb0_shim.c when the text is longer
-- than its array of 128 bytes.
use nookobo.Prelude.{
  ℕ, ◌+◌, ◌/◌, ◌≤◌, ◌<◌, ◌≡◌, refl, sym, ap, ◌∙◌, true, false, ltb, ◌==◌, List, [], ◌∷◌, ◌++◌,
  length, length-take, length-append, take, drop, take-append, drop-append, take-beyond, arith,
}
use nookobo.Netsurf.Utf8.{decode, encode_all}
use nookobo.Netsurf.Utf8.RoundTrip.{Typable, decode_cut}
use nookobo.Netsurf.Keyboard.{Osk, preview_text}

empty? : (n : ℕ) → 0 < n → n == 0 ≡ false
empty? n h = ground arith

over : (n : ℕ) → 58 < n → ltb 58 n ≡ true
over n h = ground arith

-- The last 58 of the first 127 bytes.
long_preview :
    (s : Osk)
    → s.url_bar_focused ≡ true
    → 127 ≤ length s.current_url
    → preview_text s ≡ drop 69 (take 127 s.current_url)
unfolding preview_text
long_preview s focus long =
    let cut : length (take 127 s.current_url) ≡ 127 =
      omega (arith, length-take 127 s.current_url) in
    rw (focus, empty? (length s.current_url) (omega arith), cut) refl

-- Once the text has 127 bytes the preview no longer shows what is typed.
pub preview_frozen :
    (s : Osk) (more : List ℕ)
    → s.url_bar_focused ≡ true
    → 127 ≤ length s.current_url
    → preview_text (record s { current_url = s.current_url ++ more }) ≡ preview_text s
preview_frozen s more focus long =
    long_preview (record s { current_url = s.current_url ++ more }) focus
      (omega (arith, length-append s.current_url more))
    ∙ ap (drop 69) (take-beyond s.current_url more 127 long)
    ∙ sym (long_preview s focus long)

-- When the 127th byte of a longer text is the first byte of a letter from U+0080 to U+07FF and 57
-- bytes of whole letters stand before it, the loop that draws the preview leaves its array.
pub preview_leaves :
    (s : Osk) (front cps rest : List ℕ) (cp : ℕ)
    → s.url_bar_focused ≡ true
    → s.current_url ≡ front ++ (encode_all cps ++ (192 + cp / 64) ∷ rest)
    → length front ≡ 69
    → length (encode_all cps) ≡ 57
    → Typable cps
    → 128 ≤ cp
    → cp < 2048
    → (decode (preview_text s)).1 ≡ true
preview_leaves s front cps rest cp focus url h1 h2 fine low high =
    let lead = (192 + cp / 64) ∷ [] in
    let cut : take 127 (front ++ (encode_all cps ++ (192 + cp / 64) ∷ rest))
        ≡ front ++ (encode_all cps ++ lead) =
      take-append front (encode_all cps ++ (192 + cp / 64) ∷ rest) 127 58 (omega arith)
      ∙ ap (λ bs. front ++ bs)
          (take-append (encode_all cps) ((192 + cp / 64) ∷ rest) 58 1 (omega arith)) in
    let shown : preview_text s ≡ encode_all cps ++ lead =
      long_preview s focus (long_url url h1 h2)
      ∙ ap (λ bs. drop 69 (take 127 bs)) url
      ∙ ap (drop 69) cut
      ∙ drop-append front (encode_all cps ++ lead) 69 (sym h1) in
    ap (λ bs. (decode bs).1) shown ∙ decode_cut cps cp fine low high
  where
    long_url :
        s.current_url ≡ front ++ (encode_all cps ++ (192 + cp / 64) ∷ rest)
        → length front ≡ 69
        → length (encode_all cps) ≡ 57
        → 127 ≤ length s.current_url
    long_url e k1 k2 = rw e (
        omega (
          arith,
          length-append front (encode_all cps ++ (192 + cp / 64) ∷ rest),
          length-append (encode_all cps) ((192 + cp / 64) ∷ rest),
        ))
