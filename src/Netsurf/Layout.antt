-- ===== src/Netsurf/Layout.antt =====
-- The on-screen keyboard's keys in components/netsurf/src/sdl_fb0_shim.c, as `build_osk_layout`
-- places them for English and for Russian.
pub mod Apart
use nookobo.Prelude.{
  ℕ, zero, suc, ◌+◌, ◌*◌, Bool, true, false, Option, none, some, List, [], ◌∷◌, ◌++◌, ◌&&◌, ltb,
  leb, if◌then◌else◌,
}
use Prim.Native.String.{String}
use nookobo.Prelude.Text.{codes}
use nookobo.Netsurf.Utf8.{encode, utf8}

pub data KeyAction : Type 0 where
  act_char : KeyAction
  act_backspace : KeyAction
  act_enter : KeyAction
  act_space : KeyAction
  act_shift : KeyAction
  act_symbols : KeyAction
  act_lang : KeyAction
  act_hide : KeyAction
  act_clear : KeyAction
  act_dotcom : KeyAction

-- `struct OSKKey`; a label is its bytes.
pub record OskKey : Type 0 where
  pub x : ℕ
  pub y : ℕ
  pub w : ℕ
  pub h : ℕ
  pub normal_label : List ℕ
  pub shift_label : List ℕ
  pub sym_label : List ℕ
  pub action : KeyAction
  pub sym : ℕ
  pub unicode_norm : ℕ
  pub unicode_shift : ℕ
  pub unicode_sym : ℕ
  pub bg : ℕ
  pub fg : ℕ

abbrev pub color_black : ℕ
color_black = 0

abbrev pub color_key_bg : ℕ
color_key_bg = 65535

abbrev pub color_special_bg : ℕ
color_special_bg = 57083

-- A key that is not a letter: the place, the labels, the action, and `.sym` and `.unicode_norm`
-- with 0 where the source gives none.
abbrev special :
    (x y w h : ℕ) → (normal shift sym : List ℕ) → KeyAction → (key code bg : ℕ) → OskKey
special x y w h n s t a key code bg = record {
  x = x;
  y = y;
  w = w;
  h = h;
  normal_label = n;
  shift_label = s;
  sym_label = t;
  action = a;
  sym = key;
  unicode_norm = code;
  unicode_shift = 0;
  unicode_sym = 0;
  bg = bg;
  fg = color_black;
}

-- A letter of a row, with the labels that `strcpy` puts in.
abbrev letter : (x y w h norm shift sym : ℕ) → OskKey
letter x y w h n s t = record {
  x = x;
  y = y;
  w = w;
  h = h;
  normal_label = encode n;
  shift_label = encode s;
  sym_label = encode t;
  action = act_char;
  sym = n;
  unicode_norm = n;
  unicode_shift = s;
  unicode_sym = t;
  bg = color_key_bg;
  fg = color_black;
}

-- The loop over a row from key `i` on: the first key's `x`, the step, the place and the arrays.
abbrev letters : (i x step y w h : ℕ) → (norm shift sym : List ℕ) → List OskKey
letters i x step y w h (n ∷ ns) (s ∷ ss) (t ∷ ts) =
    letter (x + i * step) y w h n s t ∷ letters (suc i) x step y w h ns ss ts
letters i x step y w h _ _ _ = []

abbrev header_keys : List OskKey
header_keys =
    special 12 1275 180 46 (utf8 "Hide Kbd") (utf8 "Hide Kbd") (utf8 "Hide Kbd") act_hide 0 0
      color_special_bg
    ∷ special 1212 1275 180 46 (utf8 "Clear") (utf8 "Clear") (utf8 "Clear") act_clear 0 0
        color_special_bg
    ∷ []

abbrev pub backspace_key : OskKey
backspace_key =
    special 1172 1328 220 98 (utf8 "Backsp") (utf8 "Backsp") (utf8 "Backsp") act_backspace 8 8
      color_special_bg

-- English: the rows from the digits down to the space bar.
unfoldable pub english_keys : List OskKey
english_keys =
    letters 0 12 116 1328 110 98 (codes "1234567890") (codes "!@#$%^&*()") (codes "[]{}#%^*+=")
    ++ backspace_key ∷ []
    ++ letters 0 12 138 1432 130 98 (codes "qwertyuiop") (codes "QWERTYUIOP") (codes "~-_=+\\|<>/")
    ++ letters 0 80 138 1536 130 98 (codes "asdfghjkl") (codes "ASDFGHJKL") (codes ":;\"'?!@$&")
    ++ special 12 1640 170 98 (utf8 "Shift") (utf8 "SHIFT") (utf8 "Shift") act_shift 0 0
        color_special_bg
      ∷ []
    ++ letters 0 192 134 1640 126 98 (codes "zxcvbnm") (codes "ZXCVBNM") (codes "()[]{}_")
    ++ letter 1130 1640 126 98 46 44 46 ∷ []
    ++ letter 1266 1640 126 98 47 63 47 ∷ []
    ++ special 12 1744 170 104 (utf8 "?123") (utf8 "?123") (utf8 "ABC") act_symbols 0 0
        color_special_bg
      ∷ []
    ++ special 190 1744 140 104 (utf8 "EN") (utf8 "EN") (utf8 "EN") act_lang 0 0 color_special_bg
      ∷ []
    ++ special 338 1744 540 104 (utf8 "Space") (utf8 "Space") (utf8 "Space") act_space 32 32
        color_key_bg
      ∷ []
    ++ special 886 1744 190 104 (utf8 ".com") (utf8 ".com") (utf8 ".com") act_dotcom 0 0
        color_special_bg
      ∷ []
    ++ special 1084 1744 308 104 (utf8 "Go / Enter") (utf8 "Go / Enter") (utf8 "Go / Enter")
        act_enter 13 13 color_special_bg
      ∷ []

unfoldable pub russian_keys : List OskKey
russian_keys =
    letters 0 12 116 1328 110 98 (codes "1234567890") (codes "1234567890") (codes "1234567890")
    ++ backspace_key ∷ []
    ++ letters 0 12 125 1432 118 98 (codes "йцукенгшщзх") (codes "ЙЦУКЕНГШЩЗХ")
        (codes "йцукенгшщзх")
    ++ letters 0 12 125 1536 118 98 (codes "фывапролджэ") (codes "ФЫВАПРОЛДЖЭ")
        (codes "фывапролджэ")
    ++ special 12 1640 140 98 (utf8 "Shift") (utf8 "SHIFT") (utf8 "Shift") act_shift 0 0
        color_special_bg
      ∷ []
    ++ letters 0 160 123 1640 116 98 (codes "ячсмитьбюё") (codes "ЯЧСМИТЬБЮЁ") (codes "ячсмитьбюё")
    ++ special 12 1744 170 104 (utf8 "?123") (utf8 "?123") (utf8 "АБВ") act_symbols 0 0
        color_special_bg
      ∷ []
    ++ special 190 1744 140 104 (utf8 "RU") (utf8 "RU") (utf8 "RU") act_lang 0 0 color_special_bg
      ∷ []
    ++ special 338 1744 540 104 (utf8 "Пробел") (utf8 "Пробел") (utf8 "Пробел") act_space 32 32
        color_key_bg
      ∷ []
    ++ special 886 1744 190 104 (utf8 ".ru") (utf8 ".ru") (utf8 ".ru") act_dotcom 0 0
        color_special_bg
      ∷ []
    ++ special 1084 1744 308 104 (utf8 "Ввод") (utf8 "Ввод") (utf8 "Ввод") act_enter 13 13
        color_special_bg
      ∷ []

-- `build_osk_layout`, with `true` for Russian.
unfoldable pub build_osk_layout : Bool → List OskKey
build_osk_layout russian = header_keys ++ (if russian then russian_keys else english_keys)

-- Is the point inside the key?
unfoldable pub hit : ℕ → ℕ → OskKey → Bool
hit x y k = leb k.x x && (ltb x (k.x + k.w) && (leb k.y y && ltb y (k.y + k.h)))

-- The key that the loop of `handle_osk_touch` stops at.
unfoldable pub key_at : ℕ → ℕ → List OskKey → Option OskKey
key_at x y [] = none
key_at x y (k ∷ ks) = let rest = key_at x y ks in if hit x y k then some k else rest
