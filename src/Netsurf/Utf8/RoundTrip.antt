-- ===== src/Netsurf/Utf8/RoundTrip.antt =====
-- What the keyboard of components/netsurf/src/sdl_fb0_shim.c writes, the typing loop reads back.
use nookobo.Prelude.{
  ℕ, ◌+◌, ◌/◌, ◌%◌, ◌≤◌, ◌<◌, ◌≡◌, ap, ◌∙◌, Bool, true, List, [], ◌∷◌, ◌++◌, arith, ltb, Bool-cases,
  inl, inr,
}
use mathlib.Core.List.{append_assoc}
use nookobo.Netsurf.Utf8.{decode, encode, encode_all}

abbrev cons_first : ℕ → List ℕ × Bool → List ℕ × Bool
cons_first cp (cps, gone) = (cp ∷ cps, gone)

decode_ascii : (cp : ℕ) (s : List ℕ) → cp < 128 → decode (cp ∷ s) ≡ cons_first cp (decode s)
unfolding decode
decode_ascii cp [] h = ground arith
decode_ascii cp (d ∷ []) h = ground arith
decode_ascii cp (d ∷ e ∷ s) h = ground arith

decode_pair :
    (cp : ℕ) (s : List ℕ)
    → 128 ≤ cp
    → cp < 2048
    → decode ((192 + cp / 64) ∷ (128 + cp % 64) ∷ s) ≡ cons_first cp (decode s)
unfolding decode
decode_pair cp [] l h = ground arith
decode_pair cp (e ∷ s) l h = ground arith

-- The code points that the keyboard can write.
abbrev pub Typable : List ℕ → Type 0
Typable [] = Unit
Typable (cp ∷ cps) = (0 < cp) × (cp < 2048) × Typable cps

decode-encode_one :
    (cp : ℕ) (s : List ℕ) → 0 < cp → cp < 2048 → decode (encode cp ++ s) ≡ cons_first cp (decode s)
unfolding encode
decode-encode_one cp s h0 h = elim (Bool-cases (ltb cp 128)) [
  | inl small ↦ ground (arith, decode_ascii cp s)
  | inr large ↦ ground (arith, decode_pair cp s)
]

-- A letter above U+007F at the end of the text, less its last byte: the loop over the text leaves
-- the string. The backspace key cuts the last byte.
pub decode_cut :
    (cps : List ℕ) (cp : ℕ)
    → Typable cps
    → 128 ≤ cp
    → cp < 2048
    → (decode (encode_all cps ++ (192 + cp / 64) ∷ [])).1 ≡ true
unfolding decode
decode_cut [] cp h l u = ground arith
decode_cut (c ∷ cps) cp h l u =
    ap (λ bs. (decode bs).1) (append_assoc (encode c) (encode_all cps) ((192 + cp / 64) ∷ []))
    ∙ ap (λ r. r.1) (decode-encode_one c (encode_all cps ++ (192 + cp / 64) ∷ []) h.0 h.1)
    ∙ decode_cut cps cp h.2 l u
