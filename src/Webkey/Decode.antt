-- ===== src/Webkey/Decode.antt =====
-- The URL decoder of components/netsurf/src/nook-webkey.c.
use nookobo.Prelude.{
  ℕ, zero, suc, ◌+◌, ◌*◌, ◌/◌, ◌%◌, ◌≤◌, ◌<◌, ◌≡◌, refl, ap₂, ◌∙◌, true, List, [], ◌∷◌, ltb, leb,
  Bool, ◌&&◌, ◌||◌, ◌==◌, Bool-cases, inl, inr, take, length, if◌then◌else◌, arith,
}
use nookobo.Webkey.{isxdigit, hex_value, url_decode}

-- The digit that JavaScript's `encodeURIComponent` writes for a number below 16.
abbrev digit : ℕ → ℕ
digit d = if ltb d 10 then 48 + d else 55 + d

-- The bytes that it leaves as they are: letters, digits and - _ . ! ~ * ' ( )
abbrev pub unreserved : ℕ → Bool
unreserved c =
    (leb 65 c && leb c 90)
    || (leb 97 c && leb c 122)
    || (leb 48 c && leb c 57)
    || (leb 39 c && leb c 42)
    || (leb 45 c && leb c 46)
    || c == 33
    || c == 95
    || c == 126

-- `encodeURIComponent` on the bytes of a text: the others become `%XX`.
abbrev pub encode_component : List ℕ → List ℕ
encode_component [] = []
encode_component (c ∷ s) =
    if unreserved c
    then c ∷ encode_component s
    else 37 ∷ digit (c / 16) ∷ digit (c % 16) ∷ encode_component s

abbrev pub Bytes : List ℕ → Type 0
Bytes [] = Unit
Bytes (c ∷ s) = (c < 256) × Bytes s

-- The decoder never writes more than there is room for.
pub length-url_decode : (n : ℕ) (s : List ℕ) → length (url_decode n s) ≤ n
unfolding url_decode
length-url_decode zero s = omega arith
length-url_decode (suc n) [] = omega arith
length-url_decode (suc n) (c ∷ []) = omega arith
length-url_decode (suc n) (c ∷ d ∷ []) = omega (arith, length-url_decode n (d ∷ []))
length-url_decode (suc n) (c ∷ d ∷ e ∷ s) =
    ground (arith, length-url_decode n (d ∷ e ∷ s), length-url_decode n s)

isxdigit-digit : (d : ℕ) → d < 16 → isxdigit (digit d) ≡ true
unfolding isxdigit
isxdigit-digit d h = ground arith

hex_value-digit : (d : ℕ) → d < 16 → hex_value (digit d) ≡ d
unfolding hex_value
hex_value-digit d h = ground arith

cons_eq : (a b : ℕ) (xs ys : List ℕ) → a ≡ b → xs ≡ ys → a ∷ xs ≡ b ∷ ys
cons_eq a b xs ys p q = ap₂ ◌∷◌ p q

decode_percent :
    (n d e : ℕ) (s : List ℕ)
    → isxdigit d ≡ true
    → isxdigit e ≡ true
    → url_decode (suc n) (37 ∷ d ∷ e ∷ s) ≡ (hex_value d * 16 + hex_value e) ∷ url_decode n s
unfolding url_decode
decode_percent n d e s p q = ground arith

-- A byte other than % and + stands for itself.
decode_raw :
    (n c : ℕ) (s : List ℕ) → unreserved c ≡ true → url_decode (suc n) (c ∷ s) ≡ c ∷ url_decode n s
unfolding url_decode
decode_raw zero c [] h = ground arith
decode_raw (suc n) c [] h = ground arith
decode_raw n c (d ∷ []) h = ground arith
decode_raw n c (d ∷ e ∷ s) h = ground arith

-- Decoding what `encodeURIComponent` wrote gives the bytes of the text again, as many as there is
-- room for.
pub url_decode-encode_component :
    (n : ℕ) (s : List ℕ) → Bytes s → url_decode n (encode_component s) ≡ take n s
unfolding url_decode
url_decode-encode_component zero s h = refl
url_decode-encode_component (suc n) [] h = refl
url_decode-encode_component (suc n) (c ∷ s) h =
    let rest = url_decode-encode_component n s h.1 in
    let a = hex_value-digit (c / 16) (omega (arith, h.0)) in
    let b = hex_value-digit (c % 16) (omega arith) in
    elim (Bool-cases (unreserved c)) [
      | inl raw ↦ rw raw (decode_raw n c (encode_component s) raw ∙ ap₂ ◌∷◌ refl rest)
      | inr other ↦ rw other (
          decode_percent n (digit (c / 16)) (digit (c % 16)) (encode_component s)
            (isxdigit-digit (c / 16) (omega (arith, h.0))) (isxdigit-digit (c % 16) (omega arith))
          ∙ ap₂ ◌∷◌ (omega (arith, a, b)) rest)
    ]
