-- ===== src/PlatoShim/Log/Numbers.antt =====
-- The numbers in the log of components/system/src/plato_shim.c: they fit their 12 bytes, and a
-- decimal one reads back.
use nookobo.Prelude.{
  ℕ, zero, suc, ◌+◌, ◌-◌, ◌*◌, ◌/◌, ◌^◌, ◌≤◌, ◌<◌, ◌≡◌, refl, ap, ◌∙◌, Bool, true, false, List, [],
  ◌∷◌, ◌==◌, length, if◌then◌else◌, arith,
}
use native.Mathlib.Numerals.{unary_clauses}
use nookobo.PlatoShim.Log.{low_digits, turn_onto, decimal, hex_digits, hexadecimal}

-- The number that decimal digits stand for, after `done`.
abbrev pub number : ℕ → List ℕ → ℕ
number done [] = done
number done (c ∷ s) = number (done * 10 + (c - 48)) s

-- The same, the lowest digit first.
abbrev low_number : List ℕ → ℕ
low_number [] = 0
low_number (c ∷ s) = (c - 48) + 10 * low_number s

number-turn_onto : (s done : List ℕ) → number 0 (turn_onto s done) ≡ number (low_number s) done
unfolding turn_onto
number-turn_onto [] done = refl
number-turn_onto (c ∷ s) done =
    number-turn_onto s (c ∷ done) ∙ ap (λ k. number k done) (omega arith)

next_below : (n v : ℕ) → v < 10 ^ suc n → v / 10 < 10 ^ n
next_below n v h = let e : 10 ^ suc n ≡ 10 ^ n * 10 = simp (unary_clauses) in omega arith

low_number-low_digits : (n v : ℕ) → v < 10 ^ n → low_number (low_digits n v) ≡ v
unfolding low_digits
low_number-low_digits zero v h = omega arith
low_number-low_digits (suc n) v h =
    let rest = low_number-low_digits n (v / 10) (next_below n v h) in ground arith

length-low_digits : (n v : ℕ) → length (low_digits n v) ≤ n
unfolding low_digits
length-low_digits zero v = omega arith
length-low_digits (suc n) v = ground (arith, length-low_digits n (v / 10))

length-turn_onto : (s done : List ℕ) → length (turn_onto s done) ≡ length s + length done
unfolding turn_onto
length-turn_onto [] done = omega arith
length-turn_onto (c ∷ s) done = length-turn_onto s (c ∷ done) ∙ omega arith

length-hex_digits : (n : ℕ) (started : Bool) (v : ℕ) → length (hex_digits n started v) ≤ n
unfolding hex_digits
length-hex_digits zero started v = omega arith
length-hex_digits (suc n) started v =
    ground (arith, length-hex_digits n true v, length-hex_digits n false v)

pub length-decimal : (v : ℕ) → length (decimal v) ≤ 10
unfolding decimal
length-decimal v = ground (
  arith,
  length-turn_onto (low_digits 10 v) [],
  length-low_digits 10 v,
  length-turn_onto (48 ∷ []) [],
)

pub length-hexadecimal : (v : ℕ) → length (hexadecimal v) ≤ 10
unfolding hexadecimal
length-hexadecimal v = omega (arith, length-hex_digits 8 false v)

pub number-decimal : (v : ℕ) → v < 2 ^ 32 → number 0 (decimal v) ≡ v
unfolding decimal
number-decimal v h =
    number-turn_onto (if v == 0 then 48 ∷ [] else low_digits 10 v) []
    ∙ either (low_number-low_digits 10 v (omega arith))
  where
    either :
        low_number (low_digits 10 v) ≡ v
        → low_number (if v == 0 then 48 ∷ [] else low_digits 10 v) ≡ v
    either e = ground arith
