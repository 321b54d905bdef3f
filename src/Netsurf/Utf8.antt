-- ===== src/Netsurf/Utf8.antt =====
-- UTF-8 in components/netsurf/src/sdl_fb0_shim.c: the decoder that types a string, and the
-- encoder of a key on the on-screen keyboard. A byte is below 256; a C string ends where the list
-- ends.
pub mod RoundTrip
use nookobo.Prelude.{
  ℕ, zero, suc, ◌+◌, ◌-◌, ◌*◌, ◌/◌, ◌%◌, ◌<◌, Bool, true, false, List, [], ◌∷◌, ◌++◌, ltb, ◌==◌,
  if◌then◌else◌,
}
use Prim.Native.Char.{code}
use Prim.Native.String.{String}

-- The code points that the loop over `utf8_next` sees, and whether it left the string: a lead byte
-- before the final NUL takes the NUL as a trail byte, and the loop goes on behind it. What it reads
-- there is not modelled.
unfoldable pub decode : List ℕ → List ℕ × Bool
decode [] = ([], false)
decode (c ∷ []) =
    if ltb c 128
    then (c ∷ [], false)
    else if c / 32 == 6
    then (c % 32 * 64 ∷ [], true)
    else if c / 16 == 14
    then (c % 16 * 4096 ∷ [], true)
    else (c ∷ [], false)
decode (c ∷ d ∷ []) =
    let (one, gone) = decode (d ∷ []) in
    if ltb c 128
    then (c ∷ one, gone)
    else if c / 32 == 6
    then ((c % 32 * 64 + d % 64) ∷ [], false)
    else if c / 16 == 14
    then ((c % 16 * 4096 + d % 64 * 64) ∷ [], true)
    else (c ∷ one, gone)
decode (c ∷ d ∷ e ∷ s) =
    let (one, gone1) = decode (d ∷ e ∷ s) in
    let (two, gone2) = decode (e ∷ s) in
    let (three, gone3) = decode s in
    if ltb c 128
    then (c ∷ one, gone1)
    else if c / 32 == 6
    then ((c % 32 * 64 + d % 64) ∷ two, gone2)
    else if c / 16 == 14
    then ((c % 16 * 4096 + d % 64 * 64 + e % 64) ∷ three, gone3)
    else (c ∷ one, gone1)

-- The bytes that ACT_CHAR appends for a key: `strcat` appends nothing for the code point 0.
unfoldable pub encode : ℕ → List ℕ
encode cp =
    if cp == 0
    then []
    else if ltb cp 128
    then cp ∷ []
    else if ltb cp 2048
    then (192 + cp / 64) ∷ (128 + cp % 64) ∷ []
    else []

abbrev pub encode_all : List ℕ → List ℕ
encode_all [] = []
encode_all (cp ∷ cps) = encode cp ++ encode_all cps

-- The bytes of a literal.
abbrev pub utf8 : String → List ℕ
utf8 String.[] = []
utf8 (String.◌∷◌ c s) = encode (code c) ++ utf8 s
