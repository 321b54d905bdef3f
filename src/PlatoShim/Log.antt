-- ===== src/PlatoShim/Log.antt =====
-- The log lines of components/system/src/plato_shim.c, built in a buffer of 384 bytes.
pub mod Numbers
pub mod Fits
use nookobo.Prelude.{
  ℕ, zero, suc, ◌+◌, ◌-◌, ◌*◌, ◌/◌, ◌%◌, ◌^◌, Bool, true, false, List, [], ◌∷◌, ◌++◌, ◌&&◌, not,
  ◌==◌, ltb, length, if◌then◌else◌, ◌|>◌,
}
use nookobo.Prelude.Int.{ℤ, pos, negsuc}
use nookobo.Prelude.Text.{codes}
use nookobo.PlatoShim.Ioctl.{Rect, UpdateV1}

-- The bytes of the buffer so far; what does not fit is left out.
unfoldable pub lb_str : List ℕ → List ℕ → List ℕ
lb_str s l = if ltb 384 (length l + length s) then l else l ++ s

-- The decimal digits, the lowest first, of a number below 10 ^ `n`: the loop's rounds.
unfoldable pub low_digits : ℕ → ℕ → List ℕ
low_digits zero v = []
low_digits (suc n) v =
    let rest = low_digits n (v / 10) in if v == 0 then [] else (48 + v % 10) ∷ rest

-- The digits turned round.
unfoldable pub turn_onto : List ℕ → List ℕ → List ℕ
turn_onto [] done = done
turn_onto (c ∷ s) done = turn_onto s (c ∷ done)

-- An unsigned int has at most ten digits.
unfoldable pub decimal : ℕ → List ℕ
decimal v = turn_onto (if v == 0 then 48 ∷ [] else low_digits 10 v) []

-- The loop over the hexadecimal digits, `n` of them left. The letters are those of the source.
unfoldable pub hex_digits : ℕ → Bool → ℕ → List ℕ
hex_digits zero started v = []
hex_digits (suc n) started v =
    let d = v / 16 ^ n % 16 in
    let skipped = hex_digits n false v in
    let rest = hex_digits n true v in
    if not started && (d == 0 && ltb 0 n)
    then skipped
    else (if ltb d 10 then 48 + d else 97 + d) ∷ rest

unfoldable pub hexadecimal : ℕ → List ℕ
hexadecimal v = 48 ∷ 120 ∷ hex_digits 8 false v

unfoldable pub lb_u : ℕ → Bool → List ℕ → List ℕ
lb_u v hexa l = lb_str (if hexa then hexadecimal v else decimal v) l

-- `-v` of the smallest int is itself, which is 2 ^ 31 as an unsigned int.
unfoldable pub lb_i : ℤ → List ℕ → List ℕ
lb_i (pos n) l = lb_u n false l
lb_i (negsuc n) l = l |> lb_str (codes "-") |> lb_u (n + 1) false

-- The bytes that `lb_flush` writes; it leaves a full line out.
unfoldable pub lb_flush : List ℕ → List ℕ
lb_flush l = if ltb (length l + 1) 384 then l ++ 10 ∷ [] else []

unfoldable pub log_rect : List ℕ → Rect → List ℕ → List ℕ
log_rect tag r l =
    l
    |> lb_str tag
    |> lb_u r.top false
    |> lb_str (codes ",")
    |> lb_u r.left false
    |> lb_str (codes ",")
    |> lb_u r.width false
    |> lb_str (codes "x")
    |> lb_u r.height false
    |> lb_str (codes " ")

unfoldable pub log_update : List ℕ → UpdateV1 → List ℕ → List ℕ
log_update tag v1 l =
    l
    |> lb_str tag
    |> log_rect (codes " dst=") v1.update_region
    |> lb_str (codes "wf=")
    |> lb_u v1.waveform_mode false
    |> lb_str (codes " mode=")
    |> lb_u v1.update_mode false
    |> lb_str (codes " flags=")
    |> lb_u v1.flags true
    |> lb_str (codes " marker=")
    |> lb_u v1.update_marker false

-- The line of MXCFB_SEND_UPDATE_V2, with what the driver returned.
unfoldable pub log_send_v2 : UpdateV1 → ℤ → List ℕ
log_send_v2 v1 ret =
    log_update (codes "SU2 ") v1 []
    |> log_rect (codes "alt=") v1.alt_buffer_data.alt_update_region
    |> lb_str (codes "altw=")
    |> lb_u v1.alt_buffer_data.alt_width false
    |> lb_str (codes " alth=")
    |> lb_u v1.alt_buffer_data.alt_height false
    |> lb_str (codes " altpa=")
    |> lb_u v1.alt_buffer_data.phys_addr true
    |> lb_str (codes " -> ")
    |> lb_i ret
    |> lb_flush
