-- ===== src/PlatoShim/Log/Fits.antt =====
-- The line of an update in the log of components/system/src/plato_shim.c is written whole: nothing
-- of it is left out for lack of room.
use nookobo.Prelude.{
  ℕ, ◌+◌, ◌≤◌, ◌≡◌, refl, sym, ap, ◌∙◌, List, [], ◌∷◌, ◌++◌, length, length-append, arith,
}
use mathlib.Core.List.{append-nil, append_assoc}
use nookobo.Prelude.Int.{ℤ, pos, negsuc}
use nookobo.Prelude.Text.{codes}
use nookobo.PlatoShim.Ioctl.{Rect, UpdateV1}
use nookobo.PlatoShim.Log.{
  lb_str, decimal, hexadecimal, lb_u, lb_i, lb_flush, log_rect, log_update, log_send_v2,
}
use nookobo.PlatoShim.Log.Numbers.{length-decimal, length-hexadecimal}

-- The texts of a line one after the other, and their bytes.
abbrev pub join : List (List ℕ) → List ℕ
join [] = []
join (s ∷ ss) = s ++ join ss

abbrev size : List (List ℕ) → ℕ
size [] = 0
size (s ∷ ss) = length s + size ss

add_all : List (List ℕ) → List ℕ → List ℕ
add_all [] l = l
add_all (s ∷ ss) l = add_all ss (lb_str s l)

lb_str_room : (s l : List ℕ) → length l + length s ≤ 384 → lb_str s l ≡ l ++ s
unfolding lb_str
lb_str_room s l h = ground arith

add_all_lem :
    (ss : List (List ℕ)) (l : List ℕ) → length l + size ss ≤ 384 → add_all ss l ≡ l ++ join ss
unfolding add_all
add_all_lem [] l h = sym (append-nil l)
add_all_lem (s ∷ ss) l h =
    ap (add_all ss) (lb_str_room s l (omega arith))
    ∙ add_all_lem ss (l ++ s) (omega (arith, length-append l s))
    ∙ append_assoc l s (join ss)

abbrev rect_texts : List ℕ → Rect → List (List ℕ) → List (List ℕ)
rect_texts tag r rest =
    tag
    ∷ decimal r.top
    ∷ codes ","
    ∷ decimal r.left
    ∷ codes ","
    ∷ decimal r.width
    ∷ codes "x"
    ∷ decimal r.height
    ∷ codes " "
    ∷ rest

abbrev int_texts : ℤ → List (List ℕ)
int_texts (pos n) = decimal n ∷ []
int_texts (negsuc n) = codes "-" ∷ decimal (n + 1) ∷ []

-- The line as it reads.
abbrev pub send_v2_texts : UpdateV1 → ℤ → List (List ℕ)
send_v2_texts v1 ret =
    codes "SU2 "
    ∷ rect_texts (codes " dst=") v1.update_region (
        codes "wf="
        ∷ decimal v1.waveform_mode
        ∷ codes " mode="
        ∷ decimal v1.update_mode
        ∷ codes " flags="
        ∷ hexadecimal v1.flags
        ∷ codes " marker="
        ∷ decimal v1.update_marker
        ∷ rect_texts (codes "alt=") v1.alt_buffer_data.alt_update_region (
            codes "altw="
            ∷ decimal v1.alt_buffer_data.alt_width
            ∷ codes " alth="
            ∷ decimal v1.alt_buffer_data.alt_height
            ∷ codes " altpa="
            ∷ hexadecimal v1.alt_buffer_data.phys_addr
            ∷ codes " -> "
            ∷ int_texts ret))

size-int_texts : (ret : ℤ) → size (int_texts ret) ≤ 11
size-int_texts (pos n) = omega (arith, length-decimal n)
size-int_texts (negsuc n) = omega (arith, length-decimal (n + 1))

size-send_v2_texts : (v1 : UpdateV1) (ret : ℤ) → size (send_v2_texts v1 ret) ≤ 300
size-send_v2_texts v1 ret =
    let d = v1.update_region in
    let a = v1.alt_buffer_data.alt_update_region in
    omega (
      arith,
      length-decimal d.top,
      length-decimal d.left,
      length-decimal d.width,
      length-decimal d.height,
      length-decimal a.top,
      length-decimal a.left,
      length-decimal a.width,
      length-decimal a.height,
      length-decimal v1.waveform_mode,
      length-decimal v1.update_mode,
      length-hexadecimal v1.flags,
      length-decimal v1.update_marker,
      length-decimal v1.alt_buffer_data.alt_width,
      length-decimal v1.alt_buffer_data.alt_height,
      length-hexadecimal v1.alt_buffer_data.phys_addr,
      size-int_texts ret,
    )

log_send_v2_texts :
    (v1 : UpdateV1) (ret : ℤ) → log_send_v2 v1 ret ≡ lb_flush (add_all (send_v2_texts v1 ret) [])
unfolding log_send_v2 log_update log_rect lb_u lb_i add_all
log_send_v2_texts v1 (pos n) = refl
log_send_v2_texts v1 (negsuc n) = refl

lb_flush_room : (l : List ℕ) → length l ≤ 300 → lb_flush l ≡ l ++ 10 ∷ []
unfolding lb_flush
lb_flush_room l h = ground arith

length-join : (ss : List (List ℕ)) → length (join ss) ≡ size ss
length-join [] = refl
length-join (s ∷ ss) = length-append s (join ss) ∙ ap (λ n. length s + n) (length-join ss)

-- The line of an update is written whole, with its newline: nothing of it is left out for lack of
-- room in the buffer.
pub log_send_v2_lem :
    (v1 : UpdateV1) (ret : ℤ) → log_send_v2 v1 ret ≡ join (send_v2_texts v1 ret) ++ 10 ∷ []
log_send_v2_lem v1 ret =
    let texts = send_v2_texts v1 ret in
    log_send_v2_texts v1 ret
    ∙ ap lb_flush (add_all_lem texts [] (omega (arith, size-send_v2_texts v1 ret)))
    ∙ lb_flush_room (join texts) (omega (arith, length-join texts, size-send_v2_texts v1 ret))
