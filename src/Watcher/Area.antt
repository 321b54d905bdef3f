-- ===== src/Watcher/Area.antt =====
-- The save and restore loops of components/system/src/btn-watcher.c: rows of a box of the panel
-- are copied to and from a malloc'ed buffer by `memcpy`.
use nookobo.Prelude.{
  ℕ, zero, suc, ◌+◌, ◌-◌, ◌*◌, ◌/◌, ◌%◌, ◌≤◌, ◌<◌, ◌≡◌, sym, ap, ◌∙◌, true, false, ◌&&◌, arith, ltb,
  leb, if◌then◌else◌, for_to, Bool-cases, inl, inr, lt→ltb, le→leb, ◌⊎◌, dec_lt,
}
use nookobo.Watcher.Canvas.{Mem, fb_stride}
use nookobo.Watcher.Canvas.Keeps.{inside, Keeps}

-- memcpy(&dst[d], &src[s], n elements)
unfoldable pub memcpy : ℕ → Mem → ℕ → ℕ → Mem → Mem
memcpy d src s n dst j = if leb d j && ltb j (d + n) then src (s + (j - d)) else dst j

-- for (y...) memcpy(&backup[y * W], &fb_mem[(Y + y) * FB_STRIDE + X], W)
unfoldable pub save_area : ℕ → ℕ → ℕ → ℕ → Mem → Mem → Mem
unfolding memcpy
save_area x y w h fb backup =
    for_to h (λ k b. memcpy (k * w) fb ((y + k) * fb_stride + x) w b) backup

-- for (y...) memcpy(&fb_mem[(Y + y) * FB_STRIDE + X], &backup[y * W], W)
unfoldable pub restore_area : ℕ → ℕ → ℕ → ℕ → Mem → Mem → Mem
unfolding memcpy
restore_area x y w h backup fb =
    for_to h (λ k f. memcpy ((y + k) * fb_stride + x) backup (k * w) w f) fb

pub memcpy_in :
    (d : ℕ) (src : Mem) (s n : ℕ) (dst : Mem) (j k : ℕ)
    → j ≡ d + k
    → k < n
    → memcpy d src s n dst j ≡ src (s + k)
unfolding memcpy
memcpy_in d src s n dst j k e h =
    rw (lt→ltb j (d + n) (omega arith), le→leb d j (omega arith))
      (ap (λ t. src (s + t)) (omega arith))

pub memcpy_out :
    (d : ℕ) (src : Mem) (s n : ℕ) (dst : Mem) (j : ℕ)
    → (j < d) ⊎ (d + n ≤ j)
    → memcpy d src s n dst j ≡ dst j
unfolding memcpy
memcpy_out d src s n dst j h = ground arith

row_below : (r h w k : ℕ) → r < h → k < w → r * w + k < h * w
row_below r h w k h1 h2 = grind arith

pub save_area_at :
    (h x y w : ℕ) (fb room : Mem) (r k : ℕ)
    → r < h
    → k < w
    → save_area x y w h fb room (r * w + k) ≡ fb ((y + r) * 1408 + x + k)
unfolding save_area for_to
save_area_at zero x y w fb room r k h1 h2 = absurd (omega arith)
save_area_at (suc h) x y w fb room r k h1 h2 = elim (dec_lt r h) [
  | yes lt ↦
      memcpy_out (h * w) fb ((y + h) * 1408 + x) w (save_area x y w h fb room) (r * w + k)
        (inl (row_below r h w k lt h2))
      ∙ save_area_at h x y w fb room r k lt h2
  | no ge ↦
      let e : h ≡ r = omega arith in
      memcpy_in (h * w) fb ((y + h) * 1408 + x) w (save_area x y w h fb room) (r * w + k) k (rw e)
        h2
      ∙ ap (λ t. fb ((y + t) * 1408 + x + k)) e
]

last_row_hit :
    (x y w h i : ℕ)
    → inside x y w (suc h) i ≡ true
    → ¬ (i / 1408 < y + h)
    → (i ≡ (y + h) * 1408 + x + (i % 1408 - x)) × (i % 1408 - x < w) × (h ≡ i / 1408 - y)
last_row_hit x y w h i hit ge = ground arith

last_row_miss :
    (x y w h i : ℕ)
    → x + w ≤ 1408
    → inside x y w (suc h) i ≡ false
    → ¬ (i / 1408 < y + h)
    → (i < (y + h) * 1408 + x) ⊎ ((y + h) * 1408 + x + w ≤ i)
last_row_miss x y w h i h1 miss ge = ground arith

pub restore_area_at :
    (h x y w : ℕ) (backup fb : Mem) (i : ℕ)
    → x + w ≤ 1408
    → restore_area x y w h backup fb i
      ≡ (if inside x y w h i then backup ((i / 1408 - y) * w + (i % 1408 - x)) else fb i)
unfolding restore_area for_to
restore_area_at zero x y w backup fb i h1 = ground arith
restore_area_at (suc h) x y w backup fb i h1 = elim (dec_lt (i / 1408) (y + h)) [
  | yes lt ↦
      memcpy_out ((y + h) * 1408 + x) backup (h * w) w (restore_area x y w h backup fb) i
        (inl (omega arith))
      ∙ restore_area_at h x y w backup fb i h1
      ∙ ground arith
  | no ge ↦ elim (Bool-cases (inside x y w (suc h) i)) [
    | inl hit ↦
        memcpy_in ((y + h) * 1408 + x) backup (h * w) w (restore_area x y w h backup fb) i
          (i % 1408 - x) (last_row_hit x y w h i hit ge).0 (last_row_hit x y w h i hit ge).1
        ∙ ap (λ t. backup (t * w + (i % 1408 - x))) (last_row_hit x y w h i hit ge).2
        ∙ sym (rw hit)
    | inr miss ↦
        memcpy_out ((y + h) * 1408 + x) backup (h * w) w (restore_area x y w h backup fb) i
          (last_row_miss x y w h i h1 miss ge)
        ∙ restore_area_at h x y w backup fb i h1
        ∙ ground arith
  ]
]

pub inside_row :
    (x y w h i : ℕ)
    → inside x y w h i ≡ true
    → (i / 1408 - y < h)
      × (i % 1408 - x < w)
      × ((y + (i / 1408 - y)) * 1408 + x + (i % 1408 - x) ≡ i)
inside_row x y w h i hit = ground arith

-- A box that was saved and then drawn over is restored exactly.
pub restore_area-save_area :
    (x y w h : ℕ) (fb room fb' : Mem)
    → x + w ≤ 1408
    → Keeps x y w h fb fb'
    → (i : ℕ) → restore_area x y w h (save_area x y w h fb room) fb' i ≡ fb i
restore_area-save_area x y w h fb room fb' h1 keep i = elim (Bool-cases (inside x y w h i)) [
  | inl hit ↦
      restore_area_at h x y w (save_area x y w h fb room) fb' i h1
      ∙ rw hit (
          save_area_at h x y w fb room (i / 1408 - y) (i % 1408 - x) (inside_row x y w h i hit).0
            (inside_row x y w h i hit).1
          ∙ ap fb (inside_row x y w h i hit).2)
  | inr miss ↦ restore_area_at h x y w (save_area x y w h fb room) fb' i h1 ∙ rw miss (keep i miss)
]

-- A restore writes inside its box only.
pub restore_area-Keeps :
    (x y w h : ℕ) (backup fb : Mem)
    → x + w ≤ 1408
    → Keeps x y w h fb (restore_area x y w h backup fb)
restore_area-Keeps x y w h backup fb h1 i miss = restore_area_at h x y w backup fb i h1 ∙ rw miss
