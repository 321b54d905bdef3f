-- ===== src/Netsurf/Panel/Kept.antt =====
-- What the effects of the on-screen keyboard leave of the page under and around it, for
-- components/netsurf/src/sdl_fb0_shim.c.
use nookobo.Prelude.{
  ℕ, ◌+◌, ◌-◌, ◌*◌, ◌/◌, ◌%◌, ◌≡◌, refl, ap, ◌∙◌, Bool, true, false, List, [], ◌∷◌, ◌++◌, arith,
  if◌then◌else◌, Bool-cases, inl, inr,
}
use nookobo.Watcher.Canvas.{Mem, paint_all}
use nookobo.Watcher.Canvas.Keeps.{inside}
use nookobo.Watcher.Area.{save_area_at, restore_area_at, inside_row}
use nookobo.Netsurf.Layout.{OskKey}
use nookobo.Netsurf.Keyboard.{
  Osk, Effect, queued, pause, refresh_fast, refresh_gray, refresh_full, act,
}
use nookobo.Netsurf.Panel.{Panel, save_page, restore_page, draw_on, do_effect, do_effects}
use nookobo.Netsurf.Panel.Boxes.{OnKeyboard, OnUrlBar, keys_fit}

-- A pixel of the keyboard's rows, or of the URL bar's box.
abbrev pub on_keyboard : ℕ → Bool
on_keyboard i = inside 0 1272 1408 600 i

abbrev pub on_url_bar : ℕ → Bool
on_url_bar i = inside 145 6 1175 58 i

-- Where the backup holds a pixel of the keyboard's rows.
abbrev pub backed_up : Mem → Mem
backed_up backup i = backup ((i / 1408 - 1272) * 1408 + (i % 1408 - 0))

apart : (i : ℕ) → on_keyboard i ≡ true → on_url_bar i ≡ false
apart i h = ground arith

pub do_effects-append :
    (es : List Effect) (e : Effect) (p : Panel)
    → do_effects (es ++ e ∷ []) p ≡ do_effect e (do_effects es p)
unfolding do_effects
do_effects-append [] e p = refl
do_effects-append (d ∷ es) e p = do_effects-append es e (do_effect d p)

-- Effects that change nothing on the panel.
abbrev pub calm : Effect → Bool
calm (queued e) = true
calm (pause us) = true
calm (refresh_fast left top width height) = true
calm (refresh_gray left top width height) = true
calm (refresh_full left top width height) = true
calm e = false

module _ (page : Mem) where
  -- The panel shows the page but for the URL bar; or, with the keyboard up, the page is in the
  -- backup and around the keyboard.
  abbrev pub PageKept : Bool → Panel → Type 0
  PageKept true p =
      ((i : ℕ) → on_keyboard i ≡ true → backed_up p.osk_backup i ≡ page i)
      × ((i : ℕ) → on_keyboard i ≡ false → on_url_bar i ≡ false → p.fb i ≡ page i)
  PageKept false p = (i : ℕ) → on_url_bar i ≡ false → p.fb i ≡ page i

  pub calm_lem :
      (e : Effect) (up : Bool) (p : Panel)
      → calm e ≡ true
      → PageKept up p
      → PageKept up (do_effect e p)
  unfolding do_effect
  calm_lem (queued e) up p h k = k
  calm_lem (pause us) up p h k = k
  calm_lem (refresh_fast left top width height) up p h k = k
  calm_lem (refresh_gray left top width height) up p h k = k
  calm_lem (refresh_full left top width height) up p h k = k
  calm_lem e up p h k = ground arith

  pub url_bar-PageKept :
      (ops : List (Mem → Mem)) (up : Bool) (p : Panel)
      → OnUrlBar (paint_all ops)
      → PageKept up p
      → PageKept up (draw_on ops p)
  url_bar-PageKept ops true p h k = (k.0, λ i off out. h p.fb i out ∙ k.1 i off out)
  url_bar-PageKept ops false p h k = λ i out. h p.fb i out ∙ k i out

  pub keyboard-PageKept :
      (ops : List (Mem → Mem)) (p : Panel)
      → OnKeyboard (paint_all ops)
      → PageKept true p
      → PageKept true (draw_on ops p)
  keyboard-PageKept ops p h k = (k.0, λ i off out. h p.fb i off ∙ k.1 i off out)

  pub save_page-PageKept : (p : Panel) → PageKept false p → PageKept true (save_page p)
  unfolding save_page
  save_page-PageKept p k = (
    λ i on.
        let row = inside_row 0 1272 1408 600 i on in
        save_area_at 600 0 1272 1408 p.fb p.osk_backup (i / 1408 - 1272) (i % 1408 - 0) row.0 row.1
        ∙ ap p.fb row.2
        ∙ k i (apart i on),
    λ i off out. k i out,
  )

  pub restore_page-PageKept : (p : Panel) → PageKept true p → PageKept false (restore_page p)
  unfolding restore_page
  restore_page-PageKept p k i out =
      restore_area_at 600 0 1272 1408 p.osk_backup p.fb i (omega arith)
      ∙ elim (Bool-cases (on_keyboard i)) [
        | inl on ↦ rw on (k.0 i on)
        | inr off ↦ rw off (k.1 i off out)
      ]

-- What is kept, by the fields of the keyboard that it is about; `start` is the panel before any
-- effect.
pub record Keeping (page : Mem) (start : Panel) (up mapped : Bool) (keys : List OskKey)
    (active : Bool) (effects : List Effect) : Type 0 where
  pub is_mapped : mapped ≡ true
  pub layout_fits : keys_fit keys ≡ true
  pub is_up : active ≡ up
  pub page_kept : PageKept page up (do_effects effects start)

-- The keyboard of a mapped panel, up or down, with the page kept.
abbrev pub Kept : Mem → Panel → Bool → Osk → Type 0
Kept page start up s = Keeping page start up s.mapped s.osk_keys s.osk_active s.effects

module _ {page : Mem} {start : Panel} {up : Bool} where
  pub act-Kept :
      (e : Effect) (s : Osk)
      → ((p : Panel) → PageKept page up p → PageKept page up (do_effect e p))
      → Kept page start up s
      → Kept page start up (act e s)
  unfolding act
  act-Kept e s keep h = record {
    is_mapped = h.is_mapped;
    layout_fits = h.layout_fits;
    is_up = h.is_up;
    page_kept =
        rw (do_effects-append s.effects e start) (keep (do_effects s.effects start) h.page_kept);
  }

  pub calm-Kept :
      (e : Effect) (s : Osk) → calm e ≡ true → Kept page start up s → Kept page start up (act e s)
  calm-Kept e s c h = act-Kept e s (λ p k. calm_lem page e up p c k) h

  pub if-Kept :
      (b : Bool) (s t : Osk)
      → Kept page start up s
      → Kept page start up t
      → Kept page start up (if b then s else t)
  if-Kept true s t h k = h
  if-Kept false s t h k = k

  pub if_true-Kept :
      (b : Bool) (s t : Osk)
      → b ≡ true
      → Kept page start up s
      → Kept page start up (if b then s else t)
  if_true-Kept true s t e h = h
  if_true-Kept false s t e h = ground arith

  pub if_false-Kept :
      (b : Bool) (s t : Osk)
      → b ≡ false
      → Kept page start up t
      → Kept page start up (if b then s else t)
  if_false-Kept true s t e h = ground arith
  if_false-Kept false s t e h = h
