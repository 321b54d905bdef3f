-- ===== src/Watcher/Overlay.antt =====
-- The toast and the media card of components/system/src/btn-watcher.c as two layers over the
-- reader's page: what is below a layer is not lost, in whatever order the layers come and go.
pub mod Toast
pub mod Card
pub mod Calls
use mathlib.Core.Option
use nookobo.Prelude.{
  ℕ, ◌+◌, ◌-◌, ◌*◌, ◌/◌, ◌%◌, ◌≤◌, ◌<◌, ◌≡◌, refl, sym, ap, ◌∙◌, Bool, true, false, Option, none,
  some, List, [], ◌∷◌, arith, length, if◌then◌else◌, Bool-cases, inl, inr,
}
use nookobo.Watcher.Canvas.{Mem}
use nookobo.Watcher.Canvas.Keeps.{inside, Keeps}
use nookobo.Watcher.Area.{save_area, restore_area, restore_area-Keeps}
use nookobo.Watcher.Layer.{beneath, beneath_same, beneath_restore, beneath_show}
use nookobo.Watcher.Screen.{Device, Screen, show_toast, hide_toast, draw_toast}
use nookobo.Watcher.Card.{show_media_card, hide_media_card, draw_card}

-- The screen shows `base` wherever no layer is up, and has kept it below the layers.
pub record Layered (base : Mem) (s : Screen) : Type 0 where
  pub shown : s.mapped ≡ true
  pub toast_buffer : (b : Mem) × (s.toast_backup ≡ some b)
  pub card_buffer : (b : Mem) × (s.card_backup ≡ some b)
  pub under_toast :
      (i : ℕ)
      → inside 102 60 1200 160 i ≡ true
      → beneath 102 60 1200 s.toast_active s.toast_backup s.memory i ≡ base i
  pub under_card :
      (i : ℕ)
      → inside 102 536 1200 800 i ≡ true
      → beneath 102 536 1200 s.card_active s.card_backup s.memory i ≡ base i
  pub elsewhere :
      (i : ℕ)
      → inside 102 60 1200 160 i ≡ false
      → inside 102 536 1200 800 i ≡ false
      → s.memory i ≡ base i

-- The boxes of the toast and of the card have no pixel in common.
pub toast_of_card : (i : ℕ) → inside 102 536 1200 800 i ≡ true → inside 102 60 1200 160 i ≡ false
toast_of_card i h = ground arith

pub card_of_toast : (i : ℕ) → inside 102 60 1200 160 i ≡ true → inside 102 536 1200 800 i ≡ false
card_of_toast i h = ground arith
