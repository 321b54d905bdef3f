-- ===== src/Watcher/Layer.antt =====
-- One overlay of components/system/src/btn-watcher.c: what is below it while it comes and goes.
use mathlib.Core.Option
use nookobo.Prelude.{
  ℕ, ◌+◌, ◌-◌, ◌*◌, ◌/◌, ◌%◌, ◌≤◌, ◌≡◌, refl, ap, ◌∙◌, Bool, true, false, Option, none, some,
  if◌then◌else◌,
}
use nookobo.Watcher.Canvas.{Mem}
use nookobo.Watcher.Canvas.Keeps.{inside}
use nookobo.Watcher.Area.{save_area, restore_area, restore_area_at, save_area_at, inside_row}

-- What is below a layer at an index: its backup while it is up.
abbrev pub beneath : ℕ → ℕ → ℕ → Bool → Option Mem → Mem → ℕ → ℕ
beneath x y w true (some backup) m i = backup ((i / 1408 - y) * w + (i % 1408 - x))
beneath x y w true none m i = m i
beneath x y w false backup m i = m i

-- Only the memory at the index itself matters.
pub beneath_same :
    (x y w : ℕ) (up : Bool) (backup : Option Mem) (m m' : Mem) (i : ℕ)
    → m' i ≡ m i
    → beneath x y w up backup m' i ≡ beneath x y w up backup m i
beneath_same x y w true (some b) m m' i e = refl
beneath_same x y w true none m m' i e = e
beneath_same x y w false b m m' i e = e

module _ (x y w h : ℕ) (fits : x + w ≤ 1408) (i : ℕ) (hit : inside x y w h i ≡ true) where
  -- Restoring shows what was below.
  pub beneath_restore : (b m : Mem) → restore_area x y w h b m i ≡ beneath x y w true (some b) m i
  beneath_restore b m = restore_area_at h x y w b m i fits ∙ rw hit

  -- A layer that comes up keeps what it covers, and one that is up keeps what it has.
  pub beneath_show :
      (up : Bool) (room m m' : Mem)
      → beneath x y w true
          (if up then some room else Option.map (save_area x y w h m) (some room))
          m'
          i
        ≡ beneath x y w up (some room) m i
  beneath_show true room m m' = refl
  beneath_show false room m m' =
      save_area_at h x y w m room (i / 1408 - y) (i % 1408 - x) (inside_row x y w h i hit).0
        (inside_row x y w h i hit).1
      ∙ ap m (inside_row x y w h i hit).2

pub beneath_cong :
    (x y w : ℕ) {up up' : Bool} {b b' : Option Mem} {m m' : Mem} (i : ℕ)
    → up ≡ up'
    → b ≡ b'
    → m ≡ m'
    → beneath x y w up b m i ≡ beneath x y w up' b' m' i
beneath_cong x y w i p q r = λ j. beneath x y w (p j) (q j) (r j) i
