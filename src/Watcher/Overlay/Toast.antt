-- ===== src/Watcher/Overlay/Toast.antt =====
-- The toast of components/system/src/btn-watcher.c as a layer over the page.
use mathlib.Core.Option
use nookobo.Prelude.{
  ℕ, ◌≤◌, ◌≡◌, refl, sym, ap, ◌∙◌, true, false, some, List, arith, length, if◌then◌else◌,
  Bool-cases, inl, inr,
}
use nookobo.Watcher.Canvas.{Mem}
use nookobo.Watcher.Canvas.Keeps.{inside}
use nookobo.Watcher.Area.{save_area, restore_area, restore_area-Keeps}
use nookobo.Watcher.Layer.{beneath_same, beneath_restore, beneath_show, beneath_cong}
use nookobo.Watcher.Screen.{Device, Screen, show_toast, hide_toast, draw_toast}
use nookobo.Watcher.Drawn.{draw_toast-InBox}
use nookobo.Watcher.Overlay.{Layered, toast_of_card}

-- What the show does to the memory and to the two layers.
record Shown (title subtitle : List ℕ) (s s' : Screen) : Type 0 where
  mapped_same : s'.mapped ≡ s.mapped
  drawn : s'.memory ≡ draw_toast title subtitle s.memory
  up : s'.toast_active ≡ true
  kept : s'.toast_backup ≡ (
      if s.toast_active
      then s.toast_backup
      else Option.map (save_area 102 60 1200 160 s.memory) s.toast_backup)
  other_same : s'.card_active ≡ s.card_active
  other_kept : s'.card_backup ≡ s.card_backup

-- What the hide does when the layer is up.
record Hidden (b : Mem) (s s' : Screen) : Type 0 where
  mapped_same : s'.mapped ≡ s.mapped
  restored : s'.memory ≡ restore_area 102 60 1200 160 b s.memory
  down : s'.toast_active ≡ false
  kept : s'.toast_backup ≡ s.toast_backup
  other_same : s'.card_active ≡ s.card_active
  other_kept : s'.card_backup ≡ s.card_backup

show_toast-Shown :
    (d : Device) (title subtitle : List ℕ) (now : ℕ) (s : Screen)
    → s.mapped ≡ true
    → Shown title subtitle s (show_toast d title subtitle now s)
unfolding show_toast
show_toast-Shown d title subtitle now s h = record {
  mapped_same = ground arith;
  drawn = ground arith;
  up = ground arith;
  kept = ground arith;
  other_same = ground arith;
  other_kept = ground arith;
}

hide_toast-Hidden :
    (b : Mem) (s : Screen)
    → s.mapped ≡ true
    → s.toast_backup ≡ some b
    → s.toast_active ≡ true
    → Hidden b s (hide_toast s)
unfolding hide_toast
hide_toast-Hidden b s h e up = record {
  mapped_same = ground arith;
  restored = ground arith;
  down = ground arith;
  kept = ground arith;
  other_same = ground arith;
  other_kept = ground arith;
}

hide_toast_down : (s : Screen) → s.toast_active ≡ false → hide_toast s ≡ s
unfolding hide_toast
hide_toast_down s h = ground arith

pub hide_toast_inactive :
    (s : Screen) (b : Mem)
    → s.mapped ≡ true
    → s.toast_backup ≡ some b
    → (hide_toast s).toast_active ≡ false
unfolding hide_toast
hide_toast_inactive s b h e = ground arith

pub hide_toast-Layered : (base : Mem) (s : Screen) → Layered base s → Layered base (hide_toast s)
hide_toast-Layered base s l = elim (Bool-cases s.toast_active) [
  | inl up ↦ restored up
  | inr down ↦ rw (hide_toast_down s down) l
]
  where
    b : Mem
    b = l.toast_buffer.0

    module_facts : s.toast_active ≡ true → Hidden b s (hide_toast s)
    module_facts up = hide_toast-Hidden b s l.shown l.toast_buffer.1 up

    same :
        s.toast_active ≡ true
        → (i : ℕ) → inside 102 60 1200 160 i ≡ false
        → (hide_toast s).memory i ≡ s.memory i
    same up i miss =
        ap (λ (m : Mem). m i) (module_facts up).restored
        ∙ restore_area-Keeps 102 60 1200 160 b s.memory (omega arith) i miss

    restored : s.toast_active ≡ true → Layered base (hide_toast s)
    restored up =
        let f = module_facts up in
        record {
          shown = f.mapped_same ∙ l.shown;
          toast_buffer = (b, f.kept ∙ l.toast_buffer.1);
          card_buffer = (l.card_buffer.0, f.other_kept ∙ l.card_buffer.1);
          under_toast = λ i hit.
              beneath_cong 102 60 1200 i f.down (f.kept ∙ l.toast_buffer.1) f.restored
              ∙ beneath_restore 102 60 1200 160 (omega arith) i hit b s.memory
              ∙ beneath_cong 102 60 1200 {m = s.memory} i (sym up) (sym l.toast_buffer.1) refl
              ∙ l.under_toast i hit;
          under_card = λ i hit.
              beneath_cong 102 536 1200 i f.other_same f.other_kept refl
              ∙ beneath_same 102 536 1200 s.card_active s.card_backup s.memory (hide_toast s).memory
                  i (same up i (toast_of_card i hit))
              ∙ l.under_card i hit;
          elsewhere = λ i m1 m2. same up i m1 ∙ l.elsewhere i m1 m2;
        }

pub show_toast-Layered :
    (base : Mem) (d : Device) (title subtitle : List ℕ) (now : ℕ) (s : Screen)
    → length title ≤ 50
    → length subtitle ≤ 75
    → Layered base s
    → Layered base (show_toast d title subtitle now s)
show_toast-Layered base d title subtitle now s fit1 fit2 l = record {
  shown = f.mapped_same ∙ l.shown;
  toast_buffer = buffer;
  card_buffer = (l.card_buffer.0, f.other_kept ∙ l.card_buffer.1);
  under_toast = λ i hit.
      beneath_cong 102 60 1200 {m' = s'.memory} i f.up kept refl
      ∙ beneath_show 102 60 1200 160 (omega arith) i hit s.toast_active room s.memory s'.memory
      ∙ beneath_cong 102 60 1200 {m = s.memory} i refl (sym l.toast_buffer.1) refl
      ∙ l.under_toast i hit;
  under_card = λ i hit.
      beneath_cong 102 536 1200 i f.other_same f.other_kept refl
      ∙ beneath_same 102 536 1200 s.card_active s.card_backup s.memory s'.memory i
          (same i (toast_of_card i hit))
      ∙ l.under_card i hit;
  elsewhere = λ i m1 m2. same i m1 ∙ l.elsewhere i m1 m2;
}
  where
    s' : Screen
    s' = show_toast d title subtitle now s

    f : Shown title subtitle s s'
    f = show_toast-Shown d title subtitle now s l.shown

    room : Mem
    room = l.toast_buffer.0

    kept : s'.toast_backup ≡ (
        if s.toast_active
        then some room
        else Option.map (save_area 102 60 1200 160 s.memory) (some room))
    kept =
        f.kept
        ∙ ap (λ b. if s.toast_active then b else Option.map (save_area 102 60 1200 160 s.memory) b)
            l.toast_buffer.1

    buffer : (b : Mem) × (s'.toast_backup ≡ some b)
    buffer = elim (Bool-cases s.toast_active) [
      | inl up ↦ (room, kept ∙ rw up)
      | inr down ↦ (save_area 102 60 1200 160 s.memory room, kept ∙ rw down)
    ]

    same : (i : ℕ) → inside 102 60 1200 160 i ≡ false → s'.memory i ≡ s.memory i
    same i miss =
        ap (λ (m : Mem). m i) f.drawn ∙ draw_toast-InBox title subtitle fit1 fit2 s.memory i miss
