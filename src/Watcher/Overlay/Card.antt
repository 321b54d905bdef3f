-- ===== src/Watcher/Overlay/Card.antt =====
-- The media card of components/system/src/btn-watcher.c as a layer over the page.
use mathlib.Core.Option
use nookobo.Prelude.{
  ℕ, ◌≤◌, ◌≡◌, refl, sym, ap, ◌∙◌, true, false, Option, some, List, arith, length, if◌then◌else◌,
  Bool-cases, inl, inr,
}
use nookobo.Watcher.Canvas.{Mem}
use nookobo.Watcher.Canvas.Keeps.{inside}
use nookobo.Watcher.Area.{save_area, restore_area, restore_area-Keeps}
use nookobo.Watcher.Layer.{beneath_same, beneath_restore, beneath_show, beneath_cong}
use nookobo.Watcher.Screen.{Device, Screen}
use nookobo.Watcher.Card.{status_text, show_media_card, hide_media_card, draw_card}
use nookobo.Watcher.Drawn.{draw_card-InBox}
use nookobo.Watcher.Overlay.{Layered, card_of_toast}

-- What the show does to the memory and to the two layers.
record Shown (text : List ℕ) (s s' : Screen) : Type 0 where
  mapped_same : s'.mapped ≡ s.mapped
  drawn : s'.memory ≡ draw_card text s.memory
  up : s'.card_active ≡ true
  kept : s'.card_backup ≡ (
      if s.card_active
      then s.card_backup
      else Option.map (save_area 102 536 1200 800 s.memory) s.card_backup)
  other_same : s'.toast_active ≡ s.toast_active
  other_kept : s'.toast_backup ≡ s.toast_backup

-- What the hide does when the layer is up.
record Hidden (b : Mem) (s s' : Screen) : Type 0 where
  mapped_same : s'.mapped ≡ s.mapped
  restored : s'.memory ≡ restore_area 102 536 1200 800 b s.memory
  down : s'.card_active ≡ false
  kept : s'.card_backup ≡ s.card_backup
  other_same : s'.toast_active ≡ s.toast_active
  other_kept : s'.toast_backup ≡ s.toast_backup

show_media_card-Shown :
    (d : Device) (status : Option (List ℕ)) (s : Screen)
    → s.mapped ≡ true
    → Shown (status_text status) s (show_media_card d status s)
unfolding show_media_card
show_media_card-Shown d status s h = record {
  mapped_same = ground arith;
  drawn = ground arith;
  up = ground arith;
  kept = ground arith;
  other_same = ground arith;
  other_kept = ground arith;
}

hide_media_card-Hidden :
    (b : Mem) (s : Screen)
    → s.mapped ≡ true
    → s.card_backup ≡ some b
    → s.card_active ≡ true
    → Hidden b s (hide_media_card s)
unfolding hide_media_card
hide_media_card-Hidden b s h e up = record {
  mapped_same = ground arith;
  restored = ground arith;
  down = ground arith;
  kept = ground arith;
  other_same = ground arith;
  other_kept = ground arith;
}

hide_media_card_down : (s : Screen) → s.card_active ≡ false → hide_media_card s ≡ s
unfolding hide_media_card
hide_media_card_down s h = ground arith

pub hide_media_card_inactive :
    (s : Screen) (b : Mem)
    → s.mapped ≡ true
    → s.card_backup ≡ some b
    → (hide_media_card s).card_active ≡ false
unfolding hide_media_card
hide_media_card_inactive s b h e = ground arith

pub hide_media_card-Layered :
    (base : Mem) (s : Screen) → Layered base s → Layered base (hide_media_card s)
hide_media_card-Layered base s l = elim (Bool-cases s.card_active) [
  | inl up ↦ restored up
  | inr down ↦ rw (hide_media_card_down s down) l
]
  where
    b : Mem
    b = l.card_buffer.0

    module_facts : s.card_active ≡ true → Hidden b s (hide_media_card s)
    module_facts up = hide_media_card-Hidden b s l.shown l.card_buffer.1 up

    same :
        s.card_active ≡ true
        → (i : ℕ) → inside 102 536 1200 800 i ≡ false
        → (hide_media_card s).memory i ≡ s.memory i
    same up i miss =
        ap (λ (m : Mem). m i) (module_facts up).restored
        ∙ restore_area-Keeps 102 536 1200 800 b s.memory (omega arith) i miss

    restored : s.card_active ≡ true → Layered base (hide_media_card s)
    restored up =
        let f = module_facts up in
        record {
          shown = f.mapped_same ∙ l.shown;
          card_buffer = (b, f.kept ∙ l.card_buffer.1);
          toast_buffer = (l.toast_buffer.0, f.other_kept ∙ l.toast_buffer.1);
          under_card = λ i hit.
              beneath_cong 102 536 1200 i f.down (f.kept ∙ l.card_buffer.1) f.restored
              ∙ beneath_restore 102 536 1200 800 (omega arith) i hit b s.memory
              ∙ beneath_cong 102 536 1200 {m = s.memory} i (sym up) (sym l.card_buffer.1) refl
              ∙ l.under_card i hit;
          under_toast = λ i hit.
              beneath_cong 102 60 1200 i f.other_same f.other_kept refl
              ∙ beneath_same 102 60 1200 s.toast_active s.toast_backup s.memory
                  (hide_media_card s).memory i (same up i (card_of_toast i hit))
              ∙ l.under_toast i hit;
          elsewhere = λ i m1 m2. same up i m2 ∙ l.elsewhere i m1 m2;
        }

pub show_media_card-Layered :
    (base : Mem) (d : Device) (status : Option (List ℕ)) (s : Screen)
    → length (status_text status) ≤ 73
    → Layered base s
    → Layered base (show_media_card d status s)
show_media_card-Layered base d status s fit l = record {
  shown = f.mapped_same ∙ l.shown;
  card_buffer = buffer;
  toast_buffer = (l.toast_buffer.0, f.other_kept ∙ l.toast_buffer.1);
  under_card = λ i hit.
      beneath_cong 102 536 1200 {m' = s'.memory} i f.up kept refl
      ∙ beneath_show 102 536 1200 800 (omega arith) i hit s.card_active room s.memory s'.memory
      ∙ beneath_cong 102 536 1200 {m = s.memory} i refl (sym l.card_buffer.1) refl
      ∙ l.under_card i hit;
  under_toast = λ i hit.
      beneath_cong 102 60 1200 i f.other_same f.other_kept refl
      ∙ beneath_same 102 60 1200 s.toast_active s.toast_backup s.memory s'.memory i
          (same i (card_of_toast i hit))
      ∙ l.under_toast i hit;
  elsewhere = λ i m1 m2. same i m2 ∙ l.elsewhere i m1 m2;
}
  where
    s' : Screen
    s' = show_media_card d status s

    f : Shown (status_text status) s s'
    f = show_media_card-Shown d status s l.shown

    room : Mem
    room = l.card_buffer.0

    kept : s'.card_backup ≡ (
        if s.card_active
        then some room
        else Option.map (save_area 102 536 1200 800 s.memory) (some room))
    kept =
        f.kept
        ∙ ap (λ b. if s.card_active then b else Option.map (save_area 102 536 1200 800 s.memory) b)
            l.card_buffer.1

    buffer : (b : Mem) × (s'.card_backup ≡ some b)
    buffer = elim (Bool-cases s.card_active) [
      | inl up ↦ (room, kept ∙ rw up)
      | inr down ↦ (save_area 102 536 1200 800 s.memory room, kept ∙ rw down)
    ]

    same : (i : ℕ) → inside 102 536 1200 800 i ≡ false → s'.memory i ≡ s.memory i
    same i miss =
        ap (λ (m : Mem). m i) f.drawn ∙ draw_card-InBox (status_text status) fit s.memory i miss

-- Hiding the card leaves the toast's flag alone.
pub toast-hide_media_card : (s : Screen) → (hide_media_card s).toast_active ≡ s.toast_active
unfolding hide_media_card
toast-hide_media_card s = ground arith
