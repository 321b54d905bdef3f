-- ===== src/Watcher/Screen.antt =====
-- The overlays of components/system/src/btn-watcher.c: the toast and the media card, which save
-- the panel below them, draw, and put the panel back.
use nookobo.Prelude.{
  ℕ, ◌+◌, ◌%◌, ◌^◌, Bool, true, false, Option, none, some, List, [], ◌∷◌, ◌&&◌, ltb, ◌==◌,
  if◌then◌else◌, ◌|>◌,
}
use nookobo.Prelude.Int.{pos}
use nookobo.Watcher.Canvas.{
  Mem, fb_width, fb_height, draw_rect, draw_rect_outline, draw_string_centered, paint_all,
}
use mathlib.Core.Option
use nookobo.Watcher.Area.{save_area, restore_area}

-- The fields of `struct mxcfb_update_data_v1` that `epdc_refresh` fills; its `temp` is constant.
pub record Refresh : Type 0 where
  pub left : ℕ
  pub top : ℕ
  pub width : ℕ
  pub height : ℕ
  pub waveform_mode : ℕ
  pub update_mode : ℕ

-- What the system gives `fb_init`: whether a framebuffer node opens and maps, and the buffers
-- that the two `malloc` calls return.
pub record Device : Type 0 where
  pub opens : Bool
  pub toast_room : Option Mem
  pub card_room : Option Mem

-- The file-scope variables, with the panel memory that `fb_mem` maps. `fb_fd` is open exactly
-- while `fb_mem` is mapped. `refreshes` holds the update requests sent, the newest first.
pub record Screen : Type 0 where
  pub memory : Mem
  pub mapped : Bool
  pub toast_backup : Option Mem
  pub card_backup : Option Mem
  pub toast_active : Bool
  pub card_active : Bool
  pub toast_expire_time : ℕ
  pub refreshes : List Refresh

unfoldable pub fb_init : Device → Screen → Screen
fb_init d s =
    if s.mapped
    then s
    else if d.opens
    then record s { mapped = true; toast_backup = d.toast_room; card_backup = d.card_room }
    else s

-- The callers' coordinates are not negative. `mode` 2 is GC16, with a full update.
unfoldable pub epdc_refresh : ℕ → ℕ → ℕ → ℕ → ℕ → Screen → Screen
epdc_refresh left top width height mode s =
    if s.mapped then record s { refreshes = update ∷ s.refreshes } else s
  where
    update : Refresh
    update = record {
      left = left;
      top = top;
      width = if ltb fb_width width then fb_width else width;
      height = if ltb fb_height height then fb_height else height;
      waveform_mode = mode;
      update_mode = if mode == 2 then 0 else 1;
    }

-- A drawing routine applied to the mapped memory.
abbrev pub paint : (Mem → Mem) → Screen → Screen
paint f s = record s { memory = f s.memory }

abbrev pub toast_x : ℕ
toast_x = 102

abbrev pub toast_y : ℕ
toast_y = 60

abbrev pub toast_w : ℕ
toast_w = 1200

abbrev pub toast_h : ℕ
toast_h = 160

abbrev pub card_x : ℕ
card_x = 102

abbrev pub card_y : ℕ
card_y = 536

abbrev pub card_w : ℕ
card_w = 1200

abbrev pub card_h : ℕ
card_h = 800

restore_toast : Mem → Screen → Screen
unfolding epdc_refresh
restore_toast backup s =
    record (s
      |> paint (restore_area toast_x toast_y toast_w toast_h backup)
      |> epdc_refresh toast_x toast_y toast_w toast_h 1) { toast_active = false }

unfoldable pub hide_toast : Screen → Screen
unfolding restore_toast
hide_toast s = elim s.toast_backup [
  | none ↦ s
  | some backup ↦ if s.toast_active && s.mapped then restore_toast backup s else s
]

-- The backup that `show_toast` keeps when no toast was up.
save_toast : Screen → Screen
save_toast s = record s {
  toast_backup = Option.map (save_area toast_x toast_y toast_w toast_h s.memory) s.toast_backup;
  toast_active = true;
}

-- A null or empty subtitle is the empty text.
unfoldable pub toast_ops : List ℕ → List ℕ → List (Mem → Mem)
toast_ops title [] =
    (draw_rect (pos toast_x) (pos toast_y) toast_w toast_h 0
      ∷ draw_rect_outline (pos toast_x) (pos toast_y) toast_w toast_h 4 0xFFFF
      ∷ draw_string_centered (pos toast_x) (pos toast_y) toast_w toast_h title 3 0xFFFF 0
      ∷ [])
toast_ops title (c ∷ subtitle) =
    (draw_rect (pos toast_x) (pos toast_y) toast_w toast_h 0
      ∷ draw_rect_outline (pos toast_x) (pos toast_y) toast_w toast_h 4 0xFFFF
      ∷ draw_string_centered (pos toast_x) (pos (toast_y + 25)) toast_w 55 title 3 0xFFFF 0
      ∷ draw_string_centered (pos toast_x) (pos (toast_y + 95)) toast_w 40 (c ∷ subtitle) 2 0xDEFB 0
      ∷ [])

unfoldable pub draw_toast : List ℕ → List ℕ → Mem → Mem
unfolding paint_all toast_ops
draw_toast title subtitle = paint_all (toast_ops title subtitle)

put_toast : List ℕ → List ℕ → ℕ → Screen → Screen
unfolding epdc_refresh draw_toast
put_toast title subtitle now s =
    record (s
      |> paint (draw_toast title subtitle)
      |> epdc_refresh toast_x toast_y toast_w toast_h 1) {
        toast_expire_time = (now + 2200) % 2 ^ 64;
      }

unfoldable pub show_toast : Device → List ℕ → List ℕ → ℕ → Screen → Screen
unfolding fb_init save_toast put_toast
show_toast d title subtitle now s0 =
    let s : Screen = fb_init d s0 in
    if s.mapped
    then put_toast title subtitle now (if s.toast_active then s else save_toast s)
    else s
