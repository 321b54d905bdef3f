-- ===== src/AppSwitcher/Session.antt =====
-- The state of components/system/src/app-switcher.c while its dialog is up, and what it asks the
-- system to do.
use nookobo.Prelude.{ℕ, ◌+◌, Bool, Option, none, some, List, [], ◌∷◌, ◌++◌, if◌then◌else◌, ◌|>◌}
use nookobo.Prelude.Int.{ℤ, pos}
use nookobo.Prelude.Text.{codes, text_eq}
use nookobo.Watcher.Canvas.{Mem}
use nookobo.Watcher.Area.{save_area, restore_area}
use nookobo.Watcher.Apps.{Files}
use nookobo.AppSwitcher.Buttons.{ButtonId, Texts, button}
use nookobo.AppSwitcher.Status.{Battery, query_music_status, query_battery_status}
use nookobo.AppSwitcher.Dialog.{
  dlg_x, dlg_y, dlg_w, dlg_h, draw_button_widget, draw_music_section, draw_dialog, music_texts,
}

pub data Process : Type 0 where
  luajit ld plato_bin netsurf_fb : Process

-- -STOP, -CONT and -9
pub data Signal : Type 0 where
  stop_signal continue_signal kill_signal : Signal

-- What the program asks for: `killall`, other shell commands, and a display update with the
-- arguments of `epdc_refresh`.
pub data Effect : Type 0 where
  killall : Signal → Process → Effect
  shell : List ℕ → Effect
  refresh : (left top : ℤ) → (width height mode : ℕ) → Effect

pub record Switcher : Type 0 where
  pub memory : Mem
  pub backup : Option Mem
  pub files : Files
  pub active_app : List ℕ
  pub texts : Texts
  pub queries : ℕ
  pub running : Bool
  pub last_raw_x : ℤ
  pub last_raw_y : ℤ
  pub is_contact_down : Bool
  pub was_contact_down : Bool
  pub active_pressed_btn : Option ButtonId
  pub chosen_action : Option ButtonId
  pub log : List Effect

-- What the system answers: whether the panel opens and maps, the buffer that `malloc` returns,
-- whether the touch panel opens, the battery, and the output of the music player at each question.
pub record System : Type 0 where
  pub fb_opens : Bool
  pub fb_maps : Bool
  pub room : Option Mem
  pub touch_opens : Bool
  pub battery : Battery
  pub music : ℕ → Option (List ℕ)
  pub digits : ℕ → List ℕ

-- The log has the first effect first.
abbrev pub act : Effect → Switcher → Switcher
act e s = record s { log = s.log ++ e ∷ [] }

unfoldable pub signal_active : Signal → Switcher → Switcher
signal_active sig s =
    if text_eq s.active_app (codes "koreader")
    then act (killall sig luajit) s
    else if text_eq s.active_app (codes "plato")
    then s |> act (killall sig ld) |> act (killall sig plato_bin)
    else if text_eq s.active_app (codes "netsurf")
    then act (killall sig netsurf_fb) s
    else s

unfoldable pub suspend_active_app : Switcher → Switcher
unfolding signal_active
suspend_active_app s = signal_active stop_signal s

unfoldable pub resume_active_app : Switcher → Switcher
unfolding signal_active
resume_active_app s = signal_active continue_signal s

unfoldable pub draw_widget : ButtonId → Bool → Switcher → Switcher
draw_widget id pressed s =
    let b = button id in
    record s { memory = draw_button_widget s.texts s.active_app id pressed s.memory }
    |> act (refresh (pos b.x) (pos b.y) b.w b.h 1)

-- `draw_music_section` and the refresh of its area after a music button.
unfoldable pub redraw_music : System → Switcher → Switcher
redraw_music sys s =
    let music = query_music_status (sys.music s.queries) in
    record s {
      memory = draw_music_section music s.active_app s.memory;
      texts = music_texts music;
      queries = s.queries + 1;
    }
    |> act (refresh (pos 202) (pos 800) 1000 300 1)

unfoldable pub open_dialog : System → Switcher → Switcher
open_dialog sys s =
    let music = query_music_status (sys.music s.queries) in
    record s {
      memory =
          draw_dialog s.texts music (query_battery_status sys.digits sys.battery) s.active_app
            s.memory;
      texts = music_texts music;
      queries = s.queries + 1;
    }
    |> act (refresh (pos dlg_x) (pos dlg_y) dlg_w dlg_h 1)

unfoldable pub save_backup : Option Mem → Switcher → Switcher
save_backup room s = elim room [
  | none ↦ record s { backup = none }
  | some b ↦ record s { backup = some (save_area dlg_x dlg_y dlg_w dlg_h s.memory b) }
]

unfoldable pub restore_memory : Option Mem → Mem → Mem
restore_memory none m = m
restore_memory (some b) m = restore_area dlg_x dlg_y dlg_w dlg_h b m

-- The dialog is taken down and the app goes on.
unfoldable pub restore_screen : Switcher → Switcher
restore_screen s =
    record s { memory = restore_memory s.backup s.memory }
    |> act (refresh (pos dlg_x) (pos dlg_y) dlg_w dlg_h 1)
    |> resume_active_app
