-- ===== src/Watcher/Loop/Chords.antt =====
-- Which app the chords of components/system/src/btn-watcher.c leave active.
use nookobo.Prelude.{
  ℕ, ◌≤◌, ◌≡◌, ap, ◌∙◌, Bool, true, false, List, arith, ◌==◌, if◌then◌else◌, Bool-cases, inl, inr,
}
use nookobo.Prelude.Text.{codes, text_eq, eq_of_text_eq}
use nookobo.Watcher.Apps.{Files, get_active_app, set_active_app, get_active_app-set_active_app}
use nookobo.Watcher.State.{State, System, event, ev_key}
use nookobo.Watcher.Handler.{
  handle, page_key, chord, chord_koreader, chord_plato, chord_netsurf, leave_media,
}

leave_media-files : (w : State) → (leave_media w).files ≡ w.files
unfolding leave_media
leave_media-files w = ground arith

app-koreader :
    (f : Files)
    → f.current_opens ≡ true
    → get_active_app (set_active_app (codes "koreader") f) ≡ codes "koreader"
app-koreader f o =
    get_active_app-set_active_app (codes "koreader") f o (omega arith) (omega arith) (omega arith)

app-plato :
    (f : Files)
    → f.current_opens ≡ true
    → get_active_app (set_active_app (codes "plato") f) ≡ codes "plato"
app-plato f o =
    get_active_app-set_active_app (codes "plato") f o (omega arith) (omega arith) (omega arith)

app-netsurf :
    (f : Files)
    → f.current_opens ≡ true
    → get_active_app (set_active_app (codes "netsurf") f) ≡ codes "netsurf"
app-netsurf f o =
    get_active_app-set_active_app (codes "netsurf") f o (omega arith) (omega arith) (omega arith)

-- The app is chosen unless it is active, and then the files stay.
abbrev chosen : List ℕ → List ℕ → Files → Files
chosen active other f = if text_eq (get_active_app f) active then f else set_active_app other f

chord_koreader-files :
    (sys : System) (now : ℕ) (w : State)
    → (chord_koreader sys now w).files ≡ chosen (codes "koreader") (codes "koreader") w.files
unfolding chord_koreader leave_media
chord_koreader-files sys now w = ground arith

chord_plato-files :
    (sys : System) (now : ℕ) (w : State)
    → (chord_plato sys now w).files ≡ chosen (codes "plato") (codes "plato") w.files
unfolding chord_plato leave_media
chord_plato-files sys now w = ground arith

chord_netsurf-files :
    (sys : System) (now : ℕ) (w : State)
    → (chord_netsurf sys now w).files ≡ (
        if text_eq (get_active_app w.files) (codes "netsurf")
        then set_active_app (codes "koreader") w.files
        else set_active_app (codes "netsurf") w.files)
unfolding chord_netsurf leave_media
chord_netsurf-files sys now w = ground arith

chosen-app :
    (name : List ℕ) (f : Files)
    → get_active_app (set_active_app name f) ≡ name
    → get_active_app (chosen name name f) ≡ name
chosen-app name f h = elim (Bool-cases (text_eq (get_active_app f) name)) [
  | inl e ↦ rw e (eq_of_text_eq (get_active_app f) name e)
  | inr e ↦ rw e h
]

app_if :
    (b : Bool) (f g : Files) (x y : List ℕ)
    → get_active_app f ≡ x
    → get_active_app g ≡ y
    → get_active_app (if b then f else g) ≡ (if b then x else y)
app_if true f g x y p q = p
app_if false f g x y p q = q

handle-chord :
    (sys : System) (now code : ℕ) (w : State)
    → 191 ≤ code
    → code ≤ 193
    → w.keys.home_down ≡ true
    → (handle sys now (event ev_key code 1) w).files ≡ (
        if code == 191
        then chosen (codes "koreader") (codes "koreader") w.files
        else if code == 192
        then chosen (codes "plato") (codes "plato") w.files
        else if text_eq (get_active_app w.files) (codes "netsurf")
        then set_active_app (codes "koreader") w.files
        else set_active_app (codes "netsurf") w.files)
unfolding handle page_key chord
handle-chord sys now code w h1 h2 down = ground (
  arith,
  chord_koreader-files sys now w1,
  chord_plato-files sys now w1,
  chord_netsurf-files sys now w1,
)
  where
    w1 : State
    w1 = record w {
      keys = record (w.keys) { home_combo_consumed = true; home_pending_single = false };
    }

-- Home with a button makes its app the active one: Top Left KOReader, Bottom Left Plato, Top Right
-- NetSurf, or KOReader if NetSurf was active; provided that /tmp/current_app can be written.
pub chord_app :
    (sys : System) (now code : ℕ) (w : State)
    → 191 ≤ code
    → code ≤ 193
    → w.keys.home_down ≡ true
    → w.files.current_opens ≡ true
    → get_active_app (handle sys now (event ev_key code 1) w).files ≡ (
        if code == 191
        then codes "koreader"
        else if code == 192
        then codes "plato"
        else if text_eq (get_active_app w.files) (codes "netsurf")
        then codes "koreader"
        else codes "netsurf")
chord_app sys now code w h1 h2 down o =
    ap get_active_app (handle-chord sys now code w h1 h2 down)
    ∙ app_if (code == 191) _ _ _ _ (chosen-app (codes "koreader") w.files (app-koreader w.files o))
        (app_if (code == 192) _ _ _ _ (chosen-app (codes "plato") w.files (app-plato w.files o)) (
          app_if (text_eq (get_active_app w.files) (codes "netsurf")) _ _ _ _
            (app-koreader w.files o) (app-netsurf w.files o)))
