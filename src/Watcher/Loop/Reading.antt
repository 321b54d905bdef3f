-- ===== src/Watcher/Loop/Reading.antt =====
-- What a key event of components/system/src/btn-watcher.c does in reading mode, in media mode and
-- as a chord with Home.
use nookobo.Prelude.{ℕ, ◌≤◌, ◌≡◌, ◌&&◌, ◌||◌, not, List, [], ◌∷◌, arith, leb, ◌==◌, if◌then◌else◌}
use nookobo.Watcher.State.{
  State, System, InputEvent, event, Effect, emit, inject, wait, shell, ev_key,
}
use nookobo.Watcher.Handler.{
  handle, page_key, chord, media_key, chord_koreader, chord_plato, chord_netsurf, chord_media,
}

-- The page key events that reach the virtual device, the newest first.
unfoldable pub pages : List Effect → List InputEvent
pages [] = []
pages (emit e ∷ log) =
    let rest = pages log in
    if (e.type == 1) && leb 191 e.code && leb e.code 194 then e ∷ rest else rest
pages (inject es ∷ log) = pages log
pages (wait n ∷ log) = pages log
pages (shell c ∷ log) = pages log

chord-pages :
    (sys : System) (now code : ℕ) (w : State) → pages (chord sys now code w).log ≡ pages w.log
unfolding chord chord_koreader chord_plato chord_netsurf chord_media pages
chord-pages sys now code w = ground arith

media_key-pages :
    (sys : System) (code : ℕ) (w : State) → pages (media_key sys code w).log ≡ pages w.log
unfolding media_key pages
media_key-pages sys code w = ground arith

-- A page button is passed on to the reader exactly when it is pressed with Home up outside media
-- mode, or released with no chord in progress outside media mode; an autorepeat never is.
pub page_key_forwarded :
    (sys : System) (now code value : ℕ) (w : State)
    → 191 ≤ code
    → code ≤ 194
    → pages (handle sys now (event ev_key code value) w).log ≡ (
        if (value == 1 && not w.keys.home_down && not w.keys.media_mode)
          || (value == 0 && not w.keys.home_combo_consumed && not w.keys.media_mode)
        then event ev_key code value ∷ pages w.log
        else pages w.log)
unfolding handle page_key pages
page_key_forwarded sys now code value w h1 h2 =
    ground (arith, chord-pages sys now code w, media_key-pages sys code w)
