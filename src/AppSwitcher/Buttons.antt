-- ===== src/AppSwitcher/Buttons.antt =====
-- The buttons of components/system/src/app-switcher.c and which one a touch means.
pub mod Hits
use nookobo.Prelude.{
  ℕ, ◌+◌, ◌-◌, Bool, Option, none, some, List, [], ◌∷◌, ◌++◌, ◌&&◌, leb, if◌then◌else◌,
}
use nookobo.Prelude.Text.{codes, text_eq}

pub data ButtonId : Type 0 where
  btn_koreader btn_plato btn_netsurf btn_music_prev btn_music_play btn_music_next : ButtonId
  btn_music_shuffle btn_frontlight btn_close : ButtonId

-- `struct Button`, less `text`, which changes for two of them, and `is_primary`, which nothing reads.
pub record Button : Type 0 where
  pub id : ButtonId
  pub x : ℕ
  pub y : ℕ
  pub w : ℕ
  pub h : ℕ
  pub subtext : List ℕ

abbrev at : ButtonId → (x y w h : ℕ) → List ℕ → Button
at id x y w h subtext = record { id = id; x = x; y = y; w = w; h = h; subtext = subtext }

unfoldable pub button : ButtonId → Button
button btn_koreader = at btn_koreader 202 360 1000 120 (codes "PDF, EPUB, MOBI Document Viewer")
button btn_plato = at btn_plato 202 500 1000 120 (codes "Fast Touch-Driven Rust Reader")
button btn_netsurf = at btn_netsurf 202 640 1000 120 (codes "Lightweight Web Browsing")
button btn_music_prev = at btn_music_prev 202 980 230 100 []
button btn_music_play = at btn_music_play 452 980 270 100 []
button btn_music_next = at btn_music_next 742 980 230 100 []
button btn_music_shuffle = at btn_music_shuffle 992 980 210 100 []
button btn_frontlight = at btn_frontlight 202 1160 1000 110 (codes "Switch Frontlight On / Off")
button btn_close = at btn_close 202 1290 1000 110 (codes "Resume current book or page")

-- The order of `buttons[]`.
unfoldable pub button_ids : List ButtonId
button_ids =
    btn_koreader ∷ btn_plato ∷ btn_netsurf ∷ btn_music_prev ∷ btn_music_play ∷ btn_music_next
    ∷ btn_music_shuffle ∷ btn_frontlight ∷ btn_close ∷ []

-- The texts that `draw_music_section` writes to the table.
pub record Texts : Type 0 where
  pub play_text : List ℕ
  pub shuffle_text : List ℕ

unfoldable pub initial_texts : Texts
initial_texts = record { play_text = codes "Play / Pause"; shuffle_text = codes "Shuffle" }

unfoldable pub button_text : Texts → ButtonId → List ℕ
button_text t btn_koreader = codes "KOReader"
button_text t btn_plato = codes "Plato Reader"
button_text t btn_netsurf = codes "NetSurf Web Browser"
button_text t btn_music_prev = codes "|<< Prev"
button_text t btn_music_play = t.play_text
button_text t btn_music_next = codes "Next >>|"
button_text t btn_music_shuffle = t.shuffle_text
button_text t btn_frontlight = codes "Toggle Frontlight (Cool/Warm)"
button_text t btn_close = codes "Close / Keep Reading"

-- The app that a button stands for; the empty text where it stands for none.
abbrev pub app_of : ButtonId → List ℕ
app_of btn_koreader = codes "koreader"
app_of btn_plato = codes "plato"
app_of btn_netsurf = codes "netsurf"
app_of _ = []

abbrev is_app : ButtonId → Bool
is_app id = elim (app_of id) [ [] ↦ Bool.false | c ∷ s ↦ Bool.true ]

-- The label of `draw_button_widget`; no text is as long as its buffer.
unfoldable pub button_label : Texts → List ℕ → ButtonId → List ℕ
button_label t active id =
    if is_app id && text_eq active (app_of id)
    then button_text t id ++ codes "  [Running]"
    else button_text t id

-- The touch is on the button or at most PAD_X = 35 and PAD_Y = 15 away from it.
unfoldable pub padded : ℕ → ℕ → Button → Bool
padded x y b =
    leb (b.x - 35) x && (leb x (b.x + b.w + 35) && (leb (b.y - 15) y && leb y (b.y + b.h + 15)))

unfoldable pub first_padded : ℕ → ℕ → List ButtonId → Option ButtonId
first_padded x y [] = none
first_padded x y (id ∷ ids) =
    let rest = first_padded x y ids in if padded x y (button id) then some id else rest

-- The loop over the buttons, which stops at the first one that fits.
unfoldable pub button_at : ℕ → ℕ → Option ButtonId
button_at x y = first_padded x y button_ids
