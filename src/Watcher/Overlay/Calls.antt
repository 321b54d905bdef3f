-- ===== src/Watcher/Overlay/Calls.antt =====
-- Any sequence of the four overlay functions of components/system/src/btn-watcher.c.
use nookobo.Prelude.{
  ℕ, ◌≤◌, ◌≡◌, refl, sym, ◌∙◌, false, Option, List, [], ◌∷◌, length, Bool-cases, inl, inr,
}
use nookobo.Watcher.Canvas.{Mem}
use nookobo.Watcher.Canvas.Keeps.{inside}
use nookobo.Watcher.Layer.{beneath_cong}
use nookobo.Watcher.Screen.{Device, Screen, show_toast, hide_toast}
use nookobo.Watcher.Card.{status_text, show_media_card, hide_media_card}
use nookobo.Watcher.Overlay.{Layered}
use nookobo.Watcher.Overlay.Toast.{show_toast-Layered, hide_toast-Layered, hide_toast_inactive}
use nookobo.Watcher.Overlay.Card.{
  show_media_card-Layered, hide_media_card-Layered, hide_media_card_inactive, toast-hide_media_card,
}

-- A call of one of the four functions.
pub data Call : Type 0 where
  toast : List ℕ → List ℕ → ℕ → Call
  drop_toast : Call
  card : Option (List ℕ) → Call
  drop_card : Call

unfoldable pub perform : Device → Call → Screen → Screen
perform d (toast title subtitle now) s = show_toast d title subtitle now s
perform d drop_toast s = hide_toast s
perform d (card status) s = show_media_card d status s
perform d drop_card s = hide_media_card s

unfoldable pub perform_all : Device → List Call → Screen → Screen
perform_all d [] s = s
perform_all d (c ∷ cs) s = perform_all d cs (perform d c s)

-- The texts of the calls fit their boxes.
abbrev pub AllFit : List Call → Type 0
AllFit [] = Unit
AllFit (toast title subtitle now ∷ cs) = (length title ≤ 50) × (length subtitle ≤ 75) × AllFit cs
AllFit (card status ∷ cs) = (length (status_text status) ≤ 73) × AllFit cs
AllFit (drop_toast ∷ cs) = AllFit cs
AllFit (drop_card ∷ cs) = AllFit cs

-- Every sequence of calls keeps the page below the overlays.
perform_all-Layered :
    (base : Mem) (d : Device) (cs : List Call) (s : Screen)
    → AllFit cs
    → Layered base s
    → Layered base (perform_all d cs s)
unfolding perform_all perform
perform_all-Layered base d [] s f l = l
perform_all-Layered base d (toast title subtitle now ∷ cs) s f l =
    perform_all-Layered base d cs (show_toast d title subtitle now s) f.2
      (show_toast-Layered base d title subtitle now s f.0 f.1 l)
perform_all-Layered base d (drop_toast ∷ cs) s f l =
    perform_all-Layered base d cs (hide_toast s) f (hide_toast-Layered base s l)
perform_all-Layered base d (card status ∷ cs) s f l =
    perform_all-Layered base d cs (show_media_card d status s) f.1
      (show_media_card-Layered base d status s f.0 l)
perform_all-Layered base d (drop_card ∷ cs) s f l =
    perform_all-Layered base d cs (hide_media_card s) f (hide_media_card-Layered base s l)

-- With no layer up the screen shows the page.
Layered-bare :
    (base : Mem) (s : Screen)
    → Layered base s
    → s.toast_active ≡ false
    → s.card_active ≡ false
    → (i : ℕ) → s.memory i ≡ base i
Layered-bare base s l t c i = elim (Bool-cases (inside 102 60 1200 160 i)) [
  | inl hit ↦
      beneath_cong 102 60 1200 {up = false} {b = s.toast_backup} {m = s.memory} i (sym t) refl refl
      ∙ l.under_toast i hit
  | inr m1 ↦ elim (Bool-cases (inside 102 536 1200 800 i)) [
    | inl hit ↦
        beneath_cong 102 536 1200 {up = false} {b = s.card_backup} {m = s.memory} i (sym c) refl
          refl
        ∙ l.under_card i hit
    | inr m2 ↦ l.elsewhere i m1 m2
  ]
]

-- Whatever toasts and cards were shown and hidden, in whatever order, once both are hidden every
-- pixel of the panel is what it was before, if the panel is mapped, both backups were allocated, and
-- the texts fit: a title of at most 50, a subtitle of at most 75 and a status of at most 73
-- characters.
pub hide_restores :
    (base : Mem) (d : Device) (cs : List Call) (s : Screen)
    → AllFit cs
    → Layered base s
    → (i : ℕ) → (hide_media_card (hide_toast (perform_all d cs s))).memory i ≡ base i
hide_restores base d cs s f l i = Layered-bare base t'' l'' toast_off card_off i
  where
    t : Screen
    t = perform_all d cs s

    lt : Layered base t
    lt = perform_all-Layered base d cs s f l

    l' : Layered base (hide_toast t)
    l' = hide_toast-Layered base t lt

    t'' : Screen
    t'' = hide_media_card (hide_toast t)

    l'' : Layered base t''
    l'' = hide_media_card-Layered base (hide_toast t) l'

    toast_off : t''.toast_active ≡ false
    toast_off =
        toast-hide_media_card (hide_toast t)
        ∙ hide_toast_inactive t lt.toast_buffer.0 lt.shown lt.toast_buffer.1

    card_off : t''.card_active ≡ false
    card_off = hide_media_card_inactive (hide_toast t) l'.card_buffer.0 l'.shown l'.card_buffer.1
