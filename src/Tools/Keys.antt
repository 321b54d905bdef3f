-- ===== src/Tools/Keys.antt =====
-- What NetSurf sees of components/system/src/send_key.c and key_inject.c, through the input thread of
-- components/netsurf/src/sdl_fb0_shim.c.
use nookobo.Prelude.{
  ℕ, zero, suc, ◌≡◌, refl, ap, sym, ◌∙◌, Bool, true, false, Option, List, [], ◌∷◌, ◌++◌, ◌==◌,
  ==_iff, if◌then◌else◌,
}
use nookobo.Prelude.Int.{ℤ}
use nookobo.Netsurf.Keyboard.{Osk}
use nookobo.Netsurf.Worker.{Worker, Input, keys, key_press, step, steps}
use nookobo.Tools.Inject.{
  Event, Action, written, slept, as_u16, press_and_release, tap, taps, times, key_of, count_of,
  key_inject, send_key,
}

-- The events as the thread reads them from the buttons.
abbrev pub keys_of : List Event → List Input
keys_of [] = []
keys_of (e ∷ es) = keys e.type e.code e.value ∷ keys_of es

abbrev pub key_inputs : List Action → List Input
key_inputs [] = []
key_inputs (written es ∷ actions) = keys_of es ++ key_inputs actions
key_inputs (slept us ∷ actions) = key_inputs actions

-- The key goes down n times.
abbrev pub presses : ℕ → ℕ → Osk → Osk
presses zero code s = s
presses (suc n) code s = presses n code (key_press code s)

module _ (sscanf : List ℕ → Option (ℕ × ℕ)) where
  one_more :
      (b : Bool) (actions : List Action) (w : Worker)
      → (b ≡ true → steps sscanf (key_inputs actions) w ≡ w)
      → steps sscanf (key_inputs (if b then [] else slept 120000 ∷ actions)) w
        ≡ steps sscanf (key_inputs actions) w
  unfolding steps
  one_more true actions w h = sym (h refl)
  one_more false actions w h = refl

  taps-presses :
      (n code : ℕ) (w : Worker)
      → steps sscanf (key_inputs (taps n code)) w ≡ record w { osk = presses n code w.osk }
  unfolding taps tap steps step
  taps-presses zero code w = refl
  taps-presses (suc n) code w =
      let v : Worker = record w { osk = key_press code w.osk } in
      one_more (n == 0) (taps n code) v
        (λ e. ap (λ m. steps sscanf (key_inputs (taps m code)) v) ((==_iff n 0).0 e))
      ∙ taps-presses n code v

-- send_key exits with code 0 when the device opens, and NetSurf's input thread then sees the key go
-- down as many times as the third argument says, twice without one and never for a negative one;
-- the releases and the reports change nothing.
pub send_key-presses :
    (atoi : List ℕ → ℤ) (sscanf : List ℕ → Option (ℕ × ℕ)) (args : List (List ℕ)) (w : Worker)
    → ((send_key atoi args true).1 ≡ 0)
      × (steps sscanf (key_inputs (send_key atoi args true).0) w ≡ record w {
        osk = presses (times (count_of atoi args)) (as_u16 (key_of atoi args)) w.osk;
      })
unfolding send_key
send_key-presses atoi sscanf args w =
    (refl, taps-presses sscanf (times (count_of atoi args)) (as_u16 (key_of atoi args)) w)

-- key_inject with one argument, when the device opens, is one press of that key for NetSurf.
pub key_inject-press :
    (atoi : List ℕ → ℤ) (sscanf : List ℕ → Option (ℕ × ℕ)) (arg : List ℕ) (w : Worker)
    → steps sscanf (key_inputs (key_inject atoi (arg ∷ []) true).0) w
      ≡ record w { osk = key_press (as_u16 (atoi arg)) w.osk }
unfolding key_inject press_and_release steps step
key_inject-press atoi sscanf arg w = refl
