-- ===== src/Netsurf/Calls/Start.antt =====
-- The address that components/netsurf/src/sdl_fb0_shim.c finds on NetSurf's command line.
use nookobo.Prelude.{
  ℕ, ◌≤◌, ◌≡◌, ◌≢◌, refl, ap, ◌∙◌, Bool, true, false, some, List, [], ◌∷◌, ◌++◌, ◌||◌, take, length,
  if◌then◌else◌, arith,
}
use nookobo.Prelude.Text.{codes, has_prefix}
use nookobo.Webkey.Delivery.{take_all}
use nookobo.Netsurf.Calls.{arguments, first_url, url_or, init_current_url}

-- No byte is NUL.
abbrev pub NoNul : List ℕ → Type 0
NoNul [] = Unit
NoNul (c ∷ s) = (c ≢ 0) × NoNul s

abbrev pub AllNoNul : List (List ℕ) → Type 0
AllNoNul [] = Unit
AllNoNul (arg ∷ args) = NoNul arg × AllNoNul args

-- The contents of /proc/self/cmdline: each argument with a NUL behind it.
abbrev pub cmdline : List (List ℕ) → List ℕ
cmdline [] = []
cmdline (arg ∷ args) = arg ++ 0 ∷ cmdline args

-- The first argument that is an address, cut to 1023 bytes, or else the address from before.
abbrev pub start_url : List (List ℕ) → List ℕ → List ℕ
start_url [] url = url
start_url (arg ∷ args) url =
    let later = start_url args url in
    if has_prefix (codes "http://") arg || has_prefix (codes "https://") arg
    then take 1023 arg
    else later

one_argument :
    (arg rest : List ℕ)
    → NoNul arg
    → arguments (arg ++ 0 ∷ rest) ≡ (arg, (arguments rest).0 ∷ (arguments rest).1)
unfolding arguments
one_argument [] rest h = refl
one_argument (c ∷ arg) rest h = ground (arith, one_argument arg rest h.1)

all_arguments :
    (args : List (List ℕ))
    → AllNoNul args
    → (arguments (cmdline args)).0 ∷ (arguments (cmdline args)).1 ≡ args ++ [] ∷ []
unfolding arguments
all_arguments [] h = refl
all_arguments (arg ∷ args) h =
    ap (λ r. r.0 ∷ r.1) (one_argument arg (cmdline args) h.0)
    ∙ ap (λ as'. arg ∷ as') (all_arguments args h.1)

found_first :
    (args : List (List ℕ)) (url : List ℕ)
    → url_or url (first_url (args ++ [] ∷ [])) ≡ start_url args url
unfolding first_url has_prefix
found_first [] url = refl
found_first (arg ∷ args) url =
    choice (has_prefix (codes "http://") arg || has_prefix (codes "https://") arg)
      (found_first args url)
  where
    choice :
        (b : Bool)
        → url_or url (first_url (args ++ [] ∷ [])) ≡ start_url args url
        → url_or url (if b then some (take 1023 arg) else first_url (args ++ [] ∷ []))
          ≡ (if b then take 1023 arg else start_url args url)
    choice true later = refl
    choice false later = later

-- From a command line of at most 2047 bytes the shim takes the first argument that begins with
-- http:// or https://, cut to 1023 bytes; without one the address stays.
pub init_current_url_lem :
    (args : List (List ℕ)) (url : List ℕ)
    → AllNoNul args
    → length (cmdline args) ≤ 2047
    → init_current_url (some (cmdline args)) url ≡ start_url args url
unfolding init_current_url
init_current_url_lem args url h short =
    ap (λ file. url_or url (first_url ((arguments file).0 ∷ (arguments file).1)))
      (take_all 2047 (cmdline args) short)
    ∙ ap (λ found. url_or url (first_url found)) (all_arguments args h)
    ∙ found_first args url
