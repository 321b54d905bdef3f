-- ===== src/Tools/Fifo.antt =====
-- components/system/src/fifo_write.c: a command for NetSurf, given on the command line.
use nookobo.Prelude.{
  ℕ, ◌≤◌, ◌≡◌, ap, Bool, true, Option, none, some, List, [], ◌∷◌, ◌++◌, take, length, length-append,
  if◌then◌else◌, arith,
}
use nookobo.Netsurf.Keyboard.Commands.{handle_fifo_command}
use nookobo.Netsurf.Worker.{Worker, fifo, step}
use nookobo.Webkey.Delivery.{IsClean, take_all, fifo_line}

-- The bytes given to `write`, if it gets there, and the exit code: the arguments less the program's
-- name, whether the FIFO opened and whether the write succeeded.
unfoldable pub fifo_write : List (List ℕ) → Bool → Bool → Option (List ℕ) × ℕ
fifo_write [] opened succeeds = (none, 1)
fifo_write (arg ∷ args) opened succeeds =
    let buf = take 255 (arg ++ 10 ∷ []) in
    if opened then (some buf, if succeeds then 0 else 1) else (none, 1)

-- A command of 1 to 254 bytes without NUL and line breaks is written as one line with exit code 0
-- when the FIFO opens and the write succeeds, and NetSurf, when it reads that line by itself,
-- carries out exactly that command.
pub fifo_write-command :
    (sscanf : List ℕ → Option (ℕ × ℕ)) (c : ℕ) (s : List ℕ) (args : List (List ℕ)) (w : Worker)
    → IsClean (c ∷ s)
    → length s ≤ 253
    → (fifo_write ((c ∷ s) ∷ args) true true ≡ (some ((c ∷ s) ++ 10 ∷ []), 0))
      × (step sscanf (fifo ((c ∷ s) ++ 10 ∷ [])) w
          ≡ record w { osk = handle_fifo_command sscanf (c ∷ s) w.osk })
unfolding fifo_write
fifo_write-command sscanf c s args w h short = (
  ap (λ buf. (some buf, 0))
      (take_all 255 ((c ∷ s) ++ 10 ∷ []) (omega (arith, length-append s (10 ∷ [])))),
  fifo_line sscanf c s w h short,
)
