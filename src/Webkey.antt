-- ===== src/Webkey.antt =====
-- components/netsurf/src/nook-webkey.c, the web server that turns a phone into a keyboard: it
-- decodes the request's path and writes one command to the FIFO of the SDL library.
pub mod Decode
pub mod Delivery
mod Tests
use nookobo.Prelude.{
  ℕ, zero, suc, ◌+◌, ◌-◌, ◌*◌, Bool, true, false, Option, none, some, List, [], ◌∷◌, ◌++◌, ◌&&◌,
  ◌||◌, leb, ◌==◌, take, drop, if◌then◌else◌,
}
use nookobo.Prelude.Text.{codes, text_eq, has_prefix, c_string}

unfoldable pub isxdigit : ℕ → Bool
isxdigit c = (leb 48 c && leb c 57) || (leb 65 c && leb c 70) || (leb 97 c && leb c 102)

-- strtol of one hexadecimal digit
unfoldable pub hex_value : ℕ → ℕ
hex_value c = if leb c 57 then c - 48 else if leb c 70 then c - 55 else c - 87

-- The bytes written to `dst`, with room for `n` before the NUL.
unfoldable pub url_decode : ℕ → List ℕ → List ℕ
url_decode zero s = []
url_decode (suc n) [] = []
url_decode (suc n) (c ∷ []) = (if c == 43 then 32 else c) ∷ []
url_decode (suc n) (c ∷ d ∷ []) = (if c == 43 then 32 else c) ∷ url_decode n (d ∷ [])
url_decode (suc n) (c ∷ d ∷ e ∷ s) =
    let one = url_decode n (d ∷ e ∷ s) in
    let three = url_decode n s in
    if (c == 37) && isxdigit d && isxdigit e
    then (hex_value d * 16 + hex_value e) ∷ three
    else (if c == 43 then 32 else c) ∷ one

pub data Reply : Type 0 where
  html_page : Reply
  ok : Reply
  not_found : Reply

-- What a request leads to: the bytes written to the FIFO, if any, and the reply.
abbrev pub Answer : Type 0
Answer = Option (List ℕ) × Reply

-- snprintf(cmd, size, "<prefix>%s\n", decoded): `size` leaves room for `room` bytes.
unfoldable pub command : ℕ → List ℕ → List ℕ → List ℕ
command room prefix decoded = take room (prefix ++ c_string decoded ++ 10 ∷ [])

-- The path that the C library's `sscanf` finds in the request, and the command that its `strstr`,
-- `atoi` and `snprintf` make of a click's path, are parameters.
module _ (request_path : List ℕ → List ℕ) (click_command : List ℕ → List ℕ) where
  unfoldable pub answer : List ℕ → Answer
  answer path =
      if text_eq path (codes "/") || text_eq path (codes "/index.html")
      then (none, html_page)
      else if has_prefix (codes "/cmd?k=") path
      then (some (command 127 (codes "KEY:") (url_decode 63 (drop 7 path))), ok)
      else if has_prefix (codes "/key?c=") path
      then (some (command 63 (codes "TEXT:") (url_decode 31 (drop 7 path))), ok)
      else if has_prefix (codes "/text?s=") path
      then (some (command 599 (codes "TEXT:") (url_decode 511 (drop 8 path))), ok)
      else if has_prefix (codes "/url?u=") path
      then (some (command 599 (codes "URL:") (url_decode 511 (drop 7 path))), ok)
      else if has_prefix (codes "/click?") path
      then (some (click_command path), ok)
      else (none, not_found)

  -- The bytes that `read` returns, at most 2047, or none when it fails or meets the end.
  unfoldable pub handle_client : Option (List ℕ) → Option Answer
  handle_client none = none
  handle_client (some []) = none
  handle_client (some (c ∷ s)) = some (answer (request_path (c_string (take 2047 (c ∷ s)))))
