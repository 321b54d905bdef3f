-- ===== src/AppSwitcher/Status.antt =====
-- What components/system/src/app-switcher.c asks the system before it draws: the music player and
-- the battery.
use nookobo.Prelude.{
  ℕ, zero, suc, Bool, true, false, Option, none, some, List, [], ◌∷◌, ◌++◌, ltb, ◌==◌, take, drop,
  if◌then◌else◌, ◌≤◌, length, length-append, length-take, arith,
}
use nookobo.Prelude.Int.{ℤ, pos, negsuc}
use nookobo.Prelude.Text.{codes, text_eq, has_prefix, cut_line, c_string}

-- The line under way and the lines after it.
abbrev close_line : List ℕ × List (List ℕ) → List (List ℕ)
close_line ([], lines) = lines
close_line (c ∷ line, lines) = (c ∷ line) ∷ lines

-- `while (fgets(line, 512, f))`, where `room` more bytes and one fit the line: a line ends after a
-- newline or when 511 bytes are read.
unfoldable pub lines_from : ℕ → List ℕ → List ℕ × List (List ℕ)
lines_from room [] = ([], [])
lines_from zero (c ∷ s) = (c ∷ [], close_line (lines_from 510 s))
lines_from (suc room) (c ∷ s) =
    let ended : List ℕ × List (List ℕ) = (c ∷ [], close_line (lines_from 510 s)) in
    let more : List ℕ × List (List ℕ) =
      (let (line, lines) = lines_from room s in (c ∷ line, lines)) in
    if c == 10 then ended else more

unfoldable pub fgets_lines : List ℕ → List (List ℕ)
fgets_lines s = close_line (lines_from 510 s)

-- `status`, `track` and `shuffle` of `query_music_status`.
pub record Music : Type 0 where
  pub status : List ℕ
  pub track : List ℕ
  pub shuffle : Bool

-- strrchr(t, '/'): the text after the last slash, or `found`.
unfoldable pub after_slash : List ℕ → List ℕ → List ℕ
after_slash found [] = found
after_slash found (c ∷ t) = after_slash (if c == 47 then t else found) t

unfoldable pub music_line : List ℕ → Music → Music
music_line raw m =
    let line = cut_line (c_string raw) in
    if has_prefix (codes "STATUS:") line
    then record m { status = take 31 (drop 7 line) }
    else if has_prefix (codes "TRACK:") line
    then record m { track = take 255 (after_slash (drop 6 line) (drop 6 line)) }
    else if has_prefix (codes "SHUFFLE:1") line
    then record m { shuffle = true }
    else m

unfoldable pub music_lines : List (List ℕ) → Music → Music
music_lines [] m = m
music_lines (line ∷ lines) m = music_lines lines (music_line line m)

abbrev pub stopped : Music
stopped = record { status = codes "STOPPED"; track = []; shuffle = false }

-- The output of /opt/audiocontrol.sh, if `popen` gave one.
unfoldable pub query_music_status : Option (List ℕ) → Music
query_music_status none = stopped
query_music_status (some output) = music_lines (fgets_lines output) stopped

-- What `query_battery_status` finds: the number that the C library's `fscanf` reads from `capacity`,
-- and the contents of `status`, where the files can be read.
pub record Battery : Type 0 where
  pub capacity : Option ℤ
  pub charging : Option (List ℕ)

unfoldable pub battery_tag : List ℕ → List ℕ
battery_tag status =
    if text_eq status (codes "Charging")
    then codes "CHG"
    else if text_eq status (codes "Discharging")
    then codes "DIS"
    else if text_eq status (codes "Full")
    then codes "FULL"
    else if text_eq status (codes "Not charging")
    then codes "-"
    else codes "?"

abbrev charging_text : Option (List ℕ) → List ℕ
charging_text none = []
charging_text (some s) = cut_line (c_string (take 31 s))

-- `digits` is the C library's `%d`. A status of more than one line is cut at its first.
module _ (digits : ℕ → List ℕ) where
  abbrev level_text : ℕ → Option (List ℕ) → List ℕ
  level_text n charging =
      codes "BAT " ++ digits n ++ codes "% " ++ battery_tag (charging_text charging)

  unfoldable pub capacity_text : Option ℤ → Option (List ℕ) → List ℕ
  capacity_text none charging = codes "BAT n/a"
  capacity_text (some (negsuc n)) charging = codes "BAT n/a"
  capacity_text (some (pos n)) charging =
      if ltb 100 n then codes "BAT n/a" else level_text n charging

  unfoldable pub query_battery_status : Battery → List ℕ
  unfolding capacity_text
  query_battery_status b = capacity_text b.capacity b.charging

length-battery_tag : (status : List ℕ) → length (battery_tag status) ≤ 4
unfolding battery_tag
length-battery_tag status = ground arith

length-capacity_text :
    (digits : ℕ → List ℕ) (capacity : Option ℤ) (charging : Option (List ℕ))
    → ((n : ℕ) → n ≤ 100 → length (digits n) ≤ 3)
    → length (capacity_text digits capacity charging) ≤ 13
unfolding capacity_text
length-capacity_text digits none charging h = omega arith
length-capacity_text digits (some (negsuc n)) charging h = omega arith
length-capacity_text digits (some (pos n)) charging h =
    let tag = battery_tag (charging_text charging) in
    ground (
      arith,
      h n,
      length-append (digits n) (codes "% "),
      length-append (digits n ++ codes "% ") tag,
      length-battery_tag (charging_text charging),
    )

-- The number of characters that the dialog has room for.
pub length-query_battery_status :
    (digits : ℕ → List ℕ) (b : Battery)
    → ((n : ℕ) → n ≤ 100 → length (digits n) ≤ 3)
    → length (query_battery_status digits b) ≤ 13
unfolding query_battery_status
length-query_battery_status digits b h = length-capacity_text digits b.capacity b.charging h

music_line-status :
    (raw : List ℕ) (m : Music) → length m.status ≤ 31 → length (music_line raw m).status ≤ 31
unfolding music_line
music_line-status raw m h = ground (arith, length-take 31 (drop 7 (cut_line (c_string raw))))

music_lines-status :
    (lines : List (List ℕ)) (m : Music)
    → length m.status ≤ 31
    → length (music_lines lines m).status ≤ 31
unfolding music_lines
music_lines-status [] m h = h
music_lines-status (line ∷ lines) m h =
    music_lines-status lines (music_line line m) (music_line-status line m h)

pub query_music_status-status :
    (output : Option (List ℕ)) → length (query_music_status output).status ≤ 31
unfolding query_music_status
query_music_status-status none = omega arith
query_music_status-status (some output) =
    music_lines-status (fgets_lines output) stopped (omega arith)
