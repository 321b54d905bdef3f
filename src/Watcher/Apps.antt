-- ===== src/Watcher/Apps.antt =====
-- The files of components/system/src/btn-watcher.c and app-switcher.c that name the active app.
use nookobo.Prelude.{
  ℕ, zero, suc, ◌≤◌, ◌<◌, ◌≡◌, ◌≢◌, refl, ap, Bool, true, Option, none, some, List, [], ◌∷◌, ◌++◌,
  ◌==◌, arith, if◌then◌else◌, length,
}
use nookobo.Prelude.Text.{codes, cut_line, c_string}

-- /tmp/current_app and /tmp/active_reader: the contents of each, if it can be read, and whether
-- it can be opened for writing.
pub record Files : Type 0 where
  pub current_app : Option (List ℕ)
  pub active_reader : Option (List ℕ)
  pub current_opens : Bool
  pub reader_opens : Bool

-- fgets(buf, n + 1, f): at most `n` bytes, up to a newline, which is kept.
unfoldable pub fgets : ℕ → List ℕ → List ℕ
fgets zero s = []
fgets (suc n) [] = []
fgets (suc n) (c ∷ s) = let rest = fgets n s in if c == 10 then c ∷ [] else c ∷ rest

-- The bytes of the file that opens first.
unfoldable pub first_file : Files → List ℕ
first_file f = elim f.current_app [
  | some text ↦ text
  | none ↦ elim f.active_reader [ some text ↦ text | none ↦ [] ]
]

unfoldable pub or_koreader : List ℕ → List ℕ
or_koreader [] = codes "koreader"
or_koreader (c ∷ s) = c ∷ s

-- The buffers of the callers hold 32 bytes.
unfoldable pub get_active_app : Files → List ℕ
unfolding fgets first_file or_koreader cut_line c_string
get_active_app f = or_koreader (cut_line (c_string (fgets 31 (first_file f))))

-- fprintf(f, "%s\n", name) to both files.
unfoldable pub set_active_app : List ℕ → Files → Files
set_active_app name f = record f {
  current_app = if f.current_opens then some (name ++ 10 ∷ []) else f.current_app;
  active_reader = if f.reader_opens then some (name ++ 10 ∷ []) else f.active_reader;
}

-- A name that fits a line: no NUL, carriage return or newline in it.
abbrev pub IsLine : List ℕ → Type 0
IsLine [] = Unit
IsLine (c ∷ s) = (c ≢ 0) × (c ≢ 10) × (c ≢ 13) × IsLine s

fgets_line :
    (n : ℕ) (s : List ℕ)
    → IsLine s
    → length s ≤ n
    → cut_line (c_string (fgets n (s ++ 10 ∷ []))) ≡ s
unfolding fgets cut_line c_string
fgets_line zero [] l h = refl
fgets_line zero (c ∷ s) l h = absurd (omega arith)
fgets_line (suc n) [] l h = refl
fgets_line (suc n) (c ∷ s) l h = ground (arith, fgets_line n s l.3 (omega arith))

-- The name that `set_active_app` wrote is the one that `get_active_app` reads, if it has between
-- 1 and 31 bytes, no NUL or line break, and /tmp/current_app could be written.
pub get_active_app-set_active_app :
    (name : List ℕ) (f : Files)
    → f.current_opens ≡ true
    → IsLine name
    → 0 < length name
    → length name ≤ 31
    → get_active_app (set_active_app name f) ≡ name
unfolding get_active_app set_active_app
get_active_app-set_active_app [] f o l h1 h2 = absurd (omega arith)
get_active_app-set_active_app (c ∷ s) f o l h1 h2 =
    rw o (ap or_koreader (fgets_line 31 (c ∷ s) l h2))
