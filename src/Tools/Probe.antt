-- ===== src/Tools/Probe.antt =====
-- components/system/src/epdc_probe.c and test_epdc.c: the checks of the panel, over what the system
-- answers. The texts of the reports are left out.
use nookobo.Prelude.{
  ℕ, Bool, true, false, Option, none, some, List, [], ◌∷◌, ◌++◌, ◌&&◌, ◌||◌, ◌==◌, not, get_elem?,
  if◌then◌else◌,
}
use nookobo.Prelude.Int.{ℤ, pos, negsuc}
use nookobo.PlatoShim.Ioctl.{Rect, UpdateV1}

-- The geometry that FBIOGET_VSCREENINFO answers.
pub record Geometry : Type 0 where
  pub xres : ℕ
  pub yres : ℕ
  pub bits_per_pixel : ℕ

-- What the system answers: `none` for an ioctl that fails, -1 in `auto_orig` for a number that
-- cannot be read, whether the node opens for writing before and after, and whether the update and
-- the two waits return 0.
pub record Answers : Type 0 where
  pub opens : Bool
  pub vinfo : Option Geometry
  pub line_length : Option ℕ
  pub auto_orig : ℤ
  pub silence_opens : Bool
  pub restore_opens : Bool
  pub sends : Bool
  pub completes : Bool
  pub completes_again : Bool

pub data Check : Type 0 where
  open_check : Check
  vinfo_check : Check
  geometry_check : Check
  depth_check : Check
  finfo_check : Check
  stride_check : Check
  send_check : Check
  wait_check : Check
  round_trip_check : Check

-- A line of `report`, a number written to epdc_auto_update, the update, a wait for it, a pause.
pub data ProbeAct : Type 0 where
  reported : Check → Bool → ProbeAct
  auto_update : ℕ → ProbeAct
  update_sent : UpdateV1 → ProbeAct
  waited : ProbeAct
  slept : ℕ → ProbeAct

-- `g_fails`, and what was done.
pub record Probe : Type 0 where
  pub fails : Bool
  pub acts : List ProbeAct

unfoldable pub did : ProbeAct → Probe → Probe
did a p = record p { acts = p.acts ++ a ∷ [] }

unfoldable pub report : Check → Bool → Probe → Probe
report what ok p = did (reported what ok) (record p { fails = p.fails || not ok })

-- fprintf(af, "%d\n", value) when the node opens and the number was read
unfoldable pub write_auto : Bool → ℤ → ℕ → Probe → Probe
write_auto opens (pos orig) value p = if opens then did (auto_update value) p else p
write_auto opens (negsuc n) value p = p

unfoldable pub no_rect : Rect
no_rect = record { top = 0; left = 0; width = 0; height = 0 }

unfoldable pub whole_panel : (waveform mode marker temp flags : ℕ) → UpdateV1
whole_panel waveform mode marker temp flags = record {
  update_region = record { top = 0; left = 0; width = 1404; height = 1872 };
  waveform_mode = waveform;
  update_mode = mode;
  update_marker = marker;
  temp = temp;
  flags = flags;
  alt_buffer_data = record {
    phys_addr = 0;
    alt_width = 0;
    alt_height = 0;
    alt_update_region = no_rect;
  };
}

unfoldable pub check_stride : Option ℕ → Probe → Probe
check_stride none p = report finfo_check false p
check_stride (some line_length) p = report stride_check (line_length == 2816) p

unfoldable pub round_trip : Answers → Probe → Probe
round_trip a p =
    let sent = did (update_sent (whole_panel 2 1 1 4096 0)) p in
    let first = did waited sent in
    let second = did waited (did (slept 500000) first) in
    if not a.sends
    then report send_check false sent
    else if a.completes
    then report round_trip_check true first
    else if a.completes_again
    then report round_trip_check true second
    else report wait_check false second

unfoldable pub orig_value : ℤ → ℕ
orig_value (pos n) = n
orig_value (negsuc n) = 0

-- From the geometry on.
unfoldable pub probe_panel : Answers → Geometry → Probe → ℕ × Probe
probe_panel a v p0 =
    let p1 = report geometry_check (v.xres == 1404 && v.yres == 1872) p0 in
    let p2 = report depth_check (v.bits_per_pixel == 16) p1 in
    let p3 = check_stride a.line_length p2 in
    let p4 = write_auto a.silence_opens a.auto_orig 0 p3 in
    let p5 = round_trip a p4 in
    let p6 = write_auto a.restore_opens a.auto_orig (orig_value a.auto_orig) p5 in
    (if p6.fails then 1 else 0, p6)

unfoldable pub probe_screen : Answers → Option Geometry → Probe → ℕ × Probe
probe_screen a none p = (1, report vinfo_check false p)
probe_screen a (some v) p = probe_panel a v p

-- `main` of epdc_probe.c: the exit code and what was done.
unfoldable pub probe : Answers → ℕ × Probe
probe a =
    let p : Probe = record { fails = false; acts = [] } in
    if a.opens then probe_screen a a.vinfo (report open_check true p) else (1, p)

-- `main` of test_epdc.c: the update that is sent, whose answer is only printed, and the exit code.
-- The arguments leave out the program's name; the numbers of `atoi` are bit patterns.
module _ (atoi : List ℕ → ℕ) where
  unfoldable pub argument : Option (List ℕ) → ℕ → ℕ
  argument none otherwise = otherwise
  argument (some arg) otherwise = atoi arg

  unfoldable pub test_epdc : List (List ℕ) → Bool → Option UpdateV1 × ℕ
  test_epdc args opened =
      let waveform = argument (get_elem? args 0) 257 in
      let mode = argument (get_elem? args 1) 0 in
      let flags = argument (get_elem? args 2) 0 in
      if opened then (some (whole_panel waveform mode 0 4097 flags), 0) else (none, 1)
