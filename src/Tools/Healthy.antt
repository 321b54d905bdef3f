-- ===== src/Tools/Healthy.antt =====
-- What the exit code of components/system/src/epdc_probe.c says, and what it leaves behind.
use nookobo.Prelude.{
  ℕ, ◌≡◌, refl, ap, ap₂, ◌∙◌, Bool, true, false, Option, none, some, List, [], ◌∷◌, ◌++◌, ◌&&◌,
  ◌||◌, ◌==◌, not, if◌then◌else◌, arith,
}
use nookobo.Prelude.Int.{ℤ, pos, negsuc}
use nookobo.Tools.Probe.{
  Geometry, Answers, Check, ProbeAct, reported, auto_update, update_sent, waited, slept, Probe, did,
  report, write_auto, check_stride, round_trip, orig_value, probe_panel, probe_screen, probe,
}

abbrev pub good_geometry : Option Geometry → Bool
good_geometry none = false
good_geometry (some v) = (v.xres == 1404 && v.yres == 1872) && v.bits_per_pixel == 16

abbrev pub good_stride : Option ℕ → Bool
good_stride none = false
good_stride (some n) = n == 2816

-- What a healthy panel answers.
abbrev pub healthy : Answers → Bool
healthy a =
    a.opens
    && (good_geometry a.vinfo
        && (good_stride a.line_length && (a.sends && (a.completes || a.completes_again))))

stride_fails :
    (o : Option ℕ) (p : Probe) → (check_stride o p).fails ≡ p.fails || not (good_stride o)
unfolding check_stride report did
stride_fails none p = refl
stride_fails (some n) p = refl

write_auto_fails :
    (opens : Bool) (orig : ℤ) (value : ℕ) (p : Probe)
    → (write_auto opens orig value p).fails ≡ p.fails
unfolding write_auto did
write_auto_fails true (pos n) value p = refl
write_auto_fails false (pos n) value p = refl
write_auto_fails opens (negsuc n) value p = refl

round_trip_fails :
    (a : Answers) (p : Probe)
    → (round_trip a p).fails ≡ p.fails || not (a.sends && (a.completes || a.completes_again))
unfolding round_trip report did
round_trip_fails a p = ground arith

exit_code : Bool → ℕ
exit_code failed = if failed then 1 else 0

verdict :
    (g d s r : Bool)
    → exit_code ((((false || not true || not g) || not d) || not s) || not r)
      ≡ (if (g && d) && (s && r) then 0 else 1)
unfolding exit_code
verdict g d s r = ground arith

panel_exit :
    (a : Answers) (v : Geometry) (p : Probe)
    → p.fails ≡ false || not true
    → (probe_panel a v p).0 ≡ (
        if good_geometry (some v)
          && (good_stride a.line_length && (a.sends && (a.completes || a.completes_again)))
        then 0
        else 1)
unfolding probe_panel report did exit_code
panel_exit a v p none_yet =
    let g = v.xres == 1404 && v.yres == 1872 in
    let d = v.bits_per_pixel == 16 in
    let s = good_stride a.line_length in
    let r = a.sends && (a.completes || a.completes_again) in
    ap exit_code (
      write_auto_fails a.restore_opens a.auto_orig _ _
      ∙ round_trip_fails a _
      ∙ ap (λ b. b || not r)
          (write_auto_fails a.silence_opens a.auto_orig 0 _
            ∙ stride_fails a.line_length _
            ∙ ap (λ b. ((b || not g) || not d) || not s) none_yet))
    ∙ verdict g d s r

screen_exit :
    (a : Answers) (o : Option Geometry) (p : Probe)
    → p.fails ≡ false || not true
    → (probe_screen a o p).0 ≡ (
        if good_geometry o
          && (good_stride a.line_length && (a.sends && (a.completes || a.completes_again)))
        then 0
        else 1)
unfolding probe_screen
screen_exit a none p none_yet = refl
screen_exit a (some v) p none_yet = panel_exit a v p none_yet

opened_exit :
    (b c : Bool) (q : ℕ × Probe) (p : Probe)
    → q.0 ≡ (if c then 0 else 1)
    → (if◌then◌else◌ {A = ℕ × Probe} b q (1, p)).0 ≡ (if b && c then 0 else 1)
opened_exit true c q p h = h
opened_exit false c q p h = refl

-- epdc_probe exits with 0 exactly when the device opens, its geometry, depth and stride are the
-- expected ones, the update is accepted and one of the two waits sees it done; otherwise with 1.
pub probe-healthy : (a : Answers) → (probe a).0 ≡ (if healthy a then 0 else 1)
unfolding probe report did
probe-healthy a = opened_exit a.opens _ _ _ (screen_exit a a.vinfo _ refl)

-- The number in epdc_auto_update after some acts.
abbrev pub auto_after : List ProbeAct → ℕ → ℕ
auto_after [] held = held
auto_after (auto_update n ∷ acts) held = auto_after acts n
auto_after (reported what ok ∷ acts) held = auto_after acts held
auto_after (update_sent u ∷ acts) held = auto_after acts held
auto_after (waited ∷ acts) held = auto_after acts held
auto_after (slept us ∷ acts) held = auto_after acts held

auto_after-append :
    (xs ys : List ProbeAct) (held : ℕ)
    → auto_after (xs ++ ys) held ≡ auto_after ys (auto_after xs held)
auto_after-append [] ys held = refl
auto_after-append (auto_update n ∷ xs) ys held = auto_after-append xs ys n
auto_after-append (reported what ok ∷ xs) ys held = auto_after-append xs ys held
auto_after-append (update_sent u ∷ xs) ys held = auto_after-append xs ys held
auto_after-append (waited ∷ xs) ys held = auto_after-append xs ys held
auto_after-append (slept us ∷ xs) ys held = auto_after-append xs ys held

did_auto :
    (act : ProbeAct) (p : Probe) (held : ℕ)
    → auto_after (did act p).acts held ≡ auto_after (act ∷ []) (auto_after p.acts held)
unfolding did
did_auto act p held = auto_after-append p.acts (act ∷ []) held

report_auto :
    (what : Check) (ok : Bool) (p : Probe) (held : ℕ)
    → auto_after (report what ok p).acts held ≡ auto_after p.acts held
unfolding report
report_auto what ok p held = did_auto (reported what ok) _ held

stride_auto :
    (o : Option ℕ) (p : Probe) (held : ℕ)
    → auto_after (check_stride o p).acts held ≡ auto_after p.acts held
unfolding check_stride
stride_auto none p held = report_auto _ _ p held
stride_auto (some n) p held = report_auto _ _ p held

if_auto :
    (b : Bool) (p q : Probe) (held v : ℕ)
    → auto_after p.acts held ≡ v
    → auto_after q.acts held ≡ v
    → auto_after (if b then p else q).acts held ≡ v
if_auto true p q held v h k = h
if_auto false p q held v h k = k

round_trip_auto :
    (a : Answers) (p : Probe) (held : ℕ)
    → auto_after (round_trip a p).acts held ≡ auto_after p.acts held
unfolding round_trip
round_trip_auto a p held =
    let sent = did_auto (update_sent _) p held in
    let first = did_auto waited _ held ∙ sent in
    let second = did_auto waited _ held ∙ did_auto (slept 500000) _ held ∙ first in
    if_auto (not a.sends) _ _ held _ (report_auto _ _ _ held ∙ sent) (
      if_auto a.completes _ _ held _ (report_auto _ _ _ held ∙ first) (
        if_auto a.completes_again _ _ held _ (report_auto _ _ _ held ∙ second)
          (report_auto _ _ _ held ∙ second)))

write_auto_lem :
    (opens : Bool) (orig : ℤ) (n value : ℕ) (p : Probe) (held : ℕ)
    → orig ≡ pos n
    → auto_after (write_auto opens orig value p).acts held
      ≡ (if opens then value else auto_after p.acts held)
unfolding write_auto
write_auto_lem opens orig n value p held e =
    ap (λ o. auto_after (write_auto opens o value p).acts held) e ∙ written opens
  where
    written :
        (b : Bool)
        → auto_after (if b then did (auto_update value) p else p).acts held
          ≡ (if b then value else auto_after p.acts held)
    written true = did_auto (auto_update value) p held
    written false = refl

silenced :
    (b c : Bool) (n v : ℕ)
    → b && not c ≡ false
    → v ≡ n
    → (if c then n else (if b then 0 else v)) ≡ n
silenced b c n v h e = ground arith

panel_auto :
    (a : Answers) (v : Geometry) (p : Probe) (n : ℕ)
    → a.auto_orig ≡ pos n
    → a.silence_opens && not a.restore_opens ≡ false
    → auto_after p.acts n ≡ n
    → auto_after (probe_panel a v p).1.acts n ≡ n
unfolding probe_panel orig_value
panel_auto a v p n orig opens start =
    write_auto_lem a.restore_opens a.auto_orig n _ _ n orig
    ∙ ap₂ (λ t u. if a.restore_opens then t else u) (ap orig_value orig)
        (round_trip_auto a _ n ∙ write_auto_lem a.silence_opens a.auto_orig n 0 _ n orig)
    ∙ silenced a.silence_opens a.restore_opens n _ opens
        (stride_auto a.line_length _ n ∙ report_auto _ _ _ n ∙ report_auto _ _ p n ∙ start)

screen_auto :
    (a : Answers) (o : Option Geometry) (p : Probe) (n : ℕ)
    → a.auto_orig ≡ pos n
    → a.silence_opens && not a.restore_opens ≡ false
    → auto_after p.acts n ≡ n
    → auto_after (probe_screen a o p).1.acts n ≡ n
unfolding probe_screen
screen_auto a none p n orig opens start = report_auto _ _ p n ∙ start
screen_auto a (some v) p n orig opens start = panel_auto a v p n orig opens start

opened_auto :
    (b : Bool) (q : ℕ × Probe) (p : Probe) (n : ℕ)
    → auto_after q.1.acts n ≡ n
    → auto_after p.acts n ≡ n
    → auto_after (if◌then◌else◌ {A = ℕ × Probe} b q (1, p)).1.acts n ≡ n
opened_auto true q p n h k = h
opened_auto false q p n h k = k

-- When epdc_auto_update holds the number that the probe read from it, it holds that number again
-- when the probe is done, whatever failed in between, unless it opens for writing at the beginning
-- but not at the end.
pub probe_gives_back :
    (a : Answers) (n : ℕ)
    → a.auto_orig ≡ pos n
    → a.silence_opens && not a.restore_opens ≡ false
    → auto_after (probe a).1.acts n ≡ n
unfolding probe
probe_gives_back a n orig opens =
    opened_auto a.opens _ _ n (screen_auto a a.vinfo _ n orig opens (report_auto _ _ _ n)) refl
