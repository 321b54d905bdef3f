-- ===== src/Netsurf/Calls/Quits.antt =====
-- What components/netsurf/src/sdl_fb0_shim.c still holds after SDL_Quit.
use nookobo.Prelude.{
  ℕ, ◌+◌, ◌-◌, ◌≡◌, refl, ap, ◌∙◌, true, false, List, [], ◌∷◌, arith, if◌then◌else◌,
}
use nookobo.Netsurf.Calls.{
  null, Held, Shim, Opens, count, sdl_init, input_worker_opens, is_mapped, sdl_quit, open_panel,
  map_panel, set_video_mode, alloc_backup,
}

abbrev pub nothing_held : Held
nothing_held = record {
  touch_node = 0;
  keys_node = 0;
  fifo_node = 0;
  worker_touch = 0;
  worker_keys = 0;
  worker_fifo = 0;
  fb_node = 0;
  mappings = 0;
  buffers = 0;
  input_threads = 0;
  timer_threads = 0;
}

-- Before SDL_Init.
abbrev pub at_start : Shim
at_start = record {
  touch_fd = false;
  keys_fd = false;
  fifo_fd = false;
  fb_fd = false;
  fb_mem = null;
  osk_backup = false;
  input_thread_running = false;
  timer_thread_running = false;
  held = nothing_held;
}

-- The calls between SDL_Init and SDL_Quit.
pub data Use : Type 0 where
  video_mode : Opens → Use
  backup : Use

abbrev pub used : List Use → Shim → Shim
used [] s = s
used (video_mode o ∷ us) s = used us (set_video_mode o s).1
used (backup ∷ us) s = used us (alloc_backup s)

-- The mappings that a later call of SDL_SetVideoMode has left behind: those made or refused while
-- one was there.
abbrev pub left_behind : List Use → Shim → ℕ
left_behind [] s = 0
left_behind (video_mode o ∷ us) s =
    left_behind us (set_video_mode o s).1
    + (if (if s.fb_fd then true else o.fb_opens) then count (is_mapped s.fb_mem) else 0)
left_behind (backup ∷ us) s = left_behind us (alloc_backup s)

-- Each thing is held as often as the globals say, and so many mappings more; the
-- nodes of `input_worker` as often as its opens succeeded.
record Tallies (o : Opens) (s : Shim) (lost : ℕ) : Type 0 where
  touch : s.held.touch_node ≡ count s.touch_fd
  keys : s.held.keys_node ≡ count s.keys_fd
  fifo : s.held.fifo_node ≡ count s.fifo_fd
  worker_touch : s.held.worker_touch ≡ count o.worker_touch_opens
  worker_keys : s.held.worker_keys ≡ count o.worker_keys_opens
  worker_fifo : s.held.worker_fifo ≡ count o.worker_fifo_opens
  fb : s.held.fb_node ≡ count s.fb_fd
  mappings : s.held.mappings ≡ count (is_mapped s.fb_mem) + lost
  buffers : s.held.buffers ≡ count s.osk_backup
  input : s.held.input_threads ≡ count s.input_thread_running
  timer : s.held.timer_threads ≡ count s.timer_thread_running

init-Tallies : (o : Opens) → Tallies o (sdl_init o at_start) 0
unfolding sdl_init input_worker_opens
init-Tallies o = record {
  touch = omega arith;
  keys = omega arith;
  fifo = omega arith;
  worker_touch = omega arith;
  worker_keys = omega arith;
  worker_fifo = omega arith;
  fb = refl;
  mappings = omega arith;
  buffers = refl;
  input = omega arith;
  timer = omega arith;
}

backup-Tallies :
    (began : Opens) (s : Shim) (lost : ℕ)
    → Tallies began s lost
    → Tallies began (alloc_backup s) lost
unfolding alloc_backup
backup-Tallies began s lost h = ground arith

mode-Tallies :
    (began o : Opens) (s : Shim) (lost : ℕ)
    → Tallies began s lost
    → Tallies began
        (set_video_mode o s).1
        (lost + (if (if s.fb_fd then true else o.fb_opens) then count (is_mapped s.fb_mem) else 0))
unfolding set_video_mode open_panel map_panel
mode-Tallies began o s lost h = ground arith

ap_lost : {began : Opens} {s : Shim} {m n : ℕ} → m ≡ n → Tallies began s m → Tallies began s n
ap_lost {s = s} e h = record {
  touch = h.touch;
  keys = h.keys;
  fifo = h.fifo;
  worker_touch = h.worker_touch;
  worker_keys = h.worker_keys;
  worker_fifo = h.worker_fifo;
  fb = h.fb;
  mappings = h.mappings ∙ ap (λ k. count (is_mapped s.fb_mem) + k) e;
  buffers = h.buffers;
  input = h.input;
  timer = h.timer;
}

used-Tallies :
    (began : Opens) (us : List Use) (s : Shim) (lost : ℕ)
    → Tallies began s lost
    → Tallies began (used us s) (lost + left_behind us s)
used-Tallies began [] s lost h = ap_lost (omega arith) h
used-Tallies began (video_mode o ∷ us) s lost h =
    ap_lost (omega arith)
      (used-Tallies began us (set_video_mode o s).1 _ (mode-Tallies began o s lost h))
used-Tallies began (backup ∷ us) s lost h =
    used-Tallies began us (alloc_backup s) lost (backup-Tallies began s lost h)

zero_left : (m n : ℕ) → m ≡ n → m - n ≡ 0
zero_left m n h = omega arith

so_many_left : (m n k : ℕ) → m ≡ n + k → m - n ≡ k
so_many_left m n k h = omega arith

-- What SDL_Quit leaves: the nodes that `input_worker` opened, and so many mappings.
abbrev pub left_open : Opens → ℕ → Held
left_open o lost = record nothing_held {
  worker_touch = count o.worker_touch_opens;
  worker_keys = count o.worker_keys_opens;
  worker_fifo = count o.worker_fifo_opens;
  mappings = lost;
}

quit_lem :
    (o : Opens) (s : Shim) (lost : ℕ) → Tallies o s lost → (sdl_quit s).held ≡ left_open o lost
unfolding sdl_quit
quit_lem o s lost h =
    rw
      (
        zero_left _ _ h.touch,
        zero_left _ _ h.keys,
        zero_left _ _ h.fifo,
        h.worker_touch,
        h.worker_keys,
        h.worker_fifo,
        zero_left _ _ h.fb,
        so_many_left _ _ _ h.mappings,
        zero_left _ _ h.buffers,
        zero_left _ _ h.input,
        zero_left _ _ h.timer,
      )
      refl

-- After SDL_Init, any calls of SDL_SetVideoMode and any allocations of the backup, and SDL_Quit,
-- whichever calls of the system succeed, every node that the globals held is closed, the backup is
-- freed and both threads have ended. What stays open are the nodes that `input_worker` opened for
-- itself, as many of the three as its opens gave, and of the mappings of the panel those that a later
-- SDL_SetVideoMode left behind.
pub quit_releases :
    (o : Opens) (us : List Use)
    → (sdl_quit (used us (sdl_init o at_start))).held
      ≡ left_open o (left_behind us (sdl_init o at_start))
quit_releases o us =
    let began = sdl_init o at_start in
    quit_lem o (used us began) (left_behind us began)
      (ap_lost (omega arith) (used-Tallies o us began 0 (init-Tallies o)))
