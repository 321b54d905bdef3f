-- ===== src/Netsurf/CallsTests.antt =====
-- The theorems on SDL_Quit, SDL_WaitEvent and the start address of
-- components/netsurf/src/sdl_fb0_shim.c at concrete inputs.
use nookobo.Prelude.{◌≡◌, true, false, some, List, [], ◌∷◌, arith}
use nookobo.Prelude.Text.{codes, has_prefix}
use nookobo.Netsurf.Events.{SdlEvent, button, EventQueue}
use nookobo.Netsurf.Events.Fifo.{IsRing}
use nookobo.Netsurf.Calls.{
  Opens, sdl_init, input_worker_opens, sdl_quit, set_video_mode, open_panel, map_panel,
  alloc_backup, wait_event, init_current_url,
}
use nookobo.Netsurf.Calls.Quits.{left_open, at_start, Use, video_mode, backup, used, quit_releases}
use nookobo.Netsurf.Calls.Waits.{wait_event_first}
use nookobo.Netsurf.Calls.Start.{cmdline, init_current_url_lem}

abbrev most_open : Opens
most_open = record {
  touch_opens = true;
  keys_opens = true;
  keys_by_path_opens = true;
  fifo_opens = true;
  fb_opens = true;
  fb_maps = true;
  worker_touch_opens = true;
  worker_keys_opens = true;
  worker_fifo_opens = false;
}

-- The mode is set twice, with the keyboard shown in between: one mapping is left behind,
-- and the two nodes that `input_worker` could open.
abbrev twice : List Use
twice = video_mode most_open ∷ backup ∷ video_mode most_open ∷ []

quit_releases_example :
    (sdl_quit (used twice (sdl_init most_open at_start))).held ≡ left_open most_open 1
unfolding sdl_init input_worker_opens set_video_mode open_panel map_panel alloc_backup
quit_releases_example = quit_releases most_open twice

abbrev click : SdlEvent
click = button true 10 100

abbrev empty : EventQueue
empty = record { slots = λ i. button true i i; eq_head = 2047; eq_tail = 2047 }

empty-IsRing : IsRing empty
empty-IsRing = record { head_in = omega arith; tail_in = omega arith }

wait_event_first_example : wait_event ([] ∷ (click ∷ []) ∷ []) empty ≡ some (2, click)
wait_event_first_example = wait_event_first ([] ∷ (click ∷ []) ∷ []) empty empty-IsRing

init_current_url_lem_example :
    init_current_url (some (cmdline (codes "ns" ∷ codes "http://a" ∷ []))) (codes "x")
    ≡ codes "http://a"
unfolding has_prefix
init_current_url_lem_example =
    init_current_url_lem (codes "ns" ∷ codes "http://a" ∷ []) (codes "x")
      (
        ((λ e. omega arith), ((λ e. omega arith), tt)),
        (
          (
            (λ e. omega arith),
            (
              (λ e. omega arith),
              (
                (λ e. omega arith),
                (
                  (λ e. omega arith),
                  (
                    (λ e. omega arith),
                    ((λ e. omega arith), ((λ e. omega arith), ((λ e. omega arith), tt))),
                  ),
                ),
              ),
            ),
          ),
          tt,
        ),
      )
      (omega arith)
