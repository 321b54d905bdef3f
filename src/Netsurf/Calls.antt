-- ===== src/Netsurf/Calls.antt =====
-- SDL_Init, SDL_Quit, SDL_SetVideoMode and the calls on events of
-- components/netsurf/src/sdl_fb0_shim.c, and the address that NetSurf is started with.
pub mod Quits
pub mod Waits
pub mod Start
use nookobo.Prelude.{
  ℕ, zero, suc, ◌+◌, ◌-◌, ◌*◌, ltb, Bool, true, false, Option, none, some, List, [], ◌∷◌, ◌++◌,
  ◌||◌, not, ◌==◌, take, if◌then◌else◌,
}
use nookobo.Prelude.Int.{pos}
use nookobo.Prelude.Text.{codes, has_prefix}
use nookobo.Netsurf.Events.{SdlEvent, EventQueue, queue_event, dequeue_event}
use nookobo.Watcher.Canvas.{Mem, paint_all}
use nookobo.Netsurf.Keyboard.{overlay_text}
use nookobo.Netsurf.Panel.{url_bar_pixels}
use nookobo.Netsurf.Update.{Display, UpdateEffect, update_rect}

-- `fb_mem`: NULL, MAP_FAILED or a mapping.
pub data Mapping : Type 0 where
  null : Mapping
  map_failed : Mapping
  mapped : Mapping

-- How often each thing is open for the process: the nodes, mappings of the panel, the allocated
-- backup and the threads. `input_worker` opens three nodes of its own, whose descriptors are locals.
pub record Held : Type 0 where
  pub touch_node : ℕ
  pub keys_node : ℕ
  pub fifo_node : ℕ
  pub worker_touch : ℕ
  pub worker_keys : ℕ
  pub worker_fifo : ℕ
  pub fb_node : ℕ
  pub mappings : ℕ
  pub buffers : ℕ
  pub input_threads : ℕ
  pub timer_threads : ℕ

-- The globals; a descriptor is open or -1. `osk_backup` says whether it is not NULL.
pub record Shim : Type 0 where
  pub touch_fd : Bool
  pub keys_fd : Bool
  pub fifo_fd : Bool
  pub fb_fd : Bool
  pub fb_mem : Mapping
  pub osk_backup : Bool
  pub input_thread_running : Bool
  pub timer_thread_running : Bool
  pub held : Held

-- Which calls succeed: the opens of the touch screen, the buttons by either name, the FIFO and the
-- panel, the mmap, and the opens at the start of `input_worker`.
pub record Opens : Type 0 where
  pub touch_opens : Bool
  pub keys_opens : Bool
  pub keys_by_path_opens : Bool
  pub fifo_opens : Bool
  pub fb_opens : Bool
  pub fb_maps : Bool
  pub worker_touch_opens : Bool
  pub worker_keys_opens : Bool
  pub worker_fifo_opens : Bool

abbrev pub count : Bool → ℕ
count b = if b then 1 else 0

-- The opens of `input_worker`, which closes nothing when it returns.
unfoldable pub input_worker_opens : Opens → Held → Held
input_worker_opens o h = record h {
  worker_touch = h.worker_touch + count o.worker_touch_opens;
  worker_keys = h.worker_keys + count o.worker_keys_opens;
  worker_fifo = h.worker_fifo + count o.worker_fifo_opens;
}

-- SDL_Init, with the start of the thread it creates.
unfoldable pub sdl_init : Opens → Shim → Shim
sdl_init o s =
    let keys = o.keys_opens || o.keys_by_path_opens in
    let h = s.held in
    record s {
      touch_fd = o.touch_opens;
      keys_fd = keys;
      fifo_fd = o.fifo_opens;
      input_thread_running = true;
      timer_thread_running = true;
      held = input_worker_opens o (record h {
        touch_node = h.touch_node + count o.touch_opens;
        keys_node = h.keys_node + count keys;
        fifo_node = h.fifo_node + count o.fifo_opens;
        input_threads = h.input_threads + 1;
        timer_threads = h.timer_threads + 1;
      });
    }

-- `fb_mem && fb_mem != MAP_FAILED`
abbrev pub is_mapped : Mapping → Bool
is_mapped null = false
is_mapped map_failed = false
is_mapped mapped = true

unfoldable pub unmap : Mapping → Mapping
unmap null = null
unmap map_failed = map_failed
unmap mapped = null

-- SDL_Quit
unfoldable pub sdl_quit : Shim → Shim
sdl_quit s =
    let h = s.held in
    record {
      touch_fd = false;
      keys_fd = false;
      fifo_fd = false;
      fb_fd = false;
      fb_mem = unmap s.fb_mem;
      osk_backup = false;
      input_thread_running = false;
      timer_thread_running = false;
      held = record {
        touch_node = h.touch_node - count s.touch_fd;
        keys_node = h.keys_node - count s.keys_fd;
        fifo_node = h.fifo_node - count s.fifo_fd;
        worker_touch = h.worker_touch;
        worker_keys = h.worker_keys;
        worker_fifo = h.worker_fifo;
        fb_node = h.fb_node - count s.fb_fd;
        mappings = h.mappings - count (is_mapped s.fb_mem);
        buffers = h.buffers - count s.osk_backup;
        input_threads = h.input_threads - count s.input_thread_running;
        timer_threads = h.timer_threads - count s.timer_thread_running;
      };
    }

-- The open of the panel, unless it is open.
unfoldable pub open_panel : Opens → Shim → Shim
open_panel o s =
    if s.fb_fd
    then s
    else if o.fb_opens
    then record s { fb_fd = true; held = record (s.held) { fb_node = s.held.fb_node + 1 } }
    else s

unfoldable pub map_panel : Opens → Shim → Bool × Shim
map_panel o s =
    if o.fb_maps
    then (
      true,
      record s { fb_mem = mapped; held = record (s.held) { mappings = s.held.mappings + 1 } },
    )
    else (
      false,
      record s {
        fb_mem = map_failed;
        fb_fd = false;
        held = record (s.held) { fb_node = s.held.fb_node - 1 };
      },
    )

-- SDL_SetVideoMode up to the set-up of the surface, which has fixed values; whether it goes on to
-- paint the panel white, read the address, draw the URL bar and refresh, and return a surface.
unfoldable pub set_video_mode : Opens → Shim → Bool × Shim
set_video_mode o s = let t = open_panel o s in if t.fb_fd then map_panel o t else (false, t)

-- `main_format` and `main_surface`; the other members are 0, and the pixels are the panel's memory.
pub record Surface : Type 0 where
  pub bits_per_pixel : ℕ
  pub bytes_per_pixel : ℕ
  pub red : ℕ × ℕ × ℕ
  pub green : ℕ × ℕ × ℕ
  pub blue : ℕ × ℕ × ℕ
  pub flags : ℕ
  pub w : ℕ
  pub h : ℕ
  pub pitch : ℕ
  pub clip : ℕ × ℕ × ℕ × ℕ
  pub refcount : ℕ

-- A colour's loss, shift and mask: RGB565.
unfoldable pub main_surface : ℕ → Surface
main_surface flags = record {
  bits_per_pixel = 16;
  bytes_per_pixel = 2;
  red = (3, 11, 63488);
  green = (2, 5, 2016);
  blue = (3, 0, 31);
  flags = flags;
  w = 1404;
  h = 1872;
  pitch = 2816;
  clip = (0, 0, 1404, 1872);
  refcount = 1;
}

-- What SDL_SetVideoMode paints: white, and the URL bar.
unfoldable pub first_screen : List ℕ → Mem → Mem
first_screen url m =
    let white : Mem = λ i. if ltb i (1408 * 1872) then 65535 else m i in
    paint_all (url_bar_pixels (overlay_text url)) white

-- `malloc` of the backup by show_osk, when it succeeds.
unfoldable pub alloc_backup : Shim → Shim
alloc_backup s =
    if s.osk_backup
    then s
    else record s { osk_backup = true; held = record (s.held) { buffers = s.held.buffers + 1 } }

-- SDL_Flip
unfoldable pub sdl_flip : Display → List UpdateEffect × Display
sdl_flip d = update_rect (pos 0) (pos 0) 0 0 d

-- SDL_PollEvent with room for an event: the answer, the event and the queue.
unfoldable pub polled :
    EventQueue → Option (SdlEvent × EventQueue) → ℕ × Option SdlEvent × EventQueue
polled q none = (0, none, q)
polled q (some (e, rest)) = (1, some e, rest)

unfoldable pub poll_event : EventQueue → ℕ × Option SdlEvent × EventQueue
poll_event q = polled q (dequeue_event q)

-- SDL_PushEvent: whether the answer is 0 (it is even when the queue is full) or -1, and the queue.
unfoldable pub push_event : Option SdlEvent → EventQueue → Bool × EventQueue
push_event none q = (false, q)
push_event (some e) q = (true, queue_event e q)

-- The other threads queue events during a pause.
abbrev pub queue_all : List SdlEvent → EventQueue → EventQueue
queue_all [] q = q
queue_all (e ∷ es) q = queue_all es (queue_event e q)

abbrev pub at_once : Option (SdlEvent × EventQueue) → Option (ℕ × SdlEvent)
at_once none = none
at_once (some (e, rest)) = some (0, e)

abbrev pub a_pause_later : Option (ℕ × SdlEvent) → Option (ℕ × SdlEvent)
a_pause_later none = none
a_pause_later (some (n, e)) = some (suc n, e)

abbrev pub or_else : Option (ℕ × SdlEvent) → Option (ℕ × SdlEvent) → Option (ℕ × SdlEvent)
or_else none later = later
or_else (some r) later = some r

-- The loop of SDL_WaitEvent over what arrives during each pause of 5 ms; `none` while it still
-- waits. The number is of pauses.
unfoldable pub wait_event : List (List SdlEvent) → EventQueue → Option (ℕ × SdlEvent)
wait_event [] q = at_once (dequeue_event q)
wait_event (arrivals ∷ later) q =
    or_else (at_once (dequeue_event q)) (a_pause_later (wait_event later (queue_all arrivals q)))

-- The bytes of /proc/self/cmdline as arguments, each ended by a NUL.
unfoldable pub arguments : List ℕ → List ℕ × List (List ℕ)
arguments [] = ([], [])
arguments (c ∷ s) =
    let (first, rest) = arguments s in if c == 0 then ([], first ∷ rest) else (c ∷ first, rest)

unfoldable pub first_url : List (List ℕ) → Option (List ℕ)
first_url [] = none
first_url (arg ∷ args) =
    let later = first_url args in
    if has_prefix (codes "http://") arg || has_prefix (codes "https://") arg
    then some (take 1023 arg)
    else later

abbrev pub url_or : List ℕ → Option (List ℕ) → List ℕ
url_or url none = url
url_or url (some found) = found

-- init_current_url: what it makes of `g_current_url` from the file's contents, if it opens.
unfoldable pub init_current_url : Option (List ℕ) → List ℕ → List ℕ
init_current_url none url = url
init_current_url (some file) url =
    let (first, rest) = arguments (take 2047 file) in url_or url (first_url (first ∷ rest))
