-- ===== src/PlatoShim/Tests.antt =====
-- The theorems on components/system/src/plato_shim.c at concrete inputs.
use nookobo.Prelude.{
  none, some, map, take, drop, length, ◌<◌, ◌≡◌, refl, false, List, [], ◌∷◌, ◌++◌, arith,
}
use nookobo.PlatoShim.Queue.{TouchEvent, Ring, enqueue_event}
use nookobo.PlatoShim.Queue.Fifo.{InRange, contents, push, enqueue_event_refines}
use nookobo.Prelude.Int.{pos, negsuc}
use nookobo.PlatoShim.Ioctl.{Rect, UpdateV1}
use nookobo.PlatoShim.Log.{log_send_v2}
use nookobo.PlatoShim.Log.Fits.{join, send_v2_texts, log_send_v2_lem}
use nookobo.PlatoShim.Touch.{Shim, RawRead, got, events, read_touch}
use nookobo.PlatoShim.Calls.{Process, PollFd, poll, read}
use nookobo.PlatoShim.Calls.Ready.{answered, poll-read}
use nookobo.PlatoShim.Touch.Stream.{packets, sent, Conserved, read_touch_conserves}

abbrev report : TouchEvent
report = record { tv_sec = 1; tv_usec = 0; type = 0; code = 0; value = 0 }

abbrev press : TouchEvent
press = record report { type = 1; code = 330; value = 1 }

-- A full ring that goes round the end.
abbrev full : Ring
full = record { slots = λ i. record report { value = i }; head = 100; tail = 99 }

full-InRange : InRange full
full-InRange = record { head_in = omega arith; tail_in = omega arith }

enqueue_event_refines_example : contents (enqueue_event report full) ≡ push report (contents full)
enqueue_event_refines_example = enqueue_event_refines report full full-InRange

abbrev idle : Shim
idle = record {
  ring = record { slots = λ i. report; head = 0; tail = 0 };
  contact = record { is_down = false; new_down = false; tracking_id = 0; last_x = 10; last_y = 20 };
}

abbrev answers : List RawRead
answers = got (press ∷ report ∷ []) ∷ []

read_touch_conserves_example :
    Conserved
      (contents idle.ring ++ packets (sent answers) idle.contact)
      (read_touch 16 answers idle)
read_touch_conserves_example =
    read_touch_conserves 16 answers idle (record { head_in = omega arith; tail_in = omega arith })
      (omega arith, tt)

abbrev waiting : Process
waiting = record { touch_fd = pos 5; shim = record idle { ring = full } }

-- The touch node and another file.
abbrev polled : List PollFd
polled =
    record { fd = pos 3; events = 1; revents = 0 }
    ∷ record { fd = pos 5; events = 1; revents = 0 }
    ∷ []

poll-read_example :
    (poll (λ fds. (pos 0, fds)) polled waiting ≡ (pos 1, map (answered (pos 5)) polled))
    × (0 < 1)
    × (0 < length (contents full))
    × ((q : Ring) × (read (λ fd. none) (pos 5) 16 answers waiting ≡ (
      some (events (take 16 (contents full)), answers),
      record waiting { shim = record idle { ring = q } },
    ))
        × (contents q ≡ drop 16 (contents full)))
poll-read_example =
    poll-read (λ fd. none) (λ fds. (pos 0, fds)) polled waiting 16 answers full-InRange refl refl
      refl

abbrev area : Rect
area = record { top = 0; left = 8; width = 1404; height = 72 }

-- A partial update that the driver refuses with -22.
abbrev update : UpdateV1
update = record {
  update_region = area;
  waveform_mode = 2;
  update_mode = 0;
  update_marker = 4000000000;
  temp = 4096;
  flags = 0;
  alt_buffer_data = record {
    phys_addr = 0;
    alt_width = 0;
    alt_height = 0;
    alt_update_region = area;
  };
}

log_send_v2_lem_example :
    log_send_v2 update (negsuc 21) ≡ join (send_v2_texts update (negsuc 21)) ++ 10 ∷ []
log_send_v2_lem_example = log_send_v2_lem update (negsuc 21)
