-- ===== src/Lib.antt =====
-- nookobo turns a NOOK e-reader into a device that runs KOReader, Plato and NetSurf. These modules
-- model the C programs that stand between the hardware and those readers.
--
-- The parts and how they meet:
--   * components/system/src/btn-watcher.c (Watcher) grabs the device's buttons, tells taps, holds and
--     chords with Home apart, passes events on to the reader through a virtual device, draws toasts
--     and a media card over the reader's page, and switches the active app through files under /tmp.
--   * components/system/src/plato_shim.c (PlatoShim) is preloaded into Plato and rewrites the touch
--     panel's events as Plato's driver expects them.
--   * components/netsurf/src/sdl_fb0_shim.c (Netsurf) is NetSurf's SDL: the event queue, the on-screen
--     keyboard and the input thread, which also reads commands from a FIFO.
--   * components/netsurf/src/nook-webkey.c (Webkey) is the web server that writes those commands.
--   * components/system/src/app-switcher.c (AppSwitcher) is the dialog that the watcher starts: it
--     stops the active app, draws over its page, and on a touch resumes it or changes to another.
--   * components/common/include/font8x16.h (Common.Font) is the font of all of them, and
--     font8x16_cyrillic.h (Common.FontCyrillic) the letters that the keyboard has besides.
--   * components/system/src/touch_inject.c, key_inject.c, send_key.c, fifo_write.c, epdc_probe.c and
--     test_epdc.c (Tools) put in events and commands by hand and try the panel.
--
-- Watcher.Canvas is the panel's memory and set_pixel, draw_rect, draw_char and draw_string; Area the
-- memcpy loops of the backups; Screen and Card fb_init, epdc_refresh, show_toast, hide_toast,
-- show_media_card and hide_media_card; Apps get_active_app and set_active_app; State the variables
-- of main and the emit functions; Timers the timers at the top of the loop; Handler the branches on
-- the event; Loop the rounds; Setup the making of the virtual device. A round has the clock's
-- readings and the event as inputs. The events emitted, the waits and the shell commands are a log.
-- An int32 of an event is its bit pattern; times are 64-bit and the differences are taken with their
-- wrap-around.
-- PlatoShim.Queue is s_queue with enqueue_event, Touch the read function over the answers that the C
-- library's read will give, Ioctl the ioctl function over a driver, Calls handle_open, close, read
-- and poll, Log the log's buffer and the line of an update.
-- Netsurf.Events is queue_event and dequeue_event; Utf8 is utf8_next as the loop over a string and
-- the encoder of ACT_CHAR; Layout is build_osk_layout; Keyboard the state of the keyboard, with Touch
-- for handle_osk_touch and Commands for handle_fifo_command; Worker is input_worker. Events queued,
-- pauses, drawings and refreshes are effects in order; the queue itself is a model apart, so a queue
-- that is full is not seen by the keyboard. Draw is the drawing functions for UTF-8 texts, over those
-- of Watcher.Canvas, which are the same code; Calls is SDL_Init, SDL_Quit, SDL_SetVideoMode,
-- init_current_url and the calls on events, with the nodes (those that input_worker opens for
-- itself too), mappings and threads held as counts;
-- Panel gives each effect its meaning on fb_mem and osk_backup.
-- Netsurf.Update is epdc_refresh_area and SDL_UpdateRect as a list of effects on a known state; Timers
-- is SDL_AddTimer, SDL_RemoveTimer and timer_worker as the steps that hold the mutex.
-- Webkey is url_decode and handle_client.
-- Tools.Inject is the mains of touch_inject.c, key_inject.c and send_key.c as the events they write,
-- Fifo that of fifo_write.c, Probe those of epdc_probe.c and test_epdc.c over the system's answers.
-- AppSwitcher.Buttons is the table of buttons and the hit test, Status the two queries, Dialog the
-- drawing functions, Session the state with the signals and the backup, Touch the loop over the touch
-- events, and Main main. Its drawing primitives are those of Watcher.Canvas and its find_active_app
-- is get_active_app of Watcher.Apps, word for word. A run has as inputs what the system answers and
-- the rounds of select; signals, commands and refreshes are a log.
--
-- Loops are structural recursion on a count or a list; there is no fuel. What the code calls outside
-- the repository is a parameter where its answer matters: the answers of read, sscanf, atoi and
-- snprintf of numbers; a malloc that fails is a missing backup.
--
-- Not modelled: the end of btn-watcher.c, the set-up and the other log lines of plato_shim.c, the
-- calls of sdl_fb0_shim.c that return a constant, what a text drawn behind its NUL paints,
-- patches/app-switcher-dialog.c (an older copy of app-switcher.c), the socket loop of nook-webkey.c,
-- the third-party umtprd, and the scripts. Of the races between the threads of sdl_fb0_shim.c only
-- those on the timers are modelled.
pub mod Prelude
pub mod Common
pub mod Watcher
pub mod PlatoShim
pub mod Netsurf
pub mod Webkey
pub mod AppSwitcher
pub mod Tools
