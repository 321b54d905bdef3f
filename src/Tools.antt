-- ===== src/Tools.antt =====
-- The small tools of components/system/src: touch_inject.c, key_inject.c and send_key.c write input
-- events, fifo_write.c a command for NetSurf, epdc_probe.c and test_epdc.c try the panel.
pub mod Inject
pub mod Clicks
pub mod Keys
pub mod Fifo
pub mod Probe
pub mod Healthy
mod Tests
