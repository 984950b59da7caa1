-- ===== src/Can.antt =====
-- firmware/src/peripherals/can.c. The controller behind Zephyr's CAN driver, the frame queue that
-- it fills and the kernel's semaphores are parameters. Logging is left out. The functions write
-- only into their own request buffer, which the next request overwrites, so those writes are the
-- `let`s of the model.
pub mod Driver
pub mod State
pub mod Config
pub mod Transfer
pub mod Table
pub mod Fit
pub mod Busy
pub mod Lockout
pub mod Frames
pub mod Filters
