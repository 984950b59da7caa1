-- ===== src/Lin.antt =====
-- firmware/src/peripherals/lin.c
pub mod Driver
pub mod Device
pub mod Config
pub mod Transfer
pub mod Sound
pub mod Fine
pub mod Callbacks
pub mod Written
pub mod Received
pub mod Fit
pub mod Bus
pub mod Run
