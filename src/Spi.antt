-- ===== src/Spi.antt =====
-- firmware/src/peripherals/spi.c. Zephyr's SPI driver is a parameter. Of the bits of `operation`
-- the model keeps those that the functions change: CPOL, CPHA and LSB first.
pub mod Driver
pub mod Device
pub mod Config
pub mod History
pub mod Rejected
pub mod Fit
