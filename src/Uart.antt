-- ===== src/Uart.antt =====
-- firmware/src/peripherals/uart.c. The UART driver, the receive queue and the semaphore are
-- parameters; the interrupts that arrive while a function waits come from the driver's state.
pub mod Driver
pub mod Device
pub mod Order
pub mod Write
pub mod Fit
pub mod Read
