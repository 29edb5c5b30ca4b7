-- ===== src/Pinmux.antt =====
-- src/reginfo.c: the pin multiplexing registers, and the general purpose pins behind them.
pub mod Register
pub mod Tables
pub mod Select
pub mod Mux
pub mod Gpio
pub mod Enabled
