-- ===== src/Tests.antt =====
-- Runs of the definitions at fixed inputs, and the theorems at inputs where their hypotheses hold.
pub mod Data
pub mod Words
pub mod Configs
pub mod Messages
pub mod Devices
pub mod Requests
pub mod Serial
pub mod Ntb
pub mod Classes
mod I2c
mod Transmit
mod Ncm
