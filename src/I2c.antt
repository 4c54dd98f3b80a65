-- ===== src/I2c.antt =====
-- c2usb/i2c/hid: standard.hpp, device.hpp and device.cpp, the I2C slave's side of HID over I2C.
pub mod Command
pub mod Descriptor
pub mod State
pub mod Reads
pub mod Writes
pub mod Bus
pub mod Uses
pub mod Keeps
pub mod Invariant
pub mod Reports
pub mod Returns
pub mod RoundTrip
pub mod Reset
