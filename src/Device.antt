-- ===== src/Device.antt =====
-- c2usb/usb/df/device.hpp and device.cpp: the device, in one module for each concern.
pub mod Configuration
pub mod Strings
pub mod Descriptors
pub mod Requests
pub mod Events
