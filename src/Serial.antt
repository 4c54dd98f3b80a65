-- ===== src/Serial.antt =====
-- c2usb/usb/serial_buffer.hpp and serial_buffer.cpp: the double buffers between a serial port and its endpoints.
pub mod Memory
pub mod Transmit
