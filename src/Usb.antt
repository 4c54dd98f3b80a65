-- ===== src/Usb.antt =====
-- c2usb/usb/base.hpp, speeds.hpp, endpoint.hpp and control.hpp: the values that the USB stack is
-- written in. An enumeration is a data type with the code that the source gives each value.
pub mod Speed
pub mod EndpointAddress
pub mod Control
