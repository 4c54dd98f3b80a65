-- ===== src/Message.antt =====
-- c2usb/usb/df/transfer.hpp, message.hpp and message.cpp, with c2usb/raw_to_hex_string.hpp: the
-- control message through which the device and its functions answer a request.
-- A member function takes the message and returns it changed; `none` is a fault: an assertion that
-- fails, or an allocation past the end of the control buffer. The field `asserts` says whether
-- assertions are compiled in. A pointer is an address with 0 for null, and the bytes of the control
-- buffer are kept in `Buffer.mem`.
pub mod Transfer
pub mod Buffer
pub mod Reply
pub mod Text
