-- ===== src/Lib.antt =====
-- The USB device core of c2usb: configuration arrays, control messages, and the device, mac and
-- function classes that answer the host's control requests.
--
-- The program's parts and their files
--
--   Config      c2usb/usb/df/config.hpp, config.cpp and config_factory.hpp. A configuration is an array
--               of a header, interfaces with their endpoints, and a footer. Element has the elements and
--               the power word, Views the views with their forward iterators, Reverse the reverse
--               iterators, Lookup the searches by number and by address and the walk from an endpoint to
--               its interface, Factory the ways to build an array. Spec says what a view shows without an
--               iterator, and WellFormed is the shape that the factories give an array.
--   Usb         c2usb/usb/base.hpp, speeds.hpp, endpoint.hpp, control.hpp, df/ep_flags.hpp and the request
--               codes of standard/requests.hpp: speeds, endpoint addresses, polling intervals, setup
--               packets.
--   Message     c2usb/usb/df/message.hpp, message.cpp and transfer.hpp, and c2usb/raw_to_hex_string.hpp:
--               transfers, the control buffer with its bytes, the replies, and string descriptors.
--   Core        the state of the device, its mac and its functions, which the next three parts share, and
--               the record Drivers of what they call: the overrides of a function's virtual methods, the
--               controller under the mac, the vendor extension, and the power event delegate.
--   Mac         c2usb/usb/df/mac.hpp and mac.cpp: power states, the granted current, remote wakeup, the
--               active configuration.
--   Function    c2usb/usb/df/function.hpp and function.cpp: requests for an interface or an endpoint,
--               string indices, the binding of a function to the mac, and its use of endpoints.
--   Device      c2usb/usb/df/device.hpp and device.cpp: Configuration selects configurations, Strings has
--               the string indices and descriptors, Descriptors the other descriptors, Requests the
--               control requests, Events the bus events and the control transfers of the mac.
--   Serial      c2usb/usb/serial_buffer.hpp and serial_buffer.cpp. Memory is the memory behind the pointers,
--               Transmit the transmit buffer: write is a sequence of atomic operations, System lets a
--               completed transfer run between any two of them, and its child modules follow the bytes.
--   Ntb         c2usb/usb/class/cdc_ncm_ntb.hpp and its structures of class/cdc.hpp, in the 16 bit format,
--               which is the only one in use: is_valid_ntb, Layout with the format described apart from
--               the code, Receive with the context of a received page, and Transmit with the context that
--               assembles the blocks to send in two pages of one memory.
--   Ncm         c2usb/usb/df/class/cdc_ncm.hpp and cdc_ncm.cpp: Receive and Transmit are the function's use of
--               the two contexts, Link the connection with its notifications and the callbacks of the
--               endpoints, Requests the control requests and the two interfaces. Steps puts the calls of a
--               function in any order.
--   Hid         c2usb/usb/df/class/hid.hpp and hid.cpp, c2usb/hid/transport.hpp and the session of
--               hid/application.hpp: sessions, endpoints, reports, and in Requests the control requests.
--   Cdc         c2usb/usb/df/class/cdc.hpp, cdc_acm.hpp and cdc_acm.cpp: the line, the endpoints and the
--               control requests of a CDC ACM function.
--   Dfu         c2usb/usb/df/class/dfu.hpp and dfu.cpp: the DFU function of a running application.
--   I2c         c2usb/i2c/hid/standard.hpp, device.hpp, device.cpp and c2usb/i2c/slave.hpp: Command and Descriptor
--               are the formats, State the device with the slave driver as a record of what it was told, Reads
--               and Writes the transfers, Bus the callbacks of the driver; Invariant puts them in any order, up to one that faults.
--   Tests       runs at fixed inputs.
--   Base        numbers, lists, options and Boolean tests for all of them.
--
-- How the code is modelled
--
--   An operation that changes an object takes its state and returns the new one. A reply works on the
--   record Message; on_control_setup and what it calls return the message and the device. `none` is a
--   fault: a failed assertion where assertions are on (the flag `asserts` of the message), a write
--   outside of the control buffer, or a step outside of a configuration array. Where assertions are off,
--   the code behind the assertion runs.
--
--   Numbers are natural numbers with their wrap-around written out: % 2 ^ 8 for bytes and string
--   indices, % 2 ^ 16 for transfer sizes. A pointer to an array is the array's address, by which views
--   are compared, with its elements; a pointer to an element is its number. The null view has address 0
--   and reads the footer. A null terminated array of views is a list. Functions are named by numbers.
--
--   A loop over a view runs on as much fuel as the array has elements, and the reverse loop on one more
--   than the header's size: each round moves the iterator on by at least one element, so the loops end
--   before the fuel does. The other loops are recursions on lists.
--
--   The transmit buffer has one writer, whose operations a completion may interrupt; the completion runs
--   as a whole, as in an interrupt. size_type has 32 bits. write needs at most six atomic operations when
--   nothing interrupts it. A weak compare_exchange does not fail for no reason.
--
--   Reading a transfer block outside of its bytes is a fault. The loop over its tables runs on one round
--   more than the bytes have room for datagrams: each round counts a datagram, and the code stops there.
--
--   The HID, DFU and CDC functions stand over their surroundings, which are a parameter with the operations of
--   the endpoints and the application's methods. The values of hid-rp's enumerations are parameters. The
--   boot protocol is on (CONFIG_C2USB_HID_BOOT_PROTOCOL).
--
--   The flag words of the CDC NCM function are records of bits, for each page and for the rest; each of its
--   operations runs as a whole. CONFIG_C2USB_NTB_IN_MAX_DG is a parameter, and 0 is the limit where it is off.
--   The setting CONFIG_C2USB_I2C_HID_FULL_COMMAND_SUPPORT is a parameter of the I2C device too.
--   A read or a write outside of its buffer_ or of the application's buffer is a fault, though the code has no
--   check there and goes on. The memory of
--   the pages and of buffer_ is a function from addresses to bytes.
--
--   The calls into drivers return a new state of the drivers and leave the device's own state alone. The
--   lists of an extension and the bus speed do not change while a request is handled. The size of a
--   control packet is the default of mac::control_ep_max_packet_size. CONFIG_C2USB_FUNCTION_SUSPEND is
--   off, as in the build files. A serial number is shorter than 2 ^ 15 bytes.
--
-- What is not modelled
--
--   Of the core: the storing of configuration lists in device_instance, the pending message that a
--   function asks the mac for, and the back pointers of the mac. Of the library: the receive buffer of the
--   serial ports, the blocks of the 32 bit format, the completions that interrupt an operation of the CDC NCM
--   function between its atomic operations, the descriptors of the HID, DFU and CDC functions, the Microsoft
--   extensions, and HID over GATT. The controller ports and the glue to Zephyr and lwIP stand on code outside
--   of the repository.
pub mod Base
pub mod Config
pub mod Usb
pub mod Message
pub mod Core
pub mod Mac
pub mod Function
pub mod Device
pub mod Serial
pub mod Tests
pub mod Cdc
pub mod Dfu
pub mod Hid
pub mod I2c
pub mod Ncm
pub mod Ntb
