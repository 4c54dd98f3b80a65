-- ===== src/Config.antt =====
-- c2usb/usb/df/config.hpp and config.cpp: a configuration is an array of elements (the header, then
-- each interface followed by its endpoints, then an all-zero footer), read through views.
-- A pointer into the array is the number of its element; what lies outside reads as the footer, to
-- which the null view points too.
pub mod Element
pub mod Spec
pub mod Views
pub mod WellFormed
pub mod Reverse
pub mod Lookup
pub mod Factory
