-- ===== src/Tests/Words.antt =====
-- Requests, addresses and speeds.

use c2usb.Usb.Speed.{Speeds, low, high}

abbrev low_to_high : Speeds
low_to_high = record { min_speed = low; max_speed = high }
