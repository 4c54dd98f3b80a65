-- ===== src/Usb/Control/Laws.antt =====
-- l
use c2usb.Base.{ℕ, ◌<◌, ◌^◌, ◌≡◌, refl, arith}
use c2usb.Usb.EndpointAddress.{Direction, dir_in, dir_out}
use c2usb.Usb.Control.{
  Recipient, to_device, recipient_code, RequestType, standard, class_type, vendor, type_code,
  request_id, id_direction, id_type, id_recipient,
}

-- The fields that the constructor packs into bmRequestType and bRequest are read back unchanged.
pub request_id_fields :
    (dir : Direction) (t : RequestType) (rec : Recipient) (code : ℕ)
    → code < 2 ^ 8
    → let r = request_id dir t rec code in
      (id_direction r ≡ dir)
      × (id_type r ≡ type_code t)
      × (id_recipient r ≡ recipient_code rec)
      × (r.b_request ≡ code)
unfolding request_id id_direction id_type id_recipient
request_id_fields dir_out standard to_device code h = (refl, refl, refl, omega arith)
request_id_fields dir_out standard _ code h = (refl, refl, refl, omega arith)
request_id_fields dir_out class_type to_device code h = (refl, refl, refl, omega arith)
request_id_fields dir_out class_type _ code h = (refl, refl, refl, omega arith)
request_id_fields dir_out vendor to_device code h = (refl, refl, refl, omega arith)
request_id_fields dir_out vendor _ code h = (refl, refl, refl, omega arith)
request_id_fields dir_in standard to_device code h = (refl, refl, refl, omega arith)
request_id_fields dir_in standard _ code h = (refl, refl, refl, omega arith)
request_id_fields dir_in class_type to_device code h = (refl, refl, refl, omega arith)
request_id_fields dir_in class_type _ code h = (refl, refl, refl, omega arith)
request_id_fields dir_in vendor to_device code h = (refl, refl, refl, omega arith)
request_id_fields dir_in vendor _ code h = (refl, refl, refl, omega arith)
