-- ===== src/Usb/Control.antt =====
-- c2usb/usb/control.hpp: control requests, and the request codes of c2usb/usb/standard/requests.hpp.
pub mod Laws
use c2usb.Base.{
  ℕ, ◌+◌, ◌*◌, ◌/◌, ◌%◌, ◌^◌, bit_and, bit_or, Bool, true, false, ◌&&◌, if◌then◌else◌, ◌==◌,
}
use c2usb.Usb.EndpointAddress.{Direction, dir_out, dir_in, direction_code, direction_of_code}

-- control::stage
pub data Stage : Type 0 where
  reset setup data_stage status : Stage

-- The codes of recipients and types: a request's bytes come from the host, and may hold others.
pub data Recipient : Type 0 where
  to_device to_interface to_endpoint to_other : Recipient

abbrev pub recipient_code : Recipient → ℕ
recipient_code to_device = 0
recipient_code to_interface = 1
recipient_code to_endpoint = 2
recipient_code to_other = 3

pub data RequestType : Type 0 where
  standard class_type vendor : RequestType

abbrev pub type_code : RequestType → ℕ
type_code standard = 0
type_code class_type = 1
type_code vendor = 2

pub record RequestId : Type 0 where
  pub bm_request_type : ℕ
  pub b_request : ℕ

unfoldable pub request_id : Direction → RequestType → Recipient → ℕ → RequestId
request_id dir t rec code = record {
  bm_request_type =
      bit_or (bit_or (direction_code dir * 2 ^ 7) (type_code t * 2 ^ 5)) (recipient_code rec)
      % 2 ^ 8;
  b_request = code % 2 ^ 8;
}

unfoldable pub id_direction : RequestId → Direction
id_direction r = direction_of_code (r.bm_request_type / 2 ^ 7)

unfoldable pub id_type : RequestId → ℕ
id_type r = bit_and (r.bm_request_type / 2 ^ 5) 3

unfoldable pub id_recipient : RequestId → ℕ
id_recipient r = bit_and r.bm_request_type 0x1F

unfoldable pub id_eq : RequestId → RequestId → Bool
id_eq a b = (a.bm_request_type == b.bm_request_type) && (a.b_request == b.b_request)

-- The setup packet. Its words are uint16_t.
pub record Request : Type 0 where
  pub id : RequestId
  pub w_value : ℕ
  pub w_index : ℕ
  pub w_length : ℕ

unfoldable pub high_byte : ℕ → ℕ
high_byte w = w / 2 ^ 8 % 2 ^ 8

unfoldable pub low_byte : ℕ → ℕ
low_byte w = w % 2 ^ 8

-- usb::standard::request, the codes that the device and its functions handle.
abbrev pub get_status_code : ℕ
get_status_code = 0x00

abbrev pub clear_feature_code : ℕ
clear_feature_code = 0x01

abbrev pub set_feature_code : ℕ
set_feature_code = 0x03

abbrev pub set_address_code : ℕ
set_address_code = 0x05

abbrev pub get_descriptor_code : ℕ
get_descriptor_code = 0x06

abbrev pub get_configuration_code : ℕ
get_configuration_code = 0x08

abbrev pub set_configuration_code : ℕ
set_configuration_code = 0x09

abbrev pub get_interface_code : ℕ
get_interface_code = 0x0A

abbrev pub set_interface_code : ℕ
set_interface_code = 0x0B

-- A `case` label of the standard requests: the request's id is that of the direction, the recipient
-- and the code, with type STANDARD.
unfoldable pub is_standard : Request → Direction → Recipient → ℕ → Bool
unfolding id_eq request_id
is_standard r dir rec code = id_eq r.id (request_id dir standard rec code)
