-- ===== src/Device/Strings.antt =====
-- c2usb/usb/df/device.hpp and device.cpp: the string descriptors and the ranges of their indices.
pub mod Laws
pub mod Ranges
use c2usb.Base.{
  ℕ, ◌+◌, ◌-◌, ◌*◌, ◌/◌, ◌%◌, ◌^◌, Bool, true, false, Option, none, some, List, [], ◌∷◌, ◌++◌,
  if◌then◌else◌, ◌==◌, ltb, ◌>>=◌,
}
use c2usb.Config.Element.{Interface, Header, header, element_at}
use c2usb.Config.Views.{View, interfaces}
use c2usb.Core.{Drivers, Settings, Device, Serial, serial_text, serial_bytes, no_serial}
use c2usb.Device.Configuration.{configs_by_speed, nth_view}
use c2usb.Function.{free_string_index, allocate_string_index, send_owned_string}
use c2usb.Message.Reply.{Message, reject, send_data, assert_then}
use c2usb.Message.Text.{send_string, send_as_hex_string}
use c2usb.Message.Transfer.{Span}
use c2usb.Usb.Control.{low_byte}
use c2usb.Usb.Speed.{Speed, Speeds, speeds_list, speeds_count, speed_at, offset}

abbrev pub istr_vendor_name : ℕ
istr_vendor_name = 0xFF

abbrev pub istr_product_name : ℕ
istr_product_name = 0xFE

abbrev pub istr_serial_number : ℕ
istr_serial_number = 0xFD

abbrev pub istr_global_base : ℕ
istr_global_base = istr_serial_number

-- The member's initialiser, cast to uint8_t.
unfoldable pub istr_config_base : Settings → ℕ
istr_config_base c =
    (2 ^ 64 + istr_global_base - c.max_config_count * speeds_count c.speeds) % 2 ^ 8

-- A string index is a uint8_t, and the sums wrap.
unfoldable pub config_istring : Settings → ℕ → Speed → ℕ
config_istring c config_index s =
    let with_offset = (config_index + offset c.speeds s * c.max_config_count) % 2 ^ 8 in
    (with_offset + istr_config_base c) % 2 ^ 8

-- The speed and the number of the configuration that a string index stands for; the division is by
-- `max_config_count`, which is positive.
unfoldable pub config_of_istring : Settings → ℕ → Speed × ℕ
config_of_istring c index =
    let rel = (2 ^ 8 + index - istr_config_base c) % 2 ^ 8 in
    (speed_at c.speeds (rel / c.max_config_count), rel % c.max_config_count)

-- `config.info().name()`
abbrev pub config_name : View → Option (List ℕ)
config_name v = elim (element_at v.elements 0) [ header h ↦ h.name | _ ↦ none ]

-- The addresses of the language list's descriptor and its length: a static constant of the device.
abbrev pub language_list : Span
language_list = record { ptr = 1; len = 4 }

module _ {S : Type 0} (d : Drivers S) (c : Settings) where
  -- The interfaces of a list of views, in the order of `view_list::for_all`.
  unfoldable pub interfaces_of_views : List View → List (ℕ × Interface)
  interfaces_of_views [] = []
  interfaces_of_views (v ∷ r) = interfaces v ++ interfaces_of_views r

  -- The functions of all configurations, in the order of the loop over `speeds()`.
  unfoldable pub functions_of_speeds : List Speed → Device S → List (ℕ × Interface)
  functions_of_speeds [] dev = []
  functions_of_speeds (s ∷ r) dev =
      interfaces_of_views (configs_by_speed d c dev s) ++ functions_of_speeds r dev

  unfoldable pub free_all : List (ℕ × Interface) → (ℕ → ℕ) → ℕ → ℕ
  free_all [] bases = bases
  free_all ((_, i) ∷ r) bases = free_all r (free_string_index i.function bases)

  unfoldable pub allocate_all : List (ℕ × Interface) → (ℕ → ℕ) × ℕ → (ℕ → ℕ) × ℕ
  allocate_all [] s = s
  allocate_all ((_, i) ∷ r) s = allocate_all r (allocate_string_index d.istr_count i.function s)

  -- `assign_function_istrings`; `none` where its assertion fails.
  unfoldable pub assign_function_istrings : Device S → Option (Device S)
  assign_function_istrings dev =
      let functions = functions_of_speeds (speeds_list c.speeds) dev in
      let first = d.extension_assign_istrings 1 dev.env in
      let (bases, index) = allocate_all functions (free_all functions dev.istr_base, first) in
      if ltb index (istr_config_base c) then some (record dev { istr_base = bases }) else none

  -- The loop of `until_any`, and the reply if no function owns the index.
  unfoldable pub function_string_from :
      List (ℕ × Interface) → ℕ → Message → Device S → Option Message
  function_string_from [] index m dev = reject m
  function_string_from ((_, i) ∷ r) index m dev =
      send_owned_string d i.function index m dev >>= λ res.
      if res.0 then some res.1 else function_string_from r index res.1 dev

  unfoldable pub get_function_string : ℕ → Message → Device S → Option Message
  get_function_string index m dev =
      function_string_from (functions_of_speeds (speeds_list c.speeds) dev) index m dev

  unfoldable pub get_config_string : ℕ → Message → Device S → Option Message
  get_config_string index m dev =
      let (s, n) = config_of_istring c index in
      elim (config_name (nth_view (configs_by_speed d c dev s) n)) [
        | some name ↦ send_string name m
        | none ↦ reject m
      ]

  -- `get_string_descriptor` behind the extension, for an index that is not 0.
  unfoldable pub own_string : ℕ → Message → Device S → Option Message
  own_string index m dev =
      if m.request.w_index == 0
      then reject m
      else if ltb index (istr_config_base c)
      then get_function_string index m dev
      else if ltb index istr_global_base
      then get_config_string index m dev
      else if index == istr_vendor_name
      then product_string c.product.vendor_name m
      else if index == istr_product_name
      then product_string c.product.product_name m
      else elim c.product.serial_number [
        | no_serial ↦ send_as_hex_string [] m
        | serial_text units ↦ send_string units m
        | serial_bytes bytes ↦ send_as_hex_string bytes m
      ]
    where
      product_string : Option (List ℕ) → Message → Option Message
      product_string o m = o >>= λ units. send_string units m

  unfoldable pub get_string_descriptor : Message → Device S → Option Message
  get_string_descriptor m dev =
      let index = low_byte m.request.w_value in
      if index == 0
      then send_data language_list m
      else (d.extension_send_owned_string index m dev.env >>= λ res.
          if res.0 then some res.1 else own_string index res.1 dev)
