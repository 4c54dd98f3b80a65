-- ===== src/Config/Element.antt =====
-- c2usb/usb/df/config.hpp: the elements of a configuration array, the power word of its header, and
-- the tests by which a view recognises an element.
use c2usb.Base.{
  ℕ, ◌+◌, ◌*◌, ◌/◌, ◌%◌, ◌^◌, Bool, true, false, not, Option, none, some, List, bit_and, bit_or,
  if◌then◌else◌, ◌==◌, get_or,
}

-- usb::power::source
pub data PowerSource : Type 0 where
  bus device : PowerSource

abbrev pub source_code : PowerSource → ℕ
source_code bus = 0
source_code device = 1

abbrev pub source_of_code : ℕ → PowerSource
source_of_code n = if n == 0 then bus else device

-- The 16-bit word of `config::power`.
pub record Power : Type 0 where
  pub value : ℕ

abbrev pub bit : Bool → ℕ
bit true = 1
bit false = 0

-- The constructor: the three fields are or-ed into a uint16_t.
unfoldable pub make_power : PowerSource → ℕ → Bool → Power
make_power src max_current remote_wake = record {
  value =
      bit_or (bit_or (bit remote_wake * 2 ^ 5) (source_code src * 2 ^ 6)) (max_current * 2 ^ 7)
      % 2 ^ 16;
}

unfoldable pub power_source : Power → PowerSource
power_source p = source_of_code (bit_and (p.value / 2 ^ 6) 1)

unfoldable pub self_powered : Power → Bool
unfolding power_source
self_powered p = not (source_code (power_source p) == 0)

unfoldable pub remote_wakeup : Power → Bool
remote_wakeup p = not (bit_and (p.value / 2 ^ 5) 1 == 0)

unfoldable pub max_power : Power → ℕ
max_power p = p.value / 2 ^ 7

unfoldable pub power_valid : Power → Bool
power_valid p = not (p.value == 0)

-- bMaxPower and bmAttributes of the configuration descriptor, as uint8_t.
unfoldable pub desc_max_power : Power → ℕ
desc_max_power p = p.value / 2 ^ 8 % 2 ^ 8

unfoldable pub desc_attributes : Power → ℕ
desc_attributes p = bit_or 0x80 p.value % 2 ^ 8

pub record Header : Type 0 where
  pub power : Power
  pub name : Option (List ℕ)
  pub config_size : ℕ

-- `function` names the function object that the pointer designates.
pub record Interface : Type 0 where
  pub function : ℕ
  pub function_index : ℕ
  pub alt_settings : ℕ
  pub sof_notify : Bool

pub record Endpoint : Type 0 where
  pub address : ℕ
  pub attributes : ℕ
  pub max_packet_size : ℕ
  pub interval : ℕ
  pub unused : Bool

unfoldable pub primary : Interface → Bool
primary i = i.function_index == 0

unfoldable pub alt_setting_count : Interface → ℕ
alt_setting_count i = (i.alt_settings + 1) % 2 ^ 8

pub data Element : Type 0 where
  header : Header → Element
  interface : Interface → Element
  endpoint : Endpoint → Element
  footer : Element

-- The test of a view together with the reading of the element as the view's type.
unfoldable pub is_interface : Element → Option Interface
is_interface (interface i) = some i
is_interface _ = none

unfoldable pub is_endpoint : Element → Option Endpoint
is_endpoint (endpoint e) = some e
is_endpoint _ = none

unfoldable pub is_active_endpoint : Element → Option Endpoint
is_active_endpoint (endpoint e) = if e.unused then none else some e
is_active_endpoint _ = none

unfoldable pub is_footer : Element → Bool
is_footer footer = true
is_footer _ = false

-- What the pointer with number `p` reads.
abbrev pub element_at : List Element → ℕ → Element
element_at es p = get_or es p footer

abbrev pub is_valid {ℓ} : {T : Type ℓ} → Option T → Bool
is_valid (some _) = true
is_valid none = false
