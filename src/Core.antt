-- ===== src/Core.antt =====
-- The state of c2usb/usb/df/device.hpp, mac.hpp and function.hpp, which share one another, and what
-- they are clients of: the overrides of a function's virtual methods, the controller below the mac,
-- the vendor extension and the power event delegate, all as one record over a state of their own.
use c2usb.Base.{ℕ, Bool, Option, List, ◌>>=◌, some}
use c2usb.Config.Element.{Interface, Endpoint}
use c2usb.Config.Views.{View}
use c2usb.Message.Buffer.{Buffer}
use c2usb.Message.Reply.{Message}
use c2usb.Message.Transfer.{Transfer}
use c2usb.Usb.Speed.{Speed, Speeds}

-- usb::power::state
pub data PowerState : Type 0 where
  l3_off l2_suspend l1_sleep l0_on : PowerState

-- device::event, a set of two flags.
pub record Event : Type 0 where
  pub power_state_change : Bool
  pub configuration_change : Bool

-- The values of usb::result that the core itself returns, and any other by its code.
pub data Result : Type 0 where
  ok connection_reset operation_not_permitted already_connected not_connected : Result
  other : ℕ → Result

-- `none` is a failed assertion inside the override. A function is named by its number.
pub record Drivers (S : Type 0) : Type 0 where
  pub istr_count : ℕ → ℕ
  pub control_setup_request : Interface → Message → S → Option (Message × S)
  pub control_data_complete : Interface → Message → S → Option (Message × S)
  pub control_endpoint_state : ℕ → ℕ → Bool → S → Bool × S
  pub get_alt_setting : Interface → S → ℕ
  pub enable : Interface → ℕ → S → S
  pub disable : Interface → S → S
  pub power_state_change : ℕ → PowerState → Bool → S → S
  pub sof_callback : Interface → S → S
  pub describe_config : Interface → ℕ → Buffer → S → Option Buffer
  pub send_string : ℕ → ℕ → Message → S → Option Message
  pub allocate_endpoints : List (ℕ × Endpoint) → Bool → S → S
  pub ep_config_to_handle : View → ℕ × Endpoint → ℕ
  pub ep_open : ℕ × Endpoint → S → ℕ × S
  pub ep_send : Transfer → S → Result × S
  pub ep_receive : Transfer → S → Result × S
  pub ep_cancel : ℕ → S → Result × S
  pub ep_close : ℕ → S → ℕ × S
  pub ep_is_stalled : ℕ → S → Bool
  pub ep_change_stall : ℕ → Bool → S → Result × S
  pub signal_remote_wakeup : S → Result × S
  pub set_attached : Bool → S → S
  pub setup_test_mode : ℕ → S → Bool × S
  pub lpm_support : ℕ
  pub extension_bus_reset : S → S
  pub extension_assign_istrings : ℕ → S → ℕ
  pub extension_send_owned_string : ℕ → Message → S → Option (Bool × Message)
  pub extension_configs : Speed → List View
  pub extension_control_setup : Message → S → Option (Bool × (Message × S))
  pub extension_control_data : Message → S → Option (Bool × (Message × S))
  pub extension_bos_capabilities : Buffer → S → Option (ℕ × Buffer)
  pub power_event : Event → S → S

-- usb::product_info. The strings are pointers, and the serial number is absent, text or bytes.
pub data Serial : Type 0 where
  no_serial : Serial
  serial_text serial_bytes : List ℕ → Serial

pub record ProductInfo : Type 0 where
  pub vendor_name : Option (List ℕ)
  pub product_name : Option (List ℕ)
  pub vendor_id : ℕ
  pub product_id : ℕ
  pub product_version : ℕ
  pub serial_number : Serial

-- The constant members of a device.
pub record Settings : Type 0 where
  pub speeds : Speeds
  pub max_config_count : ℕ
  pub product : ProductInfo

-- The mac's own state; `speed` is what its `speed()` reports.
pub record Mac : Type 0 where
  pub active_config : View
  pub self_powered : Bool
  pub remote_wakeup : Bool
  pub power_state : PowerState
  pub active : Bool
  pub speed : Speed

-- The device with its mac and its functions: `bound` tells of each function whether its `mac_` is
-- set, `istr_base` its first string index, and `configs_store` is indexed by the speed's offset.
pub record Device (S : Type 0) : Type 0 where
  pub mac : Mac
  pub bound : ℕ → Bool
  pub istr_base : ℕ → ℕ
  pub configs_store : ℕ → List View
  pub env : S

-- The message after a reply, with the device as it is.
abbrev pub with_device : {S : Type 0} → Device S → Option Message → Option (Message × Device S)
with_device dev o = o >>= λ m. some (m, dev)

abbrev pub with_env : {S : Type 0} → Device S → Option (Message × S) → Option (Message × Device S)
with_env dev o = o >>= λ r. some (r.0, record dev { env = r.1 })
