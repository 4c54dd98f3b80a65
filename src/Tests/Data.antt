-- ===== src/Tests/Data.antt =====
-- A device with two functions for the tests: function 0 has two endpoints, function 1 has one.
use c2usb.Base.{ℕ, ◌*◌, ◌+◌, true, false, Option, none, some, List, [], ◌∷◌, ◌++◌, replicate}
use c2usb.Config.Element.{Element, Header, Interface, Endpoint, header, interface, endpoint, footer}
use c2usb.Config.Views.{View}
use c2usb.Core.{Drivers, Settings, Device, Mac, l0_on, ok, serial_bytes}
use c2usb.Message.Buffer.{Buffer}
use c2usb.Message.Reply.{Message, reject, confirm}
use c2usb.Message.Transfer.{success}
use c2usb.Usb.Control.{setup}
use c2usb.Usb.Speed.{full, high}

-- A bus powered device of 100 mA, and its configuration.
abbrev pub example_header : Header
example_header = record {
  power = record { value = 100 * 128 };
  name = some (65 ∷ []);
  config_size = 6;
}

abbrev pub first_interface : Interface
first_interface = record { function = 0; function_index = 0; alt_settings = 1; sof_notify = false }

abbrev pub second_interface : Interface
second_interface = record { function = 1; function_index = 0; alt_settings = 0; sof_notify = true }

abbrev pub bulk_endpoint : ℕ → Endpoint
bulk_endpoint addr = record {
  address = addr;
  attributes = 2;
  max_packet_size = 64;
  interval = 0;
  unused = false;
}

abbrev pub example_body : List Element
example_body =
    interface first_interface
    ∷ endpoint (bulk_endpoint 0x81)
    ∷ endpoint (bulk_endpoint 2)
    ∷ interface second_interface
    ∷ endpoint (bulk_endpoint 0x83)
    ∷ []

abbrev pub example_view : View
example_view = record {
  ptr = 1000;
  elements = header example_header ∷ (example_body ++ footer ∷ []);
}

abbrev pub with_log : List ℕ → Option Message → Option (Message × List ℕ)
with_log s none = none
with_log s (some m) = some (m, s)

-- The drivers keep a log of the functions that were enabled, disabled and told of the power.
abbrev pub example_drivers : Drivers (List ℕ)
example_drivers = record {
  istr_count = λ _. 1;
  control_setup_request = λ i m s. with_log s (confirm m);
  control_data_complete = λ i m s. with_log s (confirm m);
  control_endpoint_state = λ f eph halt s. (true, s);
  get_alt_setting = λ i s. 0;
  enable = λ i alt s. (10 ∷ s);
  disable = λ i s. (20 ∷ s);
  power_state_change = λ f state wake s. (30 ∷ s);
  sof_callback = λ i s. s;
  describe_config = λ i n b s. some b;
  send_string = λ f n m s. reject m;
  allocate_endpoints = λ eps sof s. s;
  ep_config_to_handle = λ v x. x.0;
  ep_open = λ x s. (x.0, 60 ∷ s);
  ep_send = λ t s. (ok, 70 ∷ s);
  ep_receive = λ t s. (ok, 80 ∷ s);
  ep_cancel = λ eph s. (ok, s);
  ep_close = λ eph s. (0, s);
  ep_is_stalled = λ eph s. false;
  ep_change_stall = λ eph stall s. (ok, s);
  signal_remote_wakeup = λ s. (ok, 40 ∷ s);
  set_attached = λ on s. s;
  setup_test_mode = λ n s. (false, s);
  lpm_support = 0;
  extension_bus_reset = λ s. s;
  extension_assign_istrings = λ n s. n;
  extension_send_owned_string = λ n m s. some (false, m);
  extension_configs = λ _. [];
  extension_control_setup = λ m s. some (false, (m, s));
  extension_control_data = λ m s. some (false, (m, s));
  extension_bos_capabilities = λ b s. some (0, b);
  power_event = λ ev s. (50 ∷ s);
}

abbrev pub example_settings : Settings
example_settings = record {
  speeds = record { min_speed = full; max_speed = high };
  max_config_count = 2;
  product = record {
    vendor_name = some (86 ∷ []);
    product_name = some (80 ∷ []);
    vendor_id = 0x1209;
    product_id = 1;
    product_version = 0x0100;
    serial_number = serial_bytes (0xAB ∷ []);
  };
}

abbrev pub example_mac : View → Mac
example_mac v = record {
  active_config = v;
  self_powered = false;
  remote_wakeup = true;
  power_state = l0_on;
  active = true;
  speed = full;
}

-- The device with a configuration active, or with none for the null view.
abbrev pub example_device : View → Device (List ℕ)
example_device v = record {
  mac = example_mac v;
  bound = λ _. true;
  istr_base = λ f. f + 1;
  configs_store = λ _. example_view ∷ [];
  env = [];
}

abbrev pub example_buffer : Buffer
example_buffer = record { data_ptr = 4096; size = 32; used_length = 0; mem = replicate 32 0 }

-- A pending message for a standard request to the device or one of its parts.
abbrev pub example_message : ℕ → ℕ → ℕ → ℕ → ℕ → Message
example_message request_type code value index len = record {
  request = record {
    id = record { bm_request_type = request_type; b_request = code };
    w_value = value;
    w_index = index;
    w_length = len;
  };
  buffer = example_buffer;
  data_xfer = record { data_ptr = 0; size = 0; outcome = success; endpoint = 0 };
  pending = true;
  stage = setup;
  asserts = true;
}
