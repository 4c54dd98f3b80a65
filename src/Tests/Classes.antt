-- ===== src/Tests/Classes.antt =====
-- The class functions at fixed states.
use c2usb.Base.{ℕ, ◌+◌, ◌≡◌, refl, arith, true, none, some, List, [], ◌∷◌, ltb}
use c2usb.Core.{ok}
use c2usb.Function.Class.{is_class}
use c2usb.Function.Laws.{Replies}
use c2usb.Message.Reply.{Message}
use c2usb.Message.Transfer.{handle_valid}
use c2usb.Usb.Control.{request_id, id_eq}
use c2usb.Usb.EndpointAddress.{dir_out}
use c2usb.Dfu.{Runtime, app_idle, app_detach, requests, detach-requests}
use c2usb.Cdc
use c2usb.Cdc.{Acm, no_config, line_requests-Replies}
use c2usb.Hid.{Hid, Clients, Traits}
use c2usb.Hid.Laws.{Opens, Obeys}
use c2usb.Hid.Answers.{control_setup_request-Replies}
use c2usb.Hid.Requests.{control_setup_request}
use c2usb.Tests.Data.{example_message, first_interface, bulk_endpoint}
use c2usb.Tests.Devices.{example_message-IsFresh}

abbrev detach : Message
detach = example_message 0x21 0 500 0 0

abbrev attached : Runtime (List ℕ)
attached = record { state = app_idle; env = [] }

is_detach : is_class dir_out 0 detach.request.id ≡ true
unfolding id_eq request_id
is_detach = refl

detach-requests_example :
    requests (λ t e. t ∷ e) 4096 (detach ∷ (detach ∷ [])) attached
    ≡ some (record attached { state = app_detach; env = 500 ∷ [] })
detach-requests_example =
    detach-requests (λ t e. t ∷ e) 4096 detach attached (detach ∷ []) refl is_detach refl
      (example_message-IsFresh 0x21 0 500 0 0, tt)

-- A keyboard whose application counts its sessions.
abbrev clients : Clients ℕ
clients = record {
  type_output = 2;
  type_feature = 3;
  is_report_type = λ t. ltb 0 t;
  selector_type = λ v. v;
  protocol_boot = 0;
  protocol_report = 1;
  is_protocol = λ p. ltb p 2;
  mode_none = 0;
  endpoints = λ i. ((1, bulk_endpoint 0x81) ∷ []);
  open_ep = λ ep e. (1, e);
  close_ep = λ eph e. (0, e);
  send_ep = λ eph s e. (ok, e);
  receive_ep = λ eph s e. (ok, e);
  descriptor = record { ptr = 8192; len = 63 };
  start = λ mode h. (record { boot_mode = mode; idle_rate = 0 }, h);
  stop = λ s h. h;
  get_report = λ t b s h. (b, h);
  set_report = λ t b s h. h;
  report_sent = λ b s h. h;
}

abbrev keyboard : Traits
keyboard = record { protocol_mode = 1; country_code = 0 }

abbrev unopened : Hid ℕ
unopened = record {
  session = none;
  rx_feature = record { ptr = 0; len = 0 };
  rx_output = record { ptr = 0; len = 0 };
  ep_in = 0;
  ep_out = 0;
  env = 0;
}

keyboard-Opens : Opens clients first_interface
unfolding handle_valid
keyboard-Opens = record {
  one_or_two = ([], (1, bulk_endpoint 0x81), refl, omega arith);
  valid = λ ep env. refl;
}

keyboard-Obeys : Obeys clients
unfolding Obeys
keyboard-Obeys mode h = refl

abbrev get_report_message : Message
get_report_message = example_message 0xa1 1 0x0100 0 8

control_setup_request-Replies_example :
    Replies get_report_message
      (control_setup_request clients keyboard first_interface get_report_message unopened)
control_setup_request-Replies_example =
    control_setup_request-Replies clients keyboard first_interface keyboard-Opens keyboard-Obeys
      get_report_message unopened (example_message-IsFresh 0xa1 1 0x0100 0 8) (omega arith)

abbrev set_boot_protocol : Message
set_boot_protocol = example_message 0x21 0x0b 0 0 0

abbrev get_protocol : Message
get_protocol = example_message 0xa1 3 0 0 1

-- A serial port that counts the changes of its line.
abbrev serial_clients : Cdc.Clients ℕ
serial_clients = record {
  endpoints = λ i. [];
  open_ep = λ ep e. (1, e);
  close_ep = λ eph e. (0, e);
  send_ep = λ eph s e. (ok, e);
  receive_ep = λ eph s e. (ok, e);
  bytes_at = λ s e. [];
  config_address = 12288;
  set_line = λ old cfg e. e + 1;
  reset_line = λ e. e;
  data_received = λ s e. e;
  data_sent = λ s zlp e. e;
}

abbrev serial_port : Acm ℕ
serial_port = record {
  line_config = no_config;
  in_ep_mps = 64;
  ep_out = 2;
  ep_in = 3;
  ep_notify = 0;
  env = 0;
}

abbrev set_line_coding : Message
set_line_coding = example_message 0x21 0x20 0 0 7

line_requests-Replies_example :
    Replies set_line_coding
      (Cdc.control_setup_request serial_clients first_interface set_line_coding serial_port)
    × Replies set_line_coding (Cdc.control_data_complete serial_clients set_line_coding serial_port)
line_requests-Replies_example =
    line_requests-Replies serial_clients first_interface set_line_coding serial_port
      (example_message-IsFresh 0x21 0x20 0 0 7)
