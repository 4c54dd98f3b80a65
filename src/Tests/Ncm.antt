-- ===== src/Tests/Ncm.antt =====
-- The CDC NCM function at fixed states.
use c2usb.Base.{ℕ, ◌≡◌, refl, arith, Bool, true, false, none, some, []}
use c2usb.Function.Laws.{Replies}
use c2usb.Message.Reply.{Message}
use c2usb.Message.Transfer.{Transfer, success, empty_span, is_success, handle_valid}
use c2usb.Ncm.{
  Ncm, NcmState, disabled, enabled, suspended, connected, NcmResult, device_or_resource_busy,
  Clients, InFlags, no_flags, is_ok, set_in_flags, set_notify, set_receiving, set_page_flags,
  any_receiving, is_connected, page_flags,
}
use c2usb.Ncm
use c2usb.Ncm.Coherent.{IsCoherent}
use c2usb.Ncm.Link.{state_eq, switch_link, start_receiving, notify_ep_callback}
use c2usb.Ncm.Quiet.{IsQuiet}
use c2usb.Ncm.Receive.{ntb_receive}
use c2usb.Ncm.Reconnect.{start_receiving_busy}
use c2usb.Ncm.Requests.{control_setup_request, control_data_complete, ncm_requests-Replies}
use c2usb.Ncm.Steps.{Reach, here, next, takes, reach-IsCoherent}
use c2usb.Ncm.Keeps.{same_link_of}
use c2usb.Tests.Data.{example_message, first_interface}
use c2usb.Tests.Devices.{example_message-IsFresh}

-- Endpoints that answer with one result.
abbrev clients : NcmResult → Clients ℕ
clients res = record {
  asserts = true;
  limits = false;
  payload = 4000;
  endpoints = λ i. [];
  open_ep = λ ep e. (1, e);
  close_ep = λ eph e. (0, e);
  cancel_ep = λ eph e. e;
  send_ep = λ eph s e. (res, e);
  receive_ep = λ eph s e. (res, e);
  memory_of = λ e a. 0;
  bitrate_of = λ high. 12;
  state_change = λ a b n. n;
  data_received = λ n. n;
  tx_buffer_available = λ n. n;
}

abbrev working : Clients ℕ
working = clients Ncm.ok

abbrev in_flags : Bool → Bool → InFlags
in_flags link pending = record {
  pending = false;
  manipulate = false;
  connected_flag = link;
  clear_to_send = true;
  notify = pending;
}

abbrev function : NcmState → InFlags → Ncm ℕ
function st flags = record {
  state = st;
  in_flags = flags;
  page_0 = no_flags;
  page_1 = no_flags;
  ntb2send = empty_span;
  connection_value = 0;
  bit_rate = 0;
  notify_index = 0;
  tx = record {
    memory = λ a. 0;
    buf = 0;
    size = 2048;
    page = 0;
    max_size = 2048;
    rem_size = 2024;
    index = 12;
    dg_count = 0;
    dg_max_limit = 0;
  };
  rx = record {
    memory = λ a. 0;
    size = 2048;
    page = 0;
    length_0 = 0;
    length_1 = 0;
    hdr = 0;
    dpt = 0;
    table_index = 0;
  };
  in_ep_mps = 512;
  ep_out = 2;
  ep_in = 3;
  ep_notify = 4;
  env = 0;
}

working-IsQuiet : IsQuiet working
unfolding handle_valid
working-IsQuiet = record {
  tells = λ a b n. (n.env, refl);
  hears = λ n. same_link_of n;
  offers = λ n. same_link_of n;
  closes = λ eph e. refl;
}

-- The notification is under way, and then the link is there.
abbrev connecting : Ncm ℕ
connecting = record (function enabled (in_flags false true)) { connection_value = 1; bit_rate = 12 }

abbrev linked : Ncm ℕ
linked = record (function connected (in_flags true false)) {
  connection_value = 1;
  bit_rate = 12;
  page_0 = record no_flags { receiving = true };
}

abbrev done : Transfer
done = record { data_ptr = 4000; size = 24; outcome = success; endpoint = 4 }

connecting-IsCoherent : IsCoherent connecting
unfolding handle_valid
connecting-IsCoherent = record {
  when_connected = λ e. absurd (cc);
  when_enabled = λ _. refl;
  when_disabled = λ e. absurd (cc);
  when_closed = λ _. refl;
  toggles = λ _ _. refl;
}

linked_lem : notify_ep_callback working done connecting ≡ some linked
unfolding notify_ep_callback is_success switch_link set_in_flags state_eq start_receiving
    ntb_receive is_connected set_receiving set_page_flags any_receiving is_ok page_flags
linked_lem = refl

a_link : Reach working connecting linked
unfolding is_success handle_valid
a_link = next here (takes done refl refl refl linked_lem)

reach-IsCoherent_example : IsCoherent linked
reach-IsCoherent_example = reach-IsCoherent working working-IsQuiet connecting-IsCoherent a_link

abbrev refusing : Clients ℕ
refusing = clients device_or_resource_busy

start_receiving_busy_example :
    (refusing.asserts ≡ true → start_receiving refusing linked ≡ none)
    × (refusing.asserts ≡ false
        → (n' : Ncm ℕ) × (start_receiving refusing linked ≡ some n') × (any_receiving n' ≡ false))
start_receiving_busy_example = start_receiving_busy refusing linked refl (λ eph s e. refl)

abbrev parameters_message : Message
parameters_message = example_message 0xa1 0x80 0 0 28

ncm_requests-Replies_example :
    Replies parameters_message
      (control_setup_request working first_interface parameters_message connecting)
    × Replies parameters_message (control_data_complete working parameters_message connecting)
ncm_requests-Replies_example =
    ncm_requests-Replies working first_interface parameters_message connecting
      (example_message-IsFresh 0xa1 0x80 0 0 28) (omega arith)
