-- ===== src/Hid/Requests.antt =====
-- c2usb/usb/df/class/hid.cpp: the control requests of the HID function.
use c2usb.Base.{ℕ, ◌%◌, ◌^◌, Bool, true, not, ◌&&◌, ◌||◌, Option, none, some}
use c2usb.Base.{List, ◌∷◌, leb, ◌==◌, if◌then◌else◌, ◌>>=◌}
use c2usb.Config.Element.{Interface}
use c2usb.Function.Class.{is_class, with_state}
use c2usb.Message.Buffer.{append}
use c2usb.Message.Reply.{
  Message, reject, confirm, le_bytes, send_value, send_data, send_buffer, receive_data,
  receive_to_buffer, set_accept,
}
use c2usb.Message.Transfer.{Span, empty_span, handle_valid, to_span}
use c2usb.Usb.Control.{
  RequestId, request_id, id_eq, low_byte, high_byte, standard, to_interface, get_descriptor_code,
}
use c2usb.Usb.EndpointAddress.{dir_in, dir_out}
use c2usb.Hid.{
  session_case, Session, Hid, Clients, Traits, get_idle, set_idle, protocol, rx_buffer,
  set_rx_buffer, start,
}

abbrev pub is_get_descriptor : RequestId → Bool
is_get_descriptor r = id_eq r (request_id dir_in standard to_interface get_descriptor_code)

-- `usb::hid::control`
abbrev pub is_get_report : RequestId → Bool
is_get_report r = is_class dir_in 0x01 r

abbrev pub is_get_idle : RequestId → Bool
is_get_idle r = is_class dir_in 0x02 r

abbrev pub is_get_protocol : RequestId → Bool
is_get_protocol r = is_class dir_in 0x03 r

abbrev pub is_set_report : RequestId → Bool
is_set_report r = is_class dir_out 0x09 r

abbrev pub is_set_idle : RequestId → Bool
is_set_idle r = is_class dir_out 0x0a r

abbrev pub is_set_protocol : RequestId → Bool
is_set_protocol r = is_class dir_out 0x0b r

-- The HID descriptor with one class descriptor, of the version 1.11.
unfoldable pub hid_descriptor : Traits → Span → List ℕ
hid_descriptor tr report =
    9 ∷ 0x21 ∷ 0x11 ∷ 0x01 ∷ tr.country_code ∷ 1 ∷ 0x22 ∷ le_bytes 2 report.len

unfoldable pub get_descriptor : Traits → Span → Message → Option Message
get_descriptor tr report m =
    if high_byte m.request.w_value == 0x21
    then (append (hid_descriptor tr report) m.buffer >>= λ b. send_buffer (record m { buffer = b }))
    else if high_byte m.request.w_value == 0x22
    then send_data report m
    else reject m

module _ {E : Type 0} (c : Clients E) (tr : Traits) where
  abbrev pub Step : Type 0
  Step = Option (Message × Hid E)

  -- `session_->…`; none is the null pointer.
  abbrev pub on_session : Hid E → (Session → Step) → Step
  on_session h f = session_case h.session none f

  unfoldable pub get_report : Message → Hid E → Step
  get_report m h =
      if c.is_report_type (c.selector_type m.request.w_value)
      then on_session h (λ s.
        let buffer : Span = record { ptr = m.buffer.data_ptr; len = m.buffer.size } in
        let (bytes, h') = c.get_report m.request.w_value buffer s h in
        with_state h' (if bytes.len == 0 then reject m else send_data bytes m))
      else with_state h (reject m)

  -- The application's buffer is not used for reports that come through the OUT endpoint.
  unfoldable pub set_report : Message → Hid E → Option Message
  set_report m h =
      let type = high_byte m.request.w_value in
      let allow_app_buffer = (type == c.type_feature) || not (handle_valid h.ep_out) in
      if (type == c.type_feature) || (type == c.type_output)
      then (if allow_app_buffer && leb m.request.w_length (rx_buffer c type h).len
          then receive_data (rx_buffer c type h) m
          else if leb m.request.w_length m.buffer.size
          then receive_to_buffer m
          else reject m)
      else reject m

  unfoldable pub current_protocol : Hid E → ℕ
  current_protocol h = session_case h.session c.protocol_report (protocol c)

  unfoldable pub boot_mode_of : ℕ → ℕ
  boot_mode_of prot = if prot == c.protocol_boot then tr.protocol_mode else c.mode_none

  unfoldable pub needs_start : ℕ → Hid E → Bool
  needs_start mode h = session_case h.session true (λ s. not (s.boot_mode == mode))

  unfoldable pub set_protocol : Interface → Message → Hid E → Step
  set_protocol iface m h =
      let prot = low_byte m.request.w_value in
      if c.is_protocol prot
        && (not (tr.protocol_mode == c.mode_none) || (prot == c.protocol_report))
      then ((if needs_start (boot_mode_of prot) h
            then start c m.asserts iface (boot_mode_of prot) h
            else some h)
          >>= λ h'. with_state h' (confirm m))
      else with_state h (reject m)

  -- The application starts with the first request that is not about the protocol.
  unfoldable pub started : Interface → Message → Hid E → Option (Hid E)
  started iface m h =
      session_case h.session
        (if not (is_set_protocol m.request.id) && not (is_get_protocol m.request.id)
          then start c m.asserts iface c.mode_none h
          else some h)
        (λ s. some h)

  unfoldable pub handle_request : Interface → Message → Hid E → Step
  handle_request iface m h =
      let value_lb = low_byte m.request.w_value in
      if is_get_descriptor m.request.id
      then with_state h (get_descriptor tr c.descriptor m)
      else if is_get_report m.request.id
      then get_report m h
      else if is_set_report m.request.id
      then with_state h (set_report m h)
      else if is_get_protocol m.request.id
      then with_state h (send_value 1 (current_protocol h) m)
      else if is_set_protocol m.request.id
      then set_protocol iface m h
      else if is_get_idle m.request.id
      then on_session h (λ s. with_state h (send_value 1 (get_idle value_lb s % 2 ^ 8) m))
      else if is_set_idle m.request.id
      then on_session h (λ s.
        let (accept, s') = set_idle value_lb (high_byte m.request.w_value) s in
        with_state (record h { session = some s' }) (set_accept accept m))
      else with_state h (reject m)

  unfoldable pub control_setup_request : Interface → Message → Hid E → Step
  control_setup_request iface m h = started iface m h >>= λ h'. handle_request iface m h'

  -- The bytes that a SET_REPORT received go to the application, whose buffer is given up.
  unfoldable pub control_data_complete : Message → Hid E → Step
  control_data_complete m h =
      let type = high_byte m.request.w_value in
      let received = to_span m.data_xfer in
      if is_set_report m.request.id
      then (let h' =
            if received.ptr == (rx_buffer c type h).ptr
            then set_rx_buffer c type empty_span h
            else h in
          on_session h' (λ s. with_state (c.set_report type received s h') (confirm m)))
      else with_state h (confirm m)
