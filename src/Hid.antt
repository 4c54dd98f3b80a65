-- ===== src/Hid.antt =====
-- c2usb/usb/df/class/hid.hpp and hid.cpp, with c2usb/hid/transport.hpp and the session of c2usb/hid/application.hpp.
pub mod Requests
pub mod Laws
pub mod Answers
pub mod Protocol
use c2usb.Base.{ℕ, zero, suc, ◌%◌, ◌^◌, ◌/◌, Bool, true, false, not, ◌&&◌, ◌||◌, Option, none, some}
use c2usb.Base.{List, [], ◌∷◌, ◌++◌, leb, ltb, ◌==◌, if◌then◌else◌, ◌>>=◌}
use c2usb.Config.Element.{Interface, Endpoint}
use c2usb.Core.{Result, ok}
use c2usb.Message.Buffer.{Buffer, append}
use c2usb.Message.Reply.{
  Message, reject, confirm, send_value, send_data, send_buffer, receive_data, receive_to_buffer,
  set_accept,
}
use c2usb.Message.Transfer.{Span, empty_span, Transfer, handle_valid, transferred_size}
use c2usb.Usb.Control.{
  RequestId, request_id, id_eq, low_byte, high_byte, class_type, standard, to_interface,
  get_descriptor_code,
}
use c2usb.Usb.EndpointAddress.{dir_in, dir_out}

-- `hid::session`; only its own members are here, the rest is the application's.
pub record Session : Type 0 where
  pub boot_mode : ℕ
  pub idle_rate : ℕ

-- The function object over its surroundings `env`: `app_base_function` with `reports_receiver`.
pub record Hid (E : Type 0) : Type 0 where
  pub session : Option Session
  pub rx_feature : Span
  pub rx_output : Span
  pub ep_in : ℕ
  pub ep_out : ℕ
  pub env : E

-- What the function is a client of: the values of the enumerations and the selector of the library hid-rp, the
-- endpoint operations of its base class, and the application's virtual methods, which may call back into the
-- function. `get_report` returns the report's bytes as a span.
pub record Clients (E : Type 0) : Type 0 where
  pub type_output : ℕ
  pub type_feature : ℕ
  pub is_report_type : ℕ → Bool
  pub selector_type : ℕ → ℕ
  pub protocol_boot : ℕ
  pub protocol_report : ℕ
  pub is_protocol : ℕ → Bool
  pub mode_none : ℕ
  pub endpoints : Interface → List (ℕ × Endpoint)
  pub open_ep : ℕ × Endpoint → E → ℕ × E
  pub close_ep : ℕ → E → ℕ × E
  pub send_ep : ℕ → Span → E → Result × E
  pub receive_ep : ℕ → Span → E → Result × E
  pub descriptor : Span
  pub start : ℕ → Hid E → Session × Hid E
  pub stop : Session → Hid E → Hid E
  pub get_report : ℕ → Span → Session → Hid E → Span × Hid E
  pub set_report : ℕ → Span → Session → Hid E → Hid E
  pub report_sent : Span → Session → Hid E → Hid E

-- The constant members: `protocol_mode_` and `country_code_`.
pub record Traits : Type 0 where
  pub protocol_mode : ℕ
  pub country_code : ℕ

-- The cases of a session pointer: null, or a session.
unfoldable pub session_case {ℓ} : {A : Type ℓ} → Option Session → A → (Session → A) → A
session_case none null f = null
session_case (some s) null f = f s

unfoldable pub get_idle : ℕ → Session → ℕ
get_idle report_id s = if report_id == 0 then s.idle_rate else 0

unfoldable pub set_idle : ℕ → ℕ → Session → Bool × Session
set_idle report_id idle_repeat s =
    (idle_repeat == 0, if report_id == 0 then record s { idle_rate = idle_repeat } else s)

module _ {E : Type 0} (c : Clients E) where
  unfoldable pub protocol : Session → ℕ
  protocol s = if s.boot_mode == c.mode_none then c.protocol_report else c.protocol_boot

  -- `reports_receiver::operator[]` of the types FEATURE and OUTPUT.
  unfoldable pub rx_buffer : ℕ → Hid E → Span
  rx_buffer type h = if type == c.type_feature then h.rx_feature else h.rx_output

  unfoldable pub set_rx_buffer : ℕ → Span → Hid E → Hid E
  set_rx_buffer type s h =
      if type == c.type_feature then record h { rx_feature = s } else record h { rx_output = s }

  -- `transport::stop`
  unfoldable pub transport_stop : Hid E → Hid E
  transport_stop h = session_case h.session h (λ s. record (c.stop s h) { session = none })

  -- `transport::start`
  unfoldable pub transport_start : ℕ → Hid E → Hid E
  transport_start mode h =
      let fresh =
        λ (h' : Hid E). (let (s, h'') = c.start mode h' in record h'' { session = some s }) in
      session_case h.session (fresh h) (λ s. if s.boot_mode == mode then h else fresh (c.stop s h))

  -- `close_eps`
  unfoldable pub close_eps : Hid E → Hid E
  close_eps h =
      let (ep_in, env) = c.close_ep h.ep_in h.env in
      let (ep_out, env') = c.close_ep h.ep_out env in
      record h { ep_in = ep_in; ep_out = ep_out; env = env' }

  unfoldable pub disable : Hid E → Hid E
  disable h = close_eps (transport_stop h)

  -- `open_eps` of at most two endpoints; `none` is more of them.
  unfoldable pub open_eps : List (ℕ × Endpoint) → Hid E → Option (Hid E)
  open_eps [] h = some h
  open_eps (i ∷ []) h =
      let (eph, env) = c.open_ep i h.env in some (record h { ep_in = eph; env = env })
  open_eps (i ∷ (o ∷ [])) h =
      let (eph, env) = c.open_ep i h.env in
      let (eph', env') = c.open_ep o env in
      some (record h { ep_in = eph; ep_out = eph'; env = env' })
  open_eps (i ∷ (o ∷ (x ∷ r))) h = none

  -- `app_base_function::start`
  unfoldable pub start : Bool → Interface → ℕ → Hid E → Option (Hid E)
  start asserts iface mode h = open_eps (c.endpoints iface) (disable h) >>= λ h'.
      if handle_valid h'.ep_in || not asserts then some (transport_start mode h') else none

  unfoldable pub send_report : Span → Hid E → Result × Hid E
  send_report s h = let (res, env) = c.send_ep h.ep_in s h.env in (res, record h { env = env })

  unfoldable pub receive_report : Span → ℕ → Hid E → Result × Hid E
  receive_report s type h =
      if (type == c.type_output) && handle_valid h.ep_out
      then (let (res, env) = c.receive_ep h.ep_out s h.env in (res, record h { env = env }))
      else (ok, set_rx_buffer type s h)

  -- The bytes that a transfer carried.
  unfoldable pub transferred : Transfer → Span
  transferred t = record { ptr = t.data_ptr; len = transferred_size t }

  unfoldable pub ep_callback : Transfer → Hid E → Hid E
  ep_callback t h = session_case h.session h (λ s.
      if t.endpoint == h.ep_in
      then c.report_sent (transferred t) s h
      else if t.endpoint == h.ep_out
      then c.set_report c.type_output (transferred t) s h
      else h)
