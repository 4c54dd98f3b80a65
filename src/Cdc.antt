-- ===== src/Cdc.antt =====
-- c2usb/usb/df/class/cdc.hpp, cdc_acm.hpp and cdc_acm.cpp: the serial line of a CDC ACM function.
use c2usb.Base.{ℕ, Bool, true, not}
use c2usb.Base.{Option, none, some, List, [], ◌∷◌, if◌then◌else◌, ◌==◌}
use c2usb.Config.Element.{Interface, Endpoint, primary}
use c2usb.Core.{Result, Drivers}
use c2usb.Function.Class.{is_class, with_state, with_state-Replies, is_in-of_class, is_out-of_class}
use c2usb.Function.Laws.{IsFresh, Replies, Replies-if, OverridesReply}
use c2usb.Message.Reply.{Message, reject, confirm, send_data, receive_to_buffer}
use c2usb.Message.Reply.Laws.{
  confirm-Answers, send_data-Answers, receive_data-Answers, reject-Answers,
}
use c2usb.Message.Transfer.{Transfer, Span, empty_span, transferred_size, needs_zlp, to_span}
use c2usb.Usb.Control.{low_byte}
use c2usb.Usb.EndpointAddress.{dir_in, dir_out}

-- `line_coding`, seven packed bytes, and `line_config`.
pub record LineConfig : Type 0 where
  pub coding : List ℕ
  pub control_line_state : ℕ

abbrev pub no_config : LineConfig
no_config = record { coding = 0 ∷ 0 ∷ 0 ∷ 0 ∷ 0 ∷ 0 ∷ 0 ∷ []; control_line_state = 0 }

-- The members of `cdc::function` and `acm::function` over their surroundings.
pub record Acm (E : Type 0) : Type 0 where
  pub line_config : LineConfig
  pub in_ep_mps : ℕ
  pub ep_out : ℕ
  pub ep_in : ℕ
  pub ep_notify : ℕ
  pub env : E

-- What the function is a client of: the endpoint operations of its base class, the bytes in memory, and the virtual
-- methods of the serial port above it.
pub record Clients (E : Type 0) : Type 0 where
  pub endpoints : Interface → List (ℕ × Endpoint)
  pub open_ep : ℕ × Endpoint → E → ℕ × E
  pub close_ep : ℕ → E → ℕ × E
  pub send_ep : ℕ → Span → E → Result × E
  pub receive_ep : ℕ → Span → E → Result × E
  pub bytes_at : Span → E → List ℕ
  pub config_address : ℕ
  pub set_line : LineConfig → LineConfig → E → E
  pub reset_line : E → E
  pub data_received : Span → E → E
  pub data_sent : Span → Bool → E → E

module _ {E : Type 0} (c : Clients E) where
  -- The state changes first, and the port is told of it.
  unfoldable pub change_line : LineConfig → Acm E → Acm E
  change_line cfg a = record a { line_config = cfg; env = c.set_line a.line_config cfg a.env }

  unfoldable pub set_control_line_state : ℕ → Acm E → Acm E
  set_control_line_state state a =
      if a.line_config.control_line_state == state
      then a
      else change_line (record (a.line_config) { control_line_state = state }) a

  unfoldable pub control_setup_request : Interface → Message → Acm E → Option (Message × Acm E)
  control_setup_request iface m a =
      if not (primary iface)
      then with_state a (reject m)
      else if is_class dir_out 0x20 m.request.id
      then with_state a (receive_to_buffer m)
      else if is_class dir_in 0x21 m.request.id
      then with_state a (send_data (record { ptr = c.config_address; len = 7 }) m)
      else if is_class dir_out 0x22 m.request.id
      then with_state (set_control_line_state (low_byte m.request.w_value) a) (confirm m)
      else with_state a (reject m)

  unfoldable pub control_data_complete : Message → Acm E → Option (Message × Acm E)
  control_data_complete m a =
      if is_class dir_out 0x20 m.request.id
      then (if m.data_xfer.size == 7
          then with_state
              (change_line
                (record (a.line_config) { coding = c.bytes_at (to_span m.data_xfer) a.env }) a)
              (confirm m)
          else with_state a (reject m))
      else with_state a (confirm m)

  -- `open_notify_ep`; `none` is an interface without the endpoint.
  unfoldable pub open_notify_ep : List (ℕ × Endpoint) → Acm E → Option (Acm E)
  open_notify_ep [] a = none
  open_notify_ep (ep ∷ r) a =
      let (eph, env) = c.open_ep ep a.env in some (record a { ep_notify = eph; env = env })

  -- `open_data_eps`, of exactly two endpoints; the packet size is the first one's.
  unfoldable pub open_data_eps : List (ℕ × Endpoint) → Acm E → Option (Acm E)
  open_data_eps ((p, out) ∷ (in_ep ∷ [])) a =
      let (eph, env) = c.open_ep (p, out) a.env in
      let (eph', env') = c.open_ep in_ep env in
      some (record a { in_ep_mps = out.max_packet_size; ep_out = eph; ep_in = eph'; env = env' })
  open_data_eps [] a = none
  open_data_eps (x ∷ []) a = none
  open_data_eps (x ∷ (y ∷ (z ∷ r))) a = none

  unfoldable pub enable : Interface → Acm E → Option (Acm E)
  enable iface a =
      if primary iface
      then open_notify_ep (c.endpoints iface) a
      else open_data_eps (c.endpoints iface) a

  unfoldable pub disable : Interface → Acm E → Acm E
  disable iface a =
      if primary iface
      then (let (eph, env) = c.close_ep a.ep_notify (c.reset_line a.env) in
          record a { line_config = no_config; ep_notify = eph; env = env })
      else (let (out, env) = c.close_ep a.ep_out a.env in
          let (in_ep, env') = c.close_ep a.ep_in env in
          record a { ep_out = out; ep_in = in_ep; env = env' })

  unfoldable pub ep_callback : Transfer → Acm E → Acm E
  ep_callback t a =
      let carried : Span = record { ptr = t.data_ptr; len = transferred_size t } in
      if t.endpoint == a.ep_out
      then record a { env = c.data_received carried a.env }
      else if t.endpoint == a.ep_in
      then record a { env = c.data_sent carried (needs_zlp t a.in_ep_mps) a.env }
      else a

  unfoldable pub send_to_host : Span → Acm E → Result × Acm E
  send_to_host s a = let (res, env) = c.send_ep a.ep_in s a.env in (res, record a { env = env })

  unfoldable pub receive_from_host : Span → Acm E → Result × Acm E
  receive_from_host s a =
      let (res, env) = c.receive_ep a.ep_out s a.env in (res, record a { env = env })

  acm_setup-Replies :
      (iface : Interface) (m : Message) (a : Acm E)
      → IsFresh m
      → Replies m (control_setup_request iface m a)
  unfolding control_setup_request
  acm_setup-Replies iface m a f =
      Replies-if (not (primary iface))
        (λ _. with_state-Replies (reject m) a (reject-Answers m f.pending))
        (λ _.
          Replies-if (is_class dir_out 0x20 m.request.id)
            (λ e.
              with_state-Replies _ a
                (receive_data-Answers empty_span m f.pending (is_out-of_class m 0x20 e)).1)
            (λ _.
              Replies-if (is_class dir_in 0x21 m.request.id)
                (λ e.
                  with_state-Replies _ a
                    (send_data-Answers _ m f.pending (is_in-of_class m 0x21 e)).0)
                (λ _.
                  Replies-if (is_class dir_out 0x22 m.request.id)
                    (λ _. with_state-Replies (confirm m) _ (confirm-Answers true m f.pending).0)
                    (λ _. with_state-Replies (reject m) a (reject-Answers m f.pending)))))

  acm_data-Replies : (m : Message) (a : Acm E) → IsFresh m → Replies m (control_data_complete m a)
  unfolding control_data_complete
  acm_data-Replies m a f =
      Replies-if (is_class dir_out 0x20 m.request.id)
        (λ _.
          Replies-if (m.data_xfer.size == 7)
            (λ _. with_state-Replies (confirm m) _ (confirm-Answers true m f.pending).0)
            (λ _. with_state-Replies (reject m) a (reject-Answers m f.pending)))
        (λ _. with_state-Replies (confirm m) a (confirm-Answers true m f.pending).0)

  -- The serial function answers each control request, for either of its interfaces, and the end of each data stage,
  -- also when the line coding that it received has the wrong size: the message is pending, with an empty buffer.
  pub line_requests-Replies :
      (iface : Interface) (m : Message) (a : Acm E)
      → IsFresh m
      → Replies m (control_setup_request iface m a) × Replies m (control_data_complete m a)
  line_requests-Replies iface m a f = (acm_setup-Replies iface m a f, acm_data-Replies m a f)

  -- The drivers of a device whose functions are this one.
  abbrev pub acm_drivers : Drivers (Acm E) → Drivers (Acm E)
  acm_drivers d = record d {
    control_setup_request = control_setup_request;
    control_data_complete = λ _ m a. control_data_complete m a;
    disable = disable;
  }

  -- The serial function keeps to what the core asks of a function's overrides.
  pub acm_drivers-OverridesReply : (d : Drivers (Acm E)) → OverridesReply (acm_drivers d)
  acm_drivers-OverridesReply d = record {
    setup_replies = acm_setup-Replies;
    data_replies = λ i m a f. acm_data-Replies m a f;
  }
