-- ===== src/Function/Endpoints.antt =====
-- c2usb/usb/df/function.cpp: a function's use of its endpoints, which goes to the mac while it is bound.
use c2usb.Base.{ℕ, ◌%◌, ◌^◌, ◌≡◌, refl, Bool, true, false, not, ◌&&◌, List, [], ◌∷◌, if◌then◌else◌}
use c2usb.Config.Element.{Endpoint}
use c2usb.Core.{l2_suspend, Result, connection_reset, Drivers, Device}
use c2usb.Function.{stall_ep}
use c2usb.Mac.{is_power_state}
use c2usb.Message.Transfer.{Transfer, Span, success, handle_valid}

-- `transfer(ep_handle, const uint8_t*, size_type)`, with the size cut to uint16_t.
unfoldable pub endpoint_transfer : ℕ → Span → Transfer
endpoint_transfer eph s = record {
  data_ptr = s.ptr;
  size = s.len % 2 ^ 16;
  outcome = success;
  endpoint = eph;
}

module _ {S : Type 0} (d : Drivers S) where
  -- A call of the mac that has a result, under the guard of the functions below.
  abbrev pub while_bound : ℕ → ℕ → (S → Result × S) → Device S → Result × Device S
  while_bound f eph call dev =
      if dev.bound f && handle_valid eph
      then (let (res, env) = call dev.env in (res, record dev { env = env }))
      else (connection_reset, dev)

  unfoldable pub open_ep : ℕ → ℕ × Endpoint → Device S → ℕ × Device S
  open_ep f (p, ep) dev =
      if dev.bound f && not ep.unused
      then (let (eph, env) = d.ep_open (p, ep) dev.env in (eph, record dev { env = env }))
      else (0, dev)

  -- `open_eps`: one handle for each endpoint.
  unfoldable pub open_eps : ℕ → List (ℕ × Endpoint) → Device S → List ℕ × Device S
  open_eps f [] dev = ([], dev)
  open_eps f (x ∷ r) dev =
      let (eph, dev') = open_ep f x dev in
      let (rest, dev'') = open_eps f r dev' in (eph ∷ rest, dev'')

  -- The handle is passed by reference.
  unfoldable pub close_ep : ℕ → ℕ → Device S → ℕ × Device S
  close_ep f eph dev =
      if dev.bound f && handle_valid eph
      then (let (eph', env) = d.ep_close eph dev.env in (eph', record dev { env = env }))
      else (eph, dev)

  unfoldable pub send_ep : ℕ → ℕ → Span → Device S → Result × Device S
  send_ep f eph s dev = while_bound f eph (d.ep_send (endpoint_transfer eph s)) dev

  unfoldable pub receive_ep : ℕ → ℕ → Span → Device S → Result × Device S
  receive_ep f eph s dev = while_bound f eph (d.ep_receive (endpoint_transfer eph s)) dev

  unfoldable pub cancel_ep : ℕ → ℕ → Device S → Result × Device S
  cancel_ep f eph dev = while_bound f eph (d.ep_cancel eph) dev

  unfoldable pub suspended : ℕ → Device S → Bool
  suspended f dev = if dev.bound f then is_power_state dev.mac.power_state l2_suspend else true

  -- The handles of a function that is not bound, and the invalid handle.
  pub Rejected : ℕ → ℕ → Bool → Span → Device S → Type 0
  Rejected f eph stall s dev =
      (send_ep f eph s dev ≡ (connection_reset, dev))
      × (receive_ep f eph s dev ≡ (connection_reset, dev))
      × (cancel_ep f eph dev ≡ (connection_reset, dev))
      × (close_ep f eph dev ≡ (eph, dev))
      × (stall_ep d f eph stall dev ≡ (connection_reset, dev))

  -- With an invalid handle, or while the function is not bound to the mac, no endpoint operation reaches the
  -- controller: sending, receiving, cancelling and stalling report a connection reset, and closing does nothing.
  pub endpoint_operations_guarded :
      (f eph : ℕ) (stall : Bool) (s : Span) (dev : Device S)
      → (dev.bound f && handle_valid eph) ≡ false
      → Rejected f eph stall s dev
  unfolding Rejected send_ep receive_ep cancel_ep close_ep stall_ep
  endpoint_operations_guarded f eph stall s dev h =
      (rw h refl, rw h refl, rw h refl, rw h refl, rw h refl)
