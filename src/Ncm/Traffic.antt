-- ===== src/Ncm/Traffic.antt =====
-- The transmission and the control requests leave the connection alone.

use c2usb.Base.{refl, arith}
use c2usb.Base.{true, false, not, ◌&&◌, ◌||◌, Option, none, ◌==◌, if◌then◌else◌, ltb}
use c2usb.Base.{if-Holds, When, When-none, When-some, When-bind}
use c2usb.Config.Element.{Interface}
use c2usb.Function.Class.{with_state}
use c2usb.Message.Reply.{Message, reject, confirm, send_value, receive_to_buffer}
use c2usb.Message.Transfer.{Span, Transfer, empty_span, needs_zlp}
use c2usb.Ntb.Transmit.{set_input_size}
use c2usb.Ntb.Transmit
use c2usb.Ncm.{Ncm, NcmResult, ok, Clients, InFlags, is_ok, set_in_flags}
use c2usb.Ncm.Transmit.{send_data, try_send, commit_datagram, sent, send_next}
use c2usb.Ncm.Requests.{
  ntb_parameters, input_size, send_bytes, control_setup_request, control_data_complete,
}
use c2usb.Ncm.Keeps.{same_link_of, KeepsLink-trans, of_link, Keeps}
use c2usb.Ncm.Coherent.{KeepsLink, try_send-KeepsLink}

module _ {E : Type 0} (c : Clients E) where
  pub sent-KeepsLink : (t : Transfer) (n : Ncm E) → KeepsLink n (sent c t n)
  unfolding sent set_in_flags
  sent-KeepsLink t n = record {
    same_state = ground arith;
    same_link = ground arith;
    same_notify = ground arith;
    same_value = ground arith;
    same_ep = ground arith;
  }

  empty_packet-KeepsLink :
      (n : Ncm E)
      → let (res, n1) = send_data c empty_span n in
        KeepsLink n (
          if is_ok res
          then set_in_flags (record (n1.in_flags) { clear_to_send = false }) n1
          else n1)
  unfolding send_data set_in_flags
  empty_packet-KeepsLink n = record {
    same_state = ground arith;
    same_link = ground arith;
    same_notify = ground arith;
    same_value = ground arith;
    same_ep = ground arith;
  }

  pub send_next-KeepsLink :
      ((x : Ncm E) → KeepsLink x (c.tx_buffer_available x))
      → (t : Transfer) (flags : InFlags) (n : Ncm E) → KeepsLink n (send_next c t flags n)
  unfolding send_next
  send_next-KeepsLink available t flags n =
      let P : Ncm E → Type 0 = λ x. KeepsLink n x in
      let (res, n1) = try_send c n in
      let k1 = try_send-KeepsLink c n in
      if-Holds P (not flags.connected_flag) n _ (same_link_of n) (
        if-Holds P (not (n.ntb2send.len == 0) || flags.pending) _ _
          (if-Holds P (is_ok res && flags.pending) (c.tx_buffer_available n1) n1
            (KeepsLink-trans n n1 _ k1 (available n1)) k1)
          (if-Holds P
            ((t.endpoint == n.ep_in) && ltb t.size n.tx.max_size && needs_zlp t n.in_ep_mps) _ n
            (empty_packet-KeepsLink n) (same_link_of n)))

  pub commit_datagram-Keeps : (dg : Span) (n : Ncm E) → Keeps n (commit_datagram c dg n)
  unfolding commit_datagram
  commit_datagram-Keeps dg n =
      let P : NcmResult × Ncm E → Type 0 = λ r. KeepsLink n r.1 in
      let f = record (n.in_flags) { pending = true; manipulate = false } in
      if-Holds (λ o. When P o) (c.asserts && n.in_flags.manipulate) none _ (When-none P)
        (When-bind P (Transmit.commit_datagram c.asserts dg n.tx) _ (λ tx e.
          let n1 = record n { tx = tx; in_flags = f } in
          let k1 = of_link n n1 refl in
          let n2 = (try_send c n1).1 in
          let send = f.clear_to_send && f.connected_flag in
          When-some P (ok, if send then n2 else n1)
            (if-Holds (λ (x : Ncm E). KeepsLink n x) send n2 n1
              (KeepsLink-trans n n1 n2 k1 (try_send-KeepsLink c n1)) k1)))

  with_state-Keeps :
      (n n' : Ncm E) (o : Option Message) → KeepsLink n n' → Keeps n (with_state n' o)
  with_state-Keeps n n' o k =
      When-bind (λ r. KeepsLink n r.1) o _ (λ m e. When-some (λ r. KeepsLink n r.1) (m, n') k)

  pub control_setup-Keeps :
      (iface : Interface) (m : Message) (n : Ncm E) → Keeps n (control_setup_request c iface m n)
  unfolding control_setup_request
  control_setup-Keeps iface m n =
      let Q : Option (Message × Ncm E) → Type 0 = λ o. Keeps n o in
      let n' = record n { notify_index = m.request.w_index } in
      let k = of_link n n' refl in
      if-Holds Q _ _ _ (with_state-Keeps n n (reject m) (same_link_of n)) (
        if-Holds Q _ _ _ (with_state-Keeps n n' (send_bytes (ntb_parameters n.tx n.rx) m) k) (
          if-Holds Q _ _ _
            (with_state-Keeps n n'
              (if c.limits then send_bytes (input_size n.tx) m else send_value 4 n.tx.max_size m) k)
            (if-Holds Q _ _ _ (with_state-Keeps n n' (receive_to_buffer m) k)
              (with_state-Keeps n n' (reject m) k))))

  pub control_data-Keeps : (m : Message) (n : Ncm E) → Keeps n (control_data_complete c m n)
  unfolding control_data_complete
  control_data-Keeps m n =
      let Q : Option (Message × Ncm E) → Type 0 = λ o. Keeps n o in
      let (accepted, tx) =
        set_input_size c.limits (c.memory_of n.env) m.data_xfer.data_ptr m.data_xfer.size n.tx in
      let n' = record n { tx = tx } in
      if-Holds Q _ _ _
        (if-Holds Q accepted _ _ (with_state-Keeps n n' (confirm m) (of_link n n' refl))
          (with_state-Keeps n n (reject m) (same_link_of n)))
        (with_state-Keeps n n (confirm m) (same_link_of n))
