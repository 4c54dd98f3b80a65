-- ===== src/Ncm/Requests.antt =====
-- c2usb/usb/df/class/cdc_ncm.cpp: the control requests of the function, and its two interfaces.
use c2usb.Base.{ℕ, ◌+◌, ◌/◌, true, false, not, Option, none, some}
use c2usb.Base.{
  List, [], ◌∷◌, ◌++◌, ◌==◌, if◌then◌else◌, ◌>>=◌, ◌≡◌, ◌≤◌, length, arith, refl, Ensures,
}
use c2usb.Config.Element.{Interface, Endpoint, primary}
use c2usb.Function.Class.{is_class, with_state, with_state-Replies, is_in-of_class, is_out-of_class}
use c2usb.Function.Laws.{IsFresh, Replies, Replies-if, Ensures-if, send_value-Answers}
use c2usb.Message.Buffer.{append}
use c2usb.Message.Buffer.Laws.{append_lem}
use c2usb.Message.Reply.{
  Message, is_in, reject, confirm, le_bytes, send_value, send_buffer, receive_to_buffer,
}
use c2usb.Message.Reply.Laws.{
  IsReply, confirm-Answers, receive_data-Answers, reject-Answers, send-Appended,
}
use c2usb.Message.Transfer.{empty_span}
use c2usb.Ntb.{datagram_min_length}
use c2usb.Ntb.Receive.{RxCtx}
use c2usb.Ntb.Transmit.{TxCtx, base, init, set_input_size}
use c2usb.Serial.Memory.{store}
use c2usb.Usb.EndpointAddress.{dir_in, dir_out}
use c2usb.Ncm.{
  Ncm, disabled, enabled, suspended, connected, Clients, InFlags, no_flags, set_in_flags,
}
use c2usb.Ncm.Link.{state_eq}

-- `parameters`, of 28 bytes.
unfoldable pub ntb_parameters : TxCtx → RxCtx → List ℕ
ntb_parameters tx rx =
    le_bytes 2 28
    ++ (le_bytes 2 1
        ++ (le_bytes 4 tx.size
            ++ (le_bytes 2 4
                ++ (le_bytes 2 0
                    ++ (le_bytes 2 4
                        ++ (le_bytes 2 0
                            ++ (le_bytes 4 rx.size
                                ++ (le_bytes 2 4
                                    ++ (le_bytes 2 0
                                        ++ (le_bytes 2 4
                                            ++ le_bytes 2 (rx.size / datagram_min_length)))))))))))

-- `input_size`, of eight bytes.
unfoldable pub input_size : TxCtx → List ℕ
input_size tx = le_bytes 4 tx.max_size ++ (le_bytes 2 tx.dg_max_limit ++ le_bytes 2 0)

-- A structure in the control buffer, which is sent from there.
unfoldable pub send_bytes : List ℕ → Message → Option Message
send_bytes bytes m = append bytes m.buffer >>= λ b. send_buffer (record m { buffer = b })

module _ {E : Type 0} (c : Clients E) where
  unfoldable pub get_alt_setting : Interface → Ncm E → ℕ
  get_alt_setting iface n =
      if primary iface
      then 0
      else elim n.state [ disabled ↦ 0 | enabled ↦ 1 | suspended ↦ 0 | connected ↦ 1 ]

  unfoldable pub control_setup_request : Interface → Message → Ncm E → Option (Message × Ncm E)
  control_setup_request iface m n =
      let n' = record n { notify_index = m.request.w_index } in
      if not (primary iface)
      then with_state n (reject m)
      else if is_class dir_in 0x80 m.request.id
      then with_state n' (send_bytes (ntb_parameters n.tx n.rx) m)
      else if is_class dir_in 0x85 m.request.id
      then with_state n'
          (if c.limits then send_bytes (input_size n.tx) m else send_value 4 n.tx.max_size m)
      else if is_class dir_out 0x86 m.request.id
      then with_state n' (receive_to_buffer m)
      else with_state n' (reject m)

  unfoldable pub control_data_complete : Message → Ncm E → Option (Message × Ncm E)
  control_data_complete m n =
      if is_class dir_out 0x86 m.request.id
      then (let (accepted, tx) =
            set_input_size c.limits (c.memory_of n.env) m.data_xfer.data_ptr m.data_xfer.size
              n.tx in
          if accepted
          then with_state (record n { tx = tx }) (confirm m)
          else with_state n (reject m))
      else with_state n (confirm m)

  -- The first block of a data interface, with the sequence number 0.
  unfoldable pub start_transmit : TxCtx → TxCtx
  start_transmit tx =
      let tx' = record tx { page = 0 } in
      init (record tx' { memory = store tx'.memory (base tx' + 6) (le_bytes 2 0) })

  unfoldable pub enable_data : Ncm E → Ncm E
  enable_data n =
      let flags : InFlags = record {
        pending = false;
        manipulate = false;
        connected_flag = false;
        clear_to_send = true;
        notify = false;
      } in
      c.state_change n.state enabled (record n {
        tx = start_transmit n.tx;
        in_flags = flags;
        rx = record (n.rx) { page = 0 };
        page_0 = no_flags;
        page_1 = no_flags;
        state = enabled;
      })

  -- `none` is an interface without its endpoints.
  unfoldable pub open_data_eps : List (ℕ × Endpoint) → Ncm E → Option (Ncm E)
  open_data_eps ((p, out) ∷ (in_ep ∷ [])) n =
      let (eph, env) = c.open_ep (p, out) n.env in
      let (eph', env') = c.open_ep in_ep env in
      some (record n { in_ep_mps = out.max_packet_size; ep_out = eph; ep_in = eph'; env = env' })
  open_data_eps [] n = none
  open_data_eps (x ∷ []) n = none
  open_data_eps (x ∷ (y ∷ (z ∷ r))) n = none

  unfoldable pub open_notify_ep : List (ℕ × Endpoint) → Ncm E → Option (Ncm E)
  open_notify_ep [] n = none
  open_notify_ep (ep ∷ r) n =
      let (eph, env) = c.open_ep ep n.env in some (record n { ep_notify = eph; env = env })

  unfoldable pub enable : Interface → ℕ → Ncm E → Option (Ncm E)
  enable iface alt_sel n =
      if primary iface
      then (open_notify_ep (c.endpoints iface) n >>= λ n'.
          some (record n' { tx = record (n'.tx) { max_size = n'.tx.size } }))
      else if not (alt_sel == 0)
      then (open_data_eps (c.endpoints iface) n >>= λ n'. some (enable_data n'))
      else some n

  unfoldable pub disable_data : Ncm E → Ncm E
  disable_data n =
      let n1 =
        set_in_flags (record (n.in_flags) { connected_flag = false })
          (record n { state = disabled }) in
      let n2 = record (c.state_change n.state disabled n1) {
        ntb2send = empty_span;
        page_0 = no_flags;
        page_1 = no_flags;
      } in
      if state_eq n.state disabled then n else record n2 { env = c.cancel_ep n2.ep_notify n2.env }

  unfoldable pub disable : Interface → Ncm E → Ncm E
  disable iface n =
      if primary iface
      then (let (eph, env) = c.close_ep n.ep_notify n.env in
          record n { ep_notify = eph; env = env })
      else (let n1 = disable_data n in
          let (out, env) = c.close_ep n1.ep_out n1.env in
          let (in_ep, env') = c.close_ep n1.ep_in env in
          record n1 { ep_out = out; ep_in = in_ep; env = env' })

  parameters_size : (n : Ncm E) → length (ntb_parameters n.tx n.rx) ≡ 28
  unfolding ntb_parameters le_bytes
  parameters_size n = refl

  input_size_size : (n : Ncm E) → length (input_size n.tx) ≡ 8
  unfolding input_size le_bytes
  input_size_size n = refl

  send_bytes-Answers :
      (bytes : List ℕ) (m : Message)
      → IsFresh m
      → is_in m ≡ true
      → length bytes ≤ m.buffer.size
      → Ensures (IsReply m) (send_bytes bytes m)
  unfolding send_bytes
  send_bytes-Answers bytes m f i room =
      let (b, e, added) = (append_lem bytes m.buffer f.buffer).0 (ground (arith, f.unused)) in
      let (m', sent, sends) = send-Appended bytes m b f.pending i f.small f.unused added in
      (m', rw e sent, sends.0)

  setup-Replies :
      (iface : Interface) (m : Message) (n : Ncm E)
      → IsFresh m
      → 28 ≤ m.buffer.size
      → Replies m (control_setup_request iface m n)
  unfolding control_setup_request
  setup-Replies iface m n f room =
      let n' = record n { notify_index = m.request.w_index } in
      Replies-if (not (primary iface)) (λ _. with_state-Replies _ n (reject-Answers m f.pending))
        (λ _.
          Replies-if (is_class dir_in 0x80 m.request.id)
            (λ e. with_state-Replies _ n' (
              send_bytes-Answers (ntb_parameters n.tx n.rx) m f (is_in-of_class m 0x80 e)
                (omega (arith, parameters_size n))))
            (λ _.
              Replies-if (is_class dir_in 0x85 m.request.id)
                (λ e. with_state-Replies _ n' (
                  Ensures-if c.limits
                    (λ _.
                      send_bytes-Answers (input_size n.tx) m f (is_in-of_class m 0x85 e)
                        (omega (arith, input_size_size n)))
                    (λ _.
                      send_value-Answers 4 n.tx.max_size m f (is_in-of_class m 0x85 e)
                        (omega arith))))
                (λ _.
                  Replies-if (is_class dir_out 0x86 m.request.id)
                    (λ e.
                      with_state-Replies _ n'
                        (receive_data-Answers empty_span m f.pending (is_out-of_class m 0x86 e)).1)
                    (λ _. with_state-Replies _ n' (reject-Answers m f.pending)))))

  data-Replies : (m : Message) (n : Ncm E) → IsFresh m → Replies m (control_data_complete m n)
  unfolding control_data_complete
  data-Replies m n f =
      let r =
        set_input_size c.limits (c.memory_of n.env) m.data_xfer.data_ptr m.data_xfer.size n.tx in
      Replies-if (is_class dir_out 0x86 m.request.id)
        (λ _.
          Replies-if r.0
            (λ _.
              with_state-Replies (confirm m) (record n { tx = r.1 })
                (confirm-Answers true m f.pending).0)
            (λ _. with_state-Replies (reject m) n (reject-Answers m f.pending)))
        (λ _. with_state-Replies (confirm m) n (confirm-Answers true m f.pending).0)

  -- The function answers each control request, for either of its interfaces, and the end of each data stage, also when
  -- the size that it received is refused: the message is pending, with an empty buffer of at least 28 bytes.
  pub ncm_requests-Replies :
      (iface : Interface) (m : Message) (n : Ncm E)
      → IsFresh m
      → 28 ≤ m.buffer.size
      → Replies m (control_setup_request iface m n) × Replies m (control_data_complete m n)
  ncm_requests-Replies iface m n f room = (setup-Replies iface m n f room, data-Replies m n f)
