-- ===== src/Ncm/Link.antt =====
-- c2usb/usb/df/class/cdc_ncm.cpp: the connection's state, its notifications, and the callbacks of the endpoints.
use c2usb.Base.{ℕ, ◌+◌, Bool, true, false, not, ◌&&◌, ◌||◌, Option, none, some, if◌then◌else◌, ltb}
use c2usb.Base.{◌==◌, ◌>>=◌, option_case}
use c2usb.Message.Transfer.{Span, Transfer, empty_span, is_success, handle_valid}
use c2usb.Ncm.{
  Ncm, NcmState, disabled, enabled, suspended, connected, NcmResult, connection_reset,
  connection_already_in_progress, network_down, device_or_resource_busy, Clients, is_ok,
  set_in_flags, set_notify, is_connected,
}
use c2usb.Ncm.Receive.{ntb_receive, ep_out_callback}
use c2usb.Ncm.Transmit.{try_send, sent, send_next}

-- What `connect` and `disconnect` refuse in a state.
unfoldable pub connect_refused : NcmState → Option NcmResult
connect_refused disabled = some connection_reset
connect_refused connected = some connection_already_in_progress
connect_refused suspended = some network_down
connect_refused enabled = none

unfoldable pub disconnect_refused : NcmState → Option NcmResult
disconnect_refused disabled = some connection_reset
disconnect_refused enabled = some connection_already_in_progress
disconnect_refused suspended = some network_down
disconnect_refused connected = none

-- `compare_exchange_strong` of the state.
unfoldable pub state_eq : NcmState → NcmState → Bool
state_eq disabled disabled = true
state_eq enabled enabled = true
state_eq suspended suspended = true
state_eq connected connected = true
state_eq _ _ = false

abbrev pub same : Bool → Bool → Bool
same a b = if a then b else not b

module _ {E : Type 0} (c : Clients E) where
  -- The notification, with its flag, which an endpoint that refuses it clears again.
  unfoldable pub notify : ℕ → ℕ → Ncm E → NcmResult × Ncm E
  notify at size n =
      let payload : Span = record { ptr = c.payload + at; len = size } in
      let (res, env) = c.send_ep n.ep_notify payload n.env in
      let n1 = set_notify true (record n { env = env }) in
      (res, if is_ok res then n1 else set_notify false n1)

  unfoldable pub connect_rate : ℕ → Ncm E → NcmResult × Ncm E
  connect_rate bitrate n =
      option_case (connect_refused n.state)
        (if n.in_flags.notify
          then (device_or_resource_busy, n)
          else notify 0 24 (record n { bit_rate = bitrate; connection_value = 1 }))
        (λ e. (e, n))

  unfoldable pub connect : Ncm E → NcmResult × Ncm E
  connect n = connect_rate (c.bitrate_of (ltb 64 n.in_ep_mps)) n

  unfoldable pub disconnect : Ncm E → NcmResult × Ncm E
  disconnect n =
      option_case (disconnect_refused n.state)
        (if n.in_flags.notify
          then (device_or_resource_busy, n)
          else notify 16 8 (record n { connection_value = 0 }))
        (λ e. (e, n))

  -- The state after a resume.
  unfoldable pub resumed_state : Ncm E → NcmState
  resumed_state n =
      if not (handle_valid n.ep_out)
      then disabled
      else if n.in_flags.connected_flag
      then connected
      else enabled

  unfoldable pub suspend : Ncm E → Ncm E
  suspend n = c.state_change n.state suspended (record n { state = suspended })

  unfoldable pub resume : Ncm E → Ncm E
  resume n =
      let new_state = resumed_state n in
      let n1 =
        if state_eq n.state suspended
        then c.state_change suspended new_state (record n { state = new_state })
        else n in
      if is_connected n1 then (try_send c n1).1 else n1

  unfoldable pub power_state_change : Bool → Ncm E → Ncm E
  power_state_change on n = if on then resume n else suspend n

  -- The flags and the state after a notification that the host took.
  unfoldable pub switch_link : Bool → Ncm E → Ncm E
  switch_link link n =
      let f = n.in_flags in
      let n1 =
        set_in_flags (record f { connected_flag = not f.connected_flag; notify = not f.notify })
          n in
      let n2 = if link then n1 else record n1 { ntb2send = empty_span } in
      let old_state = if link then enabled else connected in
      let new_state = if link then connected else enabled in
      if state_eq n2.state old_state
      then c.state_change old_state new_state (record n2 { state = new_state })
      else n2

  -- The reception on a new link; `none` is the failed assertion.
  unfoldable pub start_receiving : Ncm E → Option (Ncm E)
  start_receiving n =
      let (first, n1) = ntb_receive c 0 false n in
      let (second, n2) = ntb_receive c 1 false n1 in
      if first then some n1 else if second || not c.asserts then some n2 else none

  unfoldable pub notify_ep_callback : Transfer → Ncm E → Option (Ncm E)
  notify_ep_callback t n =
      let link = not (n.connection_value == 0) in
      if is_success t
      then (if c.asserts && not (n.in_flags.notify && same (not n.in_flags.connected_flag) link)
          then none
          else if link
          then start_receiving (switch_link link n)
          else some (switch_link link n))
      else (let n1 = set_notify false n in some (c.state_change n1.state n1.state n1))

  unfoldable pub ep_in_callback : Transfer → Ncm E → Option (Ncm E)
  ep_in_callback t n =
      if t.endpoint == n.ep_notify
      then (notify_ep_callback t n >>= λ n1. some (send_next c t n1.in_flags n1))
      else if t.endpoint == n.ep_in
      then some (send_next c t n.in_flags (sent c t n))
      else some (send_next c t n.in_flags n)

  unfoldable pub ep_callback : Transfer → Ncm E → Option (Ncm E)
  ep_callback t n =
      if t.endpoint == n.ep_out then some (ep_out_callback c t n) else ep_in_callback t n
