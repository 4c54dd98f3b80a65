-- ===== src/Ncm/Transmit.antt =====
-- c2usb/usb/df/class/cdc_ncm.cpp: the transmission of datagrams.
use c2usb.Base.{ℕ, ◌+◌, ◌-◌, Bool, true, false, not, ◌&&◌, ◌||◌, Option, none, some}
use c2usb.Base.{if◌then◌else◌, ◌==◌, ltb, ◌>>=◌}
use c2usb.Message.Transfer.{Span, Transfer, empty_span, is_success, needs_zlp}
use c2usb.Ntb.{datagram_min_length, header_size, table_size, pointer_size}
use c2usb.Ntb.Transmit
use c2usb.Ntb.Transmit.{TxCtx, pop_ntb}
use c2usb.Ncm.{
  Ncm, NcmState, disabled, enabled, suspended, connected, NcmResult, ok, network_down,
  invalid_argument, not_connected, not_enough_memory, resource_unavailable_try_again, Clients,
  InFlags, is_ok, set_in_flags, is_connected,
}

-- `max_datagram_size`, an int; 0 stands for the negative ones, which fit no datagram either.
unfoldable pub max_datagram_size : TxCtx → ℕ
max_datagram_size tx = tx.size - (header_size + table_size + pointer_size)

-- What a state that is not connected answers.
unfoldable pub link_error : NcmState → NcmResult
link_error connected = ok
link_error suspended = network_down
link_error disabled = not_connected
link_error enabled = not_connected

module _ {E : Type 0} (c : Clients E) where
  unfoldable pub allocate_datagram : ℕ → Ncm E → NcmResult × Span
  allocate_datagram size n =
      let dg = Transmit.allocate_datagram size n.tx in
      if ltb size datagram_min_length
      then (invalid_argument, empty_span)
      else if not (is_connected n)
      then (link_error n.state, empty_span)
      else if ltb (max_datagram_size n.tx) size
      then (not_enough_memory, empty_span)
      else if dg.len == 0
      then (resource_unavailable_try_again, dg)
      else (ok, dg)

  unfoldable pub send_data : Span → Ncm E → NcmResult × Ncm E
  send_data s n = let (res, env) = c.send_ep n.ep_in s n.env in (res, record n { env = env })

  -- The next block, unless one is still to be sent; and whether it was popped.
  unfoldable pub next_ntb : Ncm E → Bool × Ncm E
  next_ntb n =
      if n.ntb2send.len == 0
      then (let (ntb, tx) = pop_ntb n.tx in (true, record n { ntb2send = ntb; tx = tx }))
      else (false, n)

  unfoldable pub try_send : Ncm E → NcmResult × Ncm E
  try_send n =
      let (popped, n1) = next_ntb n in
      let (res, n2) = send_data n1.ntb2send n1 in
      let f = n2.in_flags in
      if is_ok res
      then (
        res,
        set_in_flags (record f { clear_to_send = false; pending = f.pending && not popped }) n2,
      )
      else (res, n2)

  -- `none` is a failed assertion, of the flag or of the context.
  unfoldable pub commit_datagram : Span → Ncm E → Option (NcmResult × Ncm E)
  commit_datagram dg n =
      if c.asserts && n.in_flags.manipulate
      then none
      else (Transmit.commit_datagram c.asserts dg n.tx >>= λ tx.
          let f = record (n.in_flags) { pending = true; manipulate = false } in
          let n1 = record n { tx = tx; in_flags = f } in
          some (ok, if f.clear_to_send && f.connected_flag then (try_send n1).1 else n1))

  -- The end of a transmission of the data endpoint.
  unfoldable pub sent : Transfer → Ncm E → Ncm E
  sent t n =
      let n1 = if is_success t then record n { ntb2send = empty_span } else n in
      set_in_flags (record (n1.in_flags) { clear_to_send = true }) n1

  -- What follows it: the next block, or a packet of zero length.
  unfoldable pub send_next : Transfer → InFlags → Ncm E → Ncm E
  send_next t flags n =
      if not flags.connected_flag
      then n
      else if not (n.ntb2send.len == 0) || flags.pending
      then (let (res, n1) = try_send n in
          if is_ok res && flags.pending then c.tx_buffer_available n1 else n1)
      else if (t.endpoint == n.ep_in) && ltb t.size n.tx.max_size && needs_zlp t n.in_ep_mps
      then (let (res, n1) = send_data empty_span n in
          if is_ok res
          then set_in_flags (record (n1.in_flags) { clear_to_send = false }) n1
          else n1)
      else n
