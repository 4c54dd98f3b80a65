-- ===== src/Ncm/Receive.antt =====
-- c2usb/usb/df/class/cdc_ncm.cpp: the reception of transfer blocks into the two pages.
use c2usb.Base.{ℕ, ◌*◌, Bool, true, false, not, ◌&&◌, ◌||◌, Option, none, some}
use c2usb.Base.{if◌then◌else◌, ◌==◌, ◌>>=◌, option_case}
use c2usb.Message.Transfer.{Span, Transfer, empty_span, is_success}
use c2usb.Ntb.{Check, fault, refuse, pass, is_valid_ntb}
use c2usb.Ntb.Receive
use c2usb.Ntb.Receive.{RxCtx, received, set_header}
use c2usb.Ncm.{
  Ncm, Clients, PageFlags, is_ok, other_page, page_flags, set_page_flags, set_receiving,
  any_receiving, is_connected,
}

-- A check that passes; `none` is a read outside of the page.
unfoldable pub passed : {A : Type 0} → Check A → Option A
passed fault = none
passed refuse = none
passed (pass a) = some a

-- `ntb_out_.data(page)`, from the start of the buffer.
unfoldable pub page_span : ℕ → RxCtx → Span
page_span page rx = record { ptr = page * rx.size; len = rx.size }

module _ {E : Type 0} (c : Clients E) where
  unfoldable pub ntb_receive : ℕ → Bool → Ncm E → Bool × Ncm E
  ntb_receive page raised_flag n =
      let raised = if raised_flag then n else set_receiving page true n in
      let (res, env) = c.receive_ep n.ep_out (page_span page n.rx) n.env in
      if not (is_connected n)
      then (false, n)
      else if raised_flag || not (any_receiving n)
      then (if is_ok res
          then (true, record raised { env = env })
          else (false, set_receiving page false (record raised { env = env })))
      else (false, set_receiving page false raised)

  -- The flags pending and manipulate of a page.
  unfoldable pub set_processing : ℕ → Bool → Ncm E → Ncm E
  set_processing page b n =
      set_page_flags page (record (page_flags page n) { pending = b; manipulate = b }) n

  -- The first access to a page's block checks it; `none` of the inner option is an invalid one.
  unfoldable pub first_access : ℕ → Ncm E → Option (Option (Ncm E))
  first_access page n = is_valid_ntb (received (record (n.rx) { page = page })) >>= λ valid.
      if valid
      then (passed (set_header 0 (record (n.rx) { page = page })) >>= λ rx.
          some (some (record n { rx = rx })))
      else some none

  unfoldable pub next_datagram : ℕ → Ncm E → Option (Span × Ncm E)
  next_datagram page n = passed (Receive.pop_datagram n.rx) >>= λ (dg, rx).
      let found = option_case dg empty_span (λ s. s) in
      let n' = record n { rx = rx } in
      some (found, if found.len == 0 then set_processing page false n' else n')

  -- `pop_datagram_from`; the span is empty where it returns false.
  unfoldable pub pop_datagram_from : ℕ → Ncm E → Option (Span × Ncm E)
  pop_datagram_from page n =
      let flags = page_flags page n in
      let n1 = set_processing page true n in
      if flags.pending && not flags.manipulate
      then (first_access page n1 >>= λ accessed.
          option_case accessed (some (empty_span, set_processing page false n1))
            (λ n2. next_datagram page n2))
      else if flags.pending || flags.manipulate
      then next_datagram page n1
      else some (empty_span, set_processing page false n1)

  abbrev pub unused : PageFlags → Bool
  unused f = not (f.pending || f.manipulate || f.receiving)

  -- Both pages are empty: the reception starts on the current one, unless it runs.
  unfoldable pub receive_if_unused : ℕ → Ncm E → Ncm E
  receive_if_unused page n =
      if unused n.page_0 && unused n.page_1
      then (ntb_receive page true (set_receiving page true n)).1
      else n

  unfoldable pub pop_datagram : Ncm E → Option (Span × Ncm E)
  pop_datagram n =
      let page = n.rx.page in
      pop_datagram_from page n >>= λ (dg, n1).
      if not (dg.len == 0)
      then some (dg, n1)
      else (pop_datagram_from (other_page page) n1 >>= λ (dg', n2). some (
        dg',
        if not (dg'.len == 0) then (ntb_receive page false n2).1 else receive_if_unused page n2,
      ))

  unfoldable pub set_length : ℕ → ℕ → RxCtx → RxCtx
  set_length page len rx =
      if page == 0 then record rx { length_0 = len } else record rx { length_1 = len }

  -- A page was received: `fetch_xor` of its flags receiving and pending.
  unfoldable pub page_received : ℕ → ℕ → Ncm E → Ncm E
  page_received page size n =
      let f = page_flags page n in
      let n1 = record n { rx = set_length page size n.rx } in
      let n2 =
        set_page_flags page (record f { receiving = not f.receiving; pending = not f.pending })
          n1 in
      if (page_flags (other_page page) n).pending
      then n2
      else (ntb_receive (other_page page) false
          (record n2 { rx = record (n2.rx) { page = page } })).1

  unfoldable pub ep_out_callback : Transfer → Ncm E → Ncm E
  ep_out_callback t n =
      let page = if t.data_ptr == n.rx.size then 1 else 0 in
      if not (is_connected n)
      then set_receiving page false n
      else if is_success t
      then c.data_received (page_received page t.size n)
      else (ntb_receive page true n).1
