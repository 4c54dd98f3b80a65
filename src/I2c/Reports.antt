-- ===== src/I2c/Reports.antt =====
-- The reports that the host writes, as far as they fit into the buffer, and those that it reads.
use mathlib.Core.Path.{subst}
use c2usb.Base.{ℕ, ◌+◌, ◌-◌, ◌^◌, ◌≤◌, ◌<◌, ◌≡◌, refl, sym, ap, ◌∙◌, arith}
use c2usb.Base.{Bool, true, false, ◌&&◌, none, some, ◌∷◌, leb, ltb, ◌==◌}
use c2usb.Base.{case_some, Bool-cases, inl, inr}
use c2usb.Hid.{Session}
use c2usb.Message.Reply.{le_bytes}
use c2usb.Message.Transfer.{Span, empty_span}
use c2usb.Serial.Memory.{Memory, load, store, load-store-length, length-load}
use c2usb.I2c.Command.{get_u16}
use c2usb.I2c.Descriptor.{descriptor_size}
use c2usb.I2c.State.{
  Device, Setup, Clients, ok, set_pin_interrupt, send, write_buffer, queue_input_report,
  send_report, rx_buffer, set_rx_buffer,
}
use c2usb.I2c.Reads.{value_span, send_input, get_input, process_input_complete}
use c2usb.I2c.Writes.{less_two, copy_report, set_report}
use c2usb.I2c.Bus.{read, on_stop}

module _ {E : Type 0} (c : Clients E) (t : Setup) where
  rx_buffer-set_rx_buffer :
      (type : ℕ) (s : Span) (d : Device E)
      → (rx_buffer c type (set_rx_buffer c type s d) ≡ s)
        × ((set_rx_buffer c type s d).session ≡ d.session)
        × ((set_rx_buffer c type s d).mem ≡ d.mem)
  unfolding rx_buffer set_rx_buffer
  rx_buffer-set_rx_buffer type s d = elim (Bool-cases (type == c.type_feature)) [
    | inl e ↦ rw e (refl, refl, refl)
    | inr e ↦ rw e (refl, refl, refl)
  ]

  less_two_lem : (n : ℕ) → 2 ≤ n → n < 2 ^ 16 → less_two n ≡ n - 2
  unfolding less_two
  less_two_lem n lo hi = omega arith

  -- A report that lies in the buffer whole, with its own length in front, is copied to the buffer that the application
  -- gave for its type, if that one is large enough; the application gets these bytes, and its buffer is given up before.
  pub set_report-Delivers :
      (type p n : ℕ) (d : Device E) (s : Session)
      → t.buffer ≤ p
      → p + n ≤ t.buffer + 30
      → get_u16 d.mem p ≡ n
      → 2 ≤ n
      → n - 2 ≤ (rx_buffer c type d).len
      → d.session ≡ some s
      → let out = rx_buffer c type d in
        (d' : Device E) × (set_report c t type p n d
          ≡ some (true, c.set_report type (record { ptr = out.ptr; len = n - 2 }) s d'))
        × (load d'.mem out.ptr (n - 2) ≡ load d.mem (p + 2) (n - 2))
        × (rx_buffer c type d' ≡ empty_span)
        × (d'.session ≡ some s)
  unfolding set_report copy_report
  set_report-Delivers type p n d s at fits len two room es =
      let out = rx_buffer c type d in
      let bytes = load d.mem (p + 2) (n - 2) in
      let mem = store d.mem out.ptr bytes in
      let d' = set_rx_buffer c type empty_span (record d { mem = mem }) in
      let (given, same, stored) =
        rx_buffer-set_rx_buffer type empty_span (record d { mem = mem }) in
      let l : less_two (get_u16 d.mem p) ≡ n - 2 = rw len (less_two_lem n two (omega arith)) in
      let accepts : ((n == get_u16 d.mem p) && leb (less_two (get_u16 d.mem p)) out.len) ≡ true =
        ground (arith, l, len) in
      let whole : ltb (descriptor_size - (p - t.buffer + 2)) (less_two (get_u16 d.mem p)) ≡ false =
        ground (arith, l) in
      let inside : (leb 2 n && leb (p + n) (t.buffer + descriptor_size)) ≡ true = ground arith in
      let copied =
        load-store-length d.mem out.ptr bytes (n - 2) (length-load d.mem (p + 2) (n - 2)) in
      (
        d',
        rw (accepts, whole, inside, case_some _ _ d'.session s (same ∙ es), l) refl,
        ap (λ (m : Memory). load m out.ptr (n - 2)) stored ∙ copied,
        given,
        same ∙ es,
      )

  get_u16-le_bytes :
      (mem : Memory) (p n : ℕ) → n < 2 ^ 16 → get_u16 (store mem p (le_bytes 2 n)) p ≡ n
  unfolding get_u16 store le_bytes
  get_u16-le_bytes mem p n h = ground arith

  -- The length in front of an input report does not count itself, while the one in front of an output report has to: the
  -- bytes that the device sends for a report would be refused as a report of any type.
  pub set_report-send_input :
      (type p : ℕ) (s : Span) (d d' : Device E)
      → s.len < 2 ^ 16
      → get_u16 d'.mem p ≡ get_u16 (send_input c t s d).mem t.buffer
      → set_report c t type p (2 + s.len) d' ≡ some (false, d')
  unfolding set_report send_input send write_buffer
  set_report-send_input type p s d d' word framed =
      let n : get_u16 d'.mem p ≡ s.len = framed ∙ get_u16-le_bytes d.mem t.buffer s.len word in
      let refused : ((2 + s.len == get_u16 d'.mem p)
            && leb (less_two (get_u16 d'.mem p)) (rx_buffer c type d').len)
          ≡ false =
        ground (arith, n) in
      rw refused refl

  get_input_lem :
      (a : Span) (d : Device E)
      → d.in_queue ≡ some a
      → 0 < a.len
      → get_input c t d ≡ (true, set_pin_interrupt false (send_input c t a d))
  unfolding get_input
  get_input_lem a d eq pos =
      let nonempty : (a.len == 0) ≡ false = ground arith in
      rw (case_some _ _ d.in_queue a eq, nonempty) refl

  -- What becomes of a report `b` that is sent while `a` is read.
  abbrev pub Lost : Span → Span → Session → Device E → Device E → Type 0
  Lost a b s d d1 =
      let (accepted, d2) = send_report b d1 in
      (accepted ≡ ok)
      × (d2.slave.tx ≡ (value_span t 2, a) ∷ d.slave.tx)
      × (on_stop c t read (2 + a.len) d2
          ≡ some (record (c.report_sent b s (record d2 { in_queue = none })) { stage = 0 }))

  lost :
      (a b : Span) (s : Session) (d : Device E)
      → d.stage ≡ 0
      → d.session ≡ some s
      → 0 < b.len
      → b.len ≤ a.len
      → Lost a b s d (set_pin_interrupt false (send_input c t a d))
  unfolding send_report queue_input_report set_pin_interrupt send_input send write_buffer on_stop
      process_input_complete
  lost a b s d st es pos le =
      let first : (d.stage == 0) ≡ true = ground (arith, st) in
      let fits : leb (2 + b.len) (2 + a.len) ≡ true = ground arith in
      let nonempty : (b.len == 0) ≡ false = ground arith in
      (
        refl,
        refl,
        rw (first, case_some _ _ (some b) b refl, fits, nonempty, case_some _ _ d.session s es)
            refl,
      )

  -- A report that the application sends while the host reads another one that is not shorter: the application is told
  -- that it was accepted and, when the read is over, that it was sent; only the other one was sent to the host, which
  -- it is not told, and no report waits any more.
  pub send_report-Lost :
      (a b : Span) (s : Session) (d : Device E)
      → d.stage ≡ 0
      → d.session ≡ some s
      → d.in_queue ≡ some a
      → 0 < b.len
      → b.len ≤ a.len
      → Lost a b s d (get_input c t d).1
  send_report-Lost a b s d st es eq pos le =
      subst (λ (x : Bool × Device E). Lost a b s d x.1) (sym (get_input_lem a d eq (omega arith)))
        (lost a b s d st es pos le)
