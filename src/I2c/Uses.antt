-- ===== src/I2c/Uses.antt =====
-- What the application's methods may do to the device that calls them.
use c2usb.Base.{ℕ, ◌≡◌, refl, ◌∙◌, ◌⊎◌, inr, true, none, some, arith, ◌==◌, if-Holds}
use c2usb.Hid.{Session}
use c2usb.Message.Transfer.{Span}
use c2usb.Serial.Memory.{Memory}
use c2usb.I2c.State.{
  Device, Clients, ReportResult, set_pin_interrupt, queue_input_report, send_report, set_rx_buffer,
  receive_report,
}

-- No report is waiting, or the interrupt line asks the host to read it.
abbrev pub Pending : {E : Type 0} → Device E → Type 0
Pending d = (d.in_queue ≡ none) ⊎ (d.slave.pin ≡ true)

-- The stage stays, and the host stays informed.
pub record Keeps {E : Type 0} (d d' : Device E) : Type 0 where
  pub same : d'.stage ≡ d.stage
  pub informs : Pending d → Pending d'

pub Keeps-Keeps : {E : Type 0} (d d' d'' : Device E) → Keeps d d' → Keeps d' d'' → Keeps d d''
Keeps-Keeps d d' d'' k k' = record {
  same = k'.same ∙ k.same;
  informs = λ h. k'.informs (k.informs h);
}

-- A sequence of calls of the transport, between which the application works on its own state and memory.
pub data Uses {E : Type 0} (c : Clients E) (d : Device E) : Device E → Type 0 where
  returns : Uses c d d
  works :
      {d' : Device E} (env : E) (mem : Memory)
      → Uses c d d'
      → Uses c d (record d' { env = env; mem = mem })
  sends : {d' : Device E} (s : Span) → Uses c d d' → Uses c d (send_report s d').1
  receives :
      {d' d'' : Device E} (s : Span) (type : ℕ) (r : ReportResult)
      → receive_report c s type d' ≡ some (r, d'')
      → Uses c d d'
      → Uses c d d''

module _ {E : Type 0} (c : Clients E) where
  pub record Obeys : Type 0 where
    pub on_begin : (mode : ℕ) (d : Device E) → Uses c d (c.start mode d).1
    pub on_end : (s : Session) (d : Device E) → Uses c d (c.stop s d)
    pub on_get :
        (type id : ℕ) (room : Span) (s : Session) (d : Device E)
        → Uses c d (c.get_report type id room s d).1
    pub on_set :
        (type : ℕ) (r : Span) (s : Session) (d : Device E) → Uses c d (c.set_report type r s d)
    pub on_sent : (r : Span) (s : Session) (d : Device E) → Uses c d (c.report_sent r s d)
    pub on_power : (d : Device E) → Uses c d (c.power_event d)

  pub set_rx_buffer-Keeps :
      (type : ℕ) (s : Span) (d : Device E) → Keeps d (set_rx_buffer c type s d)
  unfolding set_rx_buffer
  set_rx_buffer-Keeps type s d =
      if-Holds (Keeps d) (type == c.type_feature) _ _ (record { same = refl; informs = λ h. h })
        (record { same = refl; informs = λ h. h })

  receive_report-Keeps :
      (s : Span) (type : ℕ) (r : ReportResult) (d d' : Device E)
      → receive_report c s type d ≡ some (r, d')
      → Keeps d d'
  unfolding receive_report set_rx_buffer
  receive_report-Keeps s type r d d' e = record { same = ground arith; informs = λ h. ground arith }

  pub Uses-Keeps : (d d' : Device E) → Uses c d d' → Keeps d d'
  unfolding send_report queue_input_report set_pin_interrupt
  Uses-Keeps d _ returns = record { same = refl; informs = λ h. h }
  Uses-Keeps d _ (works env mem u) =
      let k = Uses-Keeps d _ u in record { same = k.same; informs = k.informs }
  Uses-Keeps d _ (sends s u) = record { same = (Uses-Keeps d _ u).same; informs = λ h. inr refl }
  Uses-Keeps d d'' (receives {d'} s type r e u) =
      Keeps-Keeps d d' d'' (Uses-Keeps d d' u) (receive_report-Keeps s type r d' d'' e)
