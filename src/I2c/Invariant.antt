-- ===== src/I2c/Invariant.antt =====
-- The sequences of bus conditions: whatever the host and the application do, a waiting report keeps the interrupt line.
use mathlib.Core.Path.{subst}
use c2usb.Base.{ℕ, ◌+◌, ◌≡◌, ◌≢◌, refl, sym, ap, ◌∙◌, inl, inr, arith, ◌>>=◌}
use c2usb.Base.{Bool, true, false, ◌&&◌, Option, none, some, leb, ◌==◌, if◌then◌else◌}
use c2usb.Base.{
  option_case, case-Holds, if-Holds, some-injective, Option-cases, case_none, case_some,
}
use c2usb.Message.Transfer.{Span}
use c2usb.Serial.Memory.{Memory}
use c2usb.I2c.State.{
  Device, Setup, Clients, set_pin_interrupt, send, write_buffer, receive, transport_start,
}
use c2usb.I2c.Reads.{
  get_input, send_sentinel, send_input, process_input_complete, process_reply_complete,
}
use c2usb.I2c.Writes.{process_write}
use c2usb.I2c.Bus.{write, read, begin_write, on_start, on_stop}
use c2usb.I2c.Uses.{Pending, Keeps, Uses, Obeys, Uses-Keeps}
use c2usb.I2c.Keeps.{
  transport_start-Keeps, reply_request-Keeps, process_write-Keeps, process_reply_complete-Keeps,
}

-- Where the bus is: between transfers, or in one.
pub data Phase : Type 0 where
  idle reading writing replying : Phase

module _ {E : Type 0} (c : Clients E) (t : Setup) where
  -- One condition on the bus, some received bytes, or some calls of the application.
  pub data Step : Phase → Device E → Phase → Device E → Type 0 where
    start_read :
        {d d' : Device E} (r : Bool) → on_start c t read 0 d ≡ some (r, d') → Step idle d reading d'
    start_write :
        {d d' : Device E} (r : Bool)
        → on_start c t write 0 d ≡ some (r, d')
        → Step idle d writing d'
    transfers : {d : Device E} (mem : Memory) → Step writing d writing (record d { mem = mem })
    restart :
        {d d' : Device E} (n : ℕ) (r : Bool)
        → on_start c t read n d ≡ some (r, d')
        → Step writing d replying d'
    stop_write :
        {d d' : Device E} (n : ℕ) → on_stop c t write n d ≡ some d' → Step writing d idle d'
    stop_read : {d d' : Device E} (n : ℕ) → on_stop c t read n d ≡ some d' → Step reading d idle d'
    stop_reply :
        {d d' : Device E} (n : ℕ) → on_stop c t read n d ≡ some d' → Step replying d idle d'
    application : {p : Phase} {d d' : Device E} → Uses c d d' → Step p d p d'

  pub data Reach (d : Device E) : Phase → Device E → Type 0 where
    here : Reach d idle d
    next : {p q : Phase} {e e' : Device E} → Reach d p e → Step p e q e' → Reach d q e'

  unfoldable pub stage_of : Phase → ℕ
  stage_of idle = 0
  stage_of reading = 0
  stage_of writing = 1
  stage_of replying = 1

  -- The stage counts the starts of the transfer, and outside of a read the interrupt line is asserted while a report
  -- waits.
  pub record IsInformed (p : Phase) (d : Device E) : Type 0 where
    pub stage_is : d.stage ≡ stage_of p
    pub informs : p ≢ reading → Pending d

  module _ (k : Obeys c) where
    input_lem : (d : Device E) → (get_input c t d).1.stage ≡ d.stage
    unfolding get_input set_pin_interrupt send_sentinel send write_buffer send_input
    input_lem d =
        case-Holds (λ (d' : Device E). d'.stage ≡ d.stage) (send_sentinel c t d)
          (λ s. if s.len == 0 then send_sentinel c t d else send_input c t s d) d.in_queue (sends d)
          (λ s.
            if-Holds (λ (d' : Device E). d'.stage ≡ d.stage) (s.len == 0) _ _ (sends d) (sent s d))
      where
        sends : (d : Device E) → (send_sentinel c t d).stage ≡ d.stage
        sends d = refl

        sent : (s : Span) (d : Device E) → (send_input c t s d).stage ≡ d.stage
        sent s d = refl

    -- A read ends with the report taken, or with the line asserted again.
    complete-Pending : (n : ℕ) (d : Device E) → Pending (process_input_complete c t n d)
    unfolding process_input_complete set_pin_interrupt
    complete-Pending n d = elim (Option-cases d.in_queue) [
      | inl e ↦ subst Pending (sym (case_none d _ d.in_queue e)) (inl e)
      | inr (s, e) ↦ subst Pending (sym (case_some d _ d.in_queue s e)) (taken s)
    ]
      where
        after : Device E
        after = record d { in_queue = none }

        kept : (d' : Device E) → Keeps after d' → Pending d'
        kept d' k' = k'.informs (inl refl)

        taken :
            (s : Span)
            → Pending (
                if leb (2 + s.len) n
                then (if s.len == 0
                    then (if t.full_command_support
                        then after
                        else transport_start c c.mode_none after)
                    else option_case d.session after (λ se. c.report_sent s se after))
                else set_pin_interrupt true d)
        taken s =
            if-Holds Pending (leb (2 + s.len) n)
              (if s.len == 0
                then (if t.full_command_support then after else transport_start c c.mode_none after)
                else option_case d.session after (λ se. c.report_sent s se after))
              (set_pin_interrupt true d)
              (if-Holds Pending (s.len == 0)
                (if t.full_command_support then after else transport_start c c.mode_none after)
                (option_case d.session after (λ se. c.report_sent s se after))
                (if-Holds Pending t.full_command_support after (transport_start c c.mode_none after)
                  (inl refl) (kept _ (transport_start-Keeps c t k c.mode_none after)))
                (case-Holds Pending after (λ se. c.report_sent s se after) d.session (inl refl)
                  (λ se. kept _ (Uses-Keeps c after _ (k.on_sent s se after)))))
              (inr refl)

    writing_lem : writing ≢ reading
    writing_lem z = cc

    replying_lem : replying ≢ reading
    replying_lem z = cc

    idle_lem : idle ≢ reading
    idle_lem z = cc

    start_cases :
        (a b : Bool) (x : Bool × Device E) (y : Option (Bool × Device E)) (r : Bool × Device E)
        → a ≡ true
        → (if a then (if b then none else some x) else y) ≡ some r
        → x ≡ r
    start_cases true true x y r e h = absurd (cc)
    start_cases true false x y r e h = some-injective h
    start_cases false b x y r e h = absurd (cc)

    restart_cases :
        (a : Bool) (x : Bool × Device E) (y : Option (Bool × Device E)) (r : Bool × Device E)
        → a ≡ false
        → (if a then y else some x) ≡ some r
        → x ≡ r
    restart_cases true x y r e h = absurd (cc)
    restart_cases false x y r e h = some-injective h

    -- A stop that returns has run its operation, and clears the stage.
    stop_cases :
        (o : Option (Device E)) (d' : Device E)
        → (o >>= λ e. some (record e { stage = 0 })) ≡ some d'
        → (e : Device E) × (o ≡ some e) × (record e { stage = 0 } ≡ d')
    stop_cases none d' h = absurd (cc)
    stop_cases (some e) d' h = (e, refl, some-injective h)

    stopped : (e d' : Device E) → Pending e → record e { stage = 0 } ≡ d' → IsInformed idle d'
    unfolding stage_of
    stopped e d' h same =
        subst (IsInformed idle) same (record { stage_is = refl; informs = λ _. h })

    either_Pending :
        (a b : Bool) (x y : Device E)
        → a ≡ b
        → Pending (if b then x else y)
        → Pending (if a then x else y)
    either_Pending a b x y e h = subst (λ z. Pending (if z then x else y)) (sym e) h

    pub Step-IsInformed :
        {p q : Phase} {d d' : Device E} → Step p d q d' → IsInformed p d → IsInformed q d'
    unfolding stage_of on_start on_stop begin_write receive
    Step-IsInformed (start_read {d} {d'} r e) i =
        let x =
          start_cases (d.stage == 0) (t.asserts && false) _ _ _ (ground (arith, i.stage_is)) e in
        record {
          stage_is = ap (λ (z : Bool × Device E). z.1.stage) (sym x) ∙ (input_lem d ∙ i.stage_is);
          informs = λ h. absurd (h refl);
        }
    Step-IsInformed (start_write {d} {d'} r e) i =
        let x =
          start_cases (d.stage == 0) (t.asserts && false) _ _ _ (ground (arith, i.stage_is)) e in
        record {
          stage_is = ap (λ (z : Bool × Device E). z.1.stage) (sym x);
          informs = λ h. subst (λ (z : Bool × Device E). Pending z.1) x (i.informs idle_lem);
        }
    Step-IsInformed (transfers {d} mem) i = record {
      stage_is = i.stage_is;
      informs = λ h. i.informs writing_lem;
    }
    Step-IsInformed (restart {d} {d'} n r e) i =
        let x = restart_cases (d.stage == 0) _ _ _ (ground (arith, i.stage_is)) e in
        let k' = reply_request-Keeps c t k n d in
        record {
          stage_is = ap (λ (z : Bool × Device E). z.1.stage) (sym x) ∙ (k'.same ∙ i.stage_is);
          informs = λ h.
              subst (λ (z : Bool × Device E). Pending z.1) x (k'.informs (i.informs writing_lem));
        }
    Step-IsInformed (stop_write {d} {d'} n e) i =
        let (z, ran, same) = stop_cases (process_write c t n d) d' e in
        stopped z d' ((process_write-Keeps c t k n d z ran).informs (i.informs writing_lem)) same
    Step-IsInformed (stop_read {d} {d'} n e) i =
        let x = process_input_complete c t n d in
        let y = process_reply_complete c t d in
        stopped (if d.stage == 0 then x else y) d'
          (either_Pending (d.stage == 0) true (process_input_complete c t n d) _
            (ground (arith, i.stage_is)) (complete-Pending n d))
          (some-injective e)
    Step-IsInformed (stop_reply {d} {d'} n e) i =
        let x = process_input_complete c t n d in
        let y = process_reply_complete c t d in
        stopped (if d.stage == 0 then x else y) d'
          (either_Pending (d.stage == 0) false _ (process_reply_complete c t d)
            (ground (arith, i.stage_is))
            ((process_reply_complete-Keeps c t k d).informs (i.informs replying_lem)))
          (some-injective e)
    Step-IsInformed (application {p} {d} {d'} u) i =
        let k' = Uses-Keeps c d d' u in
        record { stage_is = k'.same ∙ i.stage_is; informs = λ h. k'.informs (i.informs h) }
