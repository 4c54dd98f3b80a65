-- ===== src/Hid/Answers.antt =====
-- The HID function answers every control request.
use mathlib.Core.Path.{subst}
use c2usb.Base.{◌≤◌, ◌≡◌, ◌≢◌, refl, sym, ◌∙◌, inl, inr, arith}
use c2usb.Base.{Bool, true, false, not, ◌&&◌, ◌||◌, Option, some, leb, ◌==◌}
use c2usb.Base.{Bool-cases, Option-cases, Ensures, length}
use c2usb.Config.Element.{Interface}
use c2usb.Function.Class.{with_state-Replies, is_in-of_class, is_out-of_class, other_code}
use c2usb.Function.Laws.{
  IsFresh, Replies, Replies-if, Ensures-if, is_in-of_standard, send_value-Answers,
}
use c2usb.Message.Buffer.Laws.{append_lem}
use c2usb.Message.Reply.{Message, is_in, reject, confirm, le_bytes}
use c2usb.Message.Reply.Laws.{
  IsReply, confirm-Answers, send_data-Answers, receive_data-Answers, reject-Answers, send-Appended,
}
use c2usb.Message.Transfer.{Span, handle_valid}
use c2usb.Usb.Control.{is_standard, to_interface, get_descriptor_code, high_byte, low_byte}
use c2usb.Usb.EndpointAddress.{dir_in, dir_out}
use c2usb.Hid.{Session, Hid, Clients, Traits, rx_buffer}
use c2usb.Hid.Laws.{case_null, case_session, Opens, Obeys, start-session}
use c2usb.Hid.Requests.{
  is_get_descriptor, is_get_report, is_set_report, is_get_protocol, is_set_protocol, is_get_idle,
  is_set_idle,
}
use c2usb.Hid.Requests.{
  hid_descriptor, get_descriptor, get_report, set_report, boot_mode_of, needs_start, set_protocol,
}
use c2usb.Hid.Requests.{on_session, started, handle_request, control_setup_request}

is_get-of_standard : (m : Message) → is_get_descriptor m.request.id ≡ true → is_in m ≡ true
unfolding is_standard
is_get-of_standard m e = is_in-of_standard m to_interface get_descriptor_code e

length-hid_descriptor : (tr : Traits) (report : Span) → length (hid_descriptor tr report) ≡ 9
unfolding hid_descriptor le_bytes
length-hid_descriptor tr report = refl

get_descriptor-Answers :
    (tr : Traits) (report : Span) (m : Message)
    → IsFresh m
    → 9 ≤ m.buffer.size
    → is_in m ≡ true
    → Ensures (IsReply m) (get_descriptor tr report m)
unfolding get_descriptor
get_descriptor-Answers tr report m f room i =
    Ensures-if (high_byte m.request.w_value == 0x21)
      (λ _.
        let (b, e, added) =
          (append_lem (hid_descriptor tr report) m.buffer f.buffer).0
            (ground (arith, f.unused, length-hid_descriptor tr report)) in
        let (m', sent, sends) =
          send-Appended (hid_descriptor tr report) m b f.pending i f.small f.unused added in
        (m', rw e sent, sends.0))
      (λ _.
        Ensures-if (high_byte m.request.w_value == 0x22)
          (λ _. (send_data-Answers report m f.pending i).0) (λ _. reject-Answers m f.pending))

both_false : (a b : Bool) → a ≡ false → b ≡ false → (not a && not b) ≢ false
both_false a b ha hb e = ground arith

module _ {E : Type 0} (c : Clients E) (tr : Traits) (iface : Interface) (o : Opens c iface)
    (k : Obeys c) where
  -- Every request but those for the protocol meets a session.
  abbrev Ready : Message → Hid E → Type 0
  Ready m h =
      is_set_protocol m.request.id ≡ false
      → is_get_protocol m.request.id ≡ false
      → (s : Session) × (h.session ≡ some s)

  started-Ready : (m : Message) (h : Hid E) → Ensures (Ready m) (started c tr iface m h)
  unfolding started
  started-Ready m h = elim (Option-cases h.session) [
    | inl e ↦
        elim (Bool-cases
          (not (is_set_protocol m.request.id) && not (is_get_protocol m.request.id))) [
            | inl other ↦
                let (h', e', (s, es, _)) = start-session c m.asserts iface c.mode_none h o k in
                (h', case_null _ _ h.session e ∙ rw (other, e') refl, λ _ _. (s, es))
            | inr other ↦ (
              h,
              case_null _ _ h.session e ∙ rw other refl,
              λ a b. absurd (both_false _ _ a b other),
            )
          ]
    | inr (s, e) ↦ (h, case_session _ _ h.session s e, λ _ _. (s, e))
  ]

  on_session-Replies :
      (m : Message) (h : Hid E) (s : Session) (f : Session → Option (Message × Hid E))
      → h.session ≡ some s
      → Replies m (f s)
      → Replies m (on_session c tr h f)
  on_session-Replies m h s f e r = subst (Replies m) (sym (case_session _ _ h.session s e)) r

  get_report-Replies :
      (m : Message) (h : Hid E) (s : Session)
      → IsFresh m
      → is_in m ≡ true
      → h.session ≡ some s
      → Replies m (get_report c tr m h)
  unfolding get_report
  get_report-Replies m h s f i e =
      Replies-if (c.is_report_type (c.selector_type m.request.w_value))
        (λ known.
          let buffer : Span = record { ptr = m.buffer.data_ptr; len = m.buffer.size } in
          let (bytes, h') = c.get_report m.request.w_value buffer s h in
          on_session-Replies m h s _ e (
            with_state-Replies _ h' (
              Ensures-if (bytes.len == 0) (λ _. reject-Answers m f.pending)
                (λ _. (send_data-Answers bytes m f.pending i).0))))
        (λ _. with_state-Replies (reject m) h (reject-Answers m f.pending))

  set_report-Answers :
      (m : Message) (h : Hid E)
      → IsFresh m
      → is_in m ≡ false
      → Ensures (IsReply m) (set_report c tr m h)
  unfolding set_report
  set_report-Answers m h f i =
      let type = high_byte m.request.w_value in
      Ensures-if ((type == c.type_feature) || (type == c.type_output))
        (λ _.
          Ensures-if
            (((type == c.type_feature) || not (handle_valid h.ep_out))
              && leb m.request.w_length (rx_buffer c type h).len)
            (λ _. (receive_data-Answers (rx_buffer c type h) m f.pending i).0)
            (λ _.
              Ensures-if (leb m.request.w_length m.buffer.size)
                (λ _. (receive_data-Answers (rx_buffer c type h) m f.pending i).1)
                (λ _. reject-Answers m f.pending)))
        (λ _. reject-Answers m f.pending)

  set_protocol-Replies :
      (m : Message) (h : Hid E) → IsFresh m → Replies m (set_protocol c tr iface m h)
  unfolding set_protocol
  set_protocol-Replies m h f =
      let prot = low_byte m.request.w_value in
      Replies-if
        (c.is_protocol prot
          && (not (tr.protocol_mode == c.mode_none) || (prot == c.protocol_report)))
        (λ _. elim (Bool-cases (needs_start c tr (boot_mode_of c tr prot) h)) [
          | inl e ↦
              let (h', e', _) = start-session c m.asserts iface (boot_mode_of c tr prot) h o k in
              rw (e, e') (with_state-Replies (confirm m) h' (confirm-Answers true m f.pending).0)
          | inr e ↦ rw e (with_state-Replies (confirm m) h (confirm-Answers true m f.pending).0)
        ])
        (λ _. with_state-Replies (reject m) h (reject-Answers m f.pending))

  handle_request-Replies :
      (m : Message) (h : Hid E)
      → IsFresh m
      → 9 ≤ m.buffer.size
      → Ready m h
      → Replies m (handle_request c tr iface m h)
  unfolding handle_request
  handle_request-Replies m h f room ready =
      let r = m.request.id in
      Replies-if (is_get_descriptor r)
        (λ e.
          with_state-Replies _ h
            (get_descriptor-Answers tr c.descriptor m f room (is_get-of_standard m e)))
        (λ _.
          Replies-if (is_get_report r)
            (λ e.
              let (s, es) =
                ready (other_code r dir_in dir_out 1 0x0b (λ z. cc) e)
                  (other_code r dir_in dir_in 1 3 (λ z. cc) e) in
              get_report-Replies m h s f (is_in-of_class m 1 e) es)
            (λ _.
              Replies-if (is_set_report r)
                (λ e. with_state-Replies _ h (set_report-Answers m h f (is_out-of_class m 9 e)))
                (λ _.
                  Replies-if (is_get_protocol r)
                    (λ e.
                      with_state-Replies _ h
                        (send_value-Answers 1 _ m f (is_in-of_class m 3 e) (omega arith)))
                    (λ np.
                      Replies-if (is_set_protocol r) (λ e. set_protocol-Replies m h f)
                        (λ ns.
                          Replies-if (is_get_idle r)
                            (λ e.
                              let (s, es) = ready ns np in
                              on_session-Replies m h s _ es (
                                with_state-Replies _ h (
                                  send_value-Answers 1 _ m f (is_in-of_class m 2 e) (omega arith))))
                            (λ _.
                              Replies-if (is_set_idle r)
                                (λ e.
                                  let (s, es) = ready ns np in
                                  on_session-Replies m h s _ es
                                    (with_state-Replies _ _ (confirm-Answers _ m f.pending).2))
                                (λ _.
                                  with_state-Replies (reject m) h
                                    (reject-Answers m f.pending))))))))

  -- The function answers every control request: the message is pending, with an empty buffer of at least nine bytes,
  -- the function's IN endpoint can be opened, and the application creates the sessions that it is asked for. No
  -- request meets a missing session, whatever state the function is in.
  pub control_setup_request-Replies :
      (m : Message) (h : Hid E)
      → IsFresh m
      → 9 ≤ m.buffer.size
      → Replies m (control_setup_request c tr iface m h)
  unfolding control_setup_request
  control_setup_request-Replies m h f room =
      let (h', e, ready) = started-Ready m h in rw e (handle_request-Replies m h' f room ready)
