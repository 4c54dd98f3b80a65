-- ===== src/Device/Requests/Laws.antt =====
-- Every request in the setup stage is answered.
use mathlib.Core.Path.{subst}
use c2usb.Base.{
  ℕ, ◌-◌, ◌^◌, ◌<◌, ◌≡◌, refl, sym, ap, ◌∙◌, arith, Bool, true, false, Option, some, List, [], ◌∷◌,
  if◌then◌else◌, ◌==◌, All, Ensures, Bool-cases, Option-cases, some-injective, inl, inr,
}
use c2usb.Config.Element.{Endpoint}
use c2usb.Config.Lookup.{interface_at, endpoint_at, endpoint_from, interface_of}
use c2usb.Config.Views.{valid, endpoints}
use c2usb.Core.{Drivers, Settings, Device}
use c2usb.Device.Configuration.{
  configs_by_speed, nth_view, config_number, set_configuration, get_configuration,
}
use c2usb.Device.Requests.{
  set_address, is_hs_feature, set_hs_feature, change_feature, standard_device_request, or_reject,
  device_setup_request, interface_control, endpoint_setup_request, on_control_setup,
}
use c2usb.Function.Laws.{
  IsFresh, Replies, Replies-if, Ensures-if, OverridesReply, is_in-of_standard, with_device-Replies,
  send_value-Answers, handle_control_setup-Replies, endpoint_control_setup-Replies,
}
use c2usb.Mac.{configured, std_status}
use c2usb.Message.Reply.{Message, is_in}
use c2usb.Message.Reply.Laws.{IsReply, confirm-Answers}
use c2usb.Usb.Control.{
  is_standard, id_recipient, id_type, low_byte, to_device, to_interface, to_endpoint,
  recipient_code, standard, type_code, get_descriptor_code, set_address_code,
  set_configuration_code, get_configuration_code, get_status_code, set_feature_code,
  clear_feature_code,
}
use c2usb.Usb.EndpointAddress.{dir_in, dir_out}

-- What an extension has to keep to: it answers the message, or leaves it as it was.
pub record ExtensionReplies {S : Type 0} (d : Drivers S) : Type 0 where
  pub setup_handled :
      (m : Message) (s : S)
      → IsFresh m
      → Ensures
          (λ r. (r.0 ≡ true → IsReply m r.1.0) × (r.0 ≡ false → r.1.0 ≡ m))
          (d.extension_control_setup m s)

-- The endpoints of the active configuration belong to functions that are bound to the mac, and the
-- active configuration is one of the current speed's.
pub record IsServed {S : Type 0} (d : Drivers S) (c : Settings) (dev : Device S) : Type 0 where
  pub endpoints_bound :
      All
        (λ x. Ensures (λ i. dev.bound i.1.function ≡ true) (interface_of dev.mac.active_config x.0))
        (endpoints dev.mac.active_config)
  pub config_known :
      configured dev.mac ≡ true
      → Ensures
          (λ n. n < 2 ^ 8)
          (config_number (configs_by_speed d c dev dev.mac.speed) dev.mac.active_config.ptr 0)

endpoint_from-All {ℓ} :
    (P : ℕ × Endpoint → Type ℓ) (addr : ℕ) (l : List (ℕ × Endpoint)) (x : ℕ × Endpoint)
    → All P l
    → endpoint_from l addr ≡ some x
    → P x
unfolding endpoint_from
endpoint_from-All P addr [] x h e = absurd (cc e)
endpoint_from-All P addr ((p, ep) ∷ l) x h e = elim (Bool-cases (ep.address == addr)) [
  | inl same ↦
      let here : some (p, ep) ≡ some x =
        sym (ap (λ b. if b then some (p, ep) else endpoint_from l addr) same) ∙ e in
      subst P (some-injective here) h.0
  | inr other ↦
      endpoint_from-All P addr l x h.1
        (sym (ap (λ b. if b then some (p, ep) else endpoint_from l addr) other) ∙ e)
]

module _ {S : Type 0} (d : Drivers S) (c : Settings) where
  set_configuration-Replies :
      (m : Message) (dev : Device S) → IsFresh m → Replies m (set_configuration d c m dev)
  unfolding set_configuration
  set_configuration-Replies m dev f =
      let (confirms, rejects, _) = confirm-Answers true m f.pending in
      Replies-if (low_byte m.request.w_value == 0) (λ _. with_device-Replies _ confirms)
        (λ _.
          Replies-if
            (valid
              (nth_view (configs_by_speed d c dev dev.mac.speed) (low_byte m.request.w_value - 1)))
            (λ _. with_device-Replies _ confirms) (λ _. with_device-Replies dev rejects))

  get_configuration-Replies :
      (m : Message) (dev : Device S)
      → IsFresh m
      → is_in m ≡ true
      → IsServed d c dev
      → Ensures (IsReply m) (get_configuration d c m dev)
  unfolding get_configuration
  get_configuration-Replies m dev f i served = elim (Bool-cases (configured dev.mac)) [
    | inl on ↦
        let (n, e, _) = served.config_known on in
        rw (on, e) (send_value-Answers 1 n m f i (omega arith))
    | inr off ↦ rw off (send_value-Answers 4 0 m f i (omega arith))
  ]

  change_feature-Replies :
      (enabled : Bool) (m : Message) (dev : Device S)
      → IsFresh m
      → Replies m (change_feature d c enabled m dev)
  unfolding change_feature
  change_feature-Replies enabled m dev f =
      let (confirms, rejects, _) = confirm-Answers true m f.pending in
      Replies-if (m.request.w_value == 1) (λ _. with_device-Replies _ confirms)
        (λ _. with_device-Replies dev rejects)

  set_address-Replies :
      (m : Message) (dev : Device S) → IsFresh m → Ensures (IsReply m) (set_address d c m dev)
  unfolding set_address
  set_address-Replies m dev f =
      let (confirms, rejects, _) = confirm-Answers true m f.pending in
      Ensures-if _ (λ _. confirms) (λ _. rejects)

  standard_device_request-Replies :
      (m : Message) (dev : Device S)
      → is_standard m.request dir_in to_device get_descriptor_code ≡ false
      → IsFresh m
      → IsServed d c dev
      → Replies m (standard_device_request d c m dev)
  unfolding standard_device_request set_hs_feature
  standard_device_request-Replies m dev other f served =
      let r = m.request in
      let rejects = (confirm-Answers true m f.pending).1 in
      rw other (
        Replies-if (is_standard r dir_out to_device set_address_code)
          (λ _. with_device-Replies dev (set_address-Replies m dev f))
          (λ _.
            Replies-if (is_standard r dir_out to_device set_configuration_code)
              (λ _. set_configuration-Replies m dev f)
              (λ _.
                Replies-if (is_standard r dir_in to_device get_configuration_code)
                  (λ get. with_device-Replies dev (
                    get_configuration-Replies m dev f
                      (is_in-of_standard m to_device get_configuration_code get) served))
                  (λ _.
                    Replies-if (is_standard r dir_in to_device get_status_code)
                      (λ get. with_device-Replies dev (
                        send_value-Answers 2 (std_status dev.mac) m f
                          (is_in-of_standard m to_device get_status_code get) (omega arith)))
                      (λ _.
                        Replies-if (is_standard r dir_out to_device set_feature_code)
                          (λ _.
                            Replies-if (is_hs_feature d c m dev)
                              (λ _. with_device-Replies _ ((confirm-Answers _ m f.pending).2))
                              (λ _. change_feature-Replies true m dev f))
                          (λ _.
                            Replies-if (is_standard r dir_out to_device clear_feature_code)
                              (λ _. change_feature-Replies false m dev f)
                              (λ _. with_device-Replies dev rejects)))))))

  or_reject-Replies :
      (m : Message) (dev : Device S) (o : Option (Bool × (Message × S)))
      → IsFresh m
      → Ensures (λ r. (r.0 ≡ true → IsReply m r.1.0) × (r.0 ≡ false → r.1.0 ≡ m)) o
      → Replies m (or_reject d c dev o)
  or_reject-Replies m dev o f ((handled, (m', s)), e, yields) = rw e (
      Replies-if handled (λ h. ((m', _), refl, yields.0 h))
        (λ h. rw (yields.1 h) (with_device-Replies _ (confirm-Answers true m f.pending).1)))

  endpoint_setup_request-Replies :
      (m : Message) (dev : Device S)
      → IsFresh m
      → IsServed d c dev
      → Replies m (endpoint_setup_request d c m dev)
  unfolding endpoint_setup_request endpoint_at
  endpoint_setup_request-Replies m dev f served =
      let v = dev.mac.active_config in
      let addr = low_byte m.request.w_index in
      elim (Option-cases (endpoint_from (endpoints v) addr)) [
        | inl none_there ↦
            rw (endpoint_setup_request, none_there)
              (with_device-Replies dev (confirm-Answers true m f.pending).1)
        | inr ((p, ep), found) ↦
            let (i, at, bound) =
              endpoint_from-All _ addr (endpoints v) (p, ep) served.endpoints_bound found in
            rw (endpoint_setup_request, found, at)
              (endpoint_control_setup-Replies d i.1.function _ m dev f bound)
      ]

  -- If the overrides and the extension answer what they are given, and the device serves its active
  -- configuration, then every request but GET_DESCRIPTOR, of whatever type and recipient, is answered
  -- without a failed assertion, in a pending message with an empty buffer of at least eight bytes.
  pub on_control_setup-Replies :
      (m : Message) (dev : Device S)
      → is_standard m.request dir_in to_device get_descriptor_code ≡ false
      → OverridesReply d
      → ExtensionReplies d
      → IsFresh m
      → IsServed d c dev
      → Replies m (on_control_setup d c m dev)
  unfolding on_control_setup device_setup_request interface_control
  on_control_setup-Replies m dev other overrides extension f served =
      let to = id_recipient m.request.id in
      let rejects = (confirm-Answers true m f.pending).1 in
      Replies-if (to == recipient_code to_device)
        (λ _.
          Replies-if (id_type m.request.id == type_code standard)
            (λ _. standard_device_request-Replies m dev other f served)
            (λ _. or_reject-Replies m dev _ f (extension.setup_handled m dev.env f)))
        (λ _.
          Replies-if (to == recipient_code to_interface)
            (λ _.
              elim (Option-cases
                (interface_at dev.mac.active_config (low_byte m.request.w_index))) [
                  | inl missing ↦ rw (interface_control, missing) (with_device-Replies dev rejects)
                  | inr ((p, i), found) ↦
                      rw (interface_control, found)
                        ((handle_control_setup-Replies d i m dev overrides f).0)
                ])
            (λ _.
              Replies-if (to == recipient_code to_endpoint)
                (λ _. endpoint_setup_request-Replies m dev f served)
                (λ _. with_device-Replies dev rejects)))
