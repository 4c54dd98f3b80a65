-- ===== src/Ncm/Quiet.antt =====
-- The operations on the connection keep its state and flags in agreement.
use mathlib.Core.Path.{subst}
use c2usb.Base.{ℕ, ◌+◌, ◌≡◌, refl, sym, inl, inr}
use c2usb.Base.{Bool, true, false, not, ◌||◌, none, some, ◌==◌, if◌then◌else◌}
use c2usb.Base.{if-Holds, some-injective, Option-cases, case_none, case_some, Bool-cases}
use c2usb.Message.Transfer.{handle_valid}
use c2usb.Ncm.{
  Ncm, NcmState, disabled, enabled, suspended, connected, NcmResult, Clients, is_ok, is_connected,
  set_in_flags, set_notify,
}
use c2usb.Ncm.Receive.{ntb_receive}
use c2usb.Ncm.Transmit.{try_send}
use c2usb.Ncm.Link.{
  connect_refused, disconnect_refused, state_eq, notify, connect_rate, disconnect, resumed_state,
  suspend, resume, switch_link, start_receiving,
}
use c2usb.Ncm.Coherent.{
  Agree, IsCoherent, KeepsLink, KeepsLink-IsCoherent, connects_lem, disconnects_lem, quiet_lem,
  suspended_lem, resumed_lem, taken_lem, next_state, ntb_receive-KeepsLink, try_send-KeepsLink,
}

module _ {E : Type 0} (c : Clients E) where
  -- The network interface does not call back from `state_change`, and neither connects nor disconnects from its other
  -- two methods; a closed endpoint has no valid handle.
  pub record IsQuiet : Type 0 where
    pub tells :
        (a b : NcmState) (n : Ncm E) → (env : E) × (c.state_change a b n ≡ record n { env = env })
    pub hears : (n : Ncm E) → KeepsLink n (c.data_received n)
    pub offers : (n : Ncm E) → KeepsLink n (c.tx_buffer_available n)
    pub closes : (eph : ℕ) (env : E) → handle_valid (c.close_ep eph env).0 ≡ false

  module _ (q : IsQuiet) where
    pub told : (a b : NcmState) (n : Ncm E) → IsCoherent n → IsCoherent (c.state_change a b n)
    told a b n h = let (env, e) = q.tells a b n in subst (λ (x : Ncm E). IsCoherent x) (sym e) h

    notify-IsCoherent :
        (at size : ℕ) (n : Ncm E)
        → Agree n.state n.in_flags.connected_flag true n.connection_value n.ep_out
        → IsCoherent (notify c at size n).1
    unfolding notify set_notify set_in_flags
    notify-IsCoherent at size n h =
        if-Holds (λ (x : Ncm E). IsCoherent x)
          (is_ok (c.send_ep n.ep_notify (record { ptr = c.payload + at; len = size }) n.env).0) _ _
          h
          (quiet_lem n.state n.in_flags.connected_flag true n.connection_value n.connection_value
            n.ep_out h)

    pub suspend-IsCoherent : (n : Ncm E) → IsCoherent n → IsCoherent (suspend c n)
    unfolding suspend
    suspend-IsCoherent n h =
        told n.state suspended (record n { state = suspended })
          (suspended_lem n.state n.in_flags.connected_flag n.in_flags.notify n.connection_value
            n.ep_out h)

    pub resume-IsCoherent : (n : Ncm E) → IsCoherent n → IsCoherent (resume c n)
    unfolding resume resumed_state
    resume-IsCoherent n h =
        let st =
          if not (handle_valid n.ep_out)
          then disabled
          else if n.in_flags.connected_flag
          then connected
          else enabled in
        let changed = c.state_change suspended st (record n { state = st }) in
        let n1 = if state_eq n.state suspended then changed else n in
        let h1 : IsCoherent n1 =
          if-Holds (λ (x : Ncm E). IsCoherent x) (state_eq n.state suspended) changed n
            (told suspended st (record n { state = st })
              (resumed_lem n.state n.in_flags.connected_flag n.in_flags.notify n.connection_value
                n.ep_out h))
            h in
        if-Holds (λ (x : Ncm E). IsCoherent x) (is_connected n1) (try_send c n1).1 n1
          (KeepsLink-IsCoherent n1 (try_send c n1).1 (try_send-KeepsLink c n1) h1) h1

    abbrev pub Second : NcmResult × Ncm E → Type 0
    Second r = IsCoherent r.1

    connect_none : (st : NcmState) → connect_refused st ≡ none → st ≡ enabled
    unfolding connect_refused
    connect_none disabled e = absurd (cc)
    connect_none enabled e = refl
    connect_none suspended e = absurd (cc)
    connect_none connected e = absurd (cc)

    disconnect_none : (st : NcmState) → disconnect_refused st ≡ none → st ≡ connected
    unfolding disconnect_refused
    disconnect_none disabled e = absurd (cc)
    disconnect_none enabled e = absurd (cc)
    disconnect_none suspended e = absurd (cc)
    disconnect_none connected e = refl

    pub connect-IsCoherent : (rate : ℕ) (n : Ncm E) → IsCoherent n → Second (connect_rate c rate n)
    unfolding connect_rate
    connect-IsCoherent rate n h = elim (Option-cases (connect_refused n.state)) [
      | inl e ↦ subst Second (sym (case_none _ _ _ e)) (
          if-Holds Second n.in_flags.notify _
            (notify c 0 24 (record n { bit_rate = rate; connection_value = 1 })) h
            (notify-IsCoherent 0 24 (record n { bit_rate = rate; connection_value = 1 })
              (connects_lem n.state n.in_flags.connected_flag n.in_flags.notify n.connection_value
                n.ep_out h (connect_none n.state e))))
      | inr (r, e) ↦ subst Second (sym (case_some _ _ _ r e)) h
    ]

    pub disconnect-IsCoherent : (n : Ncm E) → IsCoherent n → Second (disconnect c n)
    unfolding disconnect
    disconnect-IsCoherent n h = elim (Option-cases (disconnect_refused n.state)) [
      | inl e ↦ subst Second (sym (case_none _ _ _ e)) (
          if-Holds Second n.in_flags.notify _ (notify c 16 8 (record n { connection_value = 0 })) h
            (notify-IsCoherent 16 8 (record n { connection_value = 0 })
              (disconnects_lem n.state n.in_flags.connected_flag n.in_flags.notify
                n.connection_value n.ep_out h (disconnect_none n.state e))))
      | inr (r, e) ↦ subst Second (sym (case_some _ _ _ r e)) h
    ]

    pick :
        (b : Bool) (x y : Ncm E)
        → (b ≡ true → IsCoherent x)
        → (b ≡ false → IsCoherent y)
        → IsCoherent (if b then x else y)
    pick true x y hx hy = hx refl
    pick false x y hx hy = hy refl

    pub switch-IsCoherent :
        (n : Ncm E)
        → n.in_flags.notify ≡ true
        → handle_valid n.ep_out ≡ true
        → IsCoherent n
        → IsCoherent (switch_link c (not (n.connection_value == 0)) n)
    unfolding switch_link set_in_flags
    switch-IsCoherent n pending v h =
        let st = n.state in
        let f = n.in_flags.connected_flag in
        let value = n.connection_value in
        let ep = n.ep_out in
        let now = subst (λ z. Agree st f z value ep) pending h in
        let after = taken_lem st f value ep now v in
        let flags =
          subst (λ z. Agree (next_state st (value == 0)) (not f) (not z) value ep) (sym pending)
            after in
        elim (Bool-cases (value == 0)) [
          | inl z ↦ rw z (
              pick (state_eq st connected) _ _ (λ e. told connected enabled _ (rw (z, e) at flags))
                (λ e. rw (z, e) at flags))
          | inr z ↦ rw z (
              pick (state_eq st enabled) _ _ (λ e. told enabled connected _ (rw (z, e) at flags))
                (λ e. rw (z, e) at flags))
        ]

    started :
        (a b : Bool) (x y n' : Ncm E)
        → (if a then some x else if b then some y else none) ≡ some n'
        → IsCoherent x
        → IsCoherent y
        → IsCoherent n'
    started true b x y n' e hx hy = rw (sym (some-injective e)) hx
    started false true x y n' e hx hy = rw (sym (some-injective e)) hy
    started false false x y n' e hx hy = absurd (cc)

    pub start-IsCoherent :
        (n n' : Ncm E) → start_receiving c n ≡ some n' → IsCoherent n → IsCoherent n'
    unfolding start_receiving
    start-IsCoherent n n' e h =
        let n1 = (ntb_receive c 0 false n).1 in
        let h1 = KeepsLink-IsCoherent n n1 (ntb_receive-KeepsLink c 0 false n) h in
        let n2 = (ntb_receive c 1 false n1).1 in
        started (ntb_receive c 0 false n).0 ((ntb_receive c 1 false n1).0 || not c.asserts) n1 n2 n'
          e h1 (KeepsLink-IsCoherent n1 n2 (ntb_receive-KeepsLink c 1 false n1) h1)
