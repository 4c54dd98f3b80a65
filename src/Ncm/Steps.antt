-- ===== src/Ncm/Steps.antt =====
-- The events that change the connection, in any order.

use c2usb.Base.{ℕ, ◌≡◌, refl, sym, inl, inr}
use c2usb.Base.{Bool, true, false, not, ◌&&◌, Option, none, some, ◌==◌, if◌then◌else◌, ◌>>=◌}
use c2usb.Base.{if-Holds, some-injective, List, [], ◌∷◌, Bool-cases}
use c2usb.Config.Element.{Interface, Endpoint, primary}
use c2usb.Message.Transfer.{Span, Transfer, is_success, handle_valid}
use c2usb.Ncm.{
  Ncm, NcmState, disabled, enabled, suspended, connected, NcmResult, Clients, set_in_flags,
  set_notify,
}
use c2usb.Message.Reply.{Message}
use c2usb.Ncm.Receive.{pop_datagram, ep_out_callback}
use c2usb.Ncm.Transmit.{commit_datagram, sent, send_next}
use c2usb.Ncm.Keeps.{KeepsLink-trans, pop_datagram-Keeps, ep_out_callback-KeepsLink}
use c2usb.Ncm.Traffic.{
  commit_datagram-Keeps, sent-KeepsLink, send_next-KeepsLink, control_setup-Keeps,
  control_data-Keeps,
}
use c2usb.Ncm.Link.{
  state_eq, same, connect_rate, disconnect, suspend, resume, power_state_change, switch_link,
  start_receiving, notify_ep_callback,
}
use c2usb.Ncm.Requests.{
  control_setup_request, control_data_complete, enable, enable_data, open_data_eps, open_notify_ep,
  disable, disable_data,
}
use c2usb.Ncm.Coherent.{Agree, IsCoherent, KeepsLink-IsCoherent, quiet_lem}
use c2usb.Ncm.Quiet.{
  IsQuiet, told, suspend-IsCoherent, resume-IsCoherent, connect-IsCoherent, disconnect-IsCoherent,
  switch-IsCoherent, start-IsCoherent,
}

module _ {E : Type 0} (c : Clients E) where
  -- What happens to the function: a call of the application or the network interface, a request, or the end of a
  -- transfer, whose callback for the notification endpoint is two steps, the second of which is `goes_on`. A notification
  -- is only taken while the data interface is open, since closing it cancels the notification.
  pub data Step (n : Ncm E) : Ncm E → Type 0 where
    connects : (bitrate : ℕ) → Step n (connect_rate c bitrate n).1
    disconnects : Step n (disconnect c n).1
    takes :
        {n' : Ncm E} (t : Transfer)
        → n.in_flags.notify ≡ true
        → handle_valid n.ep_out ≡ true
        → is_success t ≡ true
        → notify_ep_callback c t n ≡ some n'
        → Step n n'
    fails :
        {n' : Ncm E} (t : Transfer)
        → is_success t ≡ false
        → notify_ep_callback c t n ≡ some n'
        → Step n n'
    powers : (on : Bool) → Step n (power_state_change c on n)
    enables :
        {n' : Ncm E} (iface : Interface) (alt : ℕ) → enable c iface alt n ≡ some n' → Step n n'
    disables : (iface : Interface) → Step n (disable c iface n)
    commits :
        {n' : Ncm E} {res : NcmResult} (dg : Span)
        → commit_datagram c dg n ≡ some (res, n')
        → Step n n'
    pops : {n' : Ncm E} {dg : Span} → pop_datagram c n ≡ some (dg, n') → Step n n'
    receives : (t : Transfer) → Step n (ep_out_callback c t n)
    sends : (t : Transfer) → Step n (send_next c t n.in_flags (sent c t n))
    goes_on : (t : Transfer) → Step n (send_next c t n.in_flags n)
    asks :
        {n' : Ncm E} {m' : Message} (iface : Interface) (m : Message)
        → control_setup_request c iface m n ≡ some (m', n')
        → Step n n'
    sets :
        {n' : Ncm E} {m' : Message} (m : Message)
        → control_data_complete c m n ≡ some (m', n')
        → Step n n'

  pub data Reach (n : Ncm E) : Ncm E → Type 0 where
    here : Reach n n
    next : {n' n'' : Ncm E} → Reach n n' → Step n' n'' → Reach n n''

  module _ (q : IsQuiet c) where
    taken_run :
        (s a link : Bool) (x n' : Ncm E) (y : Option (Ncm E))
        → s ≡ true
        → (if s then (if a then none else if link then start_receiving c x else some x) else y)
          ≡ some n'
        → IsCoherent x
        → IsCoherent n'
    taken_run true true link x n' y s e h = absurd (cc)
    taken_run true false true x n' y s e h = start-IsCoherent c q x n' e h
    taken_run true false false x n' y s e h = rw (sym (some-injective e)) h
    taken_run false a link x n' y s e h = absurd (cc)

    failed_run :
        (s : Bool) (x n' : Ncm E) (y : Option (Ncm E))
        → s ≡ false
        → (if s then y else some x) ≡ some n'
        → IsCoherent x
        → IsCoherent n'
    failed_run true x n' y s e h = absurd (cc)
    failed_run false x n' y s e h = rw (sym (some-injective e)) h

    fresh_lem : (value ep : ℕ) → Agree enabled false false value ep
    fresh_lem value ep = record {
      when_connected = λ e. absurd (cc);
      when_enabled = λ _. refl;
      when_disabled = λ e. absurd (cc);
      when_closed = λ _. refl;
      toggles = λ e _. absurd (cc);
    }

    closed_lem :
        (st : NcmState) (f p : Bool) (value ep : ℕ)
        → st ≡ disabled
        → f ≡ false
        → handle_valid ep ≡ false
        → Agree st f p value ep
    closed_lem st f p value ep s off v = record {
      when_connected = λ e. absurd (cc);
      when_enabled = λ _. off;
      when_disabled = λ _. (off, v);
      when_closed = λ _. off;
      toggles = λ _ e. absurd (cc);
    }

    enable_data-IsCoherent : (n : Ncm E) → IsCoherent (enable_data c n)
    unfolding enable_data
    enable_data-IsCoherent n = told c q n.state enabled _ (fresh_lem n.connection_value n.ep_out)

    enable_run :
        (a b : Bool) (o o' : Option (Ncm E)) (n n' : Ncm E)
        → (if a
            then (o >>= λ x. some (record x { tx = record (x.tx) { max_size = x.tx.size } }))
            else if b
            then (o' >>= λ x. some (enable_data c x))
            else some n)
          ≡ some n'
        → ((x : Ncm E) → o ≡ some x → IsCoherent x)
        → IsCoherent n
        → IsCoherent n'
    enable_run true b none o' n n' e k h = absurd (cc)
    enable_run true b (some x) o' n n' e k h = rw (sym (some-injective e)) (k x refl)
    enable_run false true o none n n' e k h = absurd (cc)
    enable_run false true o (some x) n n' e k h =
        rw (sym (some-injective e)) (enable_data-IsCoherent x)
    enable_run false false o o' n n' e k h = rw (sym (some-injective e)) h

    open_notify-IsCoherent :
        (eps : List (ℕ × Endpoint)) (n x : Ncm E)
        → open_notify_ep c eps n ≡ some x
        → IsCoherent n
        → IsCoherent x
    unfolding open_notify_ep
    open_notify-IsCoherent [] n x e h = absurd (cc)
    open_notify-IsCoherent (ep ∷ r) n x e h = rw (sym (some-injective e)) h

    is_disabled : (st : NcmState) → state_eq st disabled ≡ true → st ≡ disabled
    unfolding state_eq
    is_disabled disabled e = refl
    is_disabled enabled e = absurd (cc)
    is_disabled suspended e = absurd (cc)
    is_disabled connected e = absurd (cc)

    disabled_data :
        (n : Ncm E)
        → IsCoherent n
        → ((disable_data c n).state ≡ disabled)
          × ((disable_data c n).in_flags.connected_flag ≡ false)
    unfolding disable_data set_in_flags
    disabled_data n h = elim (Bool-cases (state_eq n.state disabled)) [
      | inl e ↦ rw e (is_disabled n.state e, (h.when_disabled (is_disabled n.state e)).0)
      | inr e ↦
          let n1 = record n {
            state = disabled;
            in_flags = record (n.in_flags) { connected_flag = false };
          } in
          let (env, told_env) = q.tells n.state disabled n1 in rw (e, told_env) (refl, refl)
    ]

    disable-IsCoherent :
        (iface : Interface) (n : Ncm E) → IsCoherent n → IsCoherent (disable c iface n)
    unfolding disable
    disable-IsCoherent iface n h =
        let n1 = disable_data c n in
        let (st, off) = disabled_data n h in
        let (out, env) = c.close_ep n1.ep_out n1.env in
        let (in_ep, env') = c.close_ep n1.ep_in env in
        let (eph, env'') = c.close_ep n.ep_notify n.env in
        if-Holds (λ (x : Ncm E). IsCoherent x) (primary iface)
          (record n { ep_notify = eph; env = env'' })
          (record n1 { ep_out = out; ep_in = in_ep; env = env' }) h
          (closed_lem n1.state n1.in_flags.connected_flag n1.in_flags.notify n1.connection_value out
            st off (q.closes n1.ep_out n1.env))

    Step-IsCoherent : {n n' : Ncm E} → Step n n' → IsCoherent n → IsCoherent n'
    unfolding power_state_change notify_ep_callback enable set_notify set_in_flags
    Step-IsCoherent {n = n} (connects bitrate) h = connect-IsCoherent c q bitrate n h
    Step-IsCoherent {n = n} disconnects h = disconnect-IsCoherent c q n h
    Step-IsCoherent {n = n} (takes {n'} t pending v good e) h =
        let link = not (n.connection_value == 0) in
        taken_run (is_success t)
          (c.asserts && not (n.in_flags.notify && same (not n.in_flags.connected_flag) link)) link
          (switch_link c link n) n' _ good e (switch-IsCoherent c q n pending v h)
    Step-IsCoherent {n = n} (fails {n'} t bad e) h =
        let n1 = record n { in_flags = record (n.in_flags) { notify = false } } in
        failed_run (is_success t) (c.state_change n1.state n1.state n1) n' _ bad e (
          told c q n1.state n1.state n1 (
            quiet_lem n.state n.in_flags.connected_flag n.in_flags.notify n.connection_value
              n.connection_value n.ep_out h))
    Step-IsCoherent {n = n} (powers on) h =
        if-Holds (λ (x : Ncm E). IsCoherent x) on (resume c n) (suspend c n)
          (resume-IsCoherent c q n h) (suspend-IsCoherent c q n h)
    Step-IsCoherent {n = n} (enables {n'} iface alt e) h =
        enable_run (primary iface) (not (alt == 0)) (open_notify_ep c (c.endpoints iface) n)
          (open_data_eps c (c.endpoints iface) n) n n' e
          (λ x o. open_notify-IsCoherent (c.endpoints iface) n x o h) h
    Step-IsCoherent {n = n} (disables iface) h = disable-IsCoherent iface n h
    Step-IsCoherent {n = n} (commits {n'} {res} dg e) h =
        KeepsLink-IsCoherent n n' (commit_datagram-Keeps c dg n (res, n') e) h
    Step-IsCoherent {n = n} (pops {n'} {dg} e) h =
        KeepsLink-IsCoherent n n' (pop_datagram-Keeps c n (dg, n') e) h
    Step-IsCoherent {n = n} (receives t) h =
        KeepsLink-IsCoherent n _ (ep_out_callback-KeepsLink c q.hears t n) h
    Step-IsCoherent {n = n} (sends t) h =
        KeepsLink-IsCoherent n _
          (KeepsLink-trans n (sent c t n) _ (sent-KeepsLink c t n)
            (send_next-KeepsLink c q.offers t n.in_flags (sent c t n)))
          h
    Step-IsCoherent {n = n} (goes_on t) h =
        KeepsLink-IsCoherent n _ (send_next-KeepsLink c q.offers t n.in_flags n) h
    Step-IsCoherent {n = n} (asks {n'} {m'} iface m e) h =
        KeepsLink-IsCoherent n n' (control_setup-Keeps c iface m n (m', n') e) h
    Step-IsCoherent {n = n} (sets {n'} {m'} m e) h =
        KeepsLink-IsCoherent n n' (control_data-Keeps c m n (m', n') e) h

    -- From a state that is coherent, as the one of a new function is, through any order of its operations, callbacks,
    -- requests, and enabled or disabled interfaces, and whatever its endpoints answer: the function is connected only with the flag of the connection, enabled or
    -- disabled only without it, the flag is down while the data interface is closed, and a notification that is under
    -- way switches the connection. The network interface does not call back when it is told of a state, and
    -- keeps the connection in its other methods, a closed endpoint has no valid handle, and no notification is taken after the data interface was closed.
    pub reach-IsCoherent : {n : Ncm E} {n' : Ncm E} → IsCoherent n → Reach n n' → IsCoherent n'
    reach-IsCoherent h here = h
    reach-IsCoherent h (next r s) = Step-IsCoherent s (reach-IsCoherent h r)
