-- ===== src/Ncm/Coherent.antt =====
-- The state and the flags of the connection agree, whatever happens to the function.

use c2usb.Base.{ℕ, ◌≡◌, ◌≢◌, refl, sym, ◌∙◌, arith, inl, inr}
use c2usb.Base.{Bool, true, false, not, ◌==◌, if◌then◌else◌}
use c2usb.Base.{Bool-cases}
use c2usb.Message.Transfer.{handle_valid}
use c2usb.Ncm.{
  Ncm, NcmState, disabled, enabled, suspended, connected, Clients, set_page_flags, set_receiving,
  set_in_flags,
}
use c2usb.Ncm.Receive.{ntb_receive}
use c2usb.Ncm.Transmit.{next_ntb, send_data, try_send}
use c2usb.Ncm.Link.{state_eq, same}

-- The state, the flags connected and notify, the value of the notification, and the data endpoint.
pub record Agree (st : NcmState) (link pending : Bool) (value ep : ℕ) : Type 0 where
  pub when_connected : st ≡ connected → link ≡ true
  pub when_enabled : st ≡ enabled → link ≡ false
  pub when_disabled : st ≡ disabled → (link ≡ false) × (handle_valid ep ≡ false)
  pub when_closed : handle_valid ep ≡ false → link ≡ false
  pub toggles : pending ≡ true → handle_valid ep ≡ true → same (not link) (not (value == 0)) ≡ true

abbrev pub IsCoherent : {E : Type 0} → Ncm E → Type 0
IsCoherent n = Agree n.state n.in_flags.connected_flag n.in_flags.notify n.connection_value n.ep_out

-- An operation on the data leaves the connection alone.
pub record KeepsLink {E : Type 0} (n n' : Ncm E) : Type 0 where
  pub same_state : n'.state ≡ n.state
  pub same_link : n'.in_flags.connected_flag ≡ n.in_flags.connected_flag
  pub same_notify : n'.in_flags.notify ≡ n.in_flags.notify
  pub same_value : n'.connection_value ≡ n.connection_value
  pub same_ep : n'.ep_out ≡ n.ep_out

pub KeepsLink-IsCoherent :
    {E : Type 0} (n n' : Ncm E) → KeepsLink n n' → IsCoherent n → IsCoherent n'
KeepsLink-IsCoherent n n' k h =
    rw (k.same_state, k.same_link, k.same_notify, k.same_value, k.same_ep) h

-- The five cases on the values alone.
pub connects_lem :
    (st : NcmState) (link pending : Bool) (value ep : ℕ)
    → Agree st link pending value ep
    → st ≡ enabled
    → Agree st link true 1 ep
connects_lem st link pending value ep h e = record {
  when_connected = h.when_connected;
  when_enabled = h.when_enabled;
  when_disabled = h.when_disabled;
  when_closed = h.when_closed;
  toggles = λ _ _. ground (arith, h.when_enabled e);
}

pub disconnects_lem :
    (st : NcmState) (link pending : Bool) (value ep : ℕ)
    → Agree st link pending value ep
    → st ≡ connected
    → Agree st link true 0 ep
disconnects_lem st link pending value ep h e = record {
  when_connected = h.when_connected;
  when_enabled = h.when_enabled;
  when_disabled = h.when_disabled;
  when_closed = h.when_closed;
  toggles = λ _ _. ground (arith, h.when_connected e);
}

pub quiet_lem :
    (st : NcmState) (link pending : Bool) (value value' ep : ℕ)
    → Agree st link pending value ep
    → Agree st link false value' ep
quiet_lem st link pending value value' ep h = record {
  when_connected = h.when_connected;
  when_enabled = h.when_enabled;
  when_disabled = h.when_disabled;
  when_closed = h.when_closed;
  toggles = λ e _. absurd (cc);
}

pub suspended_lem :
    (st : NcmState) (link pending : Bool) (value ep : ℕ)
    → Agree st link pending value ep
    → Agree suspended link pending value ep
suspended_lem st link pending value ep h = record {
  when_connected = λ e. absurd (cc);
  when_enabled = λ e. absurd (cc);
  when_disabled = λ e. absurd (cc);
  when_closed = h.when_closed;
  toggles = h.toggles;
}

pub resumed_lem :
    (st : NcmState) (link pending : Bool) (value ep : ℕ)
    → Agree st link pending value ep
    → Agree
        (if not (handle_valid ep) then disabled else if link then connected else enabled)
        link
        pending
        value
        ep
resumed_lem st link pending value ep h = elim (Bool-cases (handle_valid ep)) [
  | inl v ↦ rw v (record {
    when_connected = λ e. ground arith;
    when_enabled = λ e. ground arith;
    when_disabled = λ e. ground arith;
    when_closed = λ e. absurd (cc);
    toggles = λ e _. h.toggles e v;
  })
  | inr v ↦ rw v (record {
    when_connected = λ e. absurd (cc);
    when_enabled = λ e. absurd (cc);
    when_disabled = λ e. (h.when_closed v, v);
    when_closed = λ e. h.when_closed v;
    toggles = λ e z. absurd (cc);
  })
]

abbrev pub next_state : NcmState → Bool → NcmState
next_state st down =
    if state_eq st (if not down then enabled else connected)
    then (if not down then connected else enabled)
    else st

taken_cases :
    (st : NcmState) (link down : Bool)
    → same (not link) (not down) ≡ true
    → (st ≡ connected → link ≡ true)
    → (st ≡ enabled → link ≡ false)
    → st ≢ disabled
    → (next_state st down ≡ connected → not link ≡ true)
      × (next_state st down ≡ enabled → not link ≡ false)
      × (next_state st down ≢ disabled)
unfolding state_eq
taken_cases disabled link down t hc he hd = absurd (hd refl)
taken_cases enabled true down t hc he hd = absurd (true_false (he refl))
  where
    true_false : true ≡ false → ⊥
    true_false e = cc
taken_cases enabled false true t hc he hd = absurd (cc)
taken_cases enabled false false t hc he hd = ((λ _. refl), (λ e. absurd (cc)), (λ e. cc))
taken_cases suspended link true t hc he hd = ((λ e. absurd (cc)), (λ e. absurd (cc)), (λ e. cc))
taken_cases suspended link false t hc he hd = ((λ e. absurd (cc)), (λ e. absurd (cc)), (λ e. cc))
taken_cases connected false down t hc he hd = absurd (false_true (hc refl))
  where
    false_true : false ≡ true → ⊥
    false_true e = cc
taken_cases connected true true t hc he hd = ((λ e. absurd (cc)), (λ _. refl), (λ e. cc))
taken_cases connected true false t hc he hd = absurd (cc)

-- A notification that the host took: the state follows, unless the bus is suspended.
pub taken_lem :
    (st : NcmState) (link : Bool) (value ep : ℕ)
    → Agree st link true value ep
    → handle_valid ep ≡ true
    → Agree (next_state st (value == 0)) (not link) false value ep
taken_lem st link value ep h v =
    let opens = λ (e : st ≡ disabled). true_false (sym v ∙ (h.when_disabled e).1) in
    let (on, off, never) =
      taken_cases st link (value == 0) (h.toggles refl v) h.when_connected h.when_enabled opens in
    record {
      when_connected = on;
      when_enabled = off;
      when_disabled = λ e. absurd (never e);
      when_closed = λ e. absurd (true_false (sym v ∙ e));
      toggles = λ e _. absurd (cc);
    }
  where
    true_false : true ≢ false
    true_false e = cc

-- The operations on the data that the steps contain.
module _ {E : Type 0} (c : Clients E) where
  pub ntb_receive-KeepsLink :
      (page : ℕ) (raised : Bool) (n : Ncm E) → KeepsLink n (ntb_receive c page raised n).1
  unfolding ntb_receive set_receiving set_page_flags
  ntb_receive-KeepsLink page raised n = record {
    same_state = ground arith;
    same_link = ground arith;
    same_notify = ground arith;
    same_value = ground arith;
    same_ep = ground arith;
  }

  pub try_send-KeepsLink : (n : Ncm E) → KeepsLink n (try_send c n).1
  unfolding try_send next_ntb send_data set_in_flags
  try_send-KeepsLink n = record {
    same_state = ground arith;
    same_link = ground arith;
    same_notify = ground arith;
    same_value = ground arith;
    same_ep = ground arith;
  }
