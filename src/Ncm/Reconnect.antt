-- ===== src/Ncm/Reconnect.antt =====
-- A new link while the reception of the link before still runs.
use c2usb.Base.{ℕ, ◌≡◌, refl, true, false, none, some}
use c2usb.Base.{◌==◌, Bool-cases, inl, inr}
use c2usb.Message.Transfer.{Span}
use c2usb.Ncm.{
  Ncm, connected, device_or_resource_busy, Clients, is_ok, page_flags, set_page_flags,
  set_receiving, any_receiving, is_connected,
}
use c2usb.Ncm.Receive.{page_span, ntb_receive}
use c2usb.Ncm.Link.{start_receiving}

module _ {E : Type 0} (c : Clients E) where
  busy_lem :
      (page : ℕ) (n : Ncm E)
      → is_connected n ≡ true
      → ((eph : ℕ) (s : Span) (e : E) → c.receive_ep eph s e ≡ (device_or_resource_busy, e))
      → (ntb_receive c page false n ≡ (false, set_receiving page false n))
  unfolding ntb_receive set_receiving set_page_flags page_flags is_ok
  busy_lem page n st busy =
      let e = busy n.ep_out (page_span page n.rx) n.env in
      elim (Bool-cases (page == 0)) [
        | inl z ↦ elim (Bool-cases (any_receiving n)) [
          | inl r ↦ rw (st, e, r, z) refl
          | inr r ↦ rw (st, e, r, z) refl
        ]
        | inr z ↦ elim (Bool-cases (any_receiving n)) [
          | inl r ↦ rw (st, e, r, z) refl
          | inr r ↦ rw (st, e, r, z) refl
        ]
      ]

  connected_lem : (n : Ncm E) → n.state ≡ connected → is_connected n ≡ true
  unfolding is_connected
  connected_lem n e = rw e refl

  -- When a link is connected while the endpoint is busy, as it is while the reception of the link before still runs:
  -- neither page is received to, so the assertion fails; where assertions are off, the function goes on with no page
  -- that it takes for receiving.
  pub start_receiving_busy :
      (n : Ncm E)
      → n.state ≡ connected
      → ((eph : ℕ) (s : Span) (e : E) → c.receive_ep eph s e ≡ (device_or_resource_busy, e))
      → (c.asserts ≡ true → start_receiving c n ≡ none)
        × (c.asserts ≡ false
            → (n' : Ncm E) × (start_receiving c n ≡ some n') × (any_receiving n' ≡ false))
  unfolding start_receiving any_receiving set_receiving set_page_flags page_flags is_connected
  start_receiving_busy n st busy =
      let here = connected_lem n st in
      let n1 = set_receiving 0 false n in
      let first = busy_lem 0 n here busy in
      let second = busy_lem 1 n1 here busy in
      (
        (λ a. rw (first, second, a) refl),
        λ a. (set_receiving 1 false n1, rw (first, second, a) refl, refl),
      )
