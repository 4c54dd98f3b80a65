-- ===== src/Ncm/Keeps.antt =====
-- What an operation on the data keeps of the connection, and the reception keeps it.

use c2usb.Base.{ℕ, ◌≡◌, refl, ap, ◌∙◌}
use c2usb.Base.{Bool, true, false, not, ◌&&◌, ◌||◌, Option, none, some, ◌==◌, if◌then◌else◌}
use c2usb.Base.{option_case, if-Holds, When, When-none, case-Given, When-some, When-bind}
use c2usb.Message.Transfer.{Span, Transfer, empty_span, is_success}
use c2usb.Ntb.{is_valid_ntb}
use c2usb.Ntb.Receive.{RxCtx, received, set_header}
use c2usb.Ntb.Receive
use c2usb.Ncm.{
  Ncm, NcmState, Clients, PageFlags, other_page, page_flags, set_page_flags, set_receiving,
  is_connected,
}
use c2usb.Ncm.Receive.{
  passed, ntb_receive, set_processing, first_access, next_datagram, pop_datagram_from, unused,
  receive_if_unused, pop_datagram, set_length, page_received, ep_out_callback,
}
use c2usb.Ncm.Coherent.{KeepsLink, ntb_receive-KeepsLink}

module _ {E : Type 0} where
  pub same_link_of : (n : Ncm E) → KeepsLink n n
  same_link_of n = record {
    same_state = refl;
    same_link = refl;
    same_notify = refl;
    same_value = refl;
    same_ep = refl;
  }

  abbrev link_of : Ncm E → NcmState × (Bool × (Bool × (ℕ × ℕ)))
  link_of n =
      (n.state, (n.in_flags.connected_flag, (n.in_flags.notify, (n.connection_value, n.ep_out))))

  pub of_link : (n n' : Ncm E) → link_of n' ≡ link_of n → KeepsLink n n'
  of_link n n' e = record {
    same_state = ap (λ t. t.0) e;
    same_link = ap (λ t. t.1.0) e;
    same_notify = ap (λ t. t.1.1.0) e;
    same_value = ap (λ t. t.1.1.1.0) e;
    same_ep = ap (λ t. t.1.1.1.1) e;
  }

  pub KeepsLink-trans : (n n' n'' : Ncm E) → KeepsLink n n' → KeepsLink n' n'' → KeepsLink n n''
  KeepsLink-trans n n' n'' a b = record {
    same_state = b.same_state ∙ a.same_state;
    same_link = b.same_link ∙ a.same_link;
    same_notify = b.same_notify ∙ a.same_notify;
    same_value = b.same_value ∙ a.same_value;
    same_ep = b.same_ep ∙ a.same_ep;
  }

  set_page_flags-KeepsLink :
      (page : ℕ) (f : PageFlags) (n : Ncm E) → KeepsLink n (set_page_flags page f n)
  unfolding set_page_flags
  set_page_flags-KeepsLink page f n =
      if-Holds (λ (x : Ncm E). KeepsLink n x) (page == 0) (record n { page_0 = f })
        (record n { page_1 = f }) (of_link n (record n { page_0 = f }) refl)
        (of_link n (record n { page_1 = f }) refl)

  set_receiving-KeepsLink : (page : ℕ) (b : Bool) (n : Ncm E) → KeepsLink n (set_receiving page b n)
  unfolding set_receiving
  set_receiving-KeepsLink page b n = set_page_flags-KeepsLink page _ n

  -- What an operation that returns a value with the function keeps, unless it faults.
  abbrev pub Keeps : {R : Type 0} → Ncm E → Option (R × Ncm E) → Type 0
  Keeps n o = When (λ r. KeepsLink n r.1) o

module _ {E : Type 0} (c : Clients E) where
  set_processing-KeepsLink :
      (page : ℕ) (b : Bool) (n : Ncm E) → KeepsLink n (set_processing c page b n)
  unfolding set_processing
  set_processing-KeepsLink page b n =
      set_page_flags-KeepsLink page (record (page_flags page n) { pending = b; manipulate = b }) n

  next_datagram-Keeps :
      (page : ℕ) (n n1 : Ncm E) → KeepsLink n n1 → Keeps n (next_datagram c page n1)
  unfolding next_datagram
  next_datagram-Keeps page n n1 k =
      When-bind (λ r. KeepsLink n r.1) (passed (Receive.pop_datagram n1.rx)) _
        (λ (dg, rx) e.
          let found = option_case dg empty_span (λ s. s) in
          let n2 = record n1 { rx = rx } in
          let k2 : KeepsLink n n2 = KeepsLink-trans n n1 n2 k (of_link n1 n2 refl) in
          let n3 = set_processing c page false n2 in
          When-some (λ r. KeepsLink n r.1) (found, if found.len == 0 then n3 else n2)
            (if-Holds (λ (x : Ncm E). KeepsLink n x) (found.len == 0) n3 n2
              (KeepsLink-trans n n2 n3 k2 (set_processing-KeepsLink page false n2)) k2))

  first_access-Keeps :
      (page : ℕ) (n : Ncm E)
      → When (λ o. When (λ (x : Ncm E). KeepsLink n x) o) (first_access c page n)
  unfolding first_access
  first_access-Keeps page n =
      let P : Option (Ncm E) → Type 0 = λ o. When (λ (x : Ncm E). KeepsLink n x) o in
      When-bind P (is_valid_ntb (received (record (n.rx) { page = page }))) _ (λ valid e.
        if-Holds (λ o. When P o) valid _ (some none)
          (When-bind P (passed (set_header 0 (record (n.rx) { page = page }))) _ (λ rx e'.
            When-some P (some (record n { rx = rx })) (
              When-some (λ (x : Ncm E). KeepsLink n x) (record n { rx = rx })
                (of_link n (record n { rx = rx }) refl))))
          (When-some P none (When-none (λ (x : Ncm E). KeepsLink n x))))

  pop_from-Keeps :
      (page : ℕ) (n n0 : Ncm E) → KeepsLink n n0 → Keeps n (pop_datagram_from c page n0)
  unfolding pop_datagram_from
  pop_from-Keeps page n n0 k =
      let P : Span × Ncm E → Type 0 = λ r. KeepsLink n r.1 in
      let flags = page_flags page n0 in
      let n1 = set_processing c page true n0 in
      let k1 = KeepsLink-trans n n0 n1 k (set_processing-KeepsLink page true n0) in
      let n2 = set_processing c page false n1 in
      let refused : Keeps n (some (empty_span, n2)) =
        When-some P (empty_span, n2)
          (KeepsLink-trans n n1 n2 k1 (set_processing-KeepsLink page false n1)) in
      if-Holds (λ o. When P o) (flags.pending && not flags.manipulate) _ _
        (When-bind P (first_access c page n1) _ (λ accessed e.
          case-Given (λ o. When P o) (some (empty_span, n2)) (λ x. next_datagram c page x) accessed
            refused
            (λ x given.
              next_datagram-Keeps page n x
                (KeepsLink-trans n n1 x k1 (first_access-Keeps page n1 accessed e x given)))))
        (if-Holds (λ o. When P o) (flags.pending || flags.manipulate) (next_datagram c page n1)
          (some (empty_span, n2)) (next_datagram-Keeps page n n1 k1) refused)

  receive_if_unused-KeepsLink : (page : ℕ) (n : Ncm E) → KeepsLink n (receive_if_unused c page n)
  unfolding receive_if_unused
  receive_if_unused-KeepsLink page n =
      let n1 = set_receiving page true n in
      if-Holds (λ (x : Ncm E). KeepsLink n x) (unused c n.page_0 && unused c n.page_1)
        (ntb_receive c page true n1).1 n
        (KeepsLink-trans n n1 _ (set_receiving-KeepsLink page true n)
          (ntb_receive-KeepsLink c page true n1))
        (same_link_of n)

  pub pop_datagram-Keeps : (n : Ncm E) → Keeps n (pop_datagram c n)
  unfolding pop_datagram
  pop_datagram-Keeps n =
      let P : Span × Ncm E → Type 0 = λ r. KeepsLink n r.1 in
      let page = n.rx.page in
      When-bind P (pop_datagram_from c page n) _ (λ (dg, n1) e.
        let k1 = pop_from-Keeps page n n (same_link_of n) (dg, n1) e in
        if-Holds (λ o. When P o) (not (dg.len == 0)) (some (dg, n1)) _ (When-some P (dg, n1) k1)
          (When-bind P (pop_datagram_from c (other_page page) n1) _ (λ (dg', n2) e'.
            let k2 = pop_from-Keeps (other_page page) n n1 k1 (dg', n2) e' in
            let n3 = (ntb_receive c page false n2).1 in
            let n4 = receive_if_unused c page n2 in
            let found = not (dg'.len == 0) in
            When-some P (dg', if found then n3 else n4)
              (if-Holds (λ (x : Ncm E). KeepsLink n x) found n3 n4
                (KeepsLink-trans n n2 n3 k2 (ntb_receive-KeepsLink c page false n2))
                (KeepsLink-trans n n2 n4 k2 (receive_if_unused-KeepsLink page n2))))))

  page_received-KeepsLink : (page size : ℕ) (n : Ncm E) → KeepsLink n (page_received c page size n)
  unfolding page_received
  page_received-KeepsLink page size n =
      let f = page_flags page n in
      let n1 = record n { rx = set_length c page size n.rx } in
      let f' = record f { receiving = not f.receiving; pending = not f.pending } in
      let n2 = set_page_flags page f' n1 in
      let n3 = record n2 { rx = record (n2.rx) { page = page } } in
      let k2 = KeepsLink-trans n n1 n2 (of_link n n1 refl) (set_page_flags-KeepsLink page f' n1) in
      if-Holds (λ (x : Ncm E). KeepsLink n x) (page_flags (other_page page) n).pending n2
        (ntb_receive c (other_page page) false n3).1 k2
        (KeepsLink-trans n n2 _ k2 (
          KeepsLink-trans n2 n3 _ (of_link n2 n3 refl)
            (ntb_receive-KeepsLink c (other_page page) false n3)))

  pub ep_out_callback-KeepsLink :
      ((x : Ncm E) → KeepsLink x (c.data_received x))
      → (t : Transfer) (n : Ncm E) → KeepsLink n (ep_out_callback c t n)
  unfolding ep_out_callback
  ep_out_callback-KeepsLink received_data t n =
      let page = if t.data_ptr == n.rx.size then 1 else 0 in
      let n1 = page_received c page t.size n in
      if-Holds (λ (x : Ncm E). KeepsLink n x) (not (is_connected n)) (set_receiving page false n) _
        (set_receiving-KeepsLink page false n)
        (if-Holds (λ (x : Ncm E). KeepsLink n x) (is_success t) (c.data_received n1)
          (ntb_receive c page true n).1
          (KeepsLink-trans n n1 _ (page_received-KeepsLink page t.size n) (received_data n1))
          (ntb_receive-KeepsLink c page true n))
