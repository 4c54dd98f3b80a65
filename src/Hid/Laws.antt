-- ===== src/Hid/Laws.antt =====
-- Starting the application, and the answers of the HID function to its control requests.
use c2usb.Base.{ℕ, ◌≤◌, ◌≡◌, refl, ap, ◌∙◌, inl, inr, arith}
use c2usb.Base.{Bool, true, Option, none, some, List, [], ◌∷◌, length}
use c2usb.Base.{Option-cases, Ensures}
use c2usb.Config.Element.{Interface, Endpoint}
use c2usb.Message.Transfer.{handle_valid}
use c2usb.Hid.{
  session_case, Session, Hid, Clients, transport_stop, transport_start, close_eps, disable,
  open_eps, start,
}

pub case_null {ℓ} :
    {A : Type ℓ} (null : A) (f : Session → A) (o : Option Session)
    → o ≡ none
    → session_case o null f ≡ null
unfolding session_case
case_null null f none e = refl
case_null null f (some s) e = absurd (cc)

pub case_session {ℓ} :
    {A : Type ℓ} (null : A) (f : Session → A) (o : Option Session) (s : Session)
    → o ≡ some s
    → session_case o null f ≡ f s
unfolding session_case
case_session null f o s e = rw e refl

-- The interface has an IN endpoint and at most one more, and its opening gives a valid handle.
pub record Opens {E : Type 0} (c : Clients E) (iface : Interface) : Type 0 where
  pub one_or_two :
      (eps : List (ℕ × Endpoint)) × (first : ℕ × Endpoint) × (c.endpoints iface ≡ first ∷ eps)
      × (length eps ≤ 1)
  pub valid : (ep : ℕ × Endpoint) (env : E) → handle_valid (c.open_ep ep env).0 ≡ true

-- The application creates a session for the protocol that it is asked for.
unfoldable pub Obeys : {E : Type 0} → Clients E → Type 0
Obeys {E} c = (mode : ℕ) (h : Hid E) → (c.start mode h).0.boot_mode ≡ mode

module _ {E : Type 0} (c : Clients E) where
  -- Nothing is left of the session.
  pub session-disable : (h : Hid E) → (disable c h).session ≡ none
  unfolding disable close_eps transport_stop
  session-disable h = elim (Option-cases h.session) [
    | inl e ↦ ap (λ (x : Hid E). x.session) (case_null _ _ h.session e) ∙ e
    | inr (s, e) ↦ ap (λ (x : Hid E). x.session) (case_session _ _ h.session s e)
  ]

  abbrev Opened : Hid E → Hid E → Type 0
  Opened h h' = (h'.session ≡ h.session) × (handle_valid h'.ep_in ≡ true)

  open_eps_lem :
      (first : ℕ × Endpoint) (eps : List (ℕ × Endpoint)) (h : Hid E)
      → length eps ≤ 1
      → ((ep : ℕ × Endpoint) (env : E) → handle_valid (c.open_ep ep env).0 ≡ true)
      → Ensures (Opened h) (open_eps c (first ∷ eps) h)
  unfolding open_eps
  open_eps_lem first [] h le v = (_, refl, (refl, v first h.env))
  open_eps_lem first (o ∷ []) h le v = (_, refl, (refl, v first h.env))
  open_eps_lem first (o ∷ (x ∷ r)) h le v = absurd (omega arith)

  transport_start_idle :
      (mode : ℕ) (h : Hid E)
      → h.session ≡ none
      → transport_start c mode h ≡ record (c.start mode h).1 { session = some (c.start mode h).0 }
  unfolding transport_start
  transport_start_idle mode h e = case_null _ _ h.session e

  -- Whatever the function was doing, `start` leaves it with a session for the protocol that it was given.
  pub start-session :
      (asserts : Bool) (iface : Interface) (mode : ℕ) (h : Hid E)
      → Opens c iface
      → Obeys c
      → Ensures
          (λ h'. (s : Session) × (h'.session ≡ some s) × (s.boot_mode ≡ mode))
          (start c asserts iface mode h)
  unfolding start Obeys
  start-session asserts iface mode h o k =
      let (eps, first, e, le) = o.one_or_two in
      let (h1, e1, (se, v)) = open_eps_lem first eps (disable c h) le o.valid in
      let ns : h1.session ≡ none = se ∙ session-disable h in
      rw (e, e1, v, transport_start_idle mode h1 ns) (_, refl, (_, refl, k mode h1))
