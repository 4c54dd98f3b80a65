-- ===== src/Function/Laws.antt =====
-- A function answers every request for its interfaces and endpoints, if its overrides answer theirs.
use c2usb.Base.{
  ℕ, ◌/◌, ◌^◌, ==_iff, ◌≤◌, ◌<◌, ◌≡◌, refl, ap, ◌∙◌, arith, Bool, true, false, ◌&&◌, Option,
  if◌then◌else◌, ◌==◌, ltb, Ensures,
}
use c2usb.Config.Element.{Interface, alt_setting_count}
use c2usb.Core.{Drivers, Device, with_device, with_env}
use c2usb.Function.{handle_control_setup, handle_control_data, change_halt, endpoint_control_setup}
use c2usb.Message.Buffer.Laws.{IsValid}
use c2usb.Message.Reply.{Message, is_in, send_value}
use c2usb.Message.Reply.Laws.{IsReply, confirm-Answers, send_value-Sends}
use c2usb.Usb.Control.{
  is_standard, id_direction, low_byte, Recipient, to_interface, to_endpoint, to_device, to_other,
  get_interface_code, set_interface_code, set_feature_code, clear_feature_code, get_status_code,
  request_id, id_eq, standard,
}
use c2usb.Usb.EndpointAddress.{Direction, dir_in, dir_out, direction_of_code}

-- A message as `set_pending` leaves it, with a buffer of at least eight bytes.
pub record IsFresh (m : Message) : Type 0 where
  pub pending : m.pending ≡ true
  pub buffer : IsValid m.buffer
  pub unused : m.buffer.used_length ≡ 0
  pub small : m.buffer.size < 2 ^ 16
  pub room : 8 ≤ m.buffer.size

-- A step that answers the message, whatever it does to the rest.
abbrev pub Replies {ℓ} : {A : Type ℓ} → Message → Option (Message × A) → Type ℓ
Replies m o = Ensures (λ r. IsReply m r.0) o

pub Replies-if {ℓ} :
    {A : Type ℓ} {m : Message} {x y : Option (Message × A)} (b : Bool)
    → (b ≡ true → Replies m x)
    → (b ≡ false → Replies m y)
    → Replies m (if b then x else y)
Replies-if true taken other = taken refl
Replies-if false taken other = other refl

pub Ensures-if {ℓ} :
    {A : Type ℓ} {P : A → Type 0} {x y : Option A} (b : Bool)
    → (b ≡ true → Ensures P x)
    → (b ≡ false → Ensures P y)
    → Ensures P (if b then x else y)
Ensures-if true taken other = taken refl
Ensures-if false taken other = other refl

-- What an override of a function has to keep to.
pub record OverridesReply {S : Type 0} (d : Drivers S) : Type 0 where
  pub setup_replies :
      (i : Interface) (m : Message) (s : S) → IsFresh m → Replies m (d.control_setup_request i m s)
  pub data_replies :
      (i : Interface) (m : Message) (s : S) → IsFresh m → Replies m (d.control_data_complete i m s)

first_true : (a b : Bool) → (a && b) ≡ true → a ≡ true
first_true true b h = refl
first_true false b h = cc

-- A standard request of direction IN is one for the message.
pub is_in-of_standard :
    (m : Message) (rec : Recipient) (code : ℕ)
    → is_standard m.request dir_in rec code ≡ true
    → is_in m ≡ true
unfolding is_in is_standard id_eq id_direction request_id
is_in-of_standard m rec code e =
    let same = (==_iff _ _).0 (first_true _ _ e) in
    ap (λ b. test (direction_of_code (b / 2 ^ 7))) same ∙ in_code rec
  where
    test : Direction → Bool
    test dir = elim dir [ dir_in ↦ true | dir_out ↦ false ]

    in_code :
        (rec : Recipient)
        → test (direction_of_code ((request_id dir_in standard rec code).bm_request_type / 2 ^ 7))
          ≡ true
    in_code to_device = refl
    in_code to_interface = refl
    in_code to_endpoint = refl
    in_code to_other = refl

pub with_device-Replies :
    {S : Type 0} {m : Message} {o : Option Message} (dev : Device S)
    → Ensures (IsReply m) o
    → Replies m (with_device dev o)
with_device-Replies dev (m', e, reply) = ((m', dev), ap (with_device dev) e, reply)

pub with_env-Replies :
    {S : Type 0} {m : Message} {o : Option (Message × S)} (dev : Device S)
    → Replies m o
    → Replies m (with_env dev o)
with_env-Replies dev (r, e, reply) = (_, ap (with_env dev) e, reply)

-- A value of at most eight bytes answers a request for it.
pub send_value-Answers :
    (n value : ℕ) (m : Message)
    → IsFresh m
    → is_in m ≡ true
    → n ≤ 8
    → Ensures (IsReply m) (send_value n value m)
send_value-Answers n value m f i h =
    let (m', e, sends) =
      send_value-Sends n value m f.pending i f.buffer f.small f.unused (omega (arith, f.room)) in
    (m', e, sends.0)

module _ {S : Type 0} (d : Drivers S) where
  -- If the overrides answer what they are given, a request for an interface is answered, and so is the
  -- message after its data stage: the message is pending, with an empty buffer of at least eight bytes.
  pub handle_control_setup-Replies :
      (i : Interface) (m : Message) (dev : Device S)
      → OverridesReply d
      → IsFresh m
      → Replies m (handle_control_setup d i m dev) × Replies m (handle_control_data d i m dev)
  unfolding handle_control_setup handle_control_data
  handle_control_setup-Replies i m dev o f =
      let (confirms, rejects, _) = confirm-Answers true m f.pending in
      (
        Replies-if (is_standard m.request dir_in to_interface get_interface_code)
            (λ get. with_device-Replies dev (
              send_value-Answers 1 _ m f (is_in-of_standard m to_interface get_interface_code get)
                (omega arith)))
            (λ _.
              Replies-if (is_standard m.request dir_out to_interface set_interface_code)
                (λ _.
                  Replies-if (ltb (low_byte m.request.w_value) (alt_setting_count i))
                    (λ _. with_device-Replies _ confirms) (λ _. with_device-Replies dev rejects))
                (λ _. with_env-Replies dev (o.setup_replies i m dev.env f))),
        with_env-Replies dev (o.data_replies i m dev.env f),
      )

  change_halt-Replies :
      (f eph : ℕ) (halt : Bool) (m : Message) (dev : Device S)
      → IsFresh m
      → Replies m (change_halt d f eph halt m dev)
  unfolding change_halt
  change_halt-Replies f eph halt m dev fresh =
      let rejects = (confirm-Answers true m fresh.pending).1 in
      Replies-if (m.request.w_value == 0)
        (λ _.
          Replies-if (d.control_endpoint_state f eph halt dev.env).0
            (λ _. with_device-Replies _ ((confirm-Answers _ m fresh.pending).2))
            (λ _. with_device-Replies _ rejects))
        (λ _. with_device-Replies dev rejects)

  -- A request for an endpoint of a function that is bound to the mac is answered, in a pending message
  -- with an empty buffer of at least eight bytes.
  pub endpoint_control_setup-Replies :
      (f eph : ℕ) (m : Message) (dev : Device S)
      → IsFresh m
      → dev.bound f ≡ true
      → Replies m (endpoint_control_setup d f eph m dev)
  unfolding endpoint_control_setup
  endpoint_control_setup-Replies f eph m dev fresh b =
      Replies-if (is_standard m.request dir_out to_endpoint set_feature_code)
        (λ _. change_halt-Replies f eph true m dev fresh)
        (λ _.
          Replies-if (is_standard m.request dir_out to_endpoint clear_feature_code)
            (λ _. change_halt-Replies f eph false m dev fresh)
            (λ _.
              Replies-if (is_standard m.request dir_in to_endpoint get_status_code)
                (λ get. rw b (
                  with_device-Replies dev (
                    send_value-Answers 2 _ m fresh
                      (is_in-of_standard m to_endpoint get_status_code get) (omega arith))))
                (λ _. with_device-Replies dev (confirm-Answers true m fresh.pending).1)))
