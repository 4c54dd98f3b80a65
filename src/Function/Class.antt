-- ===== src/Function/Class.antt =====
-- What the class functions share: the requests of their class, and a reply beside the function's new state.
use c2usb.Base.{
  ℕ, ◌/◌, ◌%◌, ◌^◌, ◌≡◌, ◌≢◌, arith, refl, ap, ◌∙◌, Bool, true, false, ◌&&◌, Option, some, ==_iff,
  ◌>>=◌, Ensures,
}
use c2usb.Function.Laws.{Replies}
use c2usb.Message.Reply.{Message, is_in}
use c2usb.Message.Reply.Laws.{IsReply}
use c2usb.Usb.Control.{RequestId, request_id, id_eq, id_direction, class_type, to_interface}
use c2usb.Usb.EndpointAddress.{Direction, dir_in, dir_out, direction_of_code}

-- A class request for an interface, by its direction and its code.
abbrev pub is_class : Direction → ℕ → RequestId → Bool
is_class dir code r = id_eq r (request_id dir class_type to_interface code)

abbrev pub with_state : {A : Type 0} → A → Option Message → Option (Message × A)
with_state a o = o >>= λ m. some (m, a)

pub with_state-Replies :
    {A : Type 0} {m : Message} (o : Option Message) (a : A)
    → Ensures (IsReply m) o
    → Replies m (with_state a o)
with_state-Replies o a (m', e, reply) = ((m', a), ap (with_state a) e, reply)

first_true : (a b : Bool) → (a && b) ≡ true → a ≡ true
first_true true b h = refl
first_true false b h = cc

is_in_dir : Direction → Bool
is_in_dir dir = elim dir [ dir_in ↦ true | dir_out ↦ false ]

-- The direction of a class request is the message's.
is_in_of_class :
    (m : Message) (dir : Direction) (code : ℕ)
    → is_class dir code m.request.id ≡ true
    → is_in m ≡ is_in_dir dir
unfolding is_in id_eq id_direction is_in_dir request_id
is_in_of_class m dir code e =
    ap (λ b. is_in_dir (direction_of_code (b / 2 ^ 7))) ((==_iff _ _).0 (first_true _ _ e))
    ∙ code_of dir
  where
    code_of :
        (dir : Direction)
        → is_in_dir
            (direction_of_code ((request_id dir class_type to_interface 0).bm_request_type / 2 ^ 7))
          ≡ is_in_dir dir
    code_of dir_in = refl
    code_of dir_out = refl

pub is_in-of_class :
    (m : Message) (code : ℕ) → is_class dir_in code m.request.id ≡ true → is_in m ≡ true
unfolding is_in_dir
is_in-of_class m code e = is_in_of_class m dir_in code e

pub is_out-of_class :
    (m : Message) (code : ℕ) → is_class dir_out code m.request.id ≡ true → is_in m ≡ false
unfolding is_in_dir
is_out-of_class m code e = is_in_of_class m dir_out code e

-- A request has one code.
pub other_code :
    (r : RequestId) (dir dir' : Direction) (code code' : ℕ)
    → code % 2 ^ 8 ≢ code' % 2 ^ 8
    → is_class dir code r ≡ true
    → is_class dir' code' r ≡ false
unfolding id_eq request_id
other_code r dir dir' code code' ne e = ground arith
