-- ===== src/Message/Reply/Laws.antt =====
-- Each reply answers a pending request once, within the length that the host asked for.
use c2usb.Base.{
  ℕ, zero, suc, ◌≤◌, ◌<◌, ◌/◌, ◌%◌, ◌^◌, ◌≡◌, refl, ap, ◌∙◌, Bool, true, false, Option, some, List,
  ◌++◌, arith, min, length, Ensures, Bool-cases, inl, inr, ◌==◌,
}
use c2usb.Message.Transfer.{Transfer, Span, of_span, success, stall_transfer}
use c2usb.Message.Buffer.{Buffer, append}
use c2usb.Message.Buffer.Laws.{IsValid, contents, contents_of_unused, Appended, append_lem}
use c2usb.Message.Reply.{
  Message, is_in, set_reply, reject, of_buffer, send_buffer, confirm, set_accept, le_bytes,
  send_value, send_data, receive_data, receive_to_buffer,
}

-- The request has its answer: the message is no longer pending, for the same request, and the data
-- stage is not longer than the host asked for.
pub record IsReply (m m' : Message) : Type 0 where
  pub answered : m'.pending ≡ false
  pub same_request : m'.request ≡ m.request
  pub same_asserts : m'.asserts ≡ m.asserts
  pub bounded : m'.data_xfer.size ≤ m.request.w_length

abbrev pub Answers : (Message → Option Message) → Message → Type 0
Answers f m = Ensures (IsReply m) (f m)

pub set_reply-Answers : (t : Transfer) (m : Message) → m.pending ≡ true → Answers (set_reply t) m
unfolding set_reply
set_reply-Answers t m p = (
  record m {
    pending = false;
    data_xfer = record t { size = min m.request.w_length t.size; outcome = success; endpoint = 0 };
  },
  ground arith,
  record { answered = refl; same_request = refl; same_asserts = refl; bounded = omega arith },
)

pub reject-Answers : (m : Message) → m.pending ≡ true → Answers reject m
unfolding reject
reject-Answers m p = (
  record m { pending = false; data_xfer = stall_transfer },
  ground arith,
  record { answered = refl; same_request = refl; same_asserts = refl; bounded = omega arith },
)

-- `confirm`, `reject` and `set_reply(bool)` answer every pending request.
pub confirm-Answers :
    (accept : Bool) (m : Message)
    → m.pending ≡ true
    → Answers confirm m × Answers reject m × Answers (set_accept accept) m
unfolding confirm set_accept
confirm-Answers true m p = (set_reply-Answers _ m p, reject-Answers m p, set_reply-Answers _ m p)
confirm-Answers false m p = (set_reply-Answers _ m p, reject-Answers m p, reject-Answers m p)

-- Data towards the host answers every pending IN request.
pub send_data-Answers :
    (s : Span) (m : Message)
    → m.pending ≡ true
    → is_in m ≡ true
    → Answers (send_data s) m × Answers send_buffer m
unfolding send_data send_buffer
send_data-Answers s m p i =
    rw i (set_reply-Answers (of_span s) m p, set_reply-Answers (of_buffer m.buffer) m p)

-- Receiving answers every pending OUT request, with a rejection if it has no data stage.
pub receive_data-Answers :
    (s : Span) (m : Message)
    → m.pending ≡ true
    → is_in m ≡ false
    → Answers (receive_data s) m × Answers receive_to_buffer m
unfolding receive_data receive_to_buffer
receive_data-Answers s m p i = elim (Bool-cases (m.request.w_length == 0)) [
  | inl none_asked ↦ rw (i, none_asked) (reject-Answers m p, reject-Answers m p)
  | inr some_asked ↦ rw (i, some_asked) (set_reply-Answers _ m p, set_reply-Answers _ m p)
]

length-le_bytes : (n value : ℕ) → length (le_bytes n value) ≡ n
unfolding le_bytes
length-le_bytes zero value = refl
length-le_bytes (suc n) value = ap suc (length-le_bytes n (value / 2 ^ 8))

-- What is in the buffer is sent, cut to the length that the host asked for.
abbrev pub Sends : List ℕ → Message → Message → Type 0
Sends bytes m m' =
    IsReply m m'
    × (contents m'.buffer ≡ bytes)
    × (m'.data_xfer.data_ptr ≡ m.buffer.data_ptr)
    × (m'.data_xfer.size ≡ min m.request.w_length (length bytes))

pub send_buffer-Sends :
    (bytes : List ℕ) (m : Message)
    → m.pending ≡ true
    → is_in m ≡ true
    → IsValid m.buffer
    → m.buffer.size < 2 ^ 16
    → contents m.buffer ≡ bytes
    → m.buffer.used_length ≡ length bytes
    → Ensures (Sends bytes m) (send_buffer m)
unfolding send_buffer set_reply of_buffer of_span
send_buffer-Sends bytes m p i v small c u = (
  record m {
    pending = false;
    data_xfer = record {
      data_ptr = m.buffer.data_ptr;
      size = min m.request.w_length (m.buffer.used_length % 2 ^ 16);
      outcome = success;
      endpoint = 0;
    };
  },
  ground arith,
  (
    record { answered = refl; same_request = refl; same_asserts = refl; bounded = omega arith },
    c,
    refl,
    omega arith,
  ),
)

-- What was put into an empty buffer is sent.
pub send-Appended :
    (bytes : List ℕ) (m : Message) (b : Buffer)
    → m.pending ≡ true
    → is_in m ≡ true
    → m.buffer.size < 2 ^ 16
    → m.buffer.used_length ≡ 0
    → Appended m.buffer bytes b
    → Ensures (Sends bytes m) (send_buffer (record m { buffer = b }))
unfolding is_in
send-Appended bytes m b p i small u add =
    let filled : contents b ≡ bytes =
      add.grown ∙ ap (λ c. c ++ bytes) (contents_of_unused m.buffer u) in
    let (m', sent, (reply, same, ptr, len)) =
      send_buffer-Sends bytes (record m { buffer = b }) p i add.valid (omega arith) filled
        (omega arith) in
    (
      m',
      sent,
      (
        record {
          answered = reply.answered;
          same_request = reply.same_request;
          same_asserts = reply.same_asserts;
          bounded = reply.bounded;
        },
        same,
        ptr ∙ add.same_ptr,
        len,
      ),
    )

send_value_of_append :
    (n value : ℕ) (m : Message) (b : Buffer)
    → is_in m ≡ true
    → m.buffer.used_length ≡ 0
    → append (le_bytes n value) m.buffer ≡ some b
    → send_value n value m ≡ send_buffer (record m { buffer = b })
unfolding send_value
send_value_of_append n value m b i u e = ground arith

-- A value of `n` bytes is sent to the host in little-endian order from an empty buffer that has room
-- for it, cut to the length that the host asked for.
pub send_value-Sends :
    (n value : ℕ) (m : Message)
    → m.pending ≡ true
    → is_in m ≡ true
    → IsValid m.buffer
    → m.buffer.size < 2 ^ 16
    → m.buffer.used_length ≡ 0
    → n ≤ m.buffer.size
    → Ensures (Sends (le_bytes n value) m) (send_value n value m)
send_value-Sends n value m p i v small u fits =
    let (b, added, add) =
      (append_lem (le_bytes n value) m.buffer v).0 (omega (arith, length-le_bytes n value)) in
    let (m', sent, sends) = send-Appended (le_bytes n value) m b p i small u add in
    (m', send_value_of_append n value m b i u added ∙ sent, sends)
