-- ===== src/Message/Reply.antt =====
-- c2usb/usb/df/message.hpp and message.cpp, `string_message` and `message`: each of the replies.
pub mod Laws
use c2usb.Base.{
  ℕ, ◌+◌, ◌-◌, ◌*◌, ◌/◌, ◌%◌, ◌^◌, min, Bool, true, false, not, ◌&&◌, ◌||◌, Option, none, some,
  List, [], ◌∷◌, if◌then◌else◌, ◌==◌, ◌>>=◌,
}
use c2usb.Usb.EndpointAddress.{Direction, dir_in, dir_out}
use c2usb.Usb.Control.{Request, Stage, setup, data_stage, id_direction}
use c2usb.Message.Transfer.{Transfer, Span, no_transfer, of_span, stall_transfer, is_empty, success}
use c2usb.Message.Buffer.{Buffer, clear, append}

pub record Message : Type 0 where
  pub request : Request
  pub buffer : Buffer
  pub data_xfer : Transfer
  pub pending : Bool
  pub stage : Stage
  pub asserts : Bool

-- `assert(c)`, and then the rest.
abbrev pub assert_then {ℓ} : {A : Type ℓ} → Message → Bool → Option A → Option A
assert_then m c k = if c || not m.asserts then k else none

unfoldable pub is_in : Message → Bool
unfolding id_direction
is_in m = elim (id_direction m.request.id) [ dir_in ↦ true | dir_out ↦ false ]

-- `string_message::set_pending`
unfoldable pub set_pending : Transfer → Message → Message
unfolding is_empty clear
set_pending t m = record m {
  buffer = clear m.buffer;
  pending = true;
  stage = if is_empty t then setup else data_stage;
  data_xfer = t;
}

-- `string_message::set_reply`
unfoldable pub set_reply : Transfer → Message → Option Message
set_reply t m = assert_then m m.pending (
    some (record m {
      pending = false;
      data_xfer = record t {
        size = min m.request.w_length t.size;
        outcome = success;
        endpoint = 0;
      };
    }))

-- `string_message::reject`
unfoldable pub reject : Message → Option Message
unfolding stall_transfer
reject m = assert_then m m.pending (some (record m { pending = false; data_xfer = stall_transfer }))

-- A transfer of the bytes in use, from `begin()` to `end()`.
unfoldable pub of_buffer : Buffer → Transfer
unfolding of_span
of_buffer b = of_span (record { ptr = b.data_ptr; len = b.used_length })

unfoldable pub send_buffer : Message → Option Message
send_buffer m = if is_in m then set_reply (of_buffer m.buffer) m else assert_then m false (reject m)

unfoldable pub confirm : Message → Option Message
confirm m = set_reply no_transfer m

-- `message::set_reply(bool)`
unfoldable pub set_accept : Bool → Message → Option Message
set_accept accept m = if accept then confirm m else reject m

-- The bytes of a packed little-endian integer of `n` bytes.
unfoldable pub le_bytes : ℕ → ℕ → List ℕ
le_bytes ℕ.zero value = []
le_bytes (ℕ.suc n) value = (value % 2 ^ 8) ∷ le_bytes n (value / 2 ^ 8)

-- `send_value` of an integer type of `n` bytes.
unfoldable pub send_value : ℕ → ℕ → Message → Option Message
send_value n value m =
    assert_then m ((m.buffer.used_length == 0) && is_in m)
      (append (le_bytes n value) m.buffer >>= λ b. send_buffer (record m { buffer = b }))

unfoldable pub send_data : Span → Message → Option Message
send_data s m = if is_in m then set_reply (of_span s) m else assert_then m false (reject m)

unfoldable pub receive_data : Span → Message → Option Message
receive_data s m =
    if is_in m || (m.request.w_length == 0)
    then assert_then m (not (is_in m)) (reject m)
    else set_reply (of_span s) m

unfoldable pub receive_to_buffer : Message → Option Message
receive_to_buffer m =
    receive_data (record { ptr = m.buffer.data_ptr; len = min m.request.w_length m.buffer.size }) m
