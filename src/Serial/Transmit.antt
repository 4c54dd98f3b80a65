-- ===== src/Serial/Transmit.antt =====
-- c2usb/usb/serial_buffer.hpp and serial_buffer.cpp: the transmit buffer. A writer fills the side that is not being
-- sent; the transfer's completion hands over the other side. `write` is split at its atomic operations.
pub mod System
pub mod Invariant
pub mod Complete
pub mod Advanced
pub mod Write
pub mod Order
pub mod Reachable
pub mod ZeroLength
use c2usb.Base.{ℕ, zero, suc, ◌+◌, ◌-◌, ◌*◌, ◌%◌, min, Bool, true, false, not, ◌&&◌}
use c2usb.Base.{List, length, take, Option, none, some, leb, ltb, ◌==◌, if◌then◌else◌}
use c2usb.Message.Transfer.{Span}
use c2usb.Serial.Memory.{Memory, load, store}

-- The `ptr` of a span counts from `buffer()`.

-- `consuming_flag`: the top bit of `size_type`, which has 32 bits here.
abbrev pub consuming_flag : ℕ
consuming_flag = 2147483648

-- `double_buffer` with `pos_`: for each side the bytes written, and the flag while the side is being sent.
pub record TxBuffer : Type 0 where
  pub memory : Memory
  pub size : ℕ
  pub pos_0 : ℕ
  pub pos_1 : ℕ

-- The index of a side is 0 (`false`) or 1 (`true`).
unfoldable pub pos_of : Bool → TxBuffer → ℕ
pos_of false t = t.pos_0
pos_of true t = t.pos_1

unfoldable pub set_pos : Bool → ℕ → TxBuffer → TxBuffer
set_pos false p t = record t { pos_0 = p }
set_pos true p t = record t { pos_1 = p }

unfoldable pub buffer_of : Bool → TxBuffer → ℕ
buffer_of false t = 0
buffer_of true t = t.size

unfoldable pub reset : TxBuffer → TxBuffer
reset t = record t { pos_0 = 0; pos_1 = 0 }

-- `pos & consuming_flag`, for a position of 32 bits.
unfoldable pub is_consuming : ℕ → Bool
is_consuming pos = leb consuming_flag pos

-- `pos | consuming_flag`.
unfoldable pub set_flag : ℕ → ℕ
set_flag pos = if is_consuming pos then pos else pos + consuming_flag

-- `pos & ~consuming_flag`.
unfoldable pub clear_flag : ℕ → ℕ
clear_flag pos = pos % consuming_flag

-- `compare_exchange_strong`.
unfoldable pub compare_exchange : Bool → ℕ → ℕ → TxBuffer → Bool × TxBuffer
compare_exchange idx expected desired t =
    if pos_of idx t == expected then (true, set_pos idx desired t) else (false, t)

-- Where a call of `write` stands: before its first load, after the load of a position, after the copy, after the
-- bytes were published, and after the other side was found empty.
pub data Writer : Type 0 where
  start : Writer
  loaded : Bool → ℕ → Writer
  copied : Bool → ℕ → ℕ → ℕ → Writer
  published : Bool → ℕ → ℕ → Writer
  claiming : Bool → ℕ → ℕ → Writer
  returned : ℕ → Option Span → Writer

-- One atomic operation of `write` with its data, and the code up to the next one. A returned writer stays.
unfoldable pub write_step : List ℕ → Writer → TxBuffer → Writer × TxBuffer
write_step bytes start t = (loaded false (pos_of false t), t)
write_step bytes (loaded idx pos) t =
    let writable = min (t.size - pos) (length bytes) in
    if is_consuming pos
    then (loaded (not idx) (pos_of (not idx) t), t)
    else if writable == 0
    then (returned 0 none, t)
    else (
      copied idx pos (pos + writable) writable,
      record t { memory = store t.memory (buffer_of idx t + pos) (take writable bytes) },
    )
write_step bytes (copied idx pos new_pos writable) t =
    let (success, t') = compare_exchange idx pos new_pos t in
    if success then (published idx new_pos writable, t') else (loaded idx (pos_of idx t), t)
write_step bytes (published idx new_pos writable) t =
    if pos_of (not idx) t == 0
    then (claiming idx new_pos writable, t)
    else (returned writable none, t)
write_step bytes (claiming idx new_pos writable) t =
    let (success, t') = compare_exchange idx new_pos (set_flag new_pos) t in
    if success
    then (returned writable (some (record { ptr = buffer_of idx t; len = new_pos })), t')
    else (returned writable none, t)
write_step bytes (returned writable res) t = (returned writable res, t)

-- `write` when nothing runs between its operations.
unfoldable pub write_loop : ℕ → List ℕ → Writer → TxBuffer → Writer × TxBuffer
write_loop zero bytes w t = (w, t)
write_loop (suc fuel) bytes w t = let (w', t') = write_step bytes w t in write_loop fuel bytes w' t'

unfoldable pub write : List ℕ → TxBuffer → Writer × TxBuffer
write bytes t = write_loop 6 bytes start t

-- `data.data() >= buffer_of(1)`.
unfoldable pub side_of : Span → TxBuffer → Bool
side_of s t = leb (buffer_of true t) s.ptr

-- The end of a span within its side.
unfoldable pub end_of : Span → TxBuffer → ℕ
end_of s t = s.ptr - buffer_of (side_of s t) t + s.len

-- `cancel_consume`; the Boolean is the asserted success.
unfoldable pub cancel_consume : Span → TxBuffer → Bool × TxBuffer
cancel_consume s t =
    compare_exchange (side_of s t) (set_flag (end_of s t)) (clear_flag (set_flag (end_of s t))) t

-- `advance`, which runs in the completion of the transfer; the asserted successes are not checked.
unfoldable pub advance : Span → Bool → TxBuffer → Option Span × TxBuffer
advance s needs_zlp t =
    let idx = side_of s t in
    let new_pos = pos_of (not idx) t in
    let t' = (compare_exchange idx (set_flag (end_of s t)) 0 t).1 in
    let (success, t'') = compare_exchange (not idx) new_pos (set_flag new_pos) t' in
    if needs_zlp && (new_pos == 0)
    then (some (record { ptr = s.ptr + s.len; len = 0 }), t)
    else if ltb 0 new_pos
    then (if success
        then (some (record { ptr = buffer_of (not idx) t; len = new_pos }), t'')
        else (none, t'))
    else (none, t')
