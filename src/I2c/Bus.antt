-- ===== src/I2c/Bus.antt =====
-- c2usb/i2c/hid/device.cpp: the start and stop conditions on the bus.
use c2usb.Base.{ℕ, Bool, true, false, not, ◌&&◌, Option, none, some, ◌==◌, if◌then◌else◌, ◌>>=◌}
use c2usb.I2c.State.{Device, Setup, Clients, buffer_span, receive, largest}
use c2usb.I2c.Reads.{get_input, reply_request, process_input_complete, process_reply_complete}
use c2usb.I2c.Writes.{process_write}

-- `i2c::direction`
pub data Direction : Type 0 where
  write read : Direction

module _ {E : Type 0} (c : Clients E) (t : Setup) where
  -- The first part of a transfer, which is received.
  unfoldable pub begin_write : Device E → Device E
  begin_write d = receive (buffer_span t) (largest d) (record d { stage = 1 })

  -- `none` is a failed assertion.
  unfoldable pub on_start : Direction → ℕ → Device E → Option (Bool × Device E)
  on_start read data_length d =
      if d.stage == 0
      then (if t.asserts && not (data_length == 0) then none else some (get_input c t d))
      else some (reply_request c t data_length d)
  on_start write data_length d =
      if d.stage == 0
      then (if t.asserts && not (data_length == 0) then none else some (true, begin_write d))
      else some (false, d)

  unfoldable pub on_stop : Direction → ℕ → Device E → Option (Device E)
  on_stop write data_length d =
      process_write c t data_length d >>= λ d'. some (record d' { stage = 0 })
  on_stop read data_length d =
      some
        (record (if d.stage == 0
          then process_input_complete c t data_length d
          else process_reply_complete c t d) { stage = 0 })
