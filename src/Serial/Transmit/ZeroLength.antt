-- ===== src/Serial/Transmit/ZeroLength.antt =====
-- The zero-length packet that follows a full first side of the transmit buffer.
use c2usb.Base.{◌+◌, ◌<◌, ◌≡◌, true, false, some, arith}
use c2usb.Serial.Transmit.{
  TxBuffer, consuming_flag, advance, compare_exchange, side_of, end_of, buffer_of, pos_of, set_pos,
}
use c2usb.Serial.Transmit.{set_flag, is_consuming}

-- A full first side with a zero-length packet behind it: the packet's pointer is the start of the second side, so its
-- completion takes it for the second side's, keeps the first side's flag, and passes a span whose length still has
-- the flag set.
pub zlp_of_full_side :
    (t : TxBuffer)
    → 0 < t.size
    → t.size < consuming_flag
    → t.pos_0 ≡ t.size + consuming_flag
    → t.pos_1 ≡ 0
    → (advance (record { ptr = 0; len = t.size }) true t
        ≡ (some (record { ptr = 0 + t.size; len = 0 }), t))
      × (advance (record { ptr = 0 + t.size; len = 0 }) false t
          ≡ (some (record { ptr = 0; len = t.size + consuming_flag }), t))
unfolding advance compare_exchange side_of end_of buffer_of pos_of set_pos set_flag is_consuming
zlp_of_full_side t po b p q = (ground arith, ground arith)
