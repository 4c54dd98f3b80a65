-- ===== src/Tests/Serial.antt =====
-- Runs of the serial buffers.
use c2usb.Base.{ℕ, ◌≡◌, ◌+◌, refl, true, false, List, [], ◌∷◌, none, some, arith}
use c2usb.Message.Transfer.{Span}
use c2usb.Serial.Transmit.{
  TxBuffer, returned, consuming_flag, write, write_step, advance, compare_exchange,
}
use c2usb.Serial.Transmit.{pos_of, set_pos, buffer_of, is_consuming, set_flag, side_of, end_of}
use c2usb.Serial.Transmit.System.{System, initial, call, operate, complete, accepted, handed}
use c2usb.Serial.Transmit.System.{Reach, begin, next, calls, operates, completes}
use c2usb.Serial.Transmit.Reachable.{
  Queued, reach-Queued, reach-all_sent, reach-write-Returns, Returns,
}
use c2usb.Serial.Transmit.ZeroLength.{zlp_of_full_side}

-- Two sides of eight bytes.
abbrev empty_buffer : TxBuffer
empty_buffer = record { memory = λ _. 0; size = 8; pos_0 = 0; pos_1 = 0 }

abbrev first_span : Span
first_span = record { ptr = 0; len = 3 }

abbrev five : System → System
five s = operate (operate (operate (operate (operate s))))

abbrev written_three : System
written_three = five (call (7 ∷ 8 ∷ 9 ∷ []) (initial empty_buffer))

operated : (s : System) → Reach s → Reach (operate s)
operated s r = next s (operate s) r (operates s)

reach_written : Reach written_three
reach_written =
    let r0 =
      next _ _ (begin empty_buffer (omega arith) refl refl)
        (calls (initial empty_buffer) 0 none (7 ∷ 8 ∷ 9 ∷ []) refl) in
    operated _ (operated _ (operated _ (operated _ (operated _ r0))))

written_in_flight : written_three.in_flight ≡ some first_span
unfolding operate call write_step accepted handed compare_exchange pos_of set_pos is_consuming
    buffer_of set_flag
written_in_flight = refl

abbrev sent_three : System
sent_three = complete first_span false written_three

reach_sent : Reach sent_three
reach_sent =
    next _ _ reach_written (completes written_three first_span false written_in_flight (λ e. cc))

reach-Queued_example : (waiting : List ℕ) × Queued written_three waiting
reach-Queued_example = reach-Queued written_three reach_written

sent_returned : sent_three.writer ≡ returned 3 (some first_span)
unfolding operate call write_step accepted handed compare_exchange pos_of set_pos is_consuming
    buffer_of set_flag complete advance
sent_returned = refl

sent_idle : sent_three.in_flight ≡ none
unfolding operate call write_step accepted handed compare_exchange pos_of set_pos is_consuming
    buffer_of set_flag complete advance side_of end_of
sent_idle = refl

reach-all_sent_example : sent_three.written ≡ sent_three.sent
reach-all_sent_example =
    reach-all_sent sent_three 3 (some first_span) reach_sent sent_returned sent_idle

reach-write-Returns_example : Returns (1 ∷ 2 ∷ []) (write (1 ∷ 2 ∷ []) written_three.tx).0
reach-write-Returns_example = reach-write-Returns written_three (1 ∷ 2 ∷ []) reach_written

abbrev full_side : TxBuffer
full_side = record { memory = λ _. 0; size = 8; pos_0 = 2147483656; pos_1 = 0 }

zlp_of_full_side_example :
    (advance (record { ptr = 0; len = 8 }) true full_side
      ≡ (some (record { ptr = 0 + 8; len = 0 }), full_side))
    × (advance (record { ptr = 0 + 8; len = 0 }) false full_side
        ≡ (some (record { ptr = 0; len = 8 + consuming_flag }), full_side))
zlp_of_full_side_example = zlp_of_full_side full_side (omega arith) (omega arith) refl refl
