-- ===== src/Tests/Messages.antt =====
-- Replies to control messages.
use c2usb.Base.{ℕ, ◌+◌, ◌≤◌, ◌<◌, ◌≡◌, refl, none, List, [], ◌∷◌, length, get_or, arith, Ensures}
use c2usb.Message.Buffer.{append}
use c2usb.Message.Buffer.Laws.{IsValid, contents, Appended, append_lem}
use c2usb.Message.Reply.{Message, is_in}
use c2usb.Message.Reply.Laws.{Sends}
use c2usb.Message.Text.{send_string, le_units}
use c2usb.Message.Text.Laws.{string_descriptor, send_string-Sends, send_string-length_byte}
use c2usb.Message.Transfer.{Span}
use c2usb.Tests.Data.{example_buffer, example_message}

pub example_buffer-IsValid : IsValid example_buffer
example_buffer-IsValid = record {
  present = λ e. omega (arith, e);
  room = refl;
  within = omega arith;
}

abbrev get_status : Message
get_status = example_message 0x80 0 0 0 2

abbrev out_request : Message
out_request = example_message 0x21 9 0 0 8

abbrev some_span : Span
some_span = record { ptr = 512; len = 4 }

append_lem_example :
    (0 + 2 ≤ 32
      → Ensures (Appended example_buffer (7 ∷ 8 ∷ [])) (append (7 ∷ 8 ∷ []) example_buffer))
    × (32 < 0 + 2 → append (7 ∷ 8 ∷ []) example_buffer ≡ none)
append_lem_example = append_lem (7 ∷ 8 ∷ []) example_buffer example_buffer-IsValid

abbrev greeting : List ℕ
greeting = 72 ∷ 105 ∷ []

abbrev get_string : Message
get_string = example_message 0x80 6 0x0301 0x0409 255

send_string-Sends_example :
    Ensures
      (Sends (string_descriptor 2 (le_units greeting)) get_string)
      (send_string greeting get_string)
unfolding is_in
send_string-Sends_example =
    send_string-Sends greeting get_string refl refl example_buffer-IsValid (omega arith) refl
      (omega arith)

send_string-length_byte_example :
    Ensures
      (λ m'.
        let sent = contents m'.buffer in
        (length greeting ≤ 126 → get_or sent 0 0 ≡ length sent)
        × (126 < length greeting → get_or sent 0 0 < length sent))
      (send_string greeting get_string)
unfolding is_in
send_string-length_byte_example =
    send_string-length_byte greeting get_string refl refl example_buffer-IsValid (omega arith) refl
      (omega arith)
