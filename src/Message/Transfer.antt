-- ===== src/Message/Transfer.antt =====
-- c2usb/usb/df/transfer.hpp: a single USB transfer.
use c2usb.Base.{ℕ, ◌%◌, ◌^◌, Bool, true, false, not, ◌&&◌, if◌then◌else◌, ◌==◌}

pub data Outcome : Type 0 where
  success stall cancelled : Outcome

-- An endpoint handle is its raw value; 0 is the invalid handle.
pub record Transfer : Type 0 where
  pub data_ptr : ℕ
  pub size : ℕ
  pub outcome : Outcome
  pub endpoint : ℕ

-- A span of bytes, which the transfer's constructor takes with its size cut to a uint16_t.
pub record Span : Type 0 where
  pub ptr : ℕ
  pub len : ℕ

abbrev pub empty_span : Span
empty_span = record { ptr = 0; len = 0 }

unfoldable pub handle_valid : ℕ → Bool
handle_valid eph = not (eph == 0)

unfoldable pub no_transfer : Transfer
no_transfer = record { data_ptr = 0; size = 0; outcome = success; endpoint = 0 }

unfoldable pub of_span : Span → Transfer
of_span s = record { data_ptr = s.ptr; size = s.len % 2 ^ 16; outcome = success; endpoint = 0 }

unfoldable pub stall_transfer : Transfer
stall_transfer = record { data_ptr = 0; size = 0; outcome = stall; endpoint = 0 }

unfoldable pub is_empty : Transfer → Bool
is_empty t = t.size == 0

unfoldable pub stalled : Transfer → Bool
stalled t = elim t.outcome [ stall ↦ true | _ ↦ false ]

unfoldable pub is_success : Transfer → Bool
is_success t = elim t.outcome [ success ↦ true | _ ↦ false ]

unfoldable pub transferred_size : Transfer → ℕ
unfolding is_success
transferred_size t = if is_success t then t.size else 0

unfoldable pub needs_zlp : Transfer → ℕ → Bool
unfolding is_success is_empty
needs_zlp t mps = is_success t && not (is_empty t) && (t.size % mps == 0)

unfoldable pub to_span : Transfer → Span
to_span t = record { ptr = t.data_ptr; len = t.size }
