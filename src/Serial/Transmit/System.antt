-- ===== src/Serial/Transmit/System.antt =====
-- The transmit buffer between a writer, whose atomic operations a completed transfer may separate, and the endpoint,
-- whose completion runs as a whole. A port sends each span that it is given.
use c2usb.Base.{ℕ, ◌+◌, ◌<◌, ◌≡◌, ◌≢◌, Bool, true, List, [], ◌++◌, take, Option, none, some}
use c2usb.Message.Transfer.{Span}
use c2usb.Serial.Memory.{load}
use c2usb.Serial.Transmit.{
  TxBuffer, consuming_flag, Writer, start, copied, published, claiming, returned, write_step,
  advance,
}

-- `bytes` is the argument of the writer's call; `written` collects what calls accepted, `sent` what transfers carried.
pub record System : Type 0 where
  pub tx : TxBuffer
  pub writer : Writer
  pub bytes : List ℕ
  pub in_flight : Option Span
  pub written : List ℕ
  pub sent : List ℕ

-- The bytes that an operation of the writer publishes.
unfoldable pub accepted : List ℕ → Writer → Writer → List ℕ
accepted bytes (copied idx pos new_pos writable) (published _ _ _) = take writable bytes
accepted bytes w w' = []

-- The writer's span goes to the endpoint when the call returns it.
unfoldable pub handed : Writer → Writer → Option Span → Option Span
handed (claiming idx new_pos writable) (returned _ (some s)) f = some s
handed w w' f = f

unfoldable pub operate : System → System
operate s =
    let (w, t) = write_step s.bytes s.writer s.tx in
    record s {
      tx = t;
      writer = w;
      in_flight = handed s.writer w s.in_flight;
      written = s.written ++ accepted s.bytes s.writer w;
    }

unfoldable pub call : List ℕ → System → System
call bytes s = record s { writer = start; bytes = bytes }

-- The transfer of `x` completes.
unfoldable pub complete : Span → Bool → System → System
complete x needs_zlp s =
    let (next, t) = advance x needs_zlp s.tx in
    record s { tx = t; in_flight = next; sent = s.sent ++ load s.tx.memory x.ptr x.len }

-- A zero-length packet is asked for only when the transfer does not end where the second side starts.
pub data Step : System → System → Type 0 where
  calls :
      (s : System) (n : ℕ) (r : Option Span) (bytes : List ℕ)
      → s.writer ≡ returned n r
      → Step s (call bytes s)
  operates : (s : System) → Step s (operate s)
  completes :
      (s : System) (x : Span) (needs_zlp : Bool)
      → s.in_flight ≡ some x
      → (needs_zlp ≡ true → x.ptr + x.len ≢ s.tx.size)
      → Step s (complete x needs_zlp s)

abbrev pub initial : TxBuffer → System
initial t = record {
  tx = t;
  writer = returned 0 none;
  bytes = [];
  in_flight = none;
  written = [];
  sent = [];
}

-- The states that the steps lead to from an empty buffer.
pub data Reach : System → Type 0 where
  begin : (t : TxBuffer) → t.size < consuming_flag → t.pos_0 ≡ 0 → t.pos_1 ≡ 0 → Reach (initial t)
  next : (s s' : System) → Reach s → Step s s' → Reach s'
