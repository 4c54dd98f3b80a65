-- ===== src/Ncm.antt =====
-- c2usb/usb/df/class/cdc_ncm.hpp and cdc_ncm.cpp: the state of the CDC NCM function, and what it calls.
pub mod Receive
pub mod Transmit
pub mod Link
pub mod Requests
pub mod Coherent
pub mod Quiet
pub mod Keeps
pub mod Traffic
pub mod Steps
pub mod Reconnect
use c2usb.Base.{ℕ, ◌+◌, ◌*◌, Bool, true, false, not, ◌&&◌, ◌||◌, Option, List, if◌then◌else◌, ◌==◌}
use c2usb.Config.Element.{Interface, Endpoint}
use c2usb.Message.Transfer.{Span}
use c2usb.Ntb.Receive.{RxCtx}
use c2usb.Ntb.Transmit.{TxCtx}
use c2usb.Serial.Memory.{Memory}

-- `state`
pub data NcmState : Type 0 where
  disabled enabled suspended connected : NcmState

-- The results that the function gives, and any other of an endpoint by its code.
pub data NcmResult : Type 0 where
  ok connection_reset connection_already_in_progress network_down device_or_resource_busy :
      NcmResult
  invalid_argument not_connected not_enough_memory resource_unavailable_try_again : NcmResult
  other : ℕ → NcmResult

unfoldable pub is_ok : NcmResult → Bool
is_ok ok = true
is_ok _ = false

-- The bits of `in_flags_`.
pub record InFlags : Type 0 where
  pub pending : Bool
  pub manipulate : Bool
  pub connected_flag : Bool
  pub clear_to_send : Bool
  pub notify : Bool

-- The bits of `out_flags_` for one page.
pub record PageFlags : Type 0 where
  pub pending : Bool
  pub manipulate : Bool
  pub receiving : Bool

abbrev pub no_flags : PageFlags
no_flags = record { pending = false; manipulate = false; receiving = false }

-- `function` with its base class, over its surroundings. Of the notifications it has what changes: the value of the
-- connection, the bit rate and the interface.
pub record Ncm (E : Type 0) : Type 0 where
  pub state : NcmState
  pub in_flags : InFlags
  pub page_0 : PageFlags
  pub page_1 : PageFlags
  pub ntb2send : Span
  pub connection_value : ℕ
  pub bit_rate : ℕ
  pub notify_index : ℕ
  pub tx : TxCtx
  pub rx : RxCtx
  pub in_ep_mps : ℕ
  pub ep_out : ℕ
  pub ep_in : ℕ
  pub ep_notify : ℕ
  pub env : E

-- What the function is a client of: the endpoint operations of its base class, the network interface, which may call
-- back, and the bytes of the control buffer. `limits` is CONFIG_C2USB_NTB_IN_MAX_DG, `payload` the address of the
-- notifications.
pub record Clients (E : Type 0) : Type 0 where
  pub asserts : Bool
  pub limits : Bool
  pub payload : ℕ
  pub endpoints : Interface → List (ℕ × Endpoint)
  pub open_ep : ℕ × Endpoint → E → ℕ × E
  pub close_ep : ℕ → E → ℕ × E
  pub cancel_ep : ℕ → E → E
  pub send_ep : ℕ → Span → E → NcmResult × E
  pub receive_ep : ℕ → Span → E → NcmResult × E
  pub memory_of : E → Memory
  pub bitrate_of : Bool → ℕ
  pub state_change : NcmState → NcmState → Ncm E → Ncm E
  pub data_received : Ncm E → Ncm E
  pub tx_buffer_available : Ncm E → Ncm E

-- `other`
unfoldable pub other_page : ℕ → ℕ
other_page page = if page == 0 then 1 else 0

module _ {E : Type 0} where
  unfoldable pub page_flags : ℕ → Ncm E → PageFlags
  page_flags page n = if page == 0 then n.page_0 else n.page_1

  unfoldable pub set_page_flags : ℕ → PageFlags → Ncm E → Ncm E
  set_page_flags page f n = if page == 0 then record n { page_0 = f } else record n { page_1 = f }

  -- The receiving flag of a page, and of any.
  unfoldable pub set_receiving : ℕ → Bool → Ncm E → Ncm E
  set_receiving page b n = set_page_flags page (record (page_flags page n) { receiving = b }) n

  unfoldable pub any_receiving : Ncm E → Bool
  any_receiving n = n.page_0.receiving || n.page_1.receiving

  -- Tests of the state.
  unfoldable pub is_connected : Ncm E → Bool
  is_connected n = elim n.state [ connected ↦ true | _ ↦ false ]

  unfoldable pub set_in_flags : InFlags → Ncm E → Ncm E
  set_in_flags f n = record n { in_flags = f }

  unfoldable pub set_notify : Bool → Ncm E → Ncm E
  set_notify b n = set_in_flags (record (n.in_flags) { notify = b }) n
