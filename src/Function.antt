-- ===== src/Function.antt =====
-- c2usb/usb/df/function.hpp and function.cpp: what the base class of the functions does itself.
pub mod Laws
pub mod Endpoints
pub mod Class
use c2usb.Base.{
  ℕ, ◌+◌, ◌-◌, ◌/◌, ◌%◌, ◌^◌, Bool, true, false, not, ◌&&◌, ◌||◌, Option, none, some, List, [], ◌∷◌,
  if◌then◌else◌, ◌==◌, ltb, leb, ◌>>=◌,
}
use c2usb.Config.Element.{Interface, Endpoint, bit, primary, alt_setting_count}
use c2usb.Core.{Result, ok, connection_reset, Drivers, Device, with_device, with_env}
use c2usb.Message.Buffer.{Buffer, append}
use c2usb.Message.Reply.{Message, reject, confirm, send_value, le_bytes, set_accept}
use c2usb.Message.Transfer.{handle_valid}
use c2usb.Usb.Control.{
  is_standard, low_byte, to_interface, to_endpoint, get_interface_code, set_interface_code,
  set_feature_code, clear_feature_code, get_status_code,
}
use c2usb.Usb.EndpointAddress.{dir_in, dir_out}

-- A member of one function object is set.
abbrev pub update {ℓ} : {A : Type ℓ} → ℕ → A → (ℕ → A) → ℕ → A
update f x g n = if n == f then x else g n

unfoldable pub free_string_index : ℕ → (ℕ → ℕ) → ℕ → ℕ
free_string_index f bases = update f 0 bases

-- The bases and the next free index, both of type istring, a uint8_t.
unfoldable pub allocate_string_index : (ℕ → ℕ) → ℕ → (ℕ → ℕ) × ℕ → (ℕ → ℕ) × ℕ
allocate_string_index istr_count f (bases, index) =
    if (bases f == 0) && ltb 0 (istr_count f)
    then (update f index bases, (index + istr_count f) % 2 ^ 8)
    else (bases, index)

-- The endpoint descriptors of an interface, seven bytes each: the count and the buffer.
unfoldable pub describe_endpoints : List (ℕ × Endpoint) → ℕ × Buffer → Option (ℕ × Buffer)
describe_endpoints [] (n, b) = some (n, b)
describe_endpoints ((_, ep) ∷ r) (n, b) =
    append
      (7
        ∷ 5
        ∷ ep.address
        ∷ ep.attributes
        ∷ (ep.max_packet_size % 2 ^ 8)
        ∷ (ep.max_packet_size / 2 ^ 8 % 2 ^ 8)
        ∷ ep.interval
        ∷ [])
      b
    >>= λ b'. describe_endpoints r ((n + 1) % 2 ^ 8, b')

abbrev pub is_ok : Result → Bool
is_ok ok = true
is_ok _ = false

module _ {S : Type 0} (d : Drivers S) where
  -- `none` is a failed assertion; otherwise whether the index is the function's.
  unfoldable pub send_owned_string : ℕ → ℕ → Message → Device S → Option (Bool × Message)
  send_owned_string f index m dev =
      let base = dev.istr_base f in
      if leb base index && ltb index (base + d.istr_count f)
      then (d.send_string f (index - base) m dev.env >>= λ m'. some (true, m'))
      else some (false, m)

  unfoldable pub restart : Interface → ℕ → Device S → Device S
  restart i alt dev = record dev { env = d.enable i alt (d.disable i dev.env) }

  unfoldable pub handle_control_setup : Interface → Message → Device S → Option (Message × Device S)
  handle_control_setup i m dev =
      if is_standard m.request dir_in to_interface get_interface_code
      then with_device dev (send_value 1 (d.get_alt_setting i dev.env) m)
      else if is_standard m.request dir_out to_interface set_interface_code
      then (let alt = low_byte m.request.w_value in
          if ltb alt (alt_setting_count i)
          then with_device (if alt == d.get_alt_setting i dev.env then dev else restart i alt dev)
              (confirm m)
          else with_device dev (reject m))
      else with_env dev (d.control_setup_request i m dev.env)

  unfoldable pub handle_control_data : Interface → Message → Device S → Option (Message × Device S)
  handle_control_data i m dev = with_env dev (d.control_data_complete i m dev.env)

  -- The guard of `stall_ep`, which the other endpoint operations share.
  unfoldable pub stall_ep : ℕ → ℕ → Bool → Device S → Result × Device S
  unfolding handle_valid
  stall_ep f eph stall dev =
      if dev.bound f && handle_valid eph
      then (let (res, env) = d.ep_change_stall eph stall dev.env in (res, record dev { env = env }))
      else (connection_reset, dev)

  -- SET_FEATURE and CLEAR_FEATURE of an endpoint; feature::HALT is 0.
  unfoldable pub change_halt : ℕ → ℕ → Bool → Message → Device S → Option (Message × Device S)
  change_halt f eph halt m dev =
      if m.request.w_value == 0
      then (let (accepted, env) = d.control_endpoint_state f eph halt dev.env in
          let dev' = record dev { env = env } in
          let (res, dev'') = stall_ep f eph halt dev' in
          if accepted
          then with_device dev'' (set_accept (is_ok res) m)
          else with_device dev' (reject m))
      else with_device dev (reject m)

  -- `handle_control_setup` of an endpoint handle; GET_STATUS reads through `mac_`, which must be set.
  unfoldable pub endpoint_control_setup : ℕ → ℕ → Message → Device S → Option (Message × Device S)
  endpoint_control_setup f eph m dev =
      if is_standard m.request dir_out to_endpoint set_feature_code
      then change_halt f eph true m dev
      else if is_standard m.request dir_out to_endpoint clear_feature_code
      then change_halt f eph false m dev
      else if is_standard m.request dir_in to_endpoint get_status_code
      then (if dev.bound f
          then with_device dev (send_value 2 (bit (d.ep_is_stalled eph dev.env)) m)
          else none)
      else with_device dev (reject m)

  unfoldable pub init : Interface → Device S → Device S
  init i dev = record dev { bound = update i.function true dev.bound; env = d.enable i 0 dev.env }

  unfoldable pub deinit : Interface → Device S → Device S
  deinit i dev =
      let env = d.disable i dev.env in
      if primary i
      then record dev { bound = update i.function false dev.bound; env = env }
      else record dev { env = env }
