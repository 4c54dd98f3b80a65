-- ===== src/Dfu.antt =====
-- c2usb/usb/df/class/dfu.hpp and dfu.cpp: the DFU function of a running application.
use c2usb.Base.{
  ℕ, ◌≡◌, refl, arith, Bool, true, false, Option, some, List, [], ◌∷◌, if◌then◌else◌, Ensures,
  ◌>>=◌, ◌≢◌, ap, All,
}
use c2usb.Core.{Drivers}
use c2usb.Function.Class.{is_class, with_state, with_state-Replies, is_in-of_class}
use c2usb.Function.Laws.{
  IsFresh, Replies, Replies-if, Ensures-if, send_value-Answers, OverridesReply,
}
use c2usb.Message.Reply.{Message, reject, confirm, send_data, send_value}
use c2usb.Message.Reply.Laws.{confirm-Answers, send_data-Answers, reject-Answers}
use c2usb.Usb.EndpointAddress.{dir_in, dir_out}

-- The states of `usb::dfu::state` that an application has.
pub data State : Type 0 where
  app_idle app_detach : State

unfoldable pub state_code : State → ℕ
state_code app_idle = 0
state_code app_detach = 1

unfoldable pub is_idle : State → Bool
is_idle app_idle = true
is_idle app_detach = false

-- `runtime_function` over its surroundings.
pub record Runtime (E : Type 0) : Type 0 where
  pub state : State
  pub env : E

unfoldable pub enable : {E : Type 0} → Runtime E → Runtime E
enable r = record r { state = app_idle }

-- The packed `status` with no error and no poll timeout.
unfoldable pub status_bytes : State → List ℕ
status_bytes s = 0 ∷ 0 ∷ 0 ∷ 0 ∷ state_code s ∷ 0 ∷ []

-- `detach_cbk_` gets the time-out of the request; `status_address` is where the temporary of GETSTATUS stands.
module _ {E : Type 0} (detach_cbk : ℕ → E → E) (status_address : ℕ) where
  unfoldable pub control_setup_request : Message → Runtime E → Option (Message × Runtime E)
  control_setup_request m r =
      if is_class dir_out 0 m.request.id
      then (if is_idle r.state
          then with_state
              (record r { state = app_detach; env = detach_cbk m.request.w_value r.env })
              (confirm m)
          else with_state r (reject m))
      else if is_class dir_in 3 m.request.id
      then with_state r (send_data (record { ptr = status_address; len = 6 }) m)
      else if is_class dir_in 5 m.request.id
      then with_state r (send_value 1 (state_code r.state) m)
      else with_state r (reject m)

  -- Every control request is answered.
  pub runtime-Replies :
      (m : Message) (r : Runtime E) → IsFresh m → Replies m (control_setup_request m r)
  unfolding control_setup_request
  runtime-Replies m r f =
      Replies-if (is_class dir_out 0 m.request.id)
        (λ _.
          Replies-if (is_idle r.state)
            (λ _. with_state-Replies (confirm m) _ (confirm-Answers true m f.pending).0)
            (λ _. with_state-Replies (reject m) r (reject-Answers m f.pending)))
        (λ _.
          Replies-if (is_class dir_in 3 m.request.id)
            (λ e. with_state-Replies _ r (send_data-Answers _ m f.pending (is_in-of_class m 3 e)).0)
            (λ _.
              Replies-if (is_class dir_in 5 m.request.id)
                (λ e.
                  with_state-Replies _ r
                    (send_value-Answers 1 _ m f (is_in-of_class m 5 e) (omega arith)))
                (λ _. with_state-Replies (reject m) r (reject-Answers m f.pending))))

  -- Several requests in a row.
  unfoldable pub requests : List Message → Runtime E → Option (Runtime E)
  requests [] r = some r
  requests (m ∷ ms) r = control_setup_request m r >>= λ (m', r'). requests ms r'

  detached_kept :
      (m : Message) (r : Runtime E)
      → IsFresh m
      → r.state ≡ app_detach
      → Ensures (λ p. p.1 ≡ r) (control_setup_request m r)
  unfolding control_setup_request is_idle
  detached_kept m r f e =
      Ensures-if (is_class dir_out 0 m.request.id)
        (λ _.
          Ensures-if (is_idle r.state) (λ z. absurd (not_idle r.state e z))
            (λ _. kept r (reject m) (reject-Answers m f.pending)))
        (λ _.
          Ensures-if (is_class dir_in 3 m.request.id)
            (λ i. kept r _ (send_data-Answers _ m f.pending (is_in-of_class m 3 i)).0)
            (λ _.
              Ensures-if (is_class dir_in 5 m.request.id)
                (λ i. kept r _ (send_value-Answers 1 _ m f (is_in-of_class m 5 i) (omega arith)))
                (λ _. kept r (reject m) (reject-Answers m f.pending))))
    where
      not_idle : (s : State) → s ≡ app_detach → is_idle s ≢ true
      not_idle s e z = cc

      kept :
          {P : Message → Type 0} (r : Runtime E) (o : Option Message)
          → Ensures P o
          → Ensures (λ p. p.1 ≡ r) (with_state r o)
      kept r o (m', e, _) = ((m', r), ap (with_state r) e, refl)

  -- The first DETACH gives its time-out to the detach callback, and none that follows it does: whatever requests come
  -- after it, they leave the function detached and its surroundings as they are.
  pub detach-requests :
      (m : Message) (r : Runtime E) (ms : List Message)
      → m.pending ≡ true
      → is_class dir_out 0 m.request.id ≡ true
      → r.state ≡ app_idle
      → All IsFresh ms
      → requests (m ∷ ms) r
        ≡ some (record r { state = app_detach; env = detach_cbk m.request.w_value r.env })
  unfolding requests control_setup_request is_idle
  detach-requests m r ms p d i fs =
      let (m', e, _) = (confirm-Answers true m p).0 in
      let r' : Runtime E = record r {
        state = app_detach;
        env = detach_cbk m.request.w_value r.env;
      } in
      rw (d, i, e) (all_kept ms r' fs refl)
    where
      all_kept :
          (ms : List Message) (r : Runtime E)
          → All IsFresh ms
          → r.state ≡ app_detach
          → requests ms r ≡ some r
      all_kept [] r fs e = refl
      all_kept (m ∷ ms) r (f, fs) e =
          let (p, ep, same) = detached_kept m r f e in rw (ep, same) (all_kept ms r fs e)

  -- The drivers of a device whose functions are this one.
  abbrev pub runtime_drivers : Drivers (Runtime E) → Drivers (Runtime E)
  runtime_drivers d = record d {
    control_setup_request = λ _ m r. control_setup_request m r;
    control_data_complete = λ _ m r. with_state r (confirm m);
    enable = λ _ _ r. enable r;
  }

  -- The DFU function keeps to what the core asks of a function's overrides: it answers each control request and the end
  -- of each data stage.
  pub runtime_drivers-OverridesReply :
      (d : Drivers (Runtime E)) → OverridesReply (runtime_drivers d)
  runtime_drivers-OverridesReply d = record {
    setup_replies = λ i m r f. runtime-Replies m r f;
    data_replies = λ i m r f. with_state-Replies (confirm m) r (confirm-Answers true m f.pending).0;
  }
