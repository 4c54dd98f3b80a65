-- ===== src/Tests/Devices.antt =====
-- The device: configurations, requests and events.
use c2usb.Base.{ℕ, ◌≤◌, ◌<◌, ◌≡◌, ◌+◌, refl, ap, true, List, [], ◌∷◌, arith, Ensures, All}
use c2usb.Config.Views.{null_view, interfaces, valid}
use c2usb.Device.Configuration.{configs_by_speed, select_configuration, configuration_event}
use c2usb.Device.Configuration.Bound.{select_configuration-bound}
use c2usb.Device.Configuration.Laws.{IsSelectable, is_first}
use c2usb.Device.Requests.Laws.{ExtensionReplies}
use c2usb.Device.Strings.{config_istring, config_of_istring, istr_config_base, istr_global_base}
use c2usb.Device.Strings.{assign_function_istrings, functions_of_speeds, interfaces_of_views}
use c2usb.Device.Strings.Ranges.{
  IsAssigned, demand, free_all-zero, assign_function_istrings-IsAssigned,
}
use c2usb.Core.{Device}
use c2usb.Usb.Speed.{speeds_list}
use c2usb.Device.Strings.Laws.{config_of_istring-config_istring}
use c2usb.Function.Laws.{OverridesReply, IsFresh, Replies}
use c2usb.Message.Reply.{Message, confirm}
use c2usb.Message.Reply.Laws.{confirm-Answers}
use c2usb.Tests.Data.{
  example_view, example_drivers, example_settings, example_device, example_message, with_log,
}
use c2usb.Tests.Messages.{example_buffer-IsValid}
use c2usb.Usb.Speed.{speeds_count, high, speeds_valid, includes}

confirmed_with_log :
    (m : Message) (s : List ℕ) → m.pending ≡ true → Replies m (with_log s (confirm m))
confirmed_with_log m s p =
    let (m', e, reply) = (confirm-Answers true m p).0 in ((m', s), ap (with_log s) e, reply)

pub example_drivers-OverridesReply : OverridesReply example_drivers
example_drivers-OverridesReply = record {
  setup_replies = λ i m s f. confirmed_with_log m s f.pending;
  data_replies = λ i m s f. confirmed_with_log m s f.pending;
}

pub example_drivers-ExtensionReplies : ExtensionReplies example_drivers
example_drivers-ExtensionReplies = record {
  setup_handled = λ m s f. (_, refl, (λ e. absurd (cc e), λ e. refl));
}

pub example_views-IsSelectable : IsSelectable (example_view ∷ []) 0
unfolding is_first valid
example_views-IsSelectable = record {
  in_list = omega arith;
  small = omega arith;
  first = refl;
  is_config = refl;
}

pub example_message-IsFresh :
    (t code value index len : ℕ) → IsFresh (example_message t code value index len)
example_message-IsFresh t code value index len = record {
  pending = refl;
  buffer = example_buffer-IsValid;
  unused = refl;
  small = omega arith;
  room = omega arith;
}

abbrev set_config : Message
set_config = example_message 0 9 1 0 0

abbrev get_config : Message
get_config = example_message 0x80 8 0 0 1

select_configuration-bound_example :
    All
      (λ x.
        (select_configuration example_drivers example_settings example_view configuration_event
            (example_device null_view)).bound
          x.1.function
        ≡ true)
      (interfaces example_view)
select_configuration-bound_example =
    select_configuration-bound example_drivers example_settings example_view configuration_event
      (example_device null_view)

config_of_istring-config_istring_example :
    let index = config_istring example_settings 1 high in
    (config_of_istring example_settings index ≡ (high, 1))
    × (istr_config_base example_settings ≤ index)
    × (index < istr_global_base)
unfolding speeds_valid includes speeds_count
config_of_istring-config_istring_example =
    config_of_istring-config_istring example_settings 1 high refl refl (omega arith) (omega arith)

-- Before the first assignment no function has a string index.
abbrev fresh_device : Device (List ℕ)
fresh_device = record (example_device null_view) { istr_base = λ _. 0 }

fresh_device-room :
    example_drivers.extension_assign_istrings 1 fresh_device.env
      + demand example_drivers.istr_count (
          functions_of_speeds example_drivers example_settings
            (speeds_list example_settings.speeds)
            fresh_device)
    < istr_config_base example_settings
unfolding demand functions_of_speeds speeds_list istr_config_base configs_by_speed
    interfaces_of_views interfaces
fresh_device-room = omega arith

assign_function_istrings-IsAssigned_example :
    Ensures
      (λ dev'.
        IsAssigned example_drivers.istr_count dev'.istr_base (istr_config_base example_settings))
      (assign_function_istrings example_drivers example_settings fresh_device)
assign_function_istrings-IsAssigned_example =
    assign_function_istrings-IsAssigned example_drivers example_settings fresh_device
      (free_all-zero example_drivers example_settings
        (functions_of_speeds example_drivers example_settings (speeds_list example_settings.speeds)
          fresh_device)
        (λ _. 0) (λ _. refl))
      fresh_device-room

abbrev get_device : Message
get_device = example_message 0x80 6 0x0100 0 64
