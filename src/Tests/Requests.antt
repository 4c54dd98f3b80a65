-- ===== src/Tests/Requests.antt =====
-- The device: requests and events.
use c2usb.Base.{refl, arith}
use c2usb.Config.Element.{is_interface}
use c2usb.Config.Lookup.{interface_at, interface_of}
use c2usb.Config.Views.{null_view, interfaces, endpoints}
use c2usb.Device.Configuration.{
  configs_by_speed, select_configuration, configuration_event, config_number,
}
use c2usb.Device.Events.{control_ep_setup}
use c2usb.Device.Events.Laws.{control_ep_setup-Replies}
use c2usb.Device.Requests.{on_control_setup}
use c2usb.Device.Requests.Laws.{IsServed, on_control_setup-Replies}
use c2usb.Device.Requests.Served.{HasInterfaces, select_configuration-IsServed}
use c2usb.Function.Laws.{Replies}
use c2usb.Message.Reply.{Message, set_pending}
use c2usb.Message.Transfer.{no_transfer}
use c2usb.Tests.Data.{
  example_view, example_drivers, example_settings, example_device, example_message, first_interface,
  second_interface,
}
use c2usb.Tests.Messages.{example_buffer-IsValid}
use c2usb.Tests.Devices.{
  example_drivers-OverridesReply, example_drivers-ExtensionReplies, example_views-IsSelectable,
  example_message-IsFresh,
}
use c2usb.Usb.Control.{is_standard}

abbrev set_feature : Message
set_feature = example_message 0 3 1 0 0

-- The endpoints of the example stand behind its two interfaces.
example_view-HasInterfaces : HasInterfaces example_view
unfolding endpoints interface_at interface_of is_interface interfaces
example_view-HasInterfaces = (
  ((1, first_interface), refl, (0, refl)),
  (((1, first_interface), refl, (0, refl)), (((4, second_interface), refl, (1, refl)), tt)),
)

example_device-IsServed : IsServed example_drivers example_settings (example_device example_view)
unfolding endpoints interface_of configs_by_speed config_number is_interface
example_device-IsServed = record {
  endpoints_bound = (
    ((1, first_interface), refl, refl),
    (((1, first_interface), refl, refl), (((4, second_interface), refl, refl), tt)),
  );
  config_known = λ _. (1, refl, omega arith);
}

select_configuration-IsServed_example : IsServed example_drivers example_settings (
    select_configuration example_drivers example_settings example_view configuration_event
      (example_device null_view))
unfolding configs_by_speed
select_configuration-IsServed_example =
    select_configuration-IsServed example_drivers example_settings 0 configuration_event
      (example_device null_view) example_views-IsSelectable example_view-HasInterfaces

on_control_setup-Replies_example :
    Replies set_feature
      (on_control_setup example_drivers example_settings set_feature (example_device example_view))
unfolding is_standard
on_control_setup-Replies_example =
    on_control_setup-Replies example_drivers example_settings set_feature
      (example_device example_view) refl example_drivers-OverridesReply
      example_drivers-ExtensionReplies (example_message-IsFresh 0 3 1 0 0) example_device-IsServed

control_ep_setup-Replies_example :
    Replies
      (set_pending no_transfer set_feature)
      (control_ep_setup example_drivers example_settings set_feature (example_device example_view))
unfolding is_standard
control_ep_setup-Replies_example =
    control_ep_setup-Replies example_drivers example_settings set_feature
      (example_device example_view) refl example_drivers-OverridesReply
      example_drivers-ExtensionReplies example_buffer-IsValid (omega arith) (omega arith)
      example_device-IsServed

abbrev set_address_7 : Message
set_address_7 = example_message 0 5 7 0 0
