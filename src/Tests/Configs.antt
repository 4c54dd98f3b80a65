-- ===== src/Tests/Configs.antt =====
-- Configurations: views, lookups and factories.
use c2usb.Base.{◌≡◌, refl, true, some, List, [], ◌∷◌, reverse, drop}
use c2usb.Config.Element.{Element, header, interface, endpoint, footer, is_endpoint, primary}
use c2usb.Config.Factory.{remove, set_size}
use c2usb.Config.Factory.Laws.{remove-sole_function}
use c2usb.Config.Lookup.{interface_endpoints}
use c2usb.Config.Lookup.Laws.{number, interface_endpoints-next}
use c2usb.Config.Reverse.{reverse_interfaces}
use c2usb.Config.Reverse.Laws.{reverse_interfaces-reverse}
use c2usb.Config.Spec.{within, items-eq-within}
use c2usb.Config.Views.{View, items, interfaces}
use c2usb.Config.WellFormed.{IsConfig}
use c2usb.Tests.Data.{
  example_header, example_body, example_view, first_interface, second_interface, bulk_endpoint,
}

pub example_view-IsConfig : IsConfig example_view example_header example_body
example_view-IsConfig = record {
  layout = refl;
  size = refl;
  body_items = (tt, (tt, (tt, (tt, (tt, tt)))));
}

items-eq-within_example :
    items is_endpoint example_view ≡ within is_endpoint 1 (drop 1 example_view.elements)
items-eq-within_example = items-eq-within is_endpoint example_view

reverse_interfaces-reverse_example :
    reverse_interfaces example_view ≡ reverse (interfaces example_view)
reverse_interfaces-reverse_example = reverse_interfaces-reverse example_view example_view-IsConfig

-- Two interfaces, of which the first has no endpoints.
abbrev bare_view : View
bare_view = record {
  ptr = 2000;
  elements =
      header example_header
      ∷ interface first_interface
      ∷ interface second_interface
      ∷ endpoint (bulk_endpoint 0x83)
      ∷ footer
      ∷ [];
}

interface_endpoints-next_example :
    interface_endpoints bare_view 1 ≡ number 3 (bulk_endpoint 0x83 ∷ [])
unfolding is_endpoint
interface_endpoints-next_example =
    interface_endpoints-next bare_view (header example_header ∷ []) (footer ∷ []) first_interface
      second_interface (bulk_endpoint 0x83 ∷ []) refl refl

abbrev chunks : List (List Element)
chunks =
    (interface first_interface ∷ endpoint (bulk_endpoint 0x81) ∷ [])
    ∷ (interface second_interface ∷ [])
    ∷ []

remove-sole_function_example :
    remove 0 (
      header (set_size example_header 4)
      ∷ interface first_interface
      ∷ endpoint (bulk_endpoint 0x81)
      ∷ endpoint (bulk_endpoint 2)
      ∷ footer
      ∷ [])
    ≡ some (header (set_size example_header 2) ∷ endpoint (bulk_endpoint 2) ∷ footer ∷ [], true)
unfolding primary
remove-sole_function_example =
    remove-sole_function example_header first_interface (bulk_endpoint 0x81 ∷ []) (bulk_endpoint 2)
      refl
