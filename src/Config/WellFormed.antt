-- ===== src/Config/WellFormed.antt =====
-- The shape that the factories give a configuration array: the header, which counts itself and the
-- interfaces and endpoints that follow, and then the footer.

use c2usb.Base.{suc, ◌≡◌, List, [], ◌∷◌, ◌++◌, length, All, ◌∙◌}
use c2usb.Config.Element.{Element, Header, header, interface, endpoint, footer, element_at}
use c2usb.Config.Views.{View, config_size}

-- Interfaces and endpoints.
abbrev pub IsItem : Element → Type 0
IsItem (interface _) = Unit
IsItem (endpoint _) = Unit
IsItem _ = ⊥

pub record IsConfig (v : View) (h : Header) (body : List Element) : Type 0 where
  pub layout : v.elements ≡ header h ∷ (body ++ footer ∷ [])
  pub size : h.config_size ≡ suc (length body)
  pub body_items : All IsItem body

config_size-of_elements :
    (es : List Element) {h : Header} {r : List Element}
    → es ≡ header h ∷ r
    → (elim (element_at es 0) [ header h ↦ h.config_size | _ ↦ 0 ]) ≡ h.config_size
config_size-of_elements es e = rw e

pub config_size-of_IsConfig :
    {v : View} {h : Header} {body : List Element}
    → IsConfig v h body
    → config_size v ≡ suc (length body)
unfolding config_size
config_size-of_IsConfig c = config_size-of_elements _ c.layout ∙ c.size
