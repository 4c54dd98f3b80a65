-- ===== src/I2c/Returns.antt =====
-- The writes of the host that the device handles.
use c2usb.Base.{◌≡◌}
use c2usb.Base.{Option, some}

-- Something is returned, and no fault.
abbrev Returns : {A : Type 0} → Option A → Type 0
Returns {A} o = (a : A) × (o ≡ some a)
