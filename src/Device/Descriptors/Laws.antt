-- ===== src/Device/Descriptors/Laws.antt =====
-- The descriptors that are sent.
use c2usb.Base.{
  ℕ, ◌≤◌, ◌≡◌, refl, ap, ◌∙◌, arith, true, List, length, take, drop, get_or, min, Ensures, ◌>>=◌,
}
use c2usb.Core.{Drivers, Settings, Device}
use c2usb.Device.Configuration.{configs_by_speed}
use c2usb.Device.Descriptors.{
  send_descriptor, is_set, view_count, device_bytes, get_device_descriptor,
}
use c2usb.Function.Laws.{IsFresh}
use c2usb.Message.Buffer.Laws.{contents, append_lem}
use c2usb.Message.Reply.{Message, is_in, le_bytes, send_buffer}
use c2usb.Message.Reply.Laws.{Sends, send-Appended}

pub send_descriptor-Sends :
    (bytes : List ℕ) (m : Message)
    → IsFresh m
    → is_in m ≡ true
    → length bytes ≤ m.buffer.size
    → Ensures (Sends bytes m) (send_descriptor bytes m)
send_descriptor-Sends bytes m f i fits =
    let (b, added, add) = (append_lem bytes m.buffer f.buffer).0 (omega (arith, f.unused)) in
    let (m', sent, sends) = send-Appended bytes m b f.pending i f.small f.unused add in
    (m', ap (λ o. o >>= λ b. send_buffer (record m { buffer = b })) added ∙ sent, sends)

module _ {S : Type 0} (d : Drivers S) (c : Settings) where
  device_bytes_fields :
      (dev : Device S)
      → let bytes = device_bytes d c dev in
        (length bytes ≡ 18)
        × (get_or bytes 0 0 ≡ 18)
        × (get_or bytes 1 0 ≡ 1)
        × (take 2 (drop 8 bytes) ≡ le_bytes 2 c.product.vendor_id)
        × (take 2 (drop 10 bytes) ≡ le_bytes 2 c.product.product_id)
        × (get_or bytes 17 0 ≡ view_count (configs_by_speed d c dev dev.mac.speed))
  unfolding device_bytes le_bytes
  device_bytes_fields dev = (refl, refl, refl, refl, refl, refl)

  -- Where the vendor's and the product's names are set and the empty buffer has room for 18 bytes, a
  -- pending IN request is sent a device descriptor, cut to the length that the host asked for: it has 18
  -- bytes, which its length byte says, the type code 1, the vendor and product ids in little-endian order
  -- at their offsets, and the number of configurations of the current speed at its end.
  pub get_device_descriptor-Sends :
      (m : Message) (dev : Device S)
      → IsFresh m
      → is_in m ≡ true
      → 18 ≤ m.buffer.size
      → is_set c.product.vendor_name ≡ true
      → is_set c.product.product_name ≡ true
      → Ensures
          (λ m'.
            let sent = contents m'.buffer in
            (m'.data_xfer.size ≡ min m.request.w_length 18)
            × ((length sent ≡ 18)
                × (get_or sent 0 0 ≡ 18)
                × (get_or sent 1 0 ≡ 1)
                × (take 2 (drop 8 sent) ≡ le_bytes 2 c.product.vendor_id)
                × (take 2 (drop 10 sent) ≡ le_bytes 2 c.product.product_id)
                × (get_or sent 17 0 ≡ view_count (configs_by_speed d c dev dev.mac.speed))))
          (get_device_descriptor d c m dev)
  unfolding get_device_descriptor
  get_device_descriptor-Sends m dev f i room vendor product =
      let fields = device_bytes_fields dev in
      let (m', sent, (reply, same, ptr, size)) =
        send_descriptor-Sends (device_bytes d c dev) m f i (omega (arith, fields.0)) in
      (m', rw (vendor, product) sent, (size ∙ ap (min m.request.w_length) fields.0, rw same fields))
