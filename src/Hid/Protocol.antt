-- ===== src/Hid/Protocol.antt =====
-- The protocol that the host selects, and the buffers that reports are received to.
use c2usb.Base.{ℕ, ◌≡◌, ◌≢◌, ◌⊎◌, arith}
use c2usb.Base.{true, not, ◌&&◌, ◌||◌, ◌==◌}
use c2usb.Message.Reply.{Message}
use c2usb.Hid.{Hid, Clients, Traits}

-- A protocol that the function supports: the report protocol, and the boot protocol if it has a boot mode.
unfoldable pub Supported : {E : Type 0} → Clients E → Traits → ℕ → Type 0
Supported c tr prot =
    (c.is_protocol prot ≡ true)
    × (c.protocol_boot ≢ c.protocol_report)
    × (((prot ≡ c.protocol_boot) × (tr.protocol_mode ≢ c.mode_none)) ⊎ (prot ≡ c.protocol_report))

module _ {E : Type 0} (c : Clients E) (tr : Traits) where
  accepted :
      (prot : ℕ)
      → Supported c tr prot
      → (c.is_protocol prot
          && (not (tr.protocol_mode == c.mode_none) || (prot == c.protocol_report)))
        ≡ true
  unfolding Supported
  accepted prot (known, ne, which) = ground arith
