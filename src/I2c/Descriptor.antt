-- ===== src/I2c/Descriptor.antt =====
-- c2usb/i2c/hid/standard.hpp: the I2C HID descriptor.
use c2usb.Base.{ℕ, ◌+◌, ◌%◌, ◌^◌, List, [], ◌∷◌, ◌++◌}
use c2usb.Message.Reply.{le_bytes}
use c2usb.I2c.Command.{
  report_descriptor_register, command_register, data_register, input_report_register,
  output_report_register,
}

pub record Descriptor : Type 0 where
  pub hid_desc_length : ℕ
  pub bcd_version : ℕ
  pub report_desc_length : ℕ
  pub report_desc_register : ℕ
  pub input_register : ℕ
  pub max_input_length : ℕ
  pub output_register : ℕ
  pub max_output_length : ℕ
  pub command_reg : ℕ
  pub data_reg : ℕ
  pub vendor_id : ℕ
  pub product_id : ℕ
  pub version_id : ℕ

abbrev pub descriptor_size : ℕ
descriptor_size = 30

abbrev pub report_length_size : ℕ
report_length_size = 2

-- The default constructor, to which `reset` goes back.
unfoldable pub reset : Descriptor
reset = record {
  hid_desc_length = descriptor_size;
  bcd_version = 0x0100;
  report_desc_length = 0;
  report_desc_register = 0;
  input_register = 0;
  max_input_length = 0;
  output_register = 0;
  max_output_length = 0;
  command_reg = 0;
  data_reg = 0;
  vendor_id = 0;
  product_id = 0;
  version_id = 0;
}

unfoldable pub set_protocol : ℕ → ℕ → ℕ → Descriptor → Descriptor
set_protocol descriptor_length max_input_size max_output_size d = record d {
  report_desc_length = descriptor_length % 2 ^ 16;
  max_input_length = (report_length_size + max_input_size) % 2 ^ 16;
  max_output_length = (report_length_size + max_output_size) % 2 ^ 16;
}

unfoldable pub set_product_info : ℕ → ℕ → ℕ → Descriptor → Descriptor
set_product_info vendor product version d = record d {
  vendor_id = vendor;
  product_id = product;
  version_id = version;
}

unfoldable pub set_registers : Descriptor → Descriptor
set_registers d = record d {
  report_desc_register = report_descriptor_register;
  input_register = input_report_register;
  output_register = output_report_register;
  command_reg = command_register;
  data_reg = data_register;
}

-- The object's bytes: its members in order, and four reserved bytes.
unfoldable pub bytes : Descriptor → List ℕ
bytes d =
    le_bytes 2 d.hid_desc_length
    ++ (le_bytes 2 d.bcd_version
        ++ (le_bytes 2 d.report_desc_length
            ++ (le_bytes 2 d.report_desc_register
                ++ (le_bytes 2 d.input_register
                    ++ (le_bytes 2 d.max_input_length
                        ++ (le_bytes 2 d.output_register
                            ++ (le_bytes 2 d.max_output_length
                                ++ (le_bytes 2 d.command_reg
                                    ++ (le_bytes 2 d.data_reg
                                        ++ (le_bytes 2 d.vendor_id
                                            ++ (le_bytes 2 d.product_id
                                                ++ (le_bytes 2 d.version_id
                                                    ++ (0 ∷ 0 ∷ 0 ∷ 0 ∷ [])))))))))))))
