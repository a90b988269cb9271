-- ===== src/Pci.antt =====
-- kernel/src/pcie.rs: configuration reads and the enumeration of the bus.
pub mod Address
pub mod Enumerate
pub mod Space
pub mod Listing
use Prim.Native.String.{String}
use rix_os.Base.{
  ℕ, zero, suc, ◌+◌, ◌*◌, ◌/◌, ◌^◌, bit_and, bit_or, Bool, true, false, ◌&&◌, List, [], ◌∷◌, ◌++◌,
  ◌==◌, if◌then◌else◌, u8, u16, u32,
}
use rix_os.Io.{Ports}

unfoldable pub pci_class_code_description : (class subclass : ℕ) → String
pci_class_code_description class subclass =
    if class == 0x00 && subclass == 0x00
    then "Unclassified: Non-VGA compatible device"
    else if class == 0x00 && subclass == 0x01
    then "Unclassified: VGA compatible device"
    else if class == 0x01 && subclass == 0x00
    then "Mass Storage: SCSI"
    else if class == 0x01 && subclass == 0x01
    then "Mass Storage: IDE"
    else if class == 0x01 && subclass == 0x06
    then "Mass Storage: SATA"
    else if class == 0x01 && subclass == 0x80
    then "Mass Storage: Other"
    else if class == 0x02 && subclass == 0x00
    then "Network: Ethernet controller"
    else if class == 0x03 && subclass == 0x00
    then "Display: VGA compatible controller"
    else if class == 0x03 && subclass == 0x01
    then "Display: XGA controller"
    else if class == 0x03 && subclass == 0x80
    then "Display: Other"
    else if class == 0x06 && subclass == 0x00
    then "Bridge: Host bridge"
    else if class == 0x06 && subclass == 0x01
    then "Bridge: ISA bridge"
    else if class == 0x06 && subclass == 0x04
    then "Bridge: PCI-to-PCI bridge"
    else if class == 0x06 && subclass == 0x80
    then "Bridge: Other bridge device"
    else "Unknown device"

-- The address that `pci_config_read` writes: `1 << 31`, bus, device, function and register.
unfoldable pub config_address : (bus device function offset : ℕ) → ℕ
config_address bus device function offset =
    bit_or
      (bit_or (bit_or (bit_or (2 ^ 31) (u32 (bus * 2 ^ 16))) (u32 (device * 2 ^ 11)))
        (u32 (function * 2 ^ 8)))
      (bit_and offset 0xFC)

-- One line of the log of `enumerate_pci`.
pub record Device : Type 0 where
  pub bus : ℕ
  pub device : ℕ
  pub function : ℕ
  pub vendor_id : ℕ
  pub device_id : ℕ
  pub class_code : ℕ
  pub subclass : ℕ
  pub prog_if : ℕ
  pub description : String

-- The fields of a log line, from the registers 0x00 and 0x08.
abbrev pub device_of : (bus device function vendor_device class_reg : ℕ) → Device
device_of bus device function vendor_device class_reg =
    let class_code = u8 (bit_and (class_reg / 2 ^ 24) 0xFF) in
    let subclass = u8 (bit_and (class_reg / 2 ^ 16) 0xFF) in
    record {
      bus = bus;
      device = device;
      function = function;
      vendor_id = u16 (bit_and vendor_device 0xFFFF);
      device_id = u16 (bit_and (vendor_device / 2 ^ 16) 0xFFFF);
      class_code = class_code;
      subclass = subclass;
      prog_if = u8 (bit_and (class_reg / 2 ^ 8) 0xFF);
      description = pci_class_code_description class_code subclass;
    }

-- `function == 0 && (header_type & 0x80) == 0`
abbrev pub is_single : (function header_type_reg : ℕ) → Bool
is_single function header_type_reg =
    let header_type = u8 (bit_and (header_type_reg / 2 ^ 16) 0xFF) in
    function == 0 && bit_and header_type 0x80 == 0

module _ {H : Type 0} (io : Ports H) where
  unfoldable pub pci_config_read : (bus device function offset : ℕ) → H → ℕ × H
  pci_config_read bus device function offset h =
      io.in32 0xCFC (io.out32 0xCF8 (config_address bus device function offset) h)

  -- The loop over the functions of a device, at `function` with `left` rounds to go.
  unfoldable pub scan_functions : (bus device : ℕ) → (left function : ℕ) → H → List Device × H
  scan_functions bus device zero function h = ([], h)
  scan_functions bus device (suc left) function h =
      let (vendor_device, h) = pci_config_read bus device function 0x00 h in
      let skipped = scan_functions bus device left (function + 1) h in
      if vendor_device == 0xFFFF_FFFF
      then skipped
      else (let (class_reg, h) = pci_config_read bus device function 0x08 h in
          let (header_type_reg, h) = pci_config_read bus device function 0x0C h in
          let found = device_of bus device function vendor_device class_reg in
          let (more, h') = scan_functions bus device left (function + 1) h in
          if is_single function header_type_reg then (found ∷ [], h) else (found ∷ more, h'))

  unfoldable pub scan_devices : (bus : ℕ) → (left device : ℕ) → H → List Device × H
  scan_devices bus zero device h = ([], h)
  scan_devices bus (suc left) device h =
      let (found, h) = scan_functions bus device 8 0 h in
      let (more, h) = scan_devices bus left (device + 1) h in (found ++ more, h)

  unfoldable pub scan_buses : (left bus : ℕ) → H → List Device × H
  scan_buses zero bus h = ([], h)
  scan_buses (suc left) bus h =
      let (found, h) = scan_devices bus 32 0 h in
      let (more, h) = scan_buses left (bus + 1) h in (found ++ more, h)

  -- What `enumerate_pci` logs, and the devices after it.
  unfoldable pub enumerate_pci : H → List Device × H
  enumerate_pci h = scan_buses 256 0 h
