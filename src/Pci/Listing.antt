-- ===== src/Pci/Listing.antt =====
-- What of the configuration space is to be listed, independent of how it is scanned.
use rix_os.Base.{
  ℕ, zero, suc, ◌+◌, ◌/◌, ◌%◌, ◌^◌, Bool, not, ◌&&◌, List, [], ◌∷◌, ◌++◌, ◌==◌, if◌then◌else◌,
}
use rix_os.Pci.{Device, device_of, config_address}

module _ (regs : ℕ → ℕ) (bus device : ℕ) where
  abbrev pub reg : (function offset : ℕ) → ℕ
  reg function offset = regs (config_address bus device function offset)

  -- A function answers, if its first register is not all ones.
  abbrev pub answers : (function : ℕ) → Bool
  answers function = not (reg function 0x00 == 0xFFFF_FFFF)

  -- The device is listed by its function 0 alone: function 0 answers, and bit 7 of its header type,
  -- the sign of more functions, is clear. The header type is byte 2 of the register 0x0C.
  abbrev pub has_one : Bool
  has_one = answers 0 && reg 0 0x0C / 2 ^ 23 % 2 == 0

  abbrev pub entry : (function : ℕ) → Device
  entry function = device_of bus device function (reg function 0x00) (reg function 0x08)

  -- The lines for one function.
  abbrev pub listed : (function : ℕ) → List Device
  listed zero = if answers 0 then entry 0 ∷ [] else []
  listed (suc f) = if answers (suc f) && not has_one then entry (suc f) ∷ [] else []

  abbrev pub listed_functions : (left function : ℕ) → List Device
  listed_functions zero function = []
  listed_functions (suc left) function = listed function ++ listed_functions left (suc function)

module _ (regs : ℕ → ℕ) where
  abbrev pub listed_devices : (bus left device : ℕ) → List Device
  listed_devices bus zero device = []
  listed_devices bus (suc left) device =
      listed_functions regs bus device 8 0 ++ listed_devices bus left (device + 1)

  abbrev pub listed_buses : (left bus : ℕ) → List Device
  listed_buses zero bus = []
  listed_buses (suc left) bus = listed_devices bus 32 0 ++ listed_buses left (bus + 1)
