-- ===== src/Tests/Buses.antt =====
-- PCI configuration accesses, the graphics adapter, and memory through the mapping.
use rix_os.Base.{◌%◌, ℕ, ◌+◌, ◌^◌, ◌<◌, ◌≤◌, ◌≡◌, ◌⊎◌, inl, refl, arith, some, done}
use rix_os.Tests.Hardware.{Registers, io, config_space, addresses}
use rix_os.Pci.{enumerate_pci}
use rix_os.Pci.Enumerate.{enumerate_pci_lem}
use rix_os.Pci.Listing.{listed_buses}
use rix_os.AcpiHandler.{PciAddresses, write_pci_u8, read_pci_u8, write_addr, read_addr}
use rix_os.AcpiHandler.Access.{read_pci_u8-write_pci_u8}
use rix_os.AcpiHandler.Ram.{IsMapped, write_addr_lem}
use rix_os.PhysMemory.Bytes.{Bytes}

-- No function answers.
abbrev nothing : Registers
nothing = (0, λ a. 0xffff_ffff)

enumerate_pci_example :
    ((enumerate_pci io nothing).0 ≡ listed_buses (config_space.space nothing) 256 0)
    × (config_space.space (enumerate_pci io nothing).1 ≡ config_space.space nothing)
enumerate_pci_example = enumerate_pci_lem io config_space nothing

-- An address is a bus, a device and a function.
abbrev pci : PciAddresses (ℕ × ℕ × ℕ)
pci = record {
  new = λ segment bus device function. (bus, device, function);
  bus = λ a. a.0;
  device = λ a. a.1;
  function = λ a. a.2;
}

abbrev function_of_test : ℕ × ℕ × ℕ
function_of_test = (0, 31, 2)

-- Every register holds 0x44332211.
abbrev filled : Registers
filled = (0, λ a. 0x4433_2211)

-- The byte at 0x42 is written, and the one at 0x40 read.
read_pci_u8-write_pci_u8_example :
    (read_pci_u8 io pci function_of_test 0x42
      (write_pci_u8 io pci function_of_test 0x42 0x99 filled)).0
    ≡ 0x11
read_pci_u8-write_pci_u8_example =
    read_pci_u8-write_pci_u8 io pci config_space function_of_test 0x42 filled 0x99 refl
      (omega arith)

-- The mapping of physical memory at 2 ^ 46.
mapped_at : (addr : ℕ) → addr < 2 ^ 32 → addr % 4 ≡ 0 → IsMapped (2 ^ 46) 4 addr
mapped_at addr l a = record {
  some_bytes = omega arith;
  not_null = omega arith;
  aligned = omega arith;
  physical = omega arith;
  canonical = λ i h. inl (omega arith);
  no_wrap = omega arith;
}

write_addr_example :
    (m : Bytes) × (write_addr addresses (some (2 ^ 46)) 4 0x1000 0x12345678 (λ a. 0) ≡ done m)
    × (read_addr addresses (some (2 ^ 46)) 4 0x1000 m ≡ done 0x12345678)
    × ((k b : ℕ)
        → IsMapped (2 ^ 46) k b
        → (b + k ≤ 0x1000) ⊎ (0x1000 + 4 ≤ b)
        → read_addr addresses (some (2 ^ 46)) k b m
          ≡ read_addr addresses (some (2 ^ 46)) k b (λ a. 0))
write_addr_example =
    write_addr_lem addresses (2 ^ 46) 4 0x1000 0x12345678 (λ a. 0)
      (mapped_at 0x1000 (omega arith) (omega arith)) (omega arith)
