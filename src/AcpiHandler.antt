-- ===== src/AcpiHandler.antt =====
-- kernel/src/acpi/handler.rs: memory, ports and PCI configuration space for the ACPI tables
-- (`AcpiHandler`) and for AML code (`AmlHandler`).
pub mod Access
pub mod Config
pub mod Ram
use rix_os.Base.{
  ℕ, ◌%◌, Bool, ◌&&◌, ltb, zero, suc, ◌+◌, ◌-◌, ◌*◌, ◌^◌, bit_and, bit_or, Exec, done, panic, ◌>>=◌,
  ◌==◌, if◌then◌else◌, u8, u16, u32, u64, Option, some,
}
use rix_os.Io.{Ports}
use rix_os.PhysMemory.{Addresses, Offset, physical_to_virtual}
use rix_os.PhysMemory.Bytes.{Bytes, load, store}

-- `PciAddress` of the crate acpi: a segment, a bus, a device below 32 and a function below 8.
pub record PciAddresses (A : Type 0) : Type 0 where
  pub new : (segment bus device function : ℕ) → A
  pub bus : A → ℕ
  pub device : A → ℕ
  pub function : A → ℕ

-- `PhysicalMapping` of the crate acpi.
pub record PhysicalMapping : Type 0 where
  pub physical_start : ℕ
  pub virtual_start : ℕ
  pub region_length : ℕ
  pub mapped_length : ℕ

-- `pci_config_address`, all in `u32`
unfoldable pub pci_config_address : (bus dev func offset : ℕ) → ℕ
pci_config_address bus dev func offset =
    bit_or
      (bit_or (bit_or (bit_or (2 ^ 31) (u32 (bus * 2 ^ 16))) (u32 (dev * 2 ^ 11)))
        (u32 (func * 2 ^ 8)))
      (bit_and (u32 offset) 0xFC)

-- `!x` on `u32`
abbrev pub not32 : ℕ → ℕ
not32 x = 2 ^ 32 - 1 - x

-- `(old & !(0xFF << shift)) | ((value as u32) << shift)` of the two `write_pci_u8`
unfoldable pub put_u8 : (old offset value : ℕ) → ℕ
put_u8 old offset value =
    let shift = bit_and offset 3 * 8 in
    let mask = not32 (u32 (0xFF * 2 ^ shift)) in bit_or (bit_and old mask) (u32 (value * 2 ^ shift))

-- The same of the two `write_pci_u16`.
unfoldable pub put_u16 : (old offset value : ℕ) → ℕ
put_u16 old offset value =
    let shift = bit_and offset 2 * 8 in
    let mask = not32 (u32 (0xFFFF * 2 ^ shift)) in
    bit_or (bit_and old mask) (u32 (value * 2 ^ shift))

module _ {H A : Type 0} (io : Ports H) (pci : PciAddresses A) where
  abbrev pub address_of : A → (offset : ℕ) → ℕ
  address_of a offset = pci_config_address (pci.bus a) (pci.device a) (pci.function a) offset

  unfoldable pub pci_config_read_u32 : A → (offset : ℕ) → H → ℕ × H
  pci_config_read_u32 a offset h = io.in32 0xCFC (io.out32 0xCF8 (address_of a offset) h)

  unfoldable pub pci_config_write_u32 : A → (offset value : ℕ) → H → H
  pci_config_write_u32 a offset value h =
      io.out32 0xCFC value (io.out32 0xCF8 (address_of a offset) h)

  -- `AcpiHandler`
  unfoldable pub read_pci_u8 : A → (offset : ℕ) → H → ℕ × H
  read_pci_u8 a offset h = let (v, h) = pci_config_read_u32 a offset h in (u8 v, h)

  unfoldable pub read_pci_u16 : A → (offset : ℕ) → H → ℕ × H
  read_pci_u16 a offset h = let (v, h) = pci_config_read_u32 a offset h in (u16 v, h)

  unfoldable pub read_pci_u32 : A → (offset : ℕ) → H → ℕ × H
  read_pci_u32 a offset h = pci_config_read_u32 a offset h

  unfoldable pub write_pci_u8 : A → (offset value : ℕ) → H → H
  write_pci_u8 a offset value h =
      let (old, h) = pci_config_read_u32 a offset h in
      pci_config_write_u32 a offset (put_u8 old offset value) h

  unfoldable pub write_pci_u16 : A → (offset value : ℕ) → H → H
  write_pci_u16 a offset value h =
      let (old, h) = pci_config_read_u32 a offset h in
      pci_config_write_u32 a offset (put_u16 old offset value) h

  unfoldable pub write_pci_u32 : A → (offset value : ℕ) → H → H
  write_pci_u32 a offset value h = pci_config_write_u32 a offset value h

  -- `AmlHandler`, which is given the parts of the address.
  unfoldable pub aml_read_pci_u8 : (seg bus dev func offset : ℕ) → H → ℕ × H
  aml_read_pci_u8 seg bus dev func offset h =
      let (v, h) = pci_config_read_u32 (pci.new seg bus dev func) offset h in (u8 v, h)

  unfoldable pub aml_read_pci_u16 : (seg bus dev func offset : ℕ) → H → ℕ × H
  aml_read_pci_u16 seg bus dev func offset h =
      let (v, h) = pci_config_read_u32 (pci.new seg bus dev func) offset h in (u16 v, h)

  unfoldable pub aml_read_pci_u32 : (seg bus dev func offset : ℕ) → H → ℕ × H
  aml_read_pci_u32 seg bus dev func offset h =
      pci_config_read_u32 (pci.new seg bus dev func) offset h

  unfoldable pub aml_write_pci_u8 : (seg bus dev func offset value : ℕ) → H → H
  aml_write_pci_u8 seg bus dev func offset value h =
      let a = pci.new seg bus dev func in
      let (old, h) = pci_config_read_u32 a offset h in
      pci_config_write_u32 a offset (put_u8 old offset value) h

  unfoldable pub aml_write_pci_u16 : (seg bus dev func offset value : ℕ) → H → H
  aml_write_pci_u16 seg bus dev func offset value h =
      let a = pci.new seg bus dev func in
      let (old, h) = pci_config_read_u32 a offset h in
      pci_config_write_u32 a offset (put_u16 old offset value) h

  unfoldable pub aml_write_pci_u32 : (seg bus dev func offset value : ℕ) → H → H
  aml_write_pci_u32 seg bus dev func offset value h =
      pci_config_write_u32 (pci.new seg bus dev func) offset value h

module _ {H : Type 0} (io : Ports H) where
  -- `stall`: one write to port 0x80 a microsecond.
  unfoldable pub stall : (microseconds : ℕ) → H → H
  stall zero h = h
  stall (suc n) h = stall n (io.out8 0x80 0 h)

  unfoldable pub sleep : (milliseconds : ℕ) → H → H
  sleep milliseconds h = stall (u64 (milliseconds * 1000)) h

-- The widths of port accesses.
pub data Width : Type 0 where
  byte word dword : Width

module _ {H : Type 0} (io : Ports H) where
  -- `read_io_u8`, `read_io_u16` and `read_io_u32` of `AcpiHandler`, and of `AmlHandler`.
  unfoldable pub read_io : Width → (port : ℕ) → H → ℕ × H
  read_io byte port h = io.in8 port h
  read_io word port h = io.in16 port h
  read_io dword port h = io.in32 port h

  unfoldable pub aml_read_io : Width → (port : ℕ) → H → ℕ × H
  aml_read_io byte port h = io.in8 port h
  aml_read_io word port h = io.in16 port h
  aml_read_io dword port h = io.in32 port h

  -- `write_io_u8`, `write_io_u16` and `write_io_u32`
  unfoldable pub write_io : Width → (port value : ℕ) → H → H
  write_io byte port value h = io.out8 port value h
  write_io word port value h = io.out16 port value h
  write_io dword port value h = io.out32 port value h

  unfoldable pub aml_write_io : Width → (port value : ℕ) → H → H
  aml_write_io byte port value h = io.out8 port value h
  aml_write_io word port value h = io.out16 port value h
  aml_write_io dword port value h = io.out32 port value h

-- `nanos_since_boot` and `create_mutex`, which are placeholders.
abbrev pub nanos_since_boot : ℕ
nanos_since_boot = 0

abbrev pub create_mutex : ℕ
create_mutex = 0

-- `acquire`, `release` and `unmap_physical_region` do nothing; `acquire` succeeds at once.
abbrev pub acquire : (handle timeout : ℕ) → {H : Type 0} → H → Option H
acquire handle timeout h = some h

abbrev pub release : (handle : ℕ) → {H : Type 0} → H → H
release handle h = h

abbrev pub unmap_physical_region : {R H : Type 0} → (region : R) → H → H
unmap_physical_region region h = h

-- Physical memory, seen by virtual addresses as `m`. The handlers differ in the width alone: 1, 2, 4
-- and 8 bytes for `u8`, `u16`, `u32` and `u64`.
module _ (x : Addresses) (o : Offset) where
  -- A dereference at a type of `width` bytes: with debug assertions it panics at a null or misaligned
  -- pointer, which is undefined behaviour without.
  abbrev pub can_access : (width virt : ℕ) → Bool
  can_access width virt = (virt % width == 0) && ltb 0 virt

  unfoldable pub read_addr : (width addr : ℕ) → Bytes → Exec ℕ
  read_addr width addr m = do
    phys ← x.phys_new addr
    virt ← physical_to_virtual x o phys
    if can_access width virt then done (load width virt m) else panic

  unfoldable pub write_addr : (width addr value : ℕ) → Bytes → Exec Bytes
  write_addr width addr value m = do
    phys ← x.phys_new addr
    virt ← physical_to_virtual x o phys
    if can_access width virt then done (store width virt value m) else panic

  -- `read_u8` to `read_u64` of `AcpiHandler`, and of `AmlHandler`.
  unfoldable pub read_memory : (width addr : ℕ) → Bytes → Exec ℕ
  read_memory width addr m = read_addr width addr m

  unfoldable pub aml_read_memory : (width addr : ℕ) → Bytes → Exec ℕ
  aml_read_memory width addr m = read_addr width addr m

  -- `write_u8` to `write_u64` of `AcpiHandler`, and of `AmlHandler`.
  unfoldable pub write_memory : (width addr value : ℕ) → Bytes → Exec Bytes
  write_memory width addr value m = write_addr width addr value m

  unfoldable pub aml_write_memory : (width addr value : ℕ) → Bytes → Exec Bytes
  aml_write_memory width addr value m = write_addr width addr value m

  -- `map_physical_region`; `NonNull::new(..).unwrap()` panics at a null pointer.
  unfoldable pub map_physical_region : (physical_address size : ℕ) → Exec PhysicalMapping
  map_physical_region physical_address size = do
    phys ← x.phys_new physical_address
    virt ← physical_to_virtual x o phys
    if virt == 0
        then panic
        else done (record {
          physical_start = physical_address;
          virtual_start = virt;
          region_length = size;
          mapped_length = size;
        })
