-- ===== src/AcpiHandler/Ram.antt =====
-- Memory accesses through the mapping of physical memory.
use rix_os.Base.{
  ℕ, ◌+◌, ◌^◌, ◌<◌, ◌≤◌, ◌≡◌, sym, ap, ◌∙◌, ◌⊎◌, some, arith, done, u64, ltb, true, refl, subst,
  ◌%◌,
}
use rix_os.PhysMemory.{Addresses, IsCanonical, physical_to_virtual}
use rix_os.PhysMemory.Bytes.{Bytes, load, store, load-store_self, load-store_apart}
use rix_os.AcpiHandler.{can_access, read_addr, write_addr}

-- `width` physical bytes from an address on, all of them with the mapping at `offset`, and aligned.
pub record IsMapped (offset width addr : ℕ) : Type 0 where
  pub some_bytes : 0 < width
  pub physical : addr + width ≤ 2 ^ 52
  pub canonical : (i : ℕ) → i < width → IsCanonical (offset + addr + i)
  pub no_wrap : offset + addr + width ≤ 2 ^ 64
  pub not_null : 0 < offset + addr
  pub aligned : (offset + addr) % width ≡ 0

module _ (x : Addresses) (offset : ℕ) where
  pub physical_to_virtual-done :
      (width addr : ℕ)
      → IsMapped offset width addr
      → physical_to_virtual x (some offset) addr ≡ done (offset + addr)
  unfolding physical_to_virtual
  physical_to_virtual-done width addr w =
      let small : u64 (offset + addr) ≡ offset + addr = omega (arith, w.no_wrap, w.some_bytes) in
      let first : offset + addr + 0 ≡ offset + addr = omega arith in
      rw small
        (x.virt_new-done (offset + addr) (subst IsCanonical first (w.canonical 0 w.some_bytes)))

  can_access-IsMapped :
      (width addr : ℕ)
      → IsMapped offset width addr
      → can_access x (some offset) width (offset + addr) ≡ true
  can_access-IsMapped width addr w =
      let positive : ltb 0 (offset + addr) ≡ true = ground (arith, w.not_null) in
      rw (w.aligned, positive) refl

  read_addr-done :
      (width addr : ℕ) (m : Bytes)
      → IsMapped offset width addr
      → read_addr x (some offset) width addr m ≡ done (load width (offset + addr) m)
  unfolding read_addr
  read_addr-done width addr m w =
      rw
        (
          x.phys_new-done addr (omega (arith, w.physical, w.some_bytes)),
          physical_to_virtual-done width addr w,
          can_access-IsMapped width addr w,
        )
        refl

  write_addr-done :
      (width addr v : ℕ) (m : Bytes)
      → IsMapped offset width addr
      → write_addr x (some offset) width addr v m ≡ done (store width (offset + addr) v m)
  unfolding write_addr
  write_addr-done width addr v m w =
      rw
        (
          x.phys_new-done addr (omega (arith, w.physical, w.some_bytes)),
          physical_to_virtual-done width addr w,
          can_access-IsMapped width addr w,
        )
        refl

  -- At an aligned physical address, with the mapping over all the bytes, a write of `width` bytes
  -- does not panic, a read of the same width there then returns the value, and an aligned read
  -- anywhere else that is mapped and that does not overlap returns what it returned before.
  pub write_addr_lem :
      (width addr v : ℕ) (m : Bytes)
      → IsMapped offset width addr
      → v < 256 ^ width
      → (m' : Bytes) × (write_addr x (some offset) width addr v m ≡ done m')
        × (read_addr x (some offset) width addr m' ≡ done v)
        × ((k b : ℕ)
            → IsMapped offset k b
            → (b + k ≤ addr) ⊎ (addr + width ≤ b)
            → read_addr x (some offset) k b m' ≡ read_addr x (some offset) k b m)
  write_addr_lem width addr v m w h = (
    store width (offset + addr) v m,
    write_addr-done width addr v m w,
    read_addr-done width addr _ w ∙ ap done (load-store_self width (offset + addr) v m h),
    λ k b wb o.
        read_addr-done k b _ wb
        ∙ ap done (load-store_apart k width (offset + addr) (offset + b) v m (omega arith))
        ∙ sym (read_addr-done k b m wb),
  )
