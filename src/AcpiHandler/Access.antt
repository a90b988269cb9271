-- ===== src/AcpiHandler/Access.antt =====
-- Configuration accesses of `AcpiHandler` on documented hardware.
use rix_os.Base.{ℕ, ◌/◌, ◌%◌, ◌<◌, ◌≡◌, ap, ◌∙◌, ◌≢◌, true, ◌==◌, if◌then◌else◌, arith}
use rix_os.Io.{Ports}
use rix_os.Pci.Space.{ConfigSpace}
use rix_os.AcpiHandler.{
  PciAddresses, address_of, put_u8, put_u16, pci_config_read_u32, pci_config_write_u32, read_pci_u8,
  write_pci_u8, write_pci_u16,
}
use rix_os.AcpiHandler.Config.{byte_of, word_of, put_u8_bytes, put_u8-lt, put_u16_words, put_u16-lt}

module _ {H A : Type 0} (io : Ports H) (pci : PciAddresses A) (c : ConfigSpace io) (a : A)
    (offset : ℕ) (h : H) where
  -- The register that the access is to, and what it holds.
  abbrev pub register : ℕ
  register = address_of io pci a offset

  abbrev pub content : H → ℕ
  content h = c.space h register

  read-eq : (pci_config_read_u32 io pci a offset h).0 ≡ content h
  unfolding pci_config_read_u32
  read-eq = c.read_selected register h

  read_changes_nothing : (b : ℕ) → c.space (pci_config_read_u32 io pci a offset h).1 b ≡ c.space h b
  unfolding pci_config_read_u32
  read_changes_nothing b = c.read_keeps register h b

  module _ (plain : c.plain register ≡ true) where
    written-u8 :
        (v : ℕ) → v < 256 → content (write_pci_u8 io pci a offset v h) ≡ put_u8 (content h) offset v
    unfolding write_pci_u8 pci_config_write_u32
    written-u8 v hv =
        let e = ap (λ old. put_u8 old offset v) read-eq in
        c.write_selected register _ _ plain
          (rw e (put_u8-lt (content h) v (c.fits h register) hv offset))
        ∙ e

    elsewhere-u8 :
        (v b : ℕ) → b ≢ register → c.space (write_pci_u8 io pci a offset v h) b ≡ c.space h b
    unfolding write_pci_u8 pci_config_write_u32
    elsewhere-u8 v b ne = c.write_elsewhere register _ _ b plain ne ∙ read_changes_nothing b

    written-u16 :
        (v : ℕ)
        → v < 65536
        → content (write_pci_u16 io pci a offset v h) ≡ put_u16 (content h) offset v
    unfolding write_pci_u16 pci_config_write_u32
    written-u16 v hv =
        let e = ap (λ old. put_u16 old offset v) read-eq in
        c.write_selected register _ _ plain
          (rw e (put_u16-lt (content h) v (c.fits h register) hv offset))
        ∙ e

    elsewhere-u16 :
        (v b : ℕ) → b ≢ register → c.space (write_pci_u16 io pci a offset v h) b ≡ c.space h b
    unfolding write_pci_u16 pci_config_write_u32
    elsewhere-u16 v b ne = c.write_elsewhere register _ _ b plain ne ∙ read_changes_nothing b

    -- On documented hardware and a register that holds what is written, `write_pci_u8` puts the value
    -- into the byte that the two lowest bits of the offset name, keeps the other three bytes of the
    -- register, and changes no other register.
    pub write_pci_u8_lem :
        (v : ℕ)
        → v < 256
        → ((k : ℕ)
            → k < 4
            → byte_of k (content (write_pci_u8 io pci a offset v h))
              ≡ (if k == offset % 4 then v else byte_of k (content h)))
          × ((b : ℕ) → b ≢ register → c.space (write_pci_u8 io pci a offset v h) b ≡ c.space h b)
    write_pci_u8_lem v hv = (
      λ k l.
          ap (byte_of k) (written-u8 v hv)
          ∙ put_u8_bytes (content h) v (c.fits h register) hv offset k l,
      λ b ne. elsewhere-u8 v b ne,
    )

    -- The same of `write_pci_u16`, with the word that bit 1 of the offset names.
    pub write_pci_u16_lem :
        (v : ℕ)
        → v < 65536
        → ((k : ℕ)
            → k < 2
            → word_of k (content (write_pci_u16 io pci a offset v h))
              ≡ (if k == offset / 2 % 2 then v else word_of k (content h)))
          × ((b : ℕ) → b ≢ register → c.space (write_pci_u16 io pci a offset v h) b ≡ c.space h b)
    write_pci_u16_lem v hv = (
      λ k l.
          ap (word_of k) (written-u16 v hv)
          ∙ put_u16_words (content h) v (c.fits h register) hv offset k l,
      λ b ne. elsewhere-u16 v b ne,
    )

module _ {H A : Type 0} (io : Ports H) (pci : PciAddresses A) (c : ConfigSpace io) (a : A)
    (offset : ℕ) (h : H) where
  read_pci_u8-eq : (read_pci_u8 io pci a offset h).0 ≡ byte_of 0 (content io pci c a offset h h)
  unfolding read_pci_u8
  read_pci_u8-eq = rw (read-eq io pci c a offset h) (omega arith)

-- On documented hardware `read_pci_u8` after `write_pci_u8` of `v` at the same offset returns `v` if
-- the offset is a multiple of 4; at any other offset it returns the lowest byte of the register as it
-- was before the write.
pub read_pci_u8-write_pci_u8 :
    {H A : Type 0} (io : Ports H) (pci : PciAddresses A) (c : ConfigSpace io) (a : A) (offset : ℕ)
    (h : H) (v : ℕ)
    → c.plain (address_of io pci a offset) ≡ true
    → v < 256
    → (read_pci_u8 io pci a offset (write_pci_u8 io pci a offset v h)).0
      ≡ (if 0 == offset % 4 then v else byte_of 0 (c.space h (address_of io pci a offset)))
read_pci_u8-write_pci_u8 io pci c a offset h v plain hv =
    read_pci_u8-eq io pci c a offset (write_pci_u8 io pci a offset v h)
    ∙ (write_pci_u8_lem io pci c a offset h plain v hv).0 0 (omega arith)
