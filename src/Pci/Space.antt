-- ===== src/Pci/Space.antt =====
-- What the PCI host bridge does with the ports 0xCF8 and 0xCFC, as the PCI Local Bus Specification
-- documents configuration mechanism 1: an address written to 0xCF8 selects a 32-bit register, and
-- 0xCFC reads and writes it. Reads of the registers here have no effect; a `plain` register holds
-- what was last written to it, and a write to it changes no other register.
use rix_os.Base.{ℕ, ◌^◌, ◌<◌, ◌≡◌, ◌≢◌, Bool, true}
use rix_os.Io.{Ports}

pub record ConfigSpace {H : Type 0} (io : Ports H) : Type 0 where
  pub space : H → ℕ → ℕ
  pub plain : ℕ → Bool
  pub fits : (h : H) (a : ℕ) → space h a < 2 ^ 32
  pub read_selected : (a : ℕ) (h : H) → (io.in32 0xCFC (io.out32 0xCF8 a h)).0 ≡ space h a
  pub read_keeps :
      (a : ℕ) (h : H) (b : ℕ) → space (io.in32 0xCFC (io.out32 0xCF8 a h)).1 b ≡ space h b
  pub write_selected :
      (a v : ℕ) (h : H)
      → plain a ≡ true
      → v < 2 ^ 32
      → space (io.out32 0xCFC v (io.out32 0xCF8 a h)) a ≡ v
  pub write_elsewhere :
      (a v : ℕ) (h : H) (b : ℕ)
      → plain a ≡ true
      → b ≢ a
      → space (io.out32 0xCFC v (io.out32 0xCF8 a h)) b ≡ space h b
