-- ===== src/Bga/Mode.antt =====
-- The registers of the adapter after its mode is set.
use rix_os.Base.{ℕ, ◌≡◌, true, Bool, ◌==◌, if◌then◌else◌, u16, ◌%◌, ◌≤◌}
use rix_os.Io.{Ports}
use rix_os.Bga.{
  ioport_index, ioport_data, index_xres, index_yres, index_bpp, index_enable, enable_value,
}

-- What the code relies on in the adapter, as its interface is documented: a write to the index port
-- selects a register. The data port writes the selected one: the size and the depth only while the
-- adapter is disabled and if it takes the value. Enabling it sets other registers too, but none up
-- to `index_enable`.
pub record Adapter {H : Type 0} (io : Ports H) : Type 0 where
  pub selected : H → ℕ
  pub register : H → ℕ → ℕ
  pub takes : (index value : ℕ) → Bool
  pub select : (i : ℕ) (h : H) → selected (io.out16 ioport_index i h) ≡ i
  pub select_keeps : (i j : ℕ) (h : H) → register (io.out16 ioport_index i h) j ≡ register h j
  pub enable_write :
      (v j : ℕ) (h : H)
      → selected h ≡ index_enable
      → j ≤ index_enable
      → register (io.out16 ioport_data v h) j ≡ (if j == index_enable then v else register h j)
  pub size_write :
      (v i j : ℕ) (h : H)
      → selected h ≡ i
      → index_xres ≤ i
      → i ≤ index_bpp
      → register h index_enable % 2 ≡ 0
      → takes i v ≡ true
      → j ≤ index_enable
      → register (io.out16 ioport_data v h) j ≡ (if j == i then v else register h j)

module _ {H : Type 0} (io : Ports H) (d : Adapter io) where
  -- The registers up to `index_enable` hold these values.
  abbrev Holds : (ℕ → ℕ) → H → Type 0
  Holds f h = (j : ℕ) → j ≤ index_enable → d.register h j ≡ f j

  abbrev with_value : (i v : ℕ) → (ℕ → ℕ) → ℕ → ℕ
  with_value i v f j = if j == i then v else f j

  -- The registers that a mode leads to.
  abbrev pub mode : (width height bit_depth : ℕ) (linear clear : Bool) (before : ℕ → ℕ) → ℕ → ℕ
  mode width height bit_depth linear clear before j =
      if j == index_enable
      then enable_value linear clear
      else if j == index_bpp
      then u16 bit_depth
      else if j == index_yres
      then u16 height
      else if j == index_xres
      then u16 width
      else before j
