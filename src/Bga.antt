-- ===== src/Bga.antt =====
-- kernel/src/bga.rs: the Bochs graphics adapter.
pub mod Mode
use rix_os.Base.{
  ℕ, zero, suc, ◌+◌, ◌*◌, ◌^◌, ◌≡◌, ◌≢◌, Bool, true, false, List, [], ◌∷◌, ◌==◌, ltb, if◌then◌else◌,
  u16, bit_or,
}
use rix_os.Io.{Ports}

abbrev pub ioport_index : ℕ
ioport_index = 0x1ce

abbrev pub ioport_data : ℕ
ioport_data = 0x1cf

abbrev pub index_id : ℕ
index_id = 0

abbrev pub index_xres : ℕ
index_xres = 1

abbrev pub index_yres : ℕ
index_yres = 2

abbrev pub index_bpp : ℕ
index_bpp = 3

abbrev pub index_enable : ℕ
index_enable = 4

abbrev pub index_bank : ℕ
index_bank = 5

abbrev pub id5 : ℕ
id5 = 0xb0c5

abbrev pub disabled : ℕ
disabled = 0

abbrev pub enabled : ℕ
enabled = 1

abbrev pub lfb_enabled : ℕ
lfb_enabled = 2

abbrev pub no_clear_mem : ℕ
no_clear_mem = 4

abbrev pub bpp_32 : ℕ
bpp_32 = 0x20

-- `enable_value` of `bga_set_video_mode`
unfoldable pub enable_value : (use_linear_frame_buffer clear_video_memory : Bool) → ℕ
enable_value use_linear_frame_buffer clear_video_memory =
    let value = if use_linear_frame_buffer then bit_or enabled lfb_enabled else enabled in
    if clear_video_memory then value else bit_or value no_clear_mem

module _ {H : Type 0} (io : Ports H) where
  unfoldable pub bga_write_register : (index_value data_value : ℕ) → H → H
  bga_write_register index_value data_value h =
      io.out16 ioport_data data_value (io.out16 ioport_index index_value h)

  unfoldable pub bga_read_register : (index_value : ℕ) → H → ℕ × H
  bga_read_register index_value h = io.in16 ioport_data (io.out16 ioport_index index_value h)

  unfoldable pub bga_is_available : H → Bool × H
  bga_is_available h = let r = bga_read_register index_id h in (r.0 == id5, r.1)

  unfoldable pub bga_set_video_mode :
      (width height bit_depth : ℕ) (use_linear_frame_buffer clear_video_memory : Bool) → H → H
  bga_set_video_mode width height bit_depth use_linear_frame_buffer clear_video_memory h =
      let h = bga_write_register index_enable disabled h in
      let h = bga_write_register index_xres (u16 width) h in
      let h = bga_write_register index_yres (u16 height) h in
      let h = bga_write_register index_bpp (u16 bit_depth) h in
      bga_write_register index_enable (enable_value use_linear_frame_buffer clear_video_memory) h

  unfoldable pub bga_set_bank : (bank_number : ℕ) → H → H
  bga_set_bank bank_number h = bga_write_register index_bank bank_number h
