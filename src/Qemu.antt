-- ===== src/Qemu.antt =====
-- kernel/src/qemu.rs: the end of the emulator.
use rix_os.Base.{ℕ}
use rix_os.Io.{Ports}

unfoldable pub shutdown : {H : Type 0} → Ports H → (exit_code : ℕ) → H → H
shutdown io exit_code h = io.out32 0xf4 exit_code h
