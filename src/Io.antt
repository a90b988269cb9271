-- ===== src/Io.antt =====
-- Port input and output, as `x86_64::instructions::port::Port` offers it: the devices behind the
-- ports are a state `H` that each access may change.
use rix_os.Base.{ℕ}

pub record Ports (H : Type 0) : Type 0 where
  -- `Port::<u8>::new(port).write(value)`, and so for the other widths
  pub out8 : (port value : ℕ) → H → H
  pub out16 : (port value : ℕ) → H → H
  pub out32 : (port value : ℕ) → H → H
  pub in8 : (port : ℕ) → H → ℕ × H
  pub in16 : (port : ℕ) → H → ℕ × H
  pub in32 : (port : ℕ) → H → ℕ × H
