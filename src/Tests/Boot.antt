-- ===== src/Tests/Boot.antt =====
-- A logo of two pixels, and the allocator's test.
use rix_os.AllocTest.{alloc_pass, free_pass}
use rix_os.AllocTest.Freed.{IsFilled, odds, free_pass-alloc_pass}
use rix_os.Base.{ℕ, List, length, All, some, ◌≡◌, done, [], ◌∷◌, arith}
use rix_os.Tests.Hardware.{Registers}
use rix_os.Logo.{Image}

abbrev image : Image
image = record {
  width = 2;
  height = 1;
  pixels =
      record { red = 1; green = 2; blue = 3; alpha = 255 }
      ∷ record { red = 9; green = 9; blue = 9; alpha = 0 }
      ∷ [];
}

abbrev idle : Registers
idle = (0, λ j. 0)

free_pass-alloc_pass_example :
    (items : List (List ℕ)) × (alloc_pass 5 ≡ some items)
    × (length items ≡ 15)
    × All (IsFilled 5) items
    × (free_pass items 5 ≡ done (odds items))
free_pass-alloc_pass_example = free_pass-alloc_pass 5 (omega arith)
