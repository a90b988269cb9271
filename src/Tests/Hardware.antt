-- ===== src/Tests/Hardware.antt =====
-- Concrete hardware for the tests: a register file behind an index and a data port, addresses and
-- page tables.
use rix_os.Base.{
  ℕ, ◌+◌, ◌*◌, ◌/◌, ◌%◌, ◌^◌, ◌<◌, ◌≡◌, ◌≢◌, inl, inr, refl, true, false, ◌||◌, ◌==◌, ltb, leb,
  arith, if◌then◌else◌, Exec, done, panic, ==_refl, Bool-cases, ==_iff,
}
use rix_os.Io.{Ports}
use rix_os.Pci.Space.{ConfigSpace}
use rix_os.Bga.Mode.{Adapter}
use rix_os.PhysMemory.{
  Addresses, Paging, frame, frame_not_present, huge_frame, FrameResult, IsCanonical,
}
use rix_os.Frames.{PhysFrames}

-- The selected register, and all of them.
abbrev pub Registers : Type 0
Registers = ℕ × (ℕ → ℕ)

abbrev pub put : ℕ → Registers → Registers
put v h = (h.0, λ j. if j == h.0 then v else h.1 j)

abbrev pub io : Ports Registers
io = record {
  out8 = λ port v h. put v h;
  out16 = λ port v h. if port == 0x1ce then (v, h.1) else put v h;
  out32 = λ port v h. if port == 0xcf8 then (v, h.1) else put v h;
  in8 = λ port h. (h.1 h.0 % 256, h);
  in16 = λ port h. (h.1 h.0, h);
  in32 = λ port h. (h.1 h.0 % 2 ^ 32, h);
}

pub put_self : (a v : ℕ) (f : ℕ → ℕ) → v < 2 ^ 32 → (if a == a then v else f a) % 2 ^ 32 ≡ v
put_self a v f l = rw (==_refl a) (omega arith)

pub put_ne : (a b v : ℕ) (f : ℕ → ℕ) → b ≢ a → (if b == a then v else f b) % 2 ^ 32 ≡ f b % 2 ^ 32
put_ne a b v f ne = elim (Bool-cases (b == a)) [
  | inl e ↦ absurd (ne ((==_iff b a).0 e))
  | inr e ↦ rw e refl
]

abbrev pub config_space : ConfigSpace io
config_space = record {
  space = λ h a. h.1 a % 2 ^ 32;
  plain = λ a. true;
  fits = λ h a. omega arith;
  read_selected = λ a h. refl;
  read_keeps = λ a h b. refl;
  write_selected = λ a v h p l. put_self a v h.1 l;
  write_elsewhere = λ a v h b p ne. put_ne a b v h.1 ne;
}

abbrev pub adapter : Adapter io
adapter = record {
  selected = λ h. h.0;
  register = λ h. h.1;
  select = λ i h. refl;
  select_keeps = λ i j h. refl;
  takes = λ i v. true;
  enable_write = λ v j h e l. rw e refl;
  size_write = λ v i j h e lo hi is_off t l. rw e refl;
}

abbrev pub phys_new : ℕ → Exec ℕ
phys_new a = if ltb a (2 ^ 52) then done a else panic

pub phys_new-lt : (a : ℕ) → a < 2 ^ 52 → phys_new a ≡ done a
phys_new-lt a l = let e : ltb a (2 ^ 52) ≡ true = ground arith in rw e refl

abbrev pub virt_new : ℕ → Exec ℕ
virt_new a = if ltb a (2 ^ 47) || (leb (2 ^ 64) (a + 2 ^ 47)) then done a else panic

canonical : (a : ℕ) → IsCanonical a → (ltb a (2 ^ 47) || (leb (2 ^ 64) (a + 2 ^ 47))) ≡ true
canonical a (inl l) = let e : ltb a (2 ^ 47) ≡ true = ground arith in rw e refl
canonical a (inr (l, m)) =
    let n : ltb a (2 ^ 47) ≡ false = ground arith in
    let e : leb (2 ^ 64) (a + 2 ^ 47) ≡ true = ground arith in rw (n, e) refl

pub virt_new-canonical : (a : ℕ) → IsCanonical a → virt_new a ≡ done a
virt_new-canonical a c = rw (canonical a c) refl

abbrev pub addresses : Addresses
addresses = record {
  phys_new = phys_new;
  virt_new = virt_new;
  phys_new-done = phys_new-lt;
  virt_new-done = virt_new-canonical;
}

-- An entry is present if it is odd; bit 7 makes it huge.
abbrev pub entry_frame : ℕ → FrameResult
entry_frame e =
    if e % 2 == 0
    then frame_not_present
    else if e / 128 % 2 == 1
    then huge_frame
    else frame (e / 4096 * 4096)

abbrev pub paging : Paging
paging = record {
  p4_index = λ a. a / 2 ^ 39 % 512;
  p3_index = λ a. a / 2 ^ 30 % 512;
  p2_index = λ a. a / 2 ^ 21 % 512;
  p1_index = λ a. a / 2 ^ 12 % 512;
  page_offset = λ a. a % 4096;
  entry_frame = entry_frame;
  p4_index-eq = λ a. refl;
  p3_index-eq = λ a. refl;
  p2_index-eq = λ a. refl;
  p1_index-eq = λ a. refl;
  page_offset-eq = λ a. refl;
}

abbrev pub phys_frames : PhysFrames
phys_frames = record {
  phys_new = phys_new;
  containing_address = λ a. a / 4096 * 4096;
  phys_new-done = phys_new-lt;
  containing_address-eq = λ a. refl;
}
