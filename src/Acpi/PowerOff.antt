-- ===== src/Acpi/PowerOff.antt =====
-- `init` and then `shutdown` of kernel/src/acpi/mod.rs.
use rix_os.Base.{
  ℕ, ◌+◌, ◌-◌, ◌^◌, ◌*◌, ◌/◌, ◌%◌, ◌<◌, ◌≡◌, ◌⊎◌, inl, inr, refl, sym, ap, ◌∙◌, Option, none, some,
  List, [], ◌∷◌, u16, Exec, done, panic, leb, ◌≤◌, Bool, true, false, if◌then◌else◌, ◌>>=◌, bit_or,
  >>=-eq-done, done_eq, arith, some_eq, some≢none, Option-cases,
}
use rix_os.Base.Bits.{bit_or_split, bit_or-zero, zero-bit_or}
use rix_os.Io.{Ports}
use rix_os.PhysMemory.{Addresses, Offset, physical_to_virtual}
use rix_os.Acpi.{
  AcpiShutdown, default, Dsdt, AmlItem, integer, other_item, AmlValue, aml_package, other_value,
  AcpiCrates, or_return, slice, first_integer, set_shutdown, parse_s5, find_s5, init, shutdown,
}

or_return-some :
    {A B : Type 0} (o : Option A) (f : A → Exec (Option B)) {b : B}
    → or_return o f ≡ done (some b)
    → (a : A) × (o ≡ some a) × (f a ≡ done (some b))
or_return-some none f e = cc
or_return-some (some a) f e = (a, refl, e)

abbrev Returns : {A : Type 0} → Exec A → Type 0
Returns {A} m = (a : A) × (m ≡ done a)

or_return-Returns :
    {A B : Type 0} (o : Option A) (f : A → Exec (Option B))
    → ((a : A) → o ≡ some a → Returns (f a))
    → Returns (or_return o f)
or_return-Returns none f h = (none, refl)
or_return-Returns (some a) f h = h a refl

>>=-Returns :
    {A B : Type 0} (m : Exec A) (f : A → Exec B)
    → Returns m
    → ((a : A) → Returns (f a))
    → Returns (m >>= f)
>>=-Returns m f r h = let p = h r.0 in (p.0, ap (λ n. n >>= f) r.1 ∙ p.1)

checked-done :
    {B : Type 0} (c : Bool) (n : ℕ) (f : ℕ → Exec B) {b : B}
    → ((if c then done n else panic) >>= f) ≡ done b
    → (c ≡ true) × (f n ≡ done b)
checked-done true n f e = (refl, e)
checked-done false n f e = cc

first_integer-some :
    (value : Option AmlValue) {w : ℕ}
    → first_integer value ≡ some w
    → (v : ℕ) × (items : List AmlItem) × (value ≡ some (aml_package (integer v ∷ items)))
      × (u16 v ≡ w)
first_integer-some (some (aml_package (integer v ∷ items))) e = (v, items, refl, some_eq e)
first_integer-some (some (aml_package (other_item ∷ items))) e = cc
first_integer-some (some (aml_package [])) e = cc
first_integer-some (some other_value) e = cc
first_integer-some none e = cc

module _ (x : Addresses) {Tables Fadt AmlName Namespace : Type 0}
    (k : AcpiCrates Tables Fadt AmlName Namespace) (memory : ℕ → ℕ) (o : Offset) (rsdp : ℕ) where
  -- The DSDT's code has a package `\_S5` that starts with the integer `v`.
  abbrev pub HasPackage : (d : Dsdt) (v : ℕ) → Type 0
  HasPackage d v =
      (addr : ℕ) × (ptr : ℕ) × (aml : Namespace) × (name : AmlName) × (items : List AmlItem)
      × (x.phys_new d.phys_address ≡ done addr)
      × (physical_to_virtual x o addr ≡ done ptr)
      × (leb 36 d.length ≡ true)
      × (k.parse_table (slice memory (ptr + 36) (d.length - 36)) ≡ some aml)
      × (k.from_str_s5 ≡ some name)
      × (k.get_by_path aml name ≡ some (aml_package (integer v ∷ items)))

  -- The tables name a PM1a control block at `pm1a` and a DSDT with such a package.
  abbrev pub HasS5 : (pm1a v : ℕ) → Type 0
  HasS5 pm1a v =
      (tables : Tables) × (d : Dsdt) × (fadt : Fadt) × (k.from_rsdp rsdp ≡ some tables)
      × (k.dsdt tables ≡ some d)
      × (k.find_fadt tables ≡ some fadt)
      × (k.pm1a_control_block fadt ≡ some pm1a)
      × HasPackage d v

  parse_s5-of_HasPackage :
      (d : Dsdt) (v : ℕ) → HasPackage d v → parse_s5 x k memory o d ≡ done (some (u16 v))
  unfolding parse_s5
  parse_s5-of_HasPackage d v p = rw (p.5, p.6, p.7, p.8, p.9, p.10) refl

  HasPackage-of_parse_s5 :
      (d : Dsdt) (w : ℕ)
      → parse_s5 x k memory o d ≡ done (some w)
      → (v : ℕ) × HasPackage d v × (u16 v ≡ w)
  unfolding parse_s5
  HasPackage-of_parse_s5 d w e =
      let a = >>=-eq-done (x.phys_new d.phys_address) _ e in
      let q = >>=-eq-done (physical_to_virtual x o a.0) _ a.2 in
      let c = checked-done (leb 36 d.length) (d.length - 36) _ q.2 in
      let m = or_return-some (k.parse_table _) _ c.1 in
      let n = or_return-some k.from_str_s5 _ m.2 in
      let i = first_integer-some (k.get_by_path m.0 n.0) (done_eq n.2) in
      (i.0, (a.0, q.0, m.0, n.0, i.1, a.1, q.1, c.0, m.1, n.1, i.2), i.3)

  find_s5-of_HasS5 :
      (pm1a v : ℕ) → HasS5 pm1a v → find_s5 x k memory o rsdp ≡ done (some (pm1a, u16 v))
  unfolding find_s5
  find_s5-of_HasS5 pm1a v s = rw (s.3, s.4, s.5, s.6, parse_s5-of_HasPackage s.1 v s.7) refl

  HasS5-of_find_s5 :
      (found : ℕ × ℕ)
      → find_s5 x k memory o rsdp ≡ done (some found)
      → (v : ℕ) × HasS5 found.0 v × (u16 v ≡ found.1)
  unfolding find_s5
  HasS5-of_find_s5 found e =
      let t = or_return-some (k.from_rsdp rsdp) _ e in
      let d = or_return-some (k.dsdt t.0) _ t.2 in
      let f = or_return-some (k.find_fadt t.0) _ d.2 in
      let p = or_return-some (k.pm1a_control_block f.0) _ f.2 in
      let s = >>=-eq-done (parse_s5 x k memory o d.0) _ p.2 in
      let v = or_return-some s.0 _ s.2 in
      let r = some_eq (done_eq v.2) in
      let i = HasPackage-of_parse_s5 d.0 v.0 (s.1 ∙ ap done v.1) in
      (i.0, (t.0, d.0, f.0, t.1, d.1, f.1, p.1 ∙ ap (λ r. some r.0) r, i.1), i.2 ∙ ap (λ r. r.1) r)

  -- The DSDT lies where physical memory is mapped, and has all of its header.
  abbrev pub IsMapped : Type 0
  IsMapped =
      (tables : Tables) (d : Dsdt)
      → k.dsdt tables ≡ some d
      → (addr : ℕ) × (ptr : ℕ) × (x.phys_new d.phys_address ≡ done addr)
        × (physical_to_virtual x o addr ≡ done ptr)
        × (36 ≤ d.length)

  find_s5-Returns : IsMapped → Returns (find_s5 x k memory o rsdp)
  unfolding find_s5 parse_s5
  find_s5-Returns mapped = or_return-Returns (k.from_rsdp rsdp) _ λ tables t.
      or_return-Returns (k.dsdt tables) _ λ d e. or_return-Returns (k.find_fadt tables) _ λ fadt f.
        or_return-Returns (k.pm1a_control_block fadt) _ λ pm1a p.
          let a = mapped tables d e in
          let whole : leb 36 d.length ≡ true = ground (arith, a.4) in
          rw (a.2, a.3, whole)
            (>>=-Returns _ _
              (or_return-Returns (k.parse_table _) _
                λ aml m. or_return-Returns k.from_str_s5 _ λ name n. (_, refl))
              (λ v. or_return-Returns v _ λ w q. (_, refl)))

  -- When the DSDT is mapped and has a whole header, `init` from the default state returns, and a
  -- shutdown after it is one port write: if the tables have a PM1a control block and a package
  -- `\_S5` that starts with an integer v, then v with bit 13 (SLP_EN) goes to that block's port,
  -- and if they have not, 0x10 goes to QEMU's port 0xf4.
  pub shutdown_lem :
      {H : Type 0} (io : Ports H) (h : H)
      → IsMapped
      → (s : AcpiShutdown) × (init x k memory o rsdp default ≡ done s)
        × (((pm1a : ℕ) × (v : ℕ) × HasS5 pm1a v
              × (shutdown io s h ≡ io.out16 (u16 pm1a) (bit_or (u16 v) 0x2000) h))
            ⊎ (((pm1a v : ℕ) → ¬ HasS5 pm1a v) × (shutdown io s h ≡ io.out32 0xf4 0x10 h)))
  unfolding init shutdown
  shutdown_lem io h mapped =
      let p = find_s5-Returns mapped in
      elim (Option-cases p.0) [
        | inl n ↦
            let none_found : (pm1a v : ℕ) → ¬ HasS5 pm1a v =
              λ pm1a v s. some≢none (done_eq (sym (find_s5-of_HasS5 pm1a v s) ∙ p.1 ∙ ap done n)) in
            (default, rw (p.1, n) refl, inr (none_found, refl))
        | inr q ↦
            let s = HasS5-of_find_s5 q.0 (p.1 ∙ ap done q.1) in
            (
              set_shutdown (some q.0) default,
              rw (p.1, q.1) refl,
              inl (q.0.0, s.0, s.1, ap (λ w. io.out16 (u16 q.0.0) (bit_or w 0x2000) h) (sym s.2)),
            )
      ]

-- With a sleep type v below 2 ^ 10 found, the word that `shutdown` writes has 0 in the field
-- SLP_TYP, bits 10 to 12, 1 in SLP_EN, bit 13, and v in the ten bits below them.
pub sleep_type-zero :
    {H : Type 0} (io : Ports H) (h : H) (pm1a v : ℕ)
    → v < 2 ^ 10
    → (w : ℕ) × (shutdown io (set_shutdown (some (pm1a, v)) default) h ≡ io.out16 (u16 pm1a) w h)
      × (w / 2 ^ 10 % 2 ^ 3 ≡ 0)
      × (w / 2 ^ 13 % 2 ≡ 1)
      × (w % 2 ^ 10 ≡ v)
unfolding shutdown
sleep_type-zero io h pm1a v l =
    let p : v ≡ 0 * 2 ^ 13 + v = omega arith in
    let e : bit_or v 0x2000 ≡ 0x2000 + v =
      ap (λ t. bit_or t 0x2000) p
      ∙ bit_or_split 13 0 v 1 0 (omega arith) (omega arith)
      ∙ omega (arith, bit_or-zero v, zero-bit_or 1) in
    (bit_or v 0x2000, refl, omega arith, omega arith, omega arith)
