-- ===== src/Pci/Enumerate.antt =====
-- `enumerate_pci` against a description of what is listed.
use rix_os.Base.{
  ℕ, zero, suc, ◌+◌, ◌/◌, ◌%◌, ◌^◌, bit_and, u8, ◌≡◌, refl, sym, ap, ap₂, fun_ext, subst, ◌∙◌, ◌⊎◌,
  inl, inr, true, false, List, [], ◌∷◌, ◌++◌, ◌==◌, if◌then◌else◌, arith, Bool-cases,
}
use native.Mathlib.Numerals.{add-one}
use rix_os.Base.Bits.{bit_and_low, bit_and_high}
use rix_os.Io.{Ports}
use rix_os.Pci.{
  Device, config_address, is_single, pci_config_read, scan_functions, scan_devices, scan_buses,
  enumerate_pci,
}
use rix_os.Pci.Space.{ConfigSpace}
use rix_os.Pci.Listing.{
  reg, answers, has_one, entry, listed, listed_functions, listed_devices, listed_buses,
}

is_single-suc : (f header_type_reg : ℕ) → is_single (suc f) header_type_reg ≡ false
is_single-suc f header_type_reg = ground arith

-- `is_single` looks at bit 23 of the register.
is_single-zero : (r : ℕ) → is_single 0 r ≡ (r / 2 ^ 23 % 2 == 0)
is_single-zero r =
    let low : bit_and (r / 2 ^ 16) 0xFF ≡ r / 2 ^ 16 % 2 ^ 8 = bit_and_low 8 (r / 2 ^ 16) in
    let byte : u8 (bit_and (r / 2 ^ 16) 0xFF) ≡ r / 2 ^ 16 % 2 ^ 8 = omega (arith, low) in
    rw byte (ground (arith, bit_and_high 7 1 (r / 2 ^ 16 % 2 ^ 8)))

module _ {H : Type 0} (io : Ports H) (c : ConfigSpace io) (regs : ℕ → ℕ) where
  -- A run that lists `l` and leaves the registers as they are.
  abbrev Lists : List Device × H → List Device → Type 0
  Lists r l = (r.0 ≡ l) × (c.space r.1 ≡ regs)

  read_value :
      (b d f o : ℕ) (h : H) → c.space h ≡ regs → (pci_config_read io b d f o h).0 ≡ reg regs b d f o
  unfolding pci_config_read
  read_value b d f o h e =
      c.read_selected (config_address b d f o) h ∙ ap (λ r. r (config_address b d f o)) e

  read_space :
      (b d f o : ℕ) (h : H) → c.space h ≡ regs → c.space (pci_config_read io b d f o h).1 ≡ regs
  unfolding pci_config_read
  read_space b d f o h e = fun_ext (c.read_keeps (config_address b d f o) h) ∙ e

  module _ (b d : ℕ) where
    -- The devices after the reads of a round.
    abbrev after_id : ℕ → H → H
    after_id f h = (pci_config_read io b d f 0x00 h).1

    abbrev after_all : ℕ → H → H
    after_all f h =
        (pci_config_read io b d f 0x0C (pci_config_read io b d f 0x08 (after_id f h)).1).1

    after_all_space : (f : ℕ) (h : H) → c.space h ≡ regs → c.space (after_all f h) ≡ regs
    after_all_space f h e =
        read_space b d f 0x0C _ (read_space b d f 0x08 _ (read_space b d f 0x00 h e))

    scan-absent :
        (left f : ℕ) (h : H)
        → c.space h ≡ regs
        → answers regs b d f ≡ false
        → scan_functions io b d (suc left) f h ≡ scan_functions io b d left (f + 1) (after_id f h)
    unfolding scan_functions
    scan-absent left f h e n =
        let all_ones : (reg regs b d f 0x00 == 0xFFFF_FFFF) ≡ true = ground arith in
        rw (read_value b d f 0x00 h e, all_ones)

    scan-found :
        (left f : ℕ) (h : H)
        → c.space h ≡ regs
        → answers regs b d f ≡ true
        → scan_functions io b d (suc left) f h ≡ (
            if is_single f (reg regs b d f 0x0C) then (entry regs b d f ∷ [], after_all f h) else (
              entry regs b d f ∷ (scan_functions io b d left (f + 1) (after_all f h)).0,
              (scan_functions io b d left (f + 1) (after_all f h)).1,
            ))
    unfolding scan_functions
    scan-found left f h e y =
        let some_zero : (reg regs b d f 0x00 == 0xFFFF_FFFF) ≡ false = ground arith in
        rw (
          read_value b d f 0x00 h e,
          some_zero,
          read_value b d f 0x08 (after_id f h) (read_space b d f 0x00 h e),
          read_value b d f 0x0C _ (read_space b d f 0x08 _ (read_space b d f 0x00 h e)),
        )

    Lists-cons :
        (x : Device) (r r' : List Device × H) (l : List Device)
        → r ≡ (x ∷ r'.0, r'.1)
        → Lists r' l
        → Lists r (x ∷ l)
    Lists-cons x r r' l e h = rw e (ap (λ t. x ∷ t) h.0, h.1)

    listed-yes :
        (g : ℕ)
        → answers regs b d (suc g) ≡ true
        → has_one regs b d ≡ false
        → listed regs b d (suc g) ≡ entry regs b d (suc g) ∷ []
    listed-yes g y one = rw (y, one)

    listed-no : (g : ℕ) → answers regs b d (suc g) ≡ false → listed regs b d (suc g) ≡ []
    listed-no g n = rw n

    -- From function 1 on the loop lists every function that answers.
    scan_rest :
        (left g : ℕ) (h : H)
        → c.space h ≡ regs
        → has_one regs b d ≡ false
        → Lists (scan_functions io b d left (suc g) h) (listed_functions regs b d left (suc g))
    scan_rest zero g h e one = unfold scan_functions in (refl, e)
    scan_rest (suc left) g h e one = elim (Bool-cases (answers regs b d (suc g))) [
      | inl y ↦
          subst
            (λ l.
              Lists (scan_functions io b d (suc left) (suc g) h)
                (l ++ listed_functions regs b d left (suc (suc g))))
            (sym (listed-yes g y one))
            (Lists-cons (entry regs b d (suc g)) _ _ _
              (scan-found left (suc g) h e y
                ∙ rw (is_single-suc g (reg regs b d (suc g) 0x0C), add-one))
              (scan_rest left (suc g) (after_all (suc g) h) (after_all_space (suc g) h e) one))
      | inr n ↦
          subst
            (λ l.
              Lists (scan_functions io b d (suc left) (suc g) h)
                (l ++ listed_functions regs b d left (suc (suc g))))
            (sym (listed-no g n))
            (subst (λ r. Lists r (listed_functions regs b d left (suc (suc g))))
              (sym (scan-absent left (suc g) h e n ∙ rw add-one))
              (scan_rest left (suc g) (after_id (suc g) h) (read_space b d (suc g) 0x00 h e) one))
    ]

    -- A device whose function 0 is its only one lists nothing further.
    listed_functions_one :
        (left g : ℕ) → has_one regs b d ≡ true → listed_functions regs b d left (suc g) ≡ []
    listed_functions_one zero g one = refl
    listed_functions_one (suc left) g one =
        let none_here : listed regs b d (suc g) ≡ [] = ground arith in
        rw (none_here, listed_functions_one left (suc g) one)

    scan_device :
        (left : ℕ) (h : H)
        → c.space h ≡ regs
        → Lists (scan_functions io b d (suc left) 0 h) (listed_functions regs b d (suc left) 0)
    scan_device left h e =
        by_first (Bool-cases (answers regs b d 0)) (Bool-cases (is_single 0 (reg regs b d 0 0x0C)))
      where
        more : ℕ → List Device
        more = listed_functions regs b d left

        by_first :
            (answers regs b d 0 ≡ true) ⊎ (answers regs b d 0 ≡ false)
            → (is_single 0 (reg regs b d 0 0x0C) ≡ true)
              ⊎ (is_single 0 (reg regs b d 0 0x0C) ≡ false)
            → Lists (scan_functions io b d (suc left) 0 h) (listed_functions regs b d (suc left) 0)
        by_first (inr n) single =
            subst (λ l. Lists (scan_functions io b d (suc left) 0 h) (l ++ more 1))
              (let no_line : [] ≡ listed regs b d 0 = rw n in no_line)
              (subst (λ r. Lists r (more 1)) (sym (scan-absent left 0 h e n))
                (scan_rest left 0 (after_id 0 h) (read_space b d 0 0x00 h e) (rw n)))
        by_first (inl y) (inl single) =
            subst (λ l. Lists (scan_functions io b d (suc left) 0 h) (l ++ more 1))
              (let line : entry regs b d 0 ∷ [] ≡ listed regs b d 0 = rw y in line)
              (subst (λ l. Lists (scan_functions io b d (suc left) 0 h) (entry regs b d 0 ∷ l))
                (sym (
                  listed_functions_one left 0
                    (rw (y, sym (is_single-zero (reg regs b d 0 0x0C)) ∙ single))))
                (subst (λ r. Lists r (entry regs b d 0 ∷ []))
                  (sym (scan-found left 0 h e y ∙ rw single)) (refl, after_all_space 0 h e)))
        by_first (inl y) (inr multi) =
            subst (λ l. Lists (scan_functions io b d (suc left) 0 h) (l ++ more 1))
              (let line : entry regs b d 0 ∷ [] ≡ listed regs b d 0 = rw y in line)
              (Lists-cons (entry regs b d 0) _ _ _ (scan-found left 0 h e y ∙ rw multi) (
                scan_rest left 0 (after_all 0 h) (after_all_space 0 h e)
                  (rw (y, sym (is_single-zero (reg regs b d 0 0x0C)) ∙ multi))))

  Lists-append :
      (r r' q : List Device × H) (l l' : List Device)
      → q ≡ (r.0 ++ r'.0, r'.1)
      → Lists r l
      → Lists r' l'
      → Lists q (l ++ l')
  Lists-append r r' q l l' e h h' = rw e (ap₂ ◌++◌ h.0 h'.0, h'.1)

  scan_devices-Lists :
      (b left d : ℕ) (h : H)
      → c.space h ≡ regs
      → Lists (scan_devices io b left d h) (listed_devices regs b left d)
  unfolding scan_devices
  scan_devices-Lists b zero d h e = (refl, e)
  scan_devices-Lists b (suc left) d h e =
      let first = scan_device b d 7 h e in
      Lists-append _ _ _ _ _ refl first (scan_devices-Lists b left (d + 1) _ first.1)

  scan_buses-Lists :
      (left b : ℕ) (h : H)
      → c.space h ≡ regs
      → Lists (scan_buses io left b h) (listed_buses regs left b)
  unfolding scan_buses
  scan_buses-Lists zero b h e = (refl, e)
  scan_buses-Lists (suc left) b h e =
      let first = scan_devices-Lists b 32 0 h e in
      Lists-append _ _ _ _ _ refl first (scan_buses-Lists left (b + 1) _ first.1)

-- On documented configuration hardware `enumerate_pci` lists, bus by bus and device by device, each
-- function whose first register is not all ones, in order, except that a device whose function 0
-- answers and has bit 7 of its header type clear is listed by function 0 alone. It changes no
-- register.
pub enumerate_pci_lem :
    {H : Type 0} (io : Ports H) (c : ConfigSpace io) (h : H)
    → ((enumerate_pci io h).0 ≡ listed_buses (c.space h) 256 0)
      × (c.space (enumerate_pci io h).1 ≡ c.space h)
unfolding enumerate_pci
enumerate_pci_lem io c h = scan_buses-Lists io c (c.space h) 256 0 h refl
