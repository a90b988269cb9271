-- ===== src/AllocTest/Freed.antt =====
-- The blocks of `alloc_pass` and `free_pass` of kernel/src/memory/mod.rs.
use rix_os.Base.{
  ℕ, zero, suc, ◌+◌, ◌-◌, ◌%◌, ◌^◌, ◌<◌, ◌≡◌, refl, sym, ap, ap₂, subst, ◌∙◌, some, List, [], ◌∷◌,
  ◌++◌, ◌==◌, if◌then◌else◌, length, inl, inr, Bool-cases, replicate, length-replicate, u8, u64,
  Exec, done, ◌>>=◌, get_elem?, arith, All, ==_refl, map,
}
use mathlib.Core.List.{append_assoc, append-nil}
use rix_os.AllocTest.{remove, assert_eq, alloc_loop, alloc_pass, free_item, free_items, free_pass}

-- A block of `suc n` bytes `d`, shorter than 2 ^ 64.
abbrev pub IsFilled : (d : ℕ) → List ℕ → Type 0
IsFilled d b = (n : ℕ) × (suc n < 2 ^ 64) × (b ≡ replicate (suc n) d)

-- The items at odd places.
abbrev pub odds {ℓ} : {A : Type ℓ} → List A → List A
odds [] = []
odds (x ∷ []) = []
odds (x ∷ y ∷ xs) = y ∷ odds xs

module _ {A : Type 0} where
  odds-snoc :
      (xs : List A) (b : A)
      → odds (xs ++ b ∷ []) ≡ odds xs ++ (if length xs % 2 == 0 then [] else b ∷ [])
  odds-snoc [] b = refl
  odds-snoc (x ∷ []) b = refl
  odds-snoc (x ∷ y ∷ xs) b =
      let p : suc (suc (length xs)) % 2 ≡ length xs % 2 = omega arith in
      rw p (ap (λ l. y ∷ l) (odds-snoc xs b))

  snoc_view :
      (xs : List A) (j : ℕ)
      → length xs ≡ suc j
      → (ys : List A) × (b : A) × (xs ≡ ys ++ b ∷ []) × (length ys ≡ j)
  snoc_view [] j e = absurd (omega arith)
  snoc_view (x ∷ []) j e = ([], x, refl, omega arith)
  snoc_view (x ∷ y ∷ xs) zero e = absurd (omega arith)
  snoc_view (x ∷ y ∷ xs) (suc j) e =
      let r = snoc_view (y ∷ xs) j (omega arith) in
      (x ∷ r.0, r.1, ap (λ l. x ∷ l) r.2, omega (arith, r.3))

  remove_last :
      (xs : List A) (b : A) (ys : List A) → remove ((xs ++ b ∷ []) ++ ys) (length xs) ≡ xs ++ ys
  remove_last [] b ys = refl
  remove_last (x ∷ xs) b ys = ap (λ l. x ∷ l) (remove_last xs b ys)

  get_last :
      (xs : List A) (b : A) (ys : List A) → get_elem? ((xs ++ b ∷ []) ++ ys) (length xs) ≡ some b
  get_last [] b ys = refl
  get_last (x ∷ xs) b ys = get_last xs b ys

  All-snoc : (P : A → Type 0) (xs : List A) (b : A) → All P (xs ++ b ∷ []) → All P xs × P b
  All-snoc P [] b a = (tt, a.0)
  All-snoc P (x ∷ xs) b a = let r = All-snoc P xs b a.1 in ((a.0, r.0), r.1)

get_replicate : (n i d : ℕ) → i < n → get_elem? (replicate n d) i ≡ some d
get_replicate zero i d l = absurd (omega arith)
get_replicate (suc n) zero d l = refl
get_replicate (suc n) (suc i) d l = get_replicate n i d (omega arith)

assert_same : {A : Type 0} (d : ℕ) (r : Exec A) → (assert_eq d d >>= λ ok. r) ≡ r
assert_same d r = rw (==_refl d) refl

free_item-eq :
    (xs : List (List ℕ)) (b : List ℕ) (ys : List (List ℕ)) (d : ℕ)
    → IsFilled d b
    → free_item (length xs) ((xs ++ b ∷ []) ++ ys) d
      ≡ done (xs ++ ((if length xs % 2 == 0 then [] else b ∷ []) ++ ys))
unfolding free_item
free_item-eq xs b ys d (n, l, e) = elim (Bool-cases (length xs % 2 == 0)) [
  | inr odd ↦ rw odd (ap done (append_assoc xs (b ∷ []) ys))
  | inl even ↦
      let last : u64 (length b + 2 ^ 64 - 1) ≡ n =
        omega (arith, ap length e, length-replicate n d) in
      let first : get_elem? b 0 ≡ some d = ap (λ b. get_elem? b 0) e in
      let at : get_elem? b n ≡ some d =
        ap (λ b. get_elem? b n) e ∙ get_replicate (suc n) n d (omega arith) in
      rw (even, get_last xs b ys, first, ==_refl d, last, at, remove_last xs b ys) (assert_same d _)
]

free_items-eq :
    (j : ℕ) (xs ys : List (List ℕ)) (d : ℕ)
    → length xs ≡ j
    → All (IsFilled d) xs
    → free_items j (xs ++ ys) d ≡ done (odds xs ++ ys)
unfolding free_items
free_items-eq zero [] ys d e a = refl
free_items-eq zero (x ∷ xs) ys d e a = absurd (omega arith)
free_items-eq (suc j) xs ys d e a =
    let (zs, b, same, len) = snoc_view xs j e in
    let (az, ab) = All-snoc (IsFilled d) zs b (subst (All (IsFilled d)) same a) in
    let kept = if length zs % 2 == 0 then [] else b ∷ [] in
    let step : free_item j ((zs ++ b ∷ []) ++ ys) d ≡ done (zs ++ (kept ++ ys)) =
      subst (λ i. free_item i ((zs ++ b ∷ []) ++ ys) d ≡ done (zs ++ (kept ++ ys))) len
        (free_item-eq zs b ys d ab) in
    rw (same, step)
      (free_items-eq j zs (kept ++ ys) d len az
        ∙ ap done (sym (append_assoc (odds zs) kept ys) ∙ ap (λ l. l ++ ys) (sym (odds-snoc zs b))))

free_pass-odds :
    (items : List (List ℕ)) (d : ℕ) → All (IsFilled d) items → free_pass items d ≡ done (odds items)
unfolding free_pass
free_pass-odds items d a =
    ap (λ l. free_items (length items) l d) (sym (append-nil items))
    ∙ free_items-eq (length items) items [] d refl a
    ∙ ap done (append-nil (odds items))

-- The bases of the 15 blocks.
abbrev pub bases : List ℕ
bases =
    32 ∷ 64 ∷ 128 ∷ 256 ∷ 512 ∷ 1024 ∷ 2048 ∷ 4096 ∷ 8192 ∷ 16384 ∷ 32768 ∷ 65536 ∷ 131072 ∷ 262144
    ∷ 524288 ∷ []

block : (delta base : ℕ) → List ℕ
block delta base = replicate (u64 (base + delta)) (u8 (delta % 256))

alloc_pass-eq : (delta : ℕ) → alloc_pass delta ≡ some (map (block delta) bases)
unfolding alloc_pass alloc_loop block
alloc_pass-eq delta = refl

block-IsFilled :
    (delta base : ℕ)
    → 0 < base
    → base < 2 ^ 20
    → delta < 2 ^ 63
    → IsFilled (u8 delta) (block delta base)
unfolding block
block-IsFilled delta base p q l =
    let size : u64 (base + delta) ≡ suc (base + delta - 1) = omega arith in
    let value : u8 (delta % 256) ≡ u8 delta = omega arith in
    (base + delta - 1, omega arith, ap₂ replicate size value)

blocks-IsFilled :
    (delta : ℕ) (l : List ℕ)
    → delta < 2 ^ 63
    → All (λ base. (0 < base) × (base < 2 ^ 20)) l
    → All (IsFilled (u8 delta)) (map (block delta) l)
blocks-IsFilled delta [] h a = tt
blocks-IsFilled delta (base ∷ l) h a =
    (block-IsFilled delta base a.0.0 a.0.1 h, blocks-IsFilled delta l h a.1)

bases_small : All (λ base. (0 < base) × (base < 2 ^ 20)) bases
bases_small = (
  (omega arith, omega arith),
  (
    (omega arith, omega arith),
    (
      (omega arith, omega arith),
      (
        (omega arith, omega arith),
        (
          (omega arith, omega arith),
          (
            (omega arith, omega arith),
            (
              (omega arith, omega arith),
              (
                (omega arith, omega arith),
                (
                  (omega arith, omega arith),
                  (
                    (omega arith, omega arith),
                    (
                      (omega arith, omega arith),
                      (
                        (omega arith, omega arith),
                        (
                          (omega arith, omega arith),
                          ((omega arith, omega arith), ((omega arith, omega arith), tt)),
                        ),
                      ),
                    ),
                  ),
                ),
              ),
            ),
          ),
        ),
      ),
    ),
  ),
)

-- For a delta below 2 ^ 63: alloc_pass ends, in its 15th round at the latest, with 15 blocks of at
-- least one byte, all bytes the low byte of delta; and free_pass of these with that byte passes its
-- assertions and leaves exactly the blocks at odd places.
pub free_pass-alloc_pass :
    (delta : ℕ)
    → delta < 2 ^ 63
    → (items : List (List ℕ)) × (alloc_pass delta ≡ some items)
      × (length items ≡ 15)
      × All (IsFilled (u8 delta)) items
      × (free_pass items (u8 delta) ≡ done (odds items))
free_pass-alloc_pass delta h =
    let a = blocks-IsFilled delta bases h bases_small in
    (map (block delta) bases, alloc_pass-eq delta, refl, a, free_pass-odds _ (u8 delta) a)
