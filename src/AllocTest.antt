-- ===== src/AllocTest.antt =====
-- kernel/src/memory/mod.rs: the test of the allocator, `alloc_test`.
pub mod Freed
use rix_os.Base.{
  ℕ, zero, suc, ◌+◌, ◌-◌, ◌*◌, ◌%◌, ◌^◌, Option, none, some, List, [], ◌∷◌, ◌++◌, true, ◌==◌, leb,
  if◌then◌else◌, length, replicate, u8, u64, Exec, done, panic, ◌>>=◌, index, unwrap,
}

-- `Vec::remove` on an index in range
abbrev pub remove {ℓ} : {A : Type ℓ} → List A → ℕ → List A
remove [] j = []
remove (x ∷ xs) zero = xs
remove (x ∷ xs) (suc j) = x ∷ remove xs j

-- `assert_eq!`
abbrev pub assert_eq : (a b : ℕ) → Exec (Unit {0})
assert_eq a b = if a == b then done tt else panic

-- Put an item in front, if there is a list.
abbrev pub push_front {ℓ} : {A : Type ℓ} → A → Option (List A) → Option (List A)
push_front a none = none
push_front a (some l) = some (a ∷ l)

-- The loop of `alloc_pass` at `base`, for at most `fuel` rounds.
unfoldable pub alloc_loop : (fuel delta base : ℕ) → Option (List (List ℕ))
alloc_loop zero delta base = none
alloc_loop (suc fuel) delta base =
    let a = replicate (u64 (base + delta)) (u8 (delta % 256)) in
    let rest = alloc_loop fuel delta (u64 (base * 2)) in
    if leb (512 * 1024) base then some (a ∷ []) else push_front a rest

-- The base doubles from 32, and is 512 * 1024 in the 15th round.
unfoldable pub alloc_pass : (delta : ℕ) → Option (List (List ℕ))
alloc_pass delta = alloc_loop 15 delta 32

-- The body of the loop of `free_pass`.
unfoldable pub free_item : (j : ℕ) → List (List ℕ) → (delta : ℕ) → Exec (List (List ℕ))
free_item j items delta =
    if j % 2 == 0
    then (do
      ret ← index items j
      first ← index ret 0
      ok ← assert_eq delta first
      last ← index ret (u64 (length ret + 2 ^ 64 - 1))
      ok ← assert_eq delta last
      done (remove items j))
    else done items

-- The loop, from `total - 1` down.
unfoldable pub free_items : (j : ℕ) → List (List ℕ) → (delta : ℕ) → Exec (List (List ℕ))
free_items zero items delta = done items
free_items (suc j) items delta = do items ← free_item j items delta; free_items j items delta

unfoldable pub free_pass : List (List ℕ) → (delta : ℕ) → Exec (List (List ℕ))
free_pass items delta = free_items (length items) items delta

-- The loop of `alloc_test`, with `left` rounds to go.
unfoldable pub test_loop : (left i : ℕ) → (pool : List (List ℕ)) → Exec (List (List ℕ))
test_loop zero i pool = done pool
test_loop (suc left) i pool = do
  items ← unwrap (alloc_pass i)
  items ← free_pass items (u8 i)
  test_loop left (suc i) (pool ++ items)

-- `alloc_test`: the pool at its end. `append` leaves `items` empty, which it asserts.
unfoldable pub alloc_test : Exec (List (List ℕ))
alloc_test = test_loop 8 0 []
