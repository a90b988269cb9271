-- ===== src/Startup/Greets.antt =====
-- The rest of `kernel_main` of kernel/src/main.rs: the text, the logo and the allocator's test.
use rix_os.Base.{ℕ, zero, suc, ◌+◌, ◌≤◌, ◌≡◌, refl, List, [], ◌++◌, arith, done}
use rix_os.Console as Console
use rix_os.Console.{draw_string}
use rix_os.Machine
use rix_os.AllocTest.{alloc_test, test_loop}
use rix_os.AllocTest.Freed.{odds, free_pass-alloc_pass}

-- Each round of the allocator's test returns.
test_loop-done :
    (left i : ℕ) (pool : List (List ℕ))
    → i + left ≤ 8
    → (pool' : List (List ℕ)) × (test_loop left i pool ≡ done pool')
unfolding test_loop
test_loop-done zero i pool h = (pool, refl)
test_loop-done (suc left) i pool h =
    let (items, made, n, filled, freed) = free_pass-alloc_pass i (omega arith) in
    let (pool', e) = test_loop-done left (suc i) (pool ++ odds items) (omega arith) in
    (pool', rw (made, freed) e)

pub alloc_test-done : (pool : List (List ℕ)) × (alloc_test ≡ done pool)
unfolding alloc_test
alloc_test-done = test_loop-done 8 0 [] (omega arith)
