-- ===== src/Tasks/Suspended.antt =====
-- What the memory holds of the threads that do not run.
use rix_os.Base.{ℕ, ◌+◌, ◌^◌, ◌<◌, ◌≤◌, ◌≡◌, ◌≢◌, ◌⊎◌, ◌==◌, if◌then◌else◌, length, ◌∙◌, arith}
use rix_os.Machine.{Memory}
use rix_os.Context.Switch.{Frame, Holds}
use rix_os.Context.Resume.{Outside, Holds-agree}
use rix_os.Scheduler.Ready.{IsValid}
use rix_os.Tasks.{Layout, Machine}

-- A suspended thread as its own code knows it: the registers that a call keeps, the address it goes
-- on at, and its stack pointer there.
pub record Task : Type 0 where
  pub frame : Frame
  pub sp : ℕ

-- The suspended threads by their places.
abbrev pub Tasks : Type 0
Tasks = ℕ → Task

abbrev pub suspend : ℕ → Task → Tasks → Tasks
suspend i t ts k = if k == i then t else ts k

pub suspend_self : (i : ℕ) (t : Task) (ts : Tasks) → suspend i t ts i ≡ t
suspend_self i t ts = ground arith

pub suspend_ne : (i k : ℕ) (t : Task) (ts : Tasks) → k ≢ i → suspend i t ts k ≡ ts k
suspend_ne i k t ts h = ground arith

-- The stacks of `n` threads and the words of their contexts do not overlap.
pub record IsApart (l : Layout) (n : ℕ) : Type 0 where
  pub bounded : (i : ℕ) → i < n → l.high i < 2 ^ 64
  pub stacks : (i j : ℕ) → i < n → j < n → i ≢ j → (l.high i ≤ l.low j) ⊎ (l.high j ≤ l.low i)
  pub contexts : (i j : ℕ) → i < n → j < n → i ≢ j → l.context i ≢ l.context j
  pub outside : (i j : ℕ) → i < n → j < n → Outside (l.context i) (l.low j) (l.high j)

-- The memory holds the thread at place `i`: its frame on its own stack, under its stack pointer, and
-- the address of the frame in its context.
pub record Keeps (l : Layout) (m : Memory) (i : ℕ) (t : Task) : Type 0 where
  pub at : ℕ
  pub pointer : m (l.context i) ≡ at
  pub held : Holds m at t.frame
  pub above : l.low i ≤ at
  pub below : at + 56 ≤ l.high i
  pub stack_pointer : t.sp ≡ at + 56

-- A valid scheduler, and every thread but the current one suspended in memory.
pub record Suspends (l : Layout) (s : Machine) (ts : Tasks) : Type 0 where
  pub valid : IsValid s.sched
  pub apart : IsApart l (length s.sched.threads)
  pub kept :
      (i : ℕ) → i < length s.sched.threads → i ≢ s.sched.current → Keeps l s.cpu.memory i (ts i)

-- Two memories that agree on the stack of the thread at place `i` and on its context.
pub record Agrees (l : Layout) (m m' : Memory) (i : ℕ) : Type 0 where
  pub same_context : m' (l.context i) ≡ m (l.context i)
  pub same_stack : (x : ℕ) → l.low i ≤ x → x < l.high i → m' x ≡ m x

pub Holds-Agrees :
    {l : Layout} {m m' : Memory} {i : ℕ} {t : Task}
    → Agrees l m m' i
    → (k : Keeps l m i t) → Holds m' k.at t.frame
Holds-Agrees a k =
    Holds-agree (λ x p q. a.same_stack x (omega (arith, k.above)) (omega (arith, k.below))) k.held

pub Keeps-agree :
    {l : Layout} {m m' : Memory} {i : ℕ} {t : Task}
    → Agrees l m m' i
    → Keeps l m i t
    → Keeps l m' i t
Keeps-agree a k = record {
  at = k.at;
  pointer = a.same_context ∙ k.pointer;
  held = Holds-Agrees a k;
  above = k.above;
  below = k.below;
  stack_pointer = k.stack_pointer;
}
