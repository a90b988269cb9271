-- ===== src/Kernel/Create/Keeps.antt =====
-- `create_process` and the invariant.
use Prim.Native.String.{String}
use rix_os.Base.{
  ℕ, ◌+◌, ◌^◌, ◌<◌, ◌≤◌, refl, ◌≡◌, sym, ap, subst, ◌∙◌, ◌≢◌, ◌⊎◌, inl, inr, true, none, some,
  some_eq, [], ◌∷◌, ◌==◌, ==_refl, arith, length, get_elem?, Bool-cases, get_elem?-append_left,
  get_elem?-append_last, lt-of_get_elem?, Option-cases, length-append,
}
use rix_os.Scheduler.{ThreadControlBlock, ready}
use rix_os.Scheduler.Exit.{UniqueTids}
use rix_os.Scheduler.Steps.{add_thread-IsValid}
use rix_os.Context.Switch.{Holds}
use rix_os.Scheduler as Scheduler
use rix_os.Thread as Thread
use rix_os.Thread.{kernel_stack_size}
use rix_os.Thread.Fresh.{fresh_frame, IsFresh, new-IsFresh}
use rix_os.Process
use rix_os.Process.{ProcessControlBlock}
use rix_os.Kernel.{Kernel, Supply, create_process}
use rix_os.Kernel.Consistent.{has, ThreadAt, HasProcess, IsOwned, IsPresent, IsConsistent}
use rix_os.Kernel.Create.{
  HasRoom, main_thread, main_process, created, create_process-eq, get-created, next_pid-created,
  threads-created, thread-created, new_tid, new_pid, new_state,
}

module _ (x : Supply) (name : String) (entry_fn : ℕ) (k : Kernel) (c : IsConsistent k)
    (room : HasRoom k) where
  -- The new id is that of no process yet.
  pub fresh_pid : Process.get k.table.next_pid k.table ≡ none
  fresh_pid = elim (Option-cases (Process.get k.table.next_pid k.table)) [
    | inl e ↦ e
    | inr (pcb, e) ↦ absurd (not_below (c.pids_below k.table.next_pid pcb e))
  ]
    where
      not_below : k.table.next_pid < k.table.next_pid → ⊥
      not_below l = omega arith

  next_tid-created : (created x name entry_fn k).next_tid ≡ k.next_tid + 1
  unfolding created
  next_tid-created = omega (arith, room.tids)

  next_pid_grows : (created x name entry_fn k).table.next_pid ≡ k.table.next_pid + 1
  next_pid_grows = omega (arith, next_pid-created x name entry_fn k, room.pids)

  old_process :
      (p : ℕ) (q : ProcessControlBlock)
      → HasProcess k p q
      → Process.get p (created x name entry_fn k).table ≡ some q
  old_process p q e = get-created x name entry_fn k p ∙ ground (arith, c.pids_below p q e)

  new_process_at :
      Process.get k.table.next_pid (created x name entry_fn k).table
      ≡ some (main_process x name entry_fn k)
  new_process_at = get-created x name entry_fn k k.table.next_pid ∙ rw (==_refl k.table.next_pid)

  -- A process of the new kernel is one of the old kernel or the new one.
  process_cases :
      (p : ℕ) (q : ProcessControlBlock)
      → Process.get p (created x name entry_fn k).table ≡ some q
      → HasProcess k p q ⊎ ((p ≡ k.table.next_pid) × (q ≡ main_process x name entry_fn k))
  process_cases p q e = elim (Bool-cases (k.table.next_pid == p)) [
    | inl same ↦ inr (ground arith, some_eq (sym e ∙ get-created x name entry_fn k p ∙ rw same))
    | inr other ↦ inl ((sym (get-created x name entry_fn k p ∙ rw other)) ∙ e)
  ]

  old_place :
      (i : ℕ) (t : ThreadControlBlock)
      → ThreadAt k i t
      → get_elem? (created x name entry_fn k).sched.threads i ≡ some t
  old_place i t at =
      ap (λ l. get_elem? l i) (threads-created x name entry_fn k)
      ∙ get_elem?-append_left k.sched.threads (main_thread x name entry_fn k ∷ []) i
          (lt-of_get_elem? k.sched.threads i at)
      ∙ at

  new_place :
      get_elem? (created x name entry_fn k).sched.threads (length k.sched.threads)
      ≡ some (main_thread x name entry_fn k)
  new_place =
      ap (λ l. get_elem? l (length k.sched.threads)) (threads-created x name entry_fn k)
      ∙ get_elem?-append_last k.sched.threads (main_thread x name entry_fn k)

  created-UniqueTids : UniqueTids (created x name entry_fn k).sched.threads
  created-UniqueTids i j t u at au same =
      by_cases (thread-created x name entry_fn k i t at) (thread-created x name entry_fn k j u au)
    where
      below : (l : ℕ) (v : ThreadControlBlock) → ThreadAt k l v → v.tid ≢ k.next_tid
      below l v av e = clash (c.tids_below l v av) e
        where
          clash : {a b : ℕ} → a < b → a ≡ b → ⊥
          clash less eq = omega arith

      by_cases :
          ThreadAt k i t ⊎ ((i ≡ length k.sched.threads) × (t ≡ main_thread x name entry_fn k))
          → ThreadAt k j u ⊎ ((j ≡ length k.sched.threads) × (u ≡ main_thread x name entry_fn k))
          → i ≡ j
      by_cases (inl old) (inl old') = c.unique i j t u old old' same
      by_cases (inl old) (inr (place, new)) = absurd (
          below i t old
            (same ∙ ap (λ (v : ThreadControlBlock). v.tid) new ∙ (new_tid x name entry_fn k)))
      by_cases (inr (place, new)) (inl old) = absurd (
          below j u old
            (sym same ∙ ap (λ (v : ThreadControlBlock). v.tid) new ∙ (new_tid x name entry_fn k)))
      by_cases (inr (place, new)) (inr (place', new')) = place ∙ sym place'

  old-IsOwned : (t : ThreadControlBlock) → IsOwned k t → IsOwned (created x name entry_fn k) t
  old-IsOwned t o = record {
    owner = o.owner;
    in_table = old_process t.pid o.owner o.in_table;
    listed = o.listed;
  }

  new-IsOwned : IsOwned (created x name entry_fn k) (main_thread x name entry_fn k)
  new-IsOwned = record {
    owner = main_process x name entry_fn k;
    in_table =
        ap (λ p. Process.get p (created x name entry_fn k).table) (new_pid x name entry_fn k)
        ∙ new_process_at;
    listed = rw ((new_tid x name entry_fn k), ==_refl k.next_tid);
  }

  old-IsPresent : (p tid : ℕ) → IsPresent k p tid → IsPresent (created x name entry_fn k) p tid
  old-IsPresent p tid h = record {
    place = h.place;
    thread = h.thread;
    at = old_place h.place h.thread h.at;
    same_tid = h.same_tid;
    same_pid = h.same_pid;
  }

  new-IsPresent :
      (tid : ℕ)
      → has tid (main_process x name entry_fn k).threads ≡ true
      → IsPresent (created x name entry_fn k) k.table.next_pid tid
  new-IsPresent tid h = record {
    place = length k.sched.threads;
    thread = main_thread x name entry_fn k;
    at = new_place;
    same_tid = (new_tid x name entry_fn k) ∙ ground arith;
    same_pid = (new_pid x name entry_fn k);
  }

  created-IsConsistent : IsConsistent (created x name entry_fn k)
  created-IsConsistent = record {
    valid =
        unfold created in
        add_thread-IsValid k.sched (main_thread x name entry_fn k) c.valid
          (λ e. ground (arith, new_state x name entry_fn k)) room.threads;
    unique = created-UniqueTids;
    tids_below = λ i t at. elim (thread-created x name entry_fn k i t at) [
      | inl old ↦ omega (arith, c.tids_below i t old, next_tid-created)
      | inr (place, new) ↦ omega (
        arith,
        ap (λ (v : ThreadControlBlock). v.tid) new,
        (new_tid x name entry_fn k),
        next_tid-created,
      )
    ];
    pids_below = λ p q at. elim (process_cases p q at) [
      | inl old ↦ omega (arith, c.pids_below p q old, next_pid_grows)
      | inr (same, new) ↦ omega (arith, next_pid_grows)
    ];
    keyed = λ p q at. elim (process_cases p q at) [
      | inl old ↦ c.keyed p q old
      | inr (same, new) ↦ ap (λ (v : ProcessControlBlock). v.pid) new ∙ sym same
    ];
    owned = λ i t at. elim (thread-created x name entry_fn k i t at) [
      | inl old ↦ old-IsOwned t (c.owned i t old)
      | inr (place, new) ↦ subst (IsOwned (created x name entry_fn k)) (sym new) new-IsOwned
    ];
    present = λ p tid q at h. elim (process_cases p q at) [
      | inl old ↦ old-IsPresent p tid (c.present p tid q old h)
      | inr (same, new) ↦
          subst (λ j. IsPresent (created x name entry_fn k) j tid) (sym same)
            (new-IsPresent tid (ap (λ (v : ProcessControlBlock). has tid v.threads) (sym new) ∙ h))
    ];
  }

-- `create_process` keeps a consistent kernel consistent, if the counters do not wrap and the list of
-- threads has room.
pub create_process-IsConsistent :
    (x : Supply) (name : String) (entry_fn : ℕ) (k : Kernel)
    → IsConsistent k
    → HasRoom k
    → IsConsistent (create_process x name entry_fn k).0
create_process-IsConsistent x name entry_fn k c room =
    rw (create_process-eq x name entry_fn k) (created-IsConsistent x name entry_fn k c room)

-- What `create_process` leads to: `pid` is returned.
pub record HasCreated (x : Supply) (name : String) (entry_fn : ℕ) (k k' : Kernel) (pid : ℕ)
    : Type 0 where
  pub was_free : Process.get pid k.table ≡ none
  pub process : HasProcess k' pid (main_process x name entry_fn k)
  pub other_processes : (p : ℕ) → p ≢ pid → Process.get p k'.table ≡ Process.get p k.table
  pub thread :
      get_elem? k'.sched.threads (length k.sched.threads) ≡ some (main_thread x name entry_fn k)
  pub belongs : (main_thread x name entry_fn k).pid ≡ pid
  pub is_ready : (main_thread x name entry_fn k).state ≡ ready
  pub other_threads :
      (i : ℕ) (t : ThreadControlBlock) → ThreadAt k i t → get_elem? k'.sched.threads i ≡ some t
  pub no_more : length k'.sched.threads ≡ length k.sched.threads + 1
  pub same_current : k'.sched.current ≡ k.sched.current
  pub next_tid : k'.next_tid ≡ k.next_tid + 1
  pub next_pid : k'.table.next_pid ≡ pid + 1
  pub frame :
      Holds k'.memory
        (main_thread x name entry_fn k).context.rsp
        (fresh_frame x.trampoline entry_fn)
  pub elsewhere :
      (a : ℕ) → (a < x.stack) ⊎ (x.stack + kernel_stack_size ≤ a) → k'.memory a ≡ k.memory a

fresh_main :
    (x : Supply) (name : String) (entry_fn : ℕ) (k : Kernel)
    → x.stack + kernel_stack_size < 2 ^ 64
    → IsFresh x.trampoline k.table.next_pid entry_fn x.stack k.memory k.next_tid
        (Thread.new x.trampoline k.table.next_pid entry_fn x.stack k.memory k.next_tid)
fresh_main x name entry_fn k =
    new-IsFresh x.trampoline k.table.next_pid entry_fn x.stack k.memory k.next_tid

-- In a consistent kernel with room `create_process` returns the id of no process so far, enters a
-- process under it that lists one thread, adds that thread, Ready, behind the others, and counts
-- both ids. Its stack, which does not end past the address space, holds the starting frame; and no
-- other process, no other thread, not the current one and no memory outside that stack is changed.
pub create_process_lem :
    (x : Supply) (name : String) (entry_fn : ℕ) (k : Kernel)
    → IsConsistent k
    → HasRoom k
    → x.stack + kernel_stack_size < 2 ^ 64
    → HasCreated x name entry_fn k
        (create_process x name entry_fn k).0
        (create_process x name entry_fn k).1
create_process_lem x name entry_fn k c room high =
    rw (create_process-eq x name entry_fn k) (record {
      was_free = fresh_pid x name entry_fn k c room;
      process = new_process_at x name entry_fn k c room;
      other_processes = λ p ne. get-created x name entry_fn k p ∙ ground arith;
      thread = new_place x name entry_fn k c room;
      belongs = new_pid x name entry_fn k;
      is_ready = new_state x name entry_fn k;
      other_threads = old_place x name entry_fn k c room;
      no_more =
          ap length (threads-created x name entry_fn k)
          ∙ length-append k.sched.threads (main_thread x name entry_fn k ∷ [])
          ∙ omega arith;
      same_current = unfold created Scheduler.add_thread in refl;
      next_tid = unfold created in omega (arith, room.tids);
      next_pid = omega (arith, next_pid-created x name entry_fn k, room.pids);
      frame = unfold created in (fresh_main x name entry_fn k high).frame;
      elsewhere = unfold created in (fresh_main x name entry_fn k high).elsewhere;
    })
