-- ===== src/Interrupts/Locks/Live.antt =====
-- A running system under the lock of SCHEDULER of kernel/src/scheduler.rs: how each interrupt of
-- kernel/src/interrupts.rs ends.
use rix_os.Base.{
  ℕ, ◌≡◌, ◌≢◌, refl, sym, subst, ap, ◌∙◌, ◌⊎◌, inl, inr, Bool, true, false, Option, some, List,
  done, done_eq, arith,
}
use rix_os.Io.{Ports}
use rix_os.PhysMemory.{Addresses, Offset}
use rix_os.Scheduler as Scheduler
use rix_os.Scheduler.{ThreadControlBlock, ready, add_thread, mark_exited}
use rix_os.Scheduler.Ready.{IsValid}
use rix_os.Scheduler.Exit.{mark_exited-IsValid}
use rix_os.Scheduler.Steps.{tick_ends, add_thread-IsValid}
use rix_os.Kernel.Tick.{tick-done}
use rix_os.Apic.{Chips, LApic, end_interrupts}
use rix_os.Console.{Raster}
use rix_os.Interrupts.{
  InterruptIndex, timer, keyboard, lapic_error, spurious, lookup, System, send_eoi, on_timer,
  on_keyboard, handle,
}
use rix_os.Interrupts.Delivery.{acknowledged, devices_after}
use rix_os.Interrupts.Locks.{
  Shared, Attempt, handled, stopped, spins, ThreadStep, takes, gives, adds, exits, changes, attempt,
  SharedReach, here, ran, served,
}

module _ {C E L H : Type 0} (chips : Chips C E L) (io : Ports H) (x : Addresses) (o : Offset)
    (get_raster : (char font_weight raster_height : ℕ) → Option Raster) where
  -- A local APIC that has been built, and a valid scheduler.
  pub record IsLive (s : Shared C L H) : Type 0 where
    pub local : L
    pub chip : LApic L
    pub has_chip : s.system.apics.local ≡ some chip
    pub has_local : chip.lapic ≡ some local
    pub valid : IsValid s.system.kernel.sched

  -- What a handler that returns has done.
  pub record HasServed (i : InterruptIndex) (s s' : Shared C L H) : Type 0 where
    pub live : IsLive s'
    pub same_held : s'.held ≡ s.held
    pub devices : s'.system.apics.devices ≡ devices_after chips io x o get_raster i s.system
    pub same_info : s'.system.shutdown_info ≡ s.system.shutdown_info
    pub acknowledges :
        (a : LApic L) (l : L)
        → s.system.apics.local ≡ some a
        → a.lapic ≡ some l
        → (a' : LApic L) × (s'.system.apics.local ≡ some a')
          × (a'.lapic ≡ some (acknowledged chips io x o get_raster i l))
    pub kernel :
        ((i ≡ timer)
          × (Scheduler.tick s.system.kernel.sched ≡ done s'.system.kernel.sched)
          × (s'.system.kernel ≡ record s.system.kernel { sched = s'.system.kernel.sched }))
        ⊎ ((i ≢ timer) × (s'.system.kernel ≡ s.system.kernel))

  -- How an interrupt ends: the timer's spins if the lock is held, and any other one is served.
  abbrev pub AttemptEnds : (pieces : List (List ℕ)) → InterruptIndex → Shared C L H → Type 0
  AttemptEnds pieces i s =
      ((i ≡ timer)
        × (s.held ≡ true)
        × (s' : Shared C L H) × (attempt chips io x o get_raster pieces i s ≡ done (spins s')))
      ⊎ (((i ≢ timer) ⊎ (s.held ≡ false))
          × (s' : Shared C L H) × (attempt chips io x o get_raster pieces i s ≡ done (handled s'))
          × HasServed i s s')

  same_local :
      (c a : LApic L) (m l : L) → some c ≡ some a → c.lapic ≡ some m → a.lapic ≡ some l → m ≡ l
  same_local c a m l e f g = cc

  pub attempt_lem :
      (pieces : List (List ℕ)) (i : InterruptIndex) (system : System C L H) (held : Bool)
      → IsLive (record { system = system; held = held })
      → AttemptEnds pieces i (record { system = system; held = held })
  unfolding attempt handle lookup send_eoi on_timer on_keyboard end_interrupts
  attempt_lem pieces timer s true w = rw (w.has_chip, w.has_local) (inl (refl, refl, _, refl))
  attempt_lem pieces timer s false w =
      let (sched, e, v, how) = tick_ends s.kernel.sched w.valid in
      rw (w.has_chip, w.has_local, tick-done s.kernel sched e)
        (inr (
          inr refl,
          _,
          refl,
          record {
            live = record { local = _; chip = _; has_chip = refl; has_local = refl; valid = v };
            same_held = refl;
            devices = refl;
            same_info = refl;
            acknowledges = λ a l e f. (
              _,
              refl,
              ap (λ (q : L). some (acknowledged chips io x o get_raster timer q))
                  (same_local _ a w.local l e refl f),
            );
            kernel = inl (refl, e, refl);
          },
        ))
  attempt_lem pieces keyboard s held w =
      rw (w.has_chip, w.has_local)
        (inr (
          inl (λ e. cc),
          _,
          refl,
          record {
            live = record {
              local = _;
              chip = _;
              has_chip = refl;
              has_local = refl;
              valid = w.valid;
            };
            same_held = refl;
            devices = refl;
            same_info = refl;
            acknowledges = λ a l e f. (
              _,
              refl,
              ap (λ (q : L). some (acknowledged chips io x o get_raster keyboard q))
                  (same_local _ a w.local l e refl f),
            );
            kernel = inr ((λ e. cc), refl);
          },
        ))
  attempt_lem pieces lapic_error s held w =
      rw (w.has_chip, w.has_local)
        (inr (
          inl (λ e. cc),
          _,
          refl,
          record {
            live = record {
              local = _;
              chip = _;
              has_chip = refl;
              has_local = refl;
              valid = w.valid;
            };
            same_held = refl;
            devices = refl;
            same_info = refl;
            acknowledges = λ a l e f. (
              _,
              refl,
              ap (λ (q : L). some (acknowledged chips io x o get_raster lapic_error q))
                  (same_local _ a w.local l e refl f),
            );
            kernel = inr ((λ e. cc), refl);
          },
        ))
  attempt_lem pieces spurious s held w = inr (
    inl (λ e. cc),
    _,
    refl,
    record {
      live = w;
      same_held = refl;
      devices = refl;
      same_info = refl;
      acknowledges = λ a l e f. (a, e, f);
      kernel = inr ((λ e. cc), refl);
    },
  )

  -- What a thread does keeps the local APIC, the scheduler's validity and what the power-off has
  -- found.
  ThreadStep-IsLive :
      {s s' : Shared C L H}
      → ThreadStep s s'
      → IsLive s
      → IsLive s' × (s'.system.shutdown_info ≡ s.system.shutdown_info)
  ThreadStep-IsLive (takes h) w = (
    record {
      local = w.local;
      chip = w.chip;
      has_chip = w.has_chip;
      has_local = w.has_local;
      valid = w.valid;
    },
    refl,
  )
  ThreadStep-IsLive (gives h) w = (
    record {
      local = w.local;
      chip = w.chip;
      has_chip = w.has_chip;
      has_local = w.has_local;
      valid = w.valid;
    },
    refl,
  )
  ThreadStep-IsLive {s} (adds tcb h is_ready room) w = (
    record {
      local = w.local;
      chip = w.chip;
      has_chip = w.has_chip;
      has_local = w.has_local;
      valid = add_thread-IsValid s.system.kernel.sched tcb w.valid (ground (arith, is_ready)) room;
    },
    refl,
  )
  ThreadStep-IsLive (exits tid h) w = (
    record {
      local = w.local;
      chip = w.chip;
      has_chip = w.has_chip;
      has_local = w.has_local;
      valid = mark_exited-IsValid tid w.valid;
    },
    refl,
  )
  ThreadStep-IsLive (changes table next_tid memory console) w = (
    record {
      local = w.local;
      chip = w.chip;
      has_chip = w.has_chip;
      has_local = w.has_local;
      valid = w.valid;
    },
    refl,
  )

  abbrev after_attempt : Attempt (Shared C L H) → Shared C L H
  after_attempt (handled s) = s
  after_attempt (stopped s) = s
  after_attempt (spins s) = s

  handled≢spins : {s t : Shared C L H} → handled s ≡ spins t → ⊥
  handled≢spins e = cc

  -- An interrupt that returned is served.
  pub handled-HasServed :
      (pieces : List (List ℕ)) (i : InterruptIndex) (s s' : Shared C L H)
      → IsLive s
      → attempt chips io x o get_raster pieces i s ≡ done (handled s')
      → HasServed i s s'
  handled-HasServed pieces i s s' w e = elim (attempt_lem pieces i s.system s.held w) [
    | inl (t, h, s'', e') ↦ absurd (handled≢spins (done_eq (sym e ∙ e')))
    | inr (why, s'', e', f) ↦ subst (HasServed i s) (ap after_attempt (done_eq (sym e' ∙ e))) f
  ]

  pub SharedReach-IsLive :
      {s s' : Shared C L H}
      → IsLive s
      → SharedReach chips io x o get_raster s s'
      → IsLive s' × (s'.system.shutdown_info ≡ s.system.shutdown_info)
  SharedReach-IsLive w here = (w, refl)
  SharedReach-IsLive w (ran r st) =
      let (w', same) = SharedReach-IsLive w r in
      let (w'', same') = ThreadStep-IsLive st w' in (w'', same' ∙ same)
  SharedReach-IsLive w (served pieces i {s'} {s''} r e) =
      let (w', same) = SharedReach-IsLive w r in
      let f = handled-HasServed pieces i s' s'' w' e in (f.live, f.same_info ∙ same)
