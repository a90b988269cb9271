-- ===== src/Interrupts/Locks/Fair.antt =====
-- How many timer interrupts of kernel/src/interrupts.rs a Ready thread waits, with threads that take
-- the lock of SCHEDULER of kernel/src/scheduler.rs in between.
use rix_os.Base.{
  ℕ, ◌+◌, ◌-◌, ◌≤◌, ◌≡◌, refl, subst, ap, ◌∙◌, ◌≢◌, ◌⊎◌, inl, inr, Bool, true, false, Option, some,
  List, [], ◌∷◌, ◌++◌, arith, length, get_elem?, done,
}
use rix_os.Io.{Ports}
use rix_os.PhysMemory.{Addresses, Offset}
use rix_os.Kernel.{Kernel}
use rix_os.Scheduler as Scheduler
use rix_os.Scheduler.{ready, running}
use rix_os.Scheduler.Ready.{state_at, gap}
use rix_os.Scheduler.Nearer.{lt_of_state_at, gap_bounds, tick-Approaches}
use rix_os.Scheduler.Switch.{identity}
use rix_os.Scheduler.Steps.{tick-identity}
use rix_os.Apic.{Chips}
use rix_os.Console.{Raster}
use rix_os.Interrupts.{timer}
use rix_os.Interrupts.Locks.{Shared, with_others}
use rix_os.Interrupts.Locks.Live.{IsLive, HasServed, attempt_lem}
use rix_os.Interrupts.Locks.Events.{
  Event, irq, takes, gives, changes, timers, timers_other, timers_first, timers_takes, timers_gives,
  timers_changes, timers_none, Plays, none_left, interrupted, taken, given, changed,
}

module _ {C E L H : Type 0} (chips : Chips C E L) (io : Ports H) (x : Addresses) (o : Offset)
    (get_raster : (char font_weight raster_height : ℕ) → Option Raster) where
  -- The first of these events happen. Behind them place `j` is current and Running, or the lock is
  -- held and the timer is next, which then spins.
  pub record RunsSoon (j : ℕ) (es : List Event) (s : Shared C L H) : Type 0 where
    pub before : List Event
    pub left : List Event
    pub split : before ++ left ≡ es
    pub after : Shared C L H
    pub plays : Plays chips io x o get_raster before s after
    pub same :
        identity (get_elem? after.system.kernel.sched.threads j)
        ≡ identity (get_elem? s.system.kernel.sched.threads j)
    pub ends :
        ((after.system.kernel.sched.current ≡ j)
          × (state_at after.system.kernel.sched j ≡ some running))
        ⊎ ((after.held ≡ true) × (rest : List Event) × (left ≡ irq timer ∷ rest))

  abbrev Waits : ℕ → Shared C L H → Type 0
  Waits j s = (state_at s.system.kernel.sched j ≡ some ready) × (j ≢ s.system.kernel.sched.current)

  -- An event in front.
  RunsSoon-first :
      (j : ℕ) (e : Event) (es : List Event) (s s' : Shared C L H)
      → ((before : List Event) (after : Shared C L H)
          → Plays chips io x o get_raster before s' after
          → Plays chips io x o get_raster (e ∷ before) s after)
      → identity (get_elem? s'.system.kernel.sched.threads j)
        ≡ identity (get_elem? s.system.kernel.sched.threads j)
      → RunsSoon j es s'
      → RunsSoon j (e ∷ es) s
  RunsSoon-first j e es s s' play same w = record {
    before = e ∷ w.before;
    left = w.left;
    split = ap (λ fs. e ∷ fs) w.split;
    after = w.after;
    plays = play w.before w.after w.plays;
    same = w.same ∙ same;
    ends = w.ends;
  }

  abbrev distance : ℕ → Shared C L H → ℕ
  distance j s = gap (length s.system.kernel.sched.threads) s.system.kernel.sched.current j

  gap_of :
      (j : ℕ) (s : Shared C L H)
      → IsLive chips io x o get_raster s
      → Waits j s
      → (1 ≤ distance j s) × (distance j s ≤ length s.system.kernel.sched.threads - 1)
  gap_of j s w (r, ne) =
      let lt = lt_of_state_at s.system.kernel.sched j r in
      let (lo, hi) =
        gap_bounds (length s.system.kernel.sched.threads) s.system.kernel.sched.current j
          w.valid.in_range lt ne in
      (omega (arith, lo), omega (arith, hi))

  held-IsLive :
      (held : Bool) (s : Shared C L H)
      → IsLive chips io x o get_raster s
      → IsLive chips io x o get_raster (record s { held = held })
  held-IsLive held s w = record {
    local = w.local;
    chip = w.chip;
    has_chip = w.has_chip;
    has_local = w.has_local;
    valid = w.valid;
  }

  served_soon :
      (pieces : List (List ℕ)) (j : ℕ) (es : List Event) (s : Shared C L H)
      → IsLive chips io x o get_raster s
      → Waits j s
      → distance j s ≤ timers es
      → RunsSoon j es s
  served_soon pieces j [] s w waits le =
      let (lo, hi) = gap_of j s w waits in absurd (omega (arith, lo, timers_none))
  served_soon pieces j (takes ∷ es) s w waits le =
      RunsSoon-first j takes es s _ (λ before after. taken) refl
        (served_soon pieces j es (record s { held = true }) (held-IsLive true s w) waits
          (subst (λ n. distance j s ≤ n) (timers_takes es) le))
  served_soon pieces j (gives ∷ es) s w waits le =
      RunsSoon-first j gives es s _ (λ before after. given) refl
        (served_soon pieces j es (record s { held = false }) (held-IsLive false s w) waits
          (subst (λ n. distance j s ≤ n) (timers_gives es) le))
  served_soon pieces j (changes table next_tid memory console ∷ es) s w waits le =
      RunsSoon-first j (changes table next_tid memory console) es s _
        (λ before after. changed table next_tid memory console) refl
        (served_soon pieces j es (with_others table next_tid memory console s)
          (record {
            local = w.local;
            chip = w.chip;
            has_chip = w.has_chip;
            has_local = w.has_local;
            valid = w.valid;
          })
          waits
          (subst (λ n. distance j s ≤ n) (timers_changes table next_tid memory console es) le))
  served_soon pieces j (irq i ∷ es) s w (r, ne) le =
      elim (attempt_lem chips io x o get_raster pieces i s.system s.held w) [
        | inl (t, h, s', e) ↦ record {
          before = [];
          left = irq i ∷ es;
          split = refl;
          after = s;
          plays = none_left;
          same = refl;
          ends = inr (h, es, ap (λ k. irq k ∷ es) t);
        }
        | inr (why, s', e, f) ↦
            RunsSoon-first j (irq i) es s s' (λ before after. interrupted pieces e)
              (kept s' f.kernel) (by_kernel s' f (served_soon pieces j es s'))
      ]
    where
      kept :
          (s' : Shared C L H)
          → ((i ≡ timer)
              × (Scheduler.tick s.system.kernel.sched ≡ done s'.system.kernel.sched)
              × (s'.system.kernel ≡ record s.system.kernel { sched = s'.system.kernel.sched }))
            ⊎ ((i ≢ timer) × (s'.system.kernel ≡ s.system.kernel))
          → identity (get_elem? s'.system.kernel.sched.threads j)
            ≡ identity (get_elem? s.system.kernel.sched.threads j)
      kept s' (inl (t, e, others)) =
          tick-identity s.system.kernel.sched s'.system.kernel.sched w.valid e j
      kept s' (inr (other, e)) = ap (λ (k : Kernel). identity (get_elem? k.sched.threads j)) e

      by_kernel :
          (s' : Shared C L H)
          → HasServed chips io x o get_raster i s s'
          → (IsLive chips io x o get_raster s'
              → Waits j s'
              → distance j s' ≤ timers es
              → RunsSoon j es s')
          → RunsSoon j es s'
      by_kernel s' f ih = go f.kernel
        where
          go :
              ((i ≡ timer)
                  × (Scheduler.tick s.system.kernel.sched ≡ done s'.system.kernel.sched)
                  × (s'.system.kernel ≡ record s.system.kernel { sched = s'.system.kernel.sched }))
                ⊎ ((i ≢ timer) × (s'.system.kernel ≡ s.system.kernel))
              → RunsSoon j es s'
          go (inl (t, e, others)) =
              elim (tick-Approaches s.system.kernel.sched s'.system.kernel.sched j w.valid r ne e) [
                | inl (at, runs) ↦ record {
                  before = [];
                  left = es;
                  split = refl;
                  after = s';
                  plays = none_left;
                  same = refl;
                  ends = inl (at, runs);
                }
                | inr near ↦
                    let count : timers (irq i ∷ es) ≡ timers es + 1 = rw t (timers_first es) in
                    ih f.live (near.still_ready, near.not_current)
                      (omega (arith, near.nearer, count, le))
              ]
          go (inr (other, e)) =
              ih f.live (rw e r, rw e ne) (rw e (omega (arith, timers_other i es other, le)))

  -- In a live system, in any run of at least n - 1 timer interrupts, n being the number of threads,
  -- with other interrupts and steps of the threads between them, a Ready thread that is not the
  -- current one is current and Running at some point, or the lock is held at one where the timer
  -- is next; and no interrupt before panics, halts or spins.
  pub ready-RunsSoon :
      (pieces : List (List ℕ)) (j : ℕ) (es : List Event) (s : Shared C L H)
      → IsLive chips io x o get_raster s
      → state_at s.system.kernel.sched j ≡ some ready
      → j ≢ s.system.kernel.sched.current
      → length s.system.kernel.sched.threads - 1 ≤ timers es
      → RunsSoon j es s
  ready-RunsSoon pieces j es s w r ne le =
      let (lo, hi) = gap_of j s w (r, ne) in
      served_soon pieces j es s w (r, ne) (omega (arith, hi, le))
