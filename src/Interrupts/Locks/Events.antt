-- ===== src/Interrupts/Locks/Events.antt =====
-- What happens on the processor after the boot: the interrupts of kernel/src/interrupts.rs, and what
-- threads do with the lock of SCHEDULER of kernel/src/scheduler.rs.
use rix_os.Base.{ℕ, ◌+◌, ◌≡◌, refl, ◌≢◌, true, false, Option, List, [], ◌∷◌, done}
use rix_os.Io.{Ports}
use rix_os.PhysMemory.{Addresses, Offset}
use rix_os.Machine
use rix_os.Process.{ProcessTable}
use rix_os.Apic.{Chips}
use rix_os.Console.{Raster, NotoFontDisplay}
use rix_os.Interrupts.{InterruptIndex, timer, keyboard, lapic_error, spurious}
use rix_os.Interrupts.Locks.{Shared, with_others, handled, attempt}

-- What happens next: an interrupt, or the current thread takes the lock of SCHEDULER, gives it back,
-- or changes what is not SCHEDULER's.
pub data Event : Type 0 where
  irq : InterruptIndex → Event
  takes gives : Event
  changes :
      ProcessTable → (next_tid : ℕ) → Machine.Memory → (console : Option NotoFontDisplay) → Event

-- How many of these events are the timer's interrupts.
unfoldable pub timers : List Event → ℕ
timers [] = 0
timers (irq timer ∷ es) = timers es + 1
timers (irq keyboard ∷ es) = timers es
timers (irq lapic_error ∷ es) = timers es
timers (irq spurious ∷ es) = timers es
timers (takes ∷ es) = timers es
timers (gives ∷ es) = timers es
timers (changes table next_tid memory console ∷ es) = timers es

pub timers_other :
    (i : InterruptIndex) (es : List Event) → i ≢ timer → timers (irq i ∷ es) ≡ timers es
unfolding timers
timers_other timer es ne = absurd (ne refl)
timers_other keyboard es ne = refl
timers_other lapic_error es ne = refl
timers_other spurious es ne = refl

pub timers_first : (es : List Event) → timers (irq timer ∷ es) ≡ timers es + 1
unfolding timers
timers_first es = refl

pub timers_takes : (es : List Event) → timers (takes ∷ es) ≡ timers es
unfolding timers
timers_takes es = refl

pub timers_gives : (es : List Event) → timers (gives ∷ es) ≡ timers es
unfolding timers
timers_gives es = refl

pub timers_changes :
    (table : ProcessTable) (next_tid : ℕ) (memory : Machine.Memory)
    (console : Option NotoFontDisplay) (es : List Event)
    → timers (changes table next_tid memory console ∷ es) ≡ timers es
unfolding timers
timers_changes table next_tid memory console es = refl

pub timers_none : timers [] ≡ 0
unfolding timers
timers_none = refl

module _ {C E L H : Type 0} (chips : Chips C E L) (io : Ports H) (x : Addresses) (o : Offset)
    (get_raster : (char font_weight raster_height : ℕ) → Option Raster) where
  -- These events, one after the other, and each interrupt returns.
  pub data Plays : List Event → Shared C L H → Shared C L H → Type 0 where
    none_left : {s : Shared C L H} → Plays [] s s
    interrupted :
        (pieces : List (List ℕ)) {i : InterruptIndex} {es : List Event} {s s' s'' : Shared C L H}
        → attempt chips io x o get_raster pieces i s ≡ done (handled s')
        → Plays es s' s''
        → Plays (irq i ∷ es) s s''
    taken :
        {es : List Event} {s s' : Shared C L H}
        → Plays es (record s { held = true }) s'
        → Plays (takes ∷ es) s s'
    given :
        {es : List Event} {s s' : Shared C L H}
        → Plays es (record s { held = false }) s'
        → Plays (gives ∷ es) s s'
    changed :
        (table : ProcessTable) (next_tid : ℕ) (memory : Machine.Memory)
        (console : Option NotoFontDisplay) {es : List Event} {s s' : Shared C L H}
        → Plays es (with_others table next_tid memory console s) s'
        → Plays (changes table next_tid memory console ∷ es) s s'
