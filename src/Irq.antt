-- ===== src/Irq.antt =====
-- include/shirley/irq.hpp and kernel/interrupt/irq.cpp: the handlers of interrupt requests. The interrupt
-- controller and the vectors of the processor are the record `Machine`, over their state `M`.
pub mod Wired
pub mod Serve
mod Tests
use shirleys_os.Prelude.{
  ℕ, zero, suc, ◌+◌, ◌%◌, Bool, true, false, not, ◌||◌, ◌&&◌, ◌==◌, ltb, leb, if◌then◌else◌, Option,
  none, some, update, u64_mod,
}

abbrev pub max_irq_count : ℕ
max_irq_count = 256

-- `~0u`, of include/shirley/platform.hpp.
abbrev pub demultiplexed_vector : ℕ
demultiplexed_vector = 0xffffffff

-- The handler that `hook` installs is the trampoline, which dispatches the request it is given.
pub record Machine (M : Type 0) : Type 0 where
  pub irq_vector : ℕ → ℕ
  pub spurious : M → ℕ → Bool × M
  pub hook : M → ℕ → ℕ → Bool × M
  pub unhook : M → ℕ → M
  pub enable : M → ℕ → M
  pub disable : M → ℕ → M
  pub end_of_interrupt : M → ℕ → M

-- `handler` names a function of a driver, `none` is the null pointer.
pub record IrqEntry : Type 0 where
  pub handler : Option ℕ
  pub context : ℕ
  pub irq : ℕ
  pub taken : Bool
  pub dispatches : ℕ

abbrev pub no_entry : IrqEntry
no_entry = record { handler = none; context = 0; irq = 0; taken = false; dispatches = 0 }

pub record Irqs (M : Type 0) : Type 0 where
  pub entries : ℕ → IrqEntry
  pub machine : M

unfoldable pub initialize : {M : Type 0} → Irqs M → Irqs M
initialize s = record s { entries = λ i. no_entry }

unfoldable pub registered : {M : Type 0} → Irqs M → ℕ → Bool
registered s irq = ltb irq max_irq_count && (s.entries irq).taken

unfoldable pub dispatch_count : {M : Type 0} → Irqs M → ℕ → ℕ
dispatch_count s irq = if ltb irq max_irq_count then (s.entries irq).dispatches else 0

module _ {M : Type 0} (m : Machine M) where
  -- `vector != demultiplexed_vector && !register_interrupt_handler(...)`, with what the call leaves.
  unfoldable pub unhookable : M → ℕ → Bool × M
  unhookable machine irq =
      let (hooked, machine') = m.hook machine (m.irq_vector irq) irq in
      if m.irq_vector irq == demultiplexed_vector then (false, machine) else (not hooked, machine')

  unfoldable pub request : Irqs M → ℕ → Option ℕ → ℕ → Bool × Irqs M
  unfolding unhookable
  request s irq handler context = if leb max_irq_count irq then (false, s) else elim handler [
    | none ↦ (false, s)
    | some h ↦
        if (s.entries irq).taken
        then (false, s)
        else let (failed, machine) = unhookable s.machine irq in
          if failed
          then (false, record { entries = update s.entries irq no_entry; machine = machine })
          else (
            true,
            record {
              entries = update s.entries irq (record {
                handler = some h;
                context = context;
                irq = irq;
                taken = true;
                dispatches = 0;
              });
              machine = m.enable machine irq;
            },
          )
  ]

  unfoldable pub release : Irqs M → ℕ → Irqs M
  release s irq =
      if leb max_irq_count irq
      then s
      else if not (s.entries irq).taken
      then s
      else let masked = m.disable s.machine irq in
        record {
          entries = update s.entries irq no_entry;
          machine =
              if m.irq_vector irq == demultiplexed_vector
              then masked
              else m.unhook masked (m.irq_vector irq);
        }

  -- `run` is the call of a driver's handler, which may request and release as well.
  module _ (run : ℕ → ℕ → ℕ → Irqs M → Irqs M) where
    unfoldable pub handle : Irqs M → ℕ → Irqs M
    handle s irq =
        let e = s.entries irq in
        let counted = record s {
          entries = update s.entries irq (record e { dispatches = (e.dispatches + 1) % u64_mod });
        } in
        if not e.taken
        then counted
        else elim e.handler [ none ↦ counted | some h ↦ run h irq e.context counted ]

    unfoldable pub dispatch : Irqs M → ℕ → Irqs M
    unfolding handle
    dispatch s irq =
        let (ghost, machine) = m.spurious s.machine irq in
        if ghost
        then record s { machine = machine }
        else let handled =
            if ltb irq max_irq_count
            then handle (record s { machine = machine }) irq
            else record s { machine = machine } in
          record handled { machine = m.end_of_interrupt handled.machine irq }
