-- ===== src/Base/Irq.antt =====
-- include/irqlock.h: the interrupt flag, saved and cleared, then put back.
use mathlib.Core.Bool.{Bool, false}

-- The flags register, as far as the kernel reads it: is the interrupt flag set?
abbrev pub Flags : Type 0
Flags = Bool

-- `pushfq; pop flags; cli`: the old flags, and the new ones.
abbrev pub irq_save : Flags → Flags × Flags
irq_save now = (now, false)

-- `push flags; popfq`: the flags now are lost.
abbrev pub irq_restore : Flags → Flags → Flags
irq_restore saved now = saved
