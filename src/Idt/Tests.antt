-- ===== src/Idt/Tests.antt =====
-- The interrupt table with one gate.
use arc_monark.Base.{ℕ, ◌+◌, ◌*◌, ◌%◌, ◌^◌, ◌<◌, refl, ◌≢◌, List, arith, replicate}
use arc_monark.Idt.{IdtEntry, gate, idt_init}
use arc_monark.Idt.Exceptions.{exceptions_install, LeadsTo, idt_init-LeadsTo}

abbrev gates : List IdtEntry
gates = replicate 256 (gate 0 0)

-- the handlers every 16 bytes
handler_at : ℕ → ℕ
handler_at v = (0x80001000 + v * 16) % 2 ^ 64

handler_at_lt : (v : ℕ) → handler_at v < 2 ^ 64
unfolding handler_at
handler_at_lt v = omega arith

idt_init-LeadsTo_example :
    LeadsTo (idt_init (exceptions_install handler_at) 0x80002000 gates) 14 0x80002000
    × ((v : ℕ)
        → v < 32
        → v ≢ 14
        → LeadsTo (idt_init (exceptions_install handler_at) 0x80002000 gates) v (handler_at v))
idt_init-LeadsTo_example =
    idt_init-LeadsTo handler_at 0x80002000 gates (λ v. handler_at_lt v) (omega arith) refl
