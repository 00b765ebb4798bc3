-- ===== src/Idt/Gate.antt =====
-- The entries of the table in src/cpu/idt.c, as the processor reads them.
use arc_monark.Base.{
  ℕ, ◌+◌, ◌*◌, ◌/◌, ◌^◌, ◌<◌, ◌≡◌, refl, sym, subst, ◌≢◌, List, arith, length, get_or, set,
  get_or-set_self, get_or-set_ne,
}
use arc_monark.Base.Masks.{bit_and-ones}
use arc_monark.Idt.{IdtEntry, idt_entries, gate, idt_set_gate}

-- the address that the processor puts together from the three parts
abbrev pub target : IdtEntry → ℕ
target e = e.offset_low + e.offset_mid * 2 ^ 16 + e.offset_high * 2 ^ 32

abbrev empty : IdtEntry
empty = record {
  offset_low = 0;
  selector = 0;
  ist = 0;
  type_attr = 0;
  offset_mid = 0;
  offset_high = 0;
  reserved = 0;
}

abbrev pub entry : List IdtEntry → ℕ → IdtEntry
entry idt vec = get_or idt vec empty

-- The entry is a gate to the handler as the processor wants it: of the type in the flags, in the
-- kernel's code segment, on the stack that is in use, with the reserved bits 0.
abbrev pub IsGate : IdtEntry → ℕ → ℕ → Type 0
IsGate e handler flags =
    (target e ≡ handler)
    × (e.type_attr ≡ flags)
    × (e.selector ≡ 0x28)
    × (e.ist ≡ 0)
    × (e.reserved ≡ 0)

target-gate : (handler flags : ℕ) → handler < 2 ^ 64 → target (gate handler flags) ≡ handler
unfolding gate
target-gate handler flags lt = omega (
  arith,
  bit_and-ones 16 handler,
  bit_and-ones 16 (handler / 65536),
  bit_and-ones 32 (handler / 4294967296),
)

-- After `idt_set_gate` the processor finds a gate to the handler with the flags at that vector, and
-- every other vector as it was.
pub idt_set_gate-target :
    (idt : List IdtEntry) (vec handler flags : ℕ)
    → length idt ≡ idt_entries
    → vec < 256
    → handler < 2 ^ 64
    → IsGate (entry (idt_set_gate vec handler flags idt) vec) handler flags
      × ((v : ℕ) → vec ≢ v → entry (idt_set_gate vec handler flags idt) v ≡ entry idt v)
unfolding idt_set_gate gate
idt_set_gate-target idt vec handler flags size lt fits =
    let now : entry (set idt vec (gate handler flags)) vec ≡ gate handler flags =
      get_or-set_self idt vec (gate handler flags) empty (omega (arith, size)) in
    (
      subst (λ e. IsGate e handler flags) (sym now)
          (target-gate handler flags fits, refl, refl, refl, refl),
      λ v ne. get_or-set_ne idt vec v (gate handler flags) empty ne,
    )
