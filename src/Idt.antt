-- ===== src/Idt.antt =====
-- src/cpu/idt.c and include/idt.h: the table of interrupt gates. `Idt.Gate` is about its entries.
pub mod Gate
pub mod Exceptions
mod Tests
use arc_monark.Base.{ℕ, ◌/◌, ◌^◌, bit_and, List, set}

abbrev pub idt_entries : ℕ
idt_entries = 256

abbrev pub kernel_cs : ℕ
kernel_cs = 0x28

abbrev pub idt_int_gate : ℕ
idt_int_gate = 0x8E

-- `struct idt_entry`
pub record IdtEntry : Type 0 where
  pub offset_low : ℕ
  pub selector : ℕ
  pub ist : ℕ
  pub type_attr : ℕ
  pub offset_mid : ℕ
  pub offset_high : ℕ
  pub reserved : ℕ

-- the entry that `idt_set_gate` writes
pub gate : ℕ → ℕ → IdtEntry
gate handler flags = record {
  offset_low = bit_and handler 0xFFFF;
  selector = kernel_cs;
  ist = 0;
  type_attr = flags;
  offset_mid = bit_and (handler / 2 ^ 16) 0xFFFF;
  offset_high = bit_and (handler / 2 ^ 32) 0xFFFFFFFF;
  reserved = 0;
}

-- The table has an entry for every value of a `uint8_t`.
unfoldable pub idt_set_gate : ℕ → ℕ → ℕ → List IdtEntry → List IdtEntry
idt_set_gate vec handler flags idt = set idt vec (gate handler flags)

-- `idt_init`, with the gates that `exceptions_install` sets as a function, and the address of
-- `page_fault`
unfoldable pub idt_init : (List IdtEntry → List IdtEntry) → ℕ → List IdtEntry → List IdtEntry
idt_init exceptions_install page_fault idt =
    idt_set_gate 14 page_fault idt_int_gate (exceptions_install idt)
