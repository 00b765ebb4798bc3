-- ===== src/Pic.antt =====
-- src/cpu/pic.c and include/pic.h: the two interrupt controllers. `Pic.Mask` is about their masks.
pub mod Mask
mod Tests
use arc_monark.Base.{ℕ, ◌-◌, List, ◌∷◌, ltb, leb, if◌then◌else◌}
use arc_monark.Pmm.{set_bit, clear_bit, test_bit}

abbrev pub pic1_command : ℕ
pic1_command = 0x20

abbrev pub pic2_command : ℕ
pic2_command = 0xA0

abbrev pub pic_eoi : ℕ
pic_eoi = 0x20

-- a byte written to a port: the port, and the byte
abbrev pub PortWrite : Type 0
PortWrite = ℕ × ℕ

-- the writes of `pic_send_eoi`, the last one in front, before those that were made earlier
pub pic_send_eoi : ℕ → List PortWrite → List PortWrite
pic_send_eoi irq writes =
    (pic1_command, pic_eoi) ∷ (if leb 8 irq then (pic2_command, pic_eoi) ∷ writes else writes)

-- The mask registers, which are what a read of the data port gives and a write to it sets.
pub record Masks : Type 0 where
  pub pic1_data : ℕ
  pub pic2_data : ℕ

-- `inb(port) | (1 << irq)`, as a byte
pub irq_set_mask : ℕ → Masks → Masks
irq_set_mask irq m =
    if ltb irq 8
    then record m { pic1_data = set_bit m.pic1_data irq }
    else record m { pic2_data = set_bit m.pic2_data (irq - 8) }

-- `inb(port) & ~(1 << irq)`, as a byte
pub irq_clear_mask : ℕ → Masks → Masks
irq_clear_mask irq m =
    if ltb irq 8
    then record m { pic1_data = clear_bit m.pic1_data irq }
    else record m { pic2_data = clear_bit m.pic2_data (irq - 8) }

-- `pic_remap`, as far as the masks: both are all ones
pub pic_remap : Masks → Masks
pic_remap m = record { pic1_data = 0xFF; pic2_data = 0xFF }
